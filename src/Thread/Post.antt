-- ===== src/Thread/Post.antt =====
-- thread::async of src/thread.cpp: posting a task to the input queue of a thread, which other
-- threads post to at the same time and the thread itself empties. The interleaving is explicit: one
-- step is one atomic operation of one thread.
use boost_cmt.Base.{
  ℕ, ◌≡◌, refl, subst, List, [], ◌∷◌, Option, none, some, arith, Bool, true, false, same_ptr,
  if◌then◌else◌, Bool-cases, inl, inr,
}
use boost_cmt.Base.Links.{put, Chain, Absent, Distinct, Chain-put, Chain-cons}

-- `task_in_queue`, the `next` field of every task, and `stale_head` of every call of `async`, under
-- the task that it posts.
pub record Inbox : Type 0 where
  pub task_in_queue : Option ℕ
  pub next : ℕ → Option ℕ
  pub stale_head : ℕ → Option ℕ

-- task_in_queue.load
unfoldable pub load_head : Inbox → ℕ → Inbox
load_head b t = record b { stale_head = put b.stale_head t b.task_in_queue }

-- `t->next = stale_head`, and a compare_exchange_weak that compares; whether it succeeds.
unfoldable pub compare_exchange : Inbox → ℕ → Inbox × Bool
compare_exchange b t =
    let linked = record b { next = put b.next t (b.stale_head t) } in
    if same_ptr b.task_in_queue (b.stale_head t)
    then (record linked { task_in_queue = some t }, true)
    else (record linked { stale_head = put b.stale_head t b.task_in_queue }, false)

-- The same where the exchange fails for no reason, as compare_exchange_weak may.
unfoldable pub fail_spuriously : Inbox → ℕ → Inbox
fail_spuriously b t =
    let linked = record b { next = put b.next t (b.stale_head t) } in
    record linked { stale_head = put b.stale_head t b.task_in_queue }

-- task_in_queue.exchange( 0 ) of `dequeue`, with the pointer returned.
unfoldable pub take_all : Inbox → Inbox × Option ℕ
take_all b = (record b { task_in_queue = none }, b.task_in_queue)

-- The inbox with the tasks posted since it was last emptied, the latest first.
pub record Posting : Type 0 where
  pub inbox : Inbox
  pub posted : List ℕ

-- Any thread may do any of these at any time; a task that is in the queue is not posted again.
pub data Step (s : Posting) : Posting → Type 0 where
  loads : (t : ℕ) → Step s (record { inbox = load_head s.inbox t; posted = s.posted })
  posts :
      (t : ℕ)
      → Absent t s.posted
      → (compare_exchange s.inbox t).1 ≡ true
      → Step s (record { inbox = (compare_exchange s.inbox t).0; posted = t ∷ s.posted })
  retries :
      (t : ℕ)
      → Absent t s.posted
      → (compare_exchange s.inbox t).1 ≡ false
      → Step s (record { inbox = (compare_exchange s.inbox t).0; posted = s.posted })
  fails :
      (t : ℕ)
      → Absent t s.posted
      → Step s (record { inbox = fail_spuriously s.inbox t; posted = s.posted })
  takes : Step s (record { inbox = (take_all s.inbox).0; posted = [] })

pub data Reach (s : Posting) : Posting → Type 0 where
  here : Reach s s
  next : {t u : Posting} → Reach s t → Step t u → Reach s u

-- The links from `task_in_queue` lead through exactly the posted tasks, the latest first.
pub record Linked (s : Posting) : Type 0 where
  pub chain : Chain s.inbox.next s.inbox.task_in_queue s.posted
  pub distinct : Distinct s.posted

same_ptr-eq : (p q : Option ℕ) → same_ptr p q ≡ true → p ≡ q
same_ptr-eq none none e = refl
same_ptr-eq none (some b) e = absurd (ground arith)
same_ptr-eq (some a) none e = absurd (ground arith)
same_ptr-eq (some a) (some b) e = ground arith

posts-Linked :
    (s : Posting) (t : ℕ)
    → Linked s
    → Absent t s.posted
    → (compare_exchange s.inbox t).1 ≡ true
    → Linked (record { inbox = (compare_exchange s.inbox t).0; posted = t ∷ s.posted })
unfolding compare_exchange
posts-Linked s t l a e = elim (Bool-cases (same_ptr s.inbox.task_in_queue (s.inbox.stale_head t))) [
  | inr no_luck ↦ absurd (ground arith)
  | inl luck ↦
      let same = same_ptr-eq s.inbox.task_in_queue (s.inbox.stale_head t) luck in
      rw (luck, compare_exchange)
        (record {
          chain =
              Chain-cons s.inbox.next t (s.inbox.stale_head t) s.posted a
                (subst (λ p. Chain s.inbox.next p s.posted) same l.chain);
          distinct = (a, l.distinct);
        })
]

retries-Linked :
    (s : Posting) (t : ℕ)
    → Linked s
    → Absent t s.posted
    → (compare_exchange s.inbox t).1 ≡ false
    → Linked (record { inbox = (compare_exchange s.inbox t).0; posted = s.posted })
unfolding compare_exchange
retries-Linked s t l a e =
    elim (Bool-cases (same_ptr s.inbox.task_in_queue (s.inbox.stale_head t))) [
      | inl luck ↦ absurd (ground arith)
      | inr no_luck ↦
          rw (no_luck, compare_exchange)
            (record {
              chain =
                  Chain-put s.inbox.next t (s.inbox.stale_head t) s.inbox.task_in_queue s.posted a
                    l.chain;
              distinct = l.distinct;
            })
    ]

-- No atomic operation of a producer or of the consumer breaks the queue: a failed exchange may have
-- written the `next` field of a task, but only of one that is not in the queue, and a successful
-- one compared the head with the pointer that it had linked.
pub Step-Linked : {s u : Posting} → Step s u → Linked s → Linked u
unfolding load_head fail_spuriously take_all
Step-Linked (loads t) l = record { chain = l.chain; distinct = l.distinct }
Step-Linked {s} (posts t a e) l = posts-Linked s t l a e
Step-Linked {s} (retries t a e) l = retries-Linked s t l a e
Step-Linked {s} (fails t a) l = record {
  chain = Chain-put s.inbox.next t (s.inbox.stale_head t) s.inbox.task_in_queue s.posted a l.chain;
  distinct = l.distinct;
}
Step-Linked takes l = record { chain = refl; distinct = tt }

abbrev pub start : Posting
start = record {
  inbox = record { task_in_queue = none; next = λ t. none; stale_head = λ t. none };
  posted = [];
}

-- However the posting threads and the consumer interleave, what the consumer takes is the linked
-- list of exactly the tasks posted since it last took, each once, the latest first.
pub take_all-Linked :
    (s : Posting)
    → Reach start s
    → Chain s.inbox.next (take_all s.inbox).1 s.posted × Distinct s.posted
unfolding take_all
take_all-Linked s r = let l = reached r in (l.chain, l.distinct)
  where
    reached : {u : Posting} → Reach start u → Linked u
    reached here = record { chain = refl; distinct = tt }
    reached (next q st) = Step-Linked st (reached q)
