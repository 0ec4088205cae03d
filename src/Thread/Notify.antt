-- ===== src/Thread/Notify.antt =====
-- thread::notify of src/thread.cpp: the scan of the blocked list and of the sleep queue.
pub mod Unlink
pub mod Wake
use boost_cmt.Base.{
  ℕ, zero, suc, ◌+◌, ◌<◌, ◌≡◌, refl, List, [], ◌∷◌, ◌++◌, Option, none, some, arith, back, pop_back,
  set, get_elem?, length, same_ptr, if◌then◌else◌, Bool, true, false, ◌==◌, ltb,
}
use boost_cmt.Base.Links.{put}
use boost_cmt.StdHeap.{StdHeap}
use boost_cmt.Promise.{Promise, set_exception, set_value}
use boost_cmt.Error.{Exception}
use boost_cmt.Thread.State.{World, Contexts}
use boost_cmt.Thread.Ready.{ready_push_front}

-- The first index of the sleep queue whose context waits for `p`.
unfoldable pub sleep_index : (ℕ → Option ℕ) → ℕ → List ℕ → Option ℕ
sleep_index prom p [] = none
sleep_index prom p (c ∷ v) =
    let rest = sleep_index prom p v in
    if same_ptr (prom c) (some p) then some 0 else elim rest [ none ↦ none | some i ↦ some (i + 1) ]

-- `v[i] = v.back(); v.pop_back()`.
unfoldable pub replace_by_back : List ℕ → ℕ → List ℕ
replace_by_back v i = elim (back v) [ none ↦ v | some l ↦ pop_back (set v i l) ]

-- a->resume_time > b->resume_time
abbrev pub sleep_priority_less : (ℕ → ℕ) → ℕ → ℕ → Bool
sleep_priority_less resume_time a b = ltb (resume_time b) (resume_time a)

module _ {A : Type 0} where
  -- cmt_context::try_unblock: is the context `c` waiting for the promise `p`?
  unfoldable pub try_unblock : World A → ℕ → ℕ → Bool
  try_unblock w c p = same_ptr (some p) (w.prom c)

  unfoldable pub add_blocking_promise : World A → ℕ → ℕ → World A
  add_blocking_promise w c p = record w {
    contexts = record w.contexts { prom = put w.prom c (some p) };
  }

  unfoldable pub clear_blocking_promises : World A → ℕ → World A
  clear_blocking_promises w c = record w {
    contexts = record w.contexts { prom = put w.prom c none };
  }

  unfoldable pub add_to_blocked : World A → ℕ → World A
  add_to_blocked w c = record w {
    contexts = record w.contexts { next_blocked = put w.next_blocked c w.blocked };
    blocked = some c;
  }

  -- The first half of the unlinking: the pointer to `c` now skips it.
  unfoldable pub bypass : World A → ℕ → Option ℕ → World A
  bypass w c prev = elim prev [
    | some q ↦ record w {
      contexts = record w.contexts { next_blocked = put w.next_blocked q (w.next_blocked c) };
    }
    | none ↦ record w { blocked = w.next_blocked c }
  ]

  unfoldable pub unlink : World A → ℕ → Option ℕ → World A
  unfolding bypass
  unlink w c prev =
      let b = bypass w c prev in
      record b { contexts = record b.contexts { next_blocked = put b.next_blocked c none } }

  -- The body of the loop where `try_unblock` holds.
  unfoldable pub unblock : World A → ℕ → Option ℕ → World A
  unblock w c prev = ready_push_front (unlink w c prev) c

  -- `while( cur_blocked )`; `none` is returned only if the fuel runs out. After an unblocking the
  -- code reads `cur_blocked->next_blocked`, the field that it has just set to 0.
  unfoldable pub scan_blocked : ℕ → World A → ℕ → Option ℕ → Option ℕ → Option (World A)
  scan_blocked zero w p cur prev = none
  scan_blocked (suc f) w p none prev = some w
  scan_blocked (suc f) w p (some c) prev =
      let woken = unblock w c prev in
      let after = scan_blocked f woken p (woken.next_blocked c) prev in
      let rest = scan_blocked f w p (w.next_blocked c) (some c) in
      if try_unblock w c p then after else rest

  module _ (std : StdHeap) where
    unfoldable pub wake_sleeper : World A → ℕ → World A
    wake_sleeper w p = elim (sleep_index w.prom p w.sleep_pqueue) [
      | none ↦ w
      | some i ↦ elim (get_elem? w.sleep_pqueue i) [
        | none ↦ w
        | some c ↦ record w {
          contexts = record w.contexts { prom = put w.prom c none };
          sleep_pqueue =
              std.make_heap (sleep_priority_less w.resume_time) (replace_by_back w.sleep_pqueue i);
        }
      ]
    ]

    -- thread::notify on the thread itself.
    unfoldable pub notify : ℕ → World A → ℕ → Option (World A)
    notify fuel w p = elim (scan_blocked fuel w p w.blocked none) [
      | none ↦ none
      | some w' ↦ some (wake_sleeper w' p)
    ]

    -- promise_base::notify: on another thread the call is posted to that thread as a task.
    unfoldable pub notify_promise : ℕ → World A → ℕ → Option (World A)
    notify_promise fuel w p = elim (w.promises p).blocked_thread [
      | none ↦ some w
      | some t ↦
          let here = notify fuel w p in
          if t == w.self then here else some (record w { posted = (t, p) ∷ w.posted })
    ]

    -- promise<T>::set_exception and promise<T>::set_value, with the notification.
    unfoldable pub throw_into : ℕ → World A → ℕ → Exception → Option (World A)
    throw_into fuel w p e =
        let (q, notifies) = set_exception (w.promises p) e in
        let w' = record w { promises = put w.promises p q } in
        let notified = notify_promise fuel w' p in if notifies then notified else some w'

    unfoldable pub set_into : ℕ → World A → ℕ → A → Option (World A)
    set_into fuel w p v =
        let (q, notifies) = set_value (w.promises p) v in
        let w' = record w { promises = put w.promises p q } in
        let notified = notify_promise fuel w' p in if notifies then notified else some w'
