-- ===== src/Thread/Loop/Rest.antt =====
-- When the OS thread goes to sleep.
use boost_cmt.Base.{
  ℕ, zero, suc, ◌≡◌, ◌<◌, refl, sym, subst, ap, ◌∙◌, List, [], ◌∷◌, ◌++◌, Option, none, some,
  if◌then◌else◌, ◌==◌, length, ltb, leb, Perm, arith, length-perm, Bool-cases, inl, inr,
}
use boost_cmt.Base.Links.{Chain}
use boost_cmt.StdHeap.{StdHeap}
use boost_cmt.Thread.State.{World, Tasks, time_max}
use boost_cmt.Thread.Queue.{
  task_priority_less, place, enqueue, drain, refill, select, take_due, take_front, dequeue,
}
use boost_cmt.Thread.Queue.Select.{Queued, with_task}
use boost_cmt.Thread.Queue.Refill.{dequeue-keeps, held, place-tasks, pushed-perm, drain-Adds}
use boost_cmt.Thread.Loop.{
  Clock, Doing, exits, runs, jumps, sleeps, loops, block_wait, block_unless,
}

-- All these tasks are scheduled for a time after `now`.
abbrev pub AllLater : (ℕ → ℕ) → ℕ → List ℕ → Type 0
AllLater when now [] = Unit {0}
AllLater when now (p ∷ ps) = (now < when p) × AllLater when now ps

not_empty : (x : ℕ) (v : List ℕ) → ¬ (Perm [] (x ∷ v))
not_empty x v p = absurd (omega (arith, length-perm p))

module _ {A : Type 0} (std : StdHeap) where
  abbrev or_else : World A → Option (World A) → World A
  or_else w none = w
  or_else w (some v) = v

  -- No unscheduled task was queued, and none of the tasks `ps` is due.
  abbrev NoneDue : World A → ℕ → List ℕ → Type 0
  NoneDue w now ps = (w.task_pqueue ≡ []) × AllLater w.when now ps

  some_same : (w v : World A) → some w ≡ some v → w ≡ v
  some_same w v e = ap (or_else w) e

  place_later :
      (w : World A) (now c : ℕ) → (place std w now c).task_pqueue ≡ [] → NoneDue w now (c ∷ [])
  unfolding place
  place_later w now c e = elim (Bool-cases (ltb now (w.when c))) [
    | inl later ↦ (rw (later, place) at e, (ground arith, tt))
    | inr due ↦
        let pushed = pushed-perm std (task_priority_less w.tasks) w.task_pqueue c in
        absurd (
          not_empty c w.task_pqueue
            (subst (λ l. Perm l (c ∷ w.task_pqueue)) (rw (due, place) at e) pushed))
  ]

  enqueue_later :
      (f : ℕ) (w v : World A) (now : ℕ) (cur : Option ℕ) (ps : List ℕ)
      → Chain w.task_next cur ps
      → enqueue std f w now cur ≡ some v
      → v.task_pqueue ≡ []
      → NoneDue w now ps
  unfolding enqueue
  enqueue_later zero w v now cur ps h e n = absurd (ground arith)
  enqueue_later (suc f) w v now none [] h e n =
      (ap (λ (u : World A). u.task_pqueue) (some_same w v e) ∙ n, tt)
  enqueue_later (suc f) w v now (some t) [] h e n = absurd (ground arith)
  enqueue_later (suc f) w v now none (p ∷ ps) h e n = absurd (ground arith)
  enqueue_later (suc f) w v now (some t) (p ∷ ps) h e n =
      let same : t ≡ p = cc (h.0) in
      let kept = place-tasks std w now t in
      let links : Chain (place std w now t).task_next (w.task_next t) ps =
        subst (λ (k : Tasks). Chain k.task_next (w.task_next t) ps) (sym kept)
          (subst (λ x. Chain w.task_next (w.task_next x) ps) (sym same) h.1) in
      let (idle, rest) = enqueue_later f (place std w now t) v now (w.task_next t) ps links e n in
      let (before, first) = place_later w now t idle in
      (
        before,
        (
          subst (λ x. now < w.when x) same first.0,
          subst (λ (k : Tasks). AllLater k.when now ps) kept rest,
        ),
      )

  drain_later :
      (fuel : ℕ) (w v : World A) (now : ℕ) (cur : Option ℕ) (ps : List ℕ)
      → Chain w.task_next cur ps
      → drain std fuel w now cur ≡ some v
      → v.task_pqueue ≡ []
      → NoneDue w now ps
  unfolding drain
  drain_later fuel w v now none [] h e n =
      (ap (λ (u : World A). u.task_pqueue) (some_same _ v e) ∙ n, tt)
  drain_later fuel w v now none (p ∷ ps) h e n = absurd (ground arith)
  drain_later fuel w v now (some t) ps h e n =
      enqueue_later fuel (record w { task_in_queue = none }) v now (some t) ps h e n

  -- The choice finds no task only if no unscheduled one is queued.
  take_front-none : (w : World A) (v : List ℕ) → (take_front std w v).1 ≡ none → v ≡ []
  unfolding take_front
  take_front-none w [] e = refl
  take_front-none w (p ∷ v) e = absurd (ground arith)

  take_due_idle :
      (w : World A) (now : ℕ) (v : List ℕ) → (take_due std w now v).1 ≡ none → w.task_pqueue ≡ []
  unfolding take_due
  take_due_idle w now [] e = take_front-none w w.task_pqueue e
  take_due_idle w now (p ∷ v) e = elim (Bool-cases (leb (w.when p) now)) [
    | inl due ↦ absurd (ground arith)
    | inr held ↦ take_front-none w w.task_pqueue (rw (held, take_due) at e)
  ]

  abbrev task_of : World A → Option (World A × Option ℕ) → Option ℕ
  task_of v none = none
  task_of v (some r) = r.1

  dequeue_idle :
      (fuel : ℕ) (w v : World A) (t1 t2 : ℕ) (ps : List ℕ)
      → length ps < fuel
      → Chain w.task_next w.task_in_queue ps
      → Queued std w
      → dequeue std fuel w t1 t2 ≡ some (v, none)
      → NoneDue w t1 ps
  unfolding dequeue refill select
  dequeue_idle fuel w v t1 t2 ps l h q e =
      let (u, done, more) = drain-Adds std fuel w t1 w.task_in_queue ps l h q in
      let chosen : some (select std u t2) ≡ some (v, none) = rw (done, dequeue, refill) at e in
      let nothing : (select std u t2).1 ≡ none = ap (task_of v) chosen in
      drain_later fuel w u t1 w.task_in_queue ps h done
        (take_due_idle u t2 u.task_sch_queue nothing)

  module _ (fuel scan : ℕ) where
    -- What the code under `block_wait` may do, where the tasks `ps` were posted.
    abbrev pub Rests : World A → ℕ → ℕ → List ℕ → Doing A → Type 0
    Rests w now timeout ps (sleeps until v) =
        (until ≡ (if timeout == time_max then none else some timeout))
        × (w.task_pqueue ≡ [])
        × AllLater w.when now ps
        × (v.task_pqueue ≡ [])
        × Perm (held std v) (ps ++ held std w)
    Rests w now timeout ps (loops (some t) v) =
        Queued std v × Perm (t ∷ held std v) (ps ++ held std w)
    Rests w now timeout ps (loops none v) = ⊥
    Rests w now timeout ps (exits v) = ⊥
    Rests w now timeout ps (runs t v) = ⊥
    Rests w now timeout ps (jumps next t v) = ⊥

    rests :
        (w v : World A) (r : Option ℕ) (now timeout : ℕ) (ps : List ℕ)
        → Queued std v
        → Perm (with_task r (held std v)) (ps ++ held std w)
        → (r ≡ none → NoneDue w now ps)
        → (r ≡ none → v.task_pqueue ≡ [])
        → (d : Doing A) × (block_unless std fuel scan (some (v, r)) timeout ≡ some d)
          × Rests w now timeout ps d
    unfolding block_unless
    rests w v none now timeout ps q m n k = (_, refl, (refl, (n refl).0, (n refl).1, k refl, m))
    rests w v (some t) now timeout ps q m n k = (_, refl, (q, m))

    -- The end of a round in which nothing is ready: the OS thread goes to sleep only if no
    -- unscheduled task is queued and every task that was posted is scheduled for a time after the
    -- clock's reading, and no longer than the timeout that check_for_timeouts gave; these tasks and
    -- those scheduled before are then in the heap of scheduled tasks, each as often. Else the loop
    -- goes on with one of all these tasks, and the others are in the heaps, each as often.
    pub block_wait-Rests :
        (w : World A) (timeout : ℕ) (clock : Clock) (ps : List ℕ)
        → length ps < fuel
        → Chain w.task_next w.task_in_queue ps
        → Queued std w
        → (d : Doing A) × (block_wait std fuel scan w timeout clock ≡ some d)
          × Rests w clock.enqueued_last timeout ps d
    unfolding block_wait
    block_wait-Rests w timeout clock ps l h q =
        let (v, r, e, kept, queued, _, emptied, idle) =
          dequeue-keeps std fuel w clock.enqueued_last clock.chosen_last ps l h q in
        let none_due : r ≡ none → NoneDue w clock.enqueued_last ps = λ n.
          dequeue_idle fuel w v clock.enqueued_last clock.chosen_last ps l h q
            (e ∙ ap (λ x. some (v, x)) n) in
        let (d, f, good) = rests w v r clock.enqueued_last timeout ps queued kept none_due idle in
        (d, rw e f, good)
