-- ===== src/Thread/Loop/Late.antt =====
-- A scheduled task that the thread sleeps past.
use boost_cmt.Base.{
  ℕ, ◌≡◌, ◌≢◌, ◌<◌, refl, ap, ◌∙◌, [], ◌∷◌, ◌++◌, none, some, arith, true, false, ltb, leb,
  perm_single,
}
use boost_cmt.StdHeap.{StdHeap}
use boost_cmt.Thread.State.{World, Tasks, time_max, time_min}
use boost_cmt.Thread.Queue.{
  dequeue, refill, drain, enqueue, place, select, take_due, take_front, task_when_less,
}
use boost_cmt.Thread.Loop.{
  Clock, sleeps, block_wait, block_unless, inner, go_idle, task_done, dequeue_after, after_dequeue,
}
use boost_cmt.Thread.Switch.Turns.{nothing_due}

module _ {A : Type 0} (std : StdHeap) where
  refill_one :
      (w : World A) (now t : ℕ)
      → w.task_in_queue ≡ some t
      → w.task_next t ≡ none
      → refill std 2 w now ≡ some (place std (record w { task_in_queue = none }) now t)
  unfolding refill drain enqueue
  refill_one w now t e h = rw (e, h) refl

  -- The task goes to the heap of scheduled ones, and little else changes.
  record Put (w v : World A) (t : ℕ) : Type 0 where
    scheduled : v.task_sch_queue ≡ t ∷ []
    queue_kept : v.task_pqueue ≡ w.task_pqueue
    tasks_kept : v.tasks ≡ w.tasks
    in_queue_kept : v.task_in_queue ≡ w.task_in_queue
    ready_kept : v.ready_head ≡ w.ready_head
    done_kept : v.done ≡ w.done

  place_later :
      (w : World A) (now t : ℕ)
      → now < w.when t
      → w.task_sch_queue ≡ []
      → Put w (place std w now t) t
  unfolding place
  place_later w now t l s =
      let later : ltb now (w.when t) ≡ true = ground arith in
      let less = task_when_less w.tasks in
      let one : std.push_heap less (w.task_sch_queue ++ (t ∷ [])) ≡ t ∷ [] =
        rw s (perm_single _ t (std.push_heap-perm less (t ∷ []))) in
      rw (later, place)
        (record {
          scheduled = one;
          queue_kept = refl;
          tasks_kept = refl;
          in_queue_kept = refl;
          ready_kept = refl;
          done_kept = refl;
        })

  select-none :
      (w : World A) (now t : ℕ)
      → w.task_sch_queue ≡ t ∷ []
      → w.task_pqueue ≡ []
      → now < w.when t
      → select std w now ≡ (w, none)
  unfolding select take_due take_front
  select-none w now t s p l =
      let early : leb (w.when t) now ≡ false = ground arith in
      ap (λ q. take_due std w now q) s ∙ rw early (ap (λ q. take_front std w q) p)

  dequeue_late :
      (w : World A) (t now1 now2 : ℕ)
      → w.task_in_queue ≡ some t
      → w.task_next t ≡ none
      → w.task_pqueue ≡ []
      → w.task_sch_queue ≡ []
      → now1 < w.when t
      → now2 < w.when t
      → (v : World A) × (dequeue std 2 w now1 now2 ≡ some (v, none))
        × Put (record w { task_in_queue = none }) v t
  unfolding dequeue
  dequeue_late w t now1 now2 e h p s l m =
      let u : World A = record w { task_in_queue = none } in
      let v = place std u now1 t in
      let q = place_later u now1 t l s in
      let when_same : v.when t ≡ w.when t = ap (λ (k : Tasks). k.when t) q.tasks_kept in
      let chosen = select-none v now2 t q.scheduled (q.queue_kept ∙ p) (omega (arith, when_same)) in
      (v, rw (refill_one w now1 t e h, dequeue, chosen) refl, q)

  dequeue_idle :
      (w : World A) (t now1 now2 : ℕ)
      → w.task_in_queue ≡ none
      → w.task_sch_queue ≡ t ∷ []
      → w.task_pqueue ≡ []
      → now2 < w.when t
      → dequeue std 2 w now1 now2 ≡ some (record w { task_in_queue = none }, none)
  unfolding dequeue refill drain
  dequeue_idle w t now1 now2 e s p l =
      rw (e, select-none (record w { task_in_queue = none }) now2 t s p l) refl

  module _ (scan : ℕ) where
    waits_next :
        (w : World A) (timeout : ℕ) (clock : Clock)
        → timeout ≢ time_min
        → w.done ≡ false
        → go_idle std 2 scan none w timeout clock ≡ block_wait std 2 scan w timeout clock
    unfolding go_idle
    waits_next w timeout clock n d = ground arith

    wait_sleeps :
        (w : World A) (clock : Clock)
        → dequeue std 2 w clock.enqueued_last clock.chosen_last
          ≡ some (record w { task_in_queue = none }, none)
        → block_wait std 2 scan w time_max clock
          ≡ some (sleeps none (record w { task_in_queue = none }))
    unfolding block_wait block_unless
    wait_sleeps w clock e = rw e refl

    idle_sleeps :
        (w : World A) (t : ℕ) (clock : Clock)
        → w.task_in_queue ≡ none
        → w.task_sch_queue ≡ t ∷ []
        → w.task_pqueue ≡ []
        → clock.chosen_last < w.when t
        → w.ready_head ≡ none
        → w.done ≡ false
        → inner std 2 scan none w time_max clock
          ≡ some (sleeps none (record w { task_in_queue = none }))
    unfolding inner
    idle_sleeps w t clock e s p l r d =
        ap (λ h. go_idle std 2 scan h w time_max clock) r
        ∙ waits_next w time_max clock (λ z. absurd (omega arith)) d
        ∙ wait_sleeps w clock (dequeue_idle w t clock.enqueued_last clock.chosen_last e s p l)

    -- A thread on which a task, as the last thing, scheduled one for later on the thread itself,
    -- where nothing else is queued, scheduled, asleep or ready: once the first task is done the OS
    -- thread goes to sleep for good. The scheduled task stands in its heap, but the timeout was
    -- computed before it was moved there.
    pub task_done_oversleeps :
        (w : World A) (t : ℕ) (clock : Clock)
        → w.task_in_queue ≡ some t
        → w.task_next t ≡ none
        → w.task_pqueue ≡ []
        → w.task_sch_queue ≡ []
        → w.sleep_pqueue ≡ []
        → w.ready_head ≡ none
        → w.done ≡ false
        → clock.enqueued < w.when t
        → clock.chosen < w.when t
        → clock.chosen_last < w.when t
        → (v : World A) × (task_done std 2 scan w clock ≡ some (sleeps none v))
          × (v.task_sch_queue ≡ t ∷ [])
          × (v.when t ≡ w.when t)
    unfolding task_done dequeue_after after_dequeue
    task_done_oversleeps w t clock e h p s a r d l1 l2 l3 =
        let (v, moved, q) = dequeue_late w t clock.enqueued clock.chosen e h p s l1 l2 in
        let when_same : v.when t ≡ w.when t = ap (λ (k : Tasks). k.when t) q.tasks_kept in
        let sleeping =
          idle_sleeps v t clock q.in_queue_kept q.scheduled (q.queue_kept ∙ p)
            (omega (arith, when_same)) (q.ready_kept ∙ r) (q.done_kept ∙ d) in
        (
          record v { task_in_queue = none },
          rw (nothing_due std 2 scan w clock.checked a s, moved) sleeping,
          q.scheduled,
          when_same,
        )
