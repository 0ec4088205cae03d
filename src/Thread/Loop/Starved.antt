-- ===== src/Thread/Loop/Starved.antt =====
-- Contexts that are ready while the OS thread sleeps.
use boost_cmt.Base.{
  ℕ, suc, ◌≡◌, refl, ap, ◌∙◌, List, [], ◌∷◌, none, some, true, false, arith, length,
}
use boost_cmt.StdHeap.{StdHeap}
use boost_cmt.Thread.State.{World, time_max}
use boost_cmt.Thread.Ready.{ready_pop_front, ready_push_back}
use boost_cmt.Thread.Queue.{dequeue, refill, drain, select, take_due, take_front}
use boost_cmt.Thread.Timeouts.{check_for_timeouts}
use boost_cmt.Thread.Switch.{jump_from, requeue, start_next_task, yield}
use boost_cmt.Thread.Switch.Turns.{InTurn, nothing_due, yields, yield_keeps, yields_keep}
use boost_cmt.Thread.Loop.{
  Clock, sleeps, jumps, block_wait, block_unless, inner, go_idle, give_way, loop_head, after_check,
  resumed, resume_with,
}

module _ {A : Type 0} where
  -- No task is there to run.
  pub record NoTask (w : World A) : Type 0 where
    pub none_posted : w.task_in_queue ≡ none
    pub none_queued : w.task_pqueue ≡ []

  jump-NoTask : (w : World A) (c x : ℕ) → NoTask w → NoTask (jump_from w c true (some x)).0
  unfolding jump_from requeue ready_push_back ready_pop_front
  jump-NoTask w c x n = ground arith

  module _ (std : StdHeap) (fuel scan : ℕ) where
    select_nothing :
        (w : World A) (now : ℕ)
        → w.task_pqueue ≡ []
        → w.task_sch_queue ≡ []
        → select std w now ≡ (w, none)
    unfolding select take_due take_front
    select_nothing w now p s = ap (λ v. take_due std w now v) s ∙ ap (λ v. take_front std w v) p

    idle_dequeue :
        (w : World A) (now1 now2 : ℕ)
        → NoTask w
        → w.task_sch_queue ≡ []
        → dequeue std fuel w now1 now2 ≡ some (record w { task_in_queue = none }, none)
    unfolding dequeue refill drain
    idle_dequeue w now1 now2 n s =
        rw (n.none_posted, select_nothing (record w { task_in_queue = none }) now2 n.none_queued s)
          refl

    idle_resumed :
        (w : World A) (clock : Clock)
        → NoTask w
        → w.task_sch_queue ≡ []
        → resumed std fuel scan w time_max clock
          ≡ some (sleeps none (record w { task_in_queue = none }))
    unfolding resumed resume_with block_wait block_unless
    idle_resumed w clock n s =
        let u : World A = record w { task_in_queue = none } in
        let none_left : NoTask u = record { none_posted = refl; none_queued = n.none_queued } in
        rw
          (
            idle_dequeue w clock.enqueued clock.chosen n s,
            idle_dequeue u clock.enqueued_last clock.chosen_last none_left s,
          )
          refl

    goes_round :
        (w : World A) (clock : Clock)
        → w.done ≡ false
        → loop_head std fuel scan none w clock
          ≡ after_check std fuel scan none (check_for_timeouts std fuel scan w clock.checked) clock
    unfolding loop_head
    goes_round w clock d = ground arith

    gives_way_to :
        (w : World A) (x : ℕ) (clock : Clock)
        → w.done ≡ false
        → go_idle std fuel scan (some x) w time_max clock
          ≡ give_way std fuel scan (start_next_task std fuel scan w clock.switched true) time_max
    unfolding go_idle
    gives_way_to w x clock d = ground arith

    idle_jumps :
        (w v : World A) (c x : ℕ) (rs : List ℕ) (clock : Clock)
        → InTurn w c (x ∷ rs)
        → w.done ≡ false
        → yield std fuel scan w clock.switched ≡ some (v, x)
        → loop_head std fuel scan none w clock ≡ some (jumps x time_max v)
    unfolding after_check inner give_way yield
    idle_jumps w v c x rs clock t d e =
        let quiet = nothing_due std fuel scan w clock.checked t.no_sleeper t.no_scheduled in
        goes_round w clock d
        ∙ ap (λ r. after_check std fuel scan none r clock) quiet
        ∙ ap (λ h. go_idle std fuel scan h w time_max clock) t.waiting.chain.0
        ∙ gives_way_to w x clock d
        ∙ ap (λ r. give_way std fuel scan r time_max) e

    -- A context `c` processes tasks, where none is there, nothing sleeps, and the contexts `x` and
    -- `rs` are ready: it jumps to `x`. After each of these has yielded once it is the turn of `c`
    -- again, with the same contexts ready. Then the OS thread goes to sleep for good, although they
    -- are: only a task that is posted wakes it.
    pub ready_starved :
        (w : World A) (c x now : ℕ) (rs : List ℕ) (clock clock2 : Clock)
        → InTurn w c (x ∷ rs)
        → w.done ≡ false
        → NoTask w
        → (v : World A) × (z : World A) × (loop_head std fuel scan none w clock
            ≡ some (jumps x time_max v))
          × (yields std fuel scan (suc (length rs)) v now ≡ some z)
          × (resumed std fuel scan z time_max clock2
              ≡ some (sleeps none (record z { task_in_queue = none })))
          × InTurn z c (x ∷ rs)
    ready_starved w c x now rs clock clock2 t d n =
        let (v, jump, next, m) =
          yield_keeps std fuel scan NoTask jump-NoTask w clock.switched c x rs n t in
        let (z, turns, last, k) =
          yields_keep std fuel scan NoTask jump-NoTask v now x c rs [] m next in
        (
          v,
          z,
          idle_jumps w v c x rs clock t d jump,
          turns,
          idle_resumed z clock2 k last.no_scheduled,
          last,
        )
