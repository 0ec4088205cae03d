-- ===== src/Thread/Queue/Received.antt =====
-- From the posts of other threads to the order in which the thread runs the tasks.
use boost_cmt.Base.{ℕ, ◌+◌, ◌≡◌, ◌≤◌, ◌<◌, sym, subst, [], ◌++◌, some, Perm, length}
use boost_cmt.Base.Links.{Chain}
use boost_cmt.StdHeap.{StdHeap}
use boost_cmt.Thread.State.{World}
use boost_cmt.Thread.Post.{Posting, Inbox, Reach, start, take_all, take_all-Linked}
use boost_cmt.Thread.Queue.{refill}
use boost_cmt.Thread.Queue.Select.{Queued}
use boost_cmt.Thread.Queue.Drain.{InOrder, run_order, AllDue, refill_runs_all}

-- The input queue of the thread is the one that was posted to.
pub record Receives {A : Type 0} (w : World A) (b : Inbox) : Type 0 where
  pub links : w.task_next ≡ b.next
  pub head : w.task_in_queue ≡ b.task_in_queue

module _ {A : Type 0} (std : StdHeap) where
  -- However many threads post, and however their atomic steps interleave: where no task is
  -- scheduled and the posted tasks are due, reading the input queue ends, given one more round than
  -- tasks were posted. A thread that then runs what `dequeue` chooses, as often as there are
  -- tasks, runs every task posted since it last read the queue, and every task queued before, each
  -- as often as it was there, none before one of higher priority, and those of one priority as they
  -- were made.
  pub posted_run_all :
      (s : Posting) (fuel n : ℕ) (w : World A) (t1 t2 : ℕ)
      → Reach start s
      → Receives w s.inbox
      → Queued std w
      → w.task_sch_queue ≡ []
      → AllDue w t1 s.posted
      → length s.posted < fuel
      → length s.posted + length w.task_pqueue ≤ n
      → (v : World A) × (refill std fuel w t1 ≡ some v)
        × Perm (run_order std n v t2) (s.posted ++ w.task_pqueue)
        × InOrder w.tasks (run_order std n v t2)
  unfolding take_all
  posted_run_all s fuel n w t1 t2 r i q e d l m =
      let chain : Chain w.task_next w.task_in_queue s.posted =
        subst (λ f. Chain f w.task_in_queue s.posted) (sym i.links)
          (subst (λ h. Chain s.inbox.next h s.posted) (sym i.head) (take_all-Linked s r).0) in
      refill_runs_all std fuel n w t1 t2 s.posted l chain q e d m
