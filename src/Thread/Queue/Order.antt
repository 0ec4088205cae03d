-- ===== src/Thread/Queue/Order.antt =====
-- The comparisons of the two task heaps and of the sleep queue are strict weak orders.
use boost_cmt.Base.{ℕ, arith}
use boost_cmt.StdHeap.{IsWeakOrder}
use boost_cmt.Thread.State.{Tasks}
use boost_cmt.Thread.Notify.{sleep_priority_less}
use boost_cmt.Thread.Queue.{task_priority_less, task_when_less}

pub task_priority_less-IsWeakOrder : (ts : Tasks) → IsWeakOrder (task_priority_less ts)
task_priority_less-IsWeakOrder ts = record {
  irrefl = λ a. ground arith;
  trans = λ a b c p q. ground arith;
  negative_trans = λ a b c p q. ground arith;
}

pub task_when_less-IsWeakOrder : (ts : Tasks) → IsWeakOrder (task_when_less ts)
task_when_less-IsWeakOrder ts = record {
  irrefl = λ a. ground arith;
  trans = λ a b c p q. ground arith;
  negative_trans = λ a b c p q. ground arith;
}

pub sleep_priority_less-IsWeakOrder : (at : ℕ → ℕ) → IsWeakOrder (sleep_priority_less at)
sleep_priority_less-IsWeakOrder at = record {
  irrefl = λ a. ground arith;
  trans = λ a b c p q. ground arith;
  negative_trans = λ a b c p q. ground arith;
}
