-- ===== src/Thread/Quit.antt =====
-- thread::quit of src/thread.cpp, called on the thread itself.
pub mod Cancel
pub mod Stuck
use boost_cmt.Base.{ℕ, zero, suc, List, [], ◌∷◌, Bool, true, Option, none, some}
use boost_cmt.Base.Links.{put}
use boost_cmt.StdHeap.{StdHeap}
use boost_cmt.Error.{thread_quit}
use boost_cmt.Thread.State.{World}
use boost_cmt.Thread.Ready.{ready_push_front}
use boost_cmt.Thread.Notify.{throw_into}

-- How the call ends: `crash` is a call through a null `prom`, `out_of_fuel` the model's own.
pub data Ending (A : Type 0) : Type 0 where
  crash out_of_fuel : Ending A
  ended : World A → Ending A

module _ {A : Type 0} where
  unfoldable pub cancel_context : World A → ℕ → World A
  cancel_context w c = record w {
    contexts = record w.contexts { canceled = put w.canceled c true };
  }

  -- The loop over the ready queue.
  unfoldable pub cancel_ready : ℕ → World A → Option ℕ → Ending A
  cancel_ready zero w cur = out_of_fuel
  cancel_ready (suc f) w none = ended w
  cancel_ready (suc f) w (some c) =
      cancel_ready f (cancel_context w c) ((cancel_context w c).next c)

  -- The loop over the sleep queue.
  unfoldable pub cancel_sleepers : World A → List ℕ → World A
  unfolding cancel_context
  cancel_sleepers w [] = w
  cancel_sleepers w (c ∷ v) = cancel_sleepers (ready_push_front (cancel_context w c) c) v

  unfoldable pub finish : World A → World A
  finish w = record (cancel_sleepers w w.sleep_pqueue) { sleep_pqueue = []; done = true }

  abbrev pub then_do : Ending A → (World A → Ending A) → Ending A
  then_do crash f = crash
  then_do out_of_fuel f = out_of_fuel
  then_do (ended w) f = f w

  abbrev pub from_option : Option (World A) → Ending A
  from_option none = out_of_fuel
  from_option (some w) = ended w

  module _ (std : StdHeap) (scan : ℕ) where
    -- `cur->prom->set_exception( thread_quit )`
    unfoldable pub break_promise : World A → ℕ → Ending A
    break_promise w c = elim (w.prom c) [
      | none ↦ crash
      | some p ↦ from_option (throw_into std scan w p thread_quit)
    ]

    -- The loop over the blocked list, which goes on by `cur->next`, the link of the ready queue.
    unfoldable pub quit_blocked : ℕ → World A → Option ℕ → Ending A
    quit_blocked zero w cur = out_of_fuel
    quit_blocked (suc f) w none = ended w
    quit_blocked (suc f) w (some c) = then_do (break_promise w c) (λ v. quit_blocked f v (v.next c))

    unfoldable pub quit : ℕ → World A → Ending A
    quit fuel w =
        then_do (quit_blocked fuel w w.blocked)
          (λ v. then_do (cancel_ready fuel v v.ready_head) (λ u. ended (finish u)))
