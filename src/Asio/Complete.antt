-- ===== src/Asio/Complete.antt =====
-- What the callers of the wrappers are given.
use boost_cmt.Base.{
  ℕ, ◌≡◌, sym, ap, ◌∙◌, List, [], ◌∷◌, ◌++◌, none, some, Bool, true, false, if◌then◌else◌, ◌==◌,
  arith,
}
use mathlib.Core.List.{append_assoc, append-nil}
use boost_cmt.Error.{other, ok, throws}
use boost_cmt.Promise.{ready, set_value, set_exception, wait_enter, wait_leave, enqueue_thread}
use boost_cmt.Asio.{
  read_write_handler, Completion, handler_ec_value, await, await_io, resolve, resolve_handler,
  push_endpoints,
}

-- The wrapped reads and writes return the number of bytes, or throw the error, whether the
-- operation completes before the call of `wait` or after it.
pub await_io_result :
    (ec n self : ℕ) (early : Bool)
    → await_io ec n early self ≡ some (if ec == 0 then ok n else throws (other ec))
unfolding await_io await read_write_handler set_value set_exception wait_enter wait_leave
    enqueue_thread
await_io_result ec n self true = ground arith
await_io_result ec n self false = ground arith

push_endpoints-append : (eps itr : List ℕ) → push_endpoints eps itr ≡ eps ++ itr
unfolding push_endpoints
push_endpoints-append eps [] = sym (append-nil eps)
push_endpoints-append eps (e ∷ itr) =
    push_endpoints-append (eps ++ (e ∷ [])) itr ∙ append_assoc eps (e ∷ []) itr

resolve_loop :
    (ec self : ℕ) (itr : List ℕ) (early : Bool)
    → resolve ec itr early self
      ≡ some (if ec == 0 then ok (push_endpoints [] itr) else throws (other ec))
unfolding resolve await resolve_handler set_value set_exception wait_enter wait_leave enqueue_thread
resolve_loop ec self itr true = ground arith
resolve_loop ec self itr false = ground arith

-- `resolve` returns all endpoints found, in their order, or throws the error, whenever the
-- operation completes.
pub resolve_result :
    (ec self : ℕ) (itr : List ℕ) (early : Bool)
    → resolve ec itr early self ≡ some (if ec == 0 then ok itr else throws (other ec))
resolve_result ec self itr early =
    resolve_loop ec self itr early
    ∙ ap (λ l. some (if ec == 0 then ok l else throws (other ec))) (push_endpoints-append [] itr)

-- `read_write_handler_ec` makes a promise without an error ready before it stores the error code:
-- a waiter that runs in between reads the code that was there before, whatever the operation's is.
pub handler_ec_early :
    (c : Completion) (n : ℕ)
    → c.prom.error ≡ none
    → (ready (handler_ec_value c n).prom ≡ true)
      × ((wait_leave (handler_ec_value c n).prom).1 ≡ ok n)
      × ((handler_ec_value c n).oec ≡ c.oec)
unfolding handler_ec_value set_value wait_leave ready
handler_ec_early c n e = ground arith
