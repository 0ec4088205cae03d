-- ===== src/Asio/Acceptor.antt =====
-- acceptor and acceptor_private of src/asio/acceptor.cpp as a state: the opening, the steps of the
-- task of `listen` between two completions of async_accept, and the destruction. A handler is a
-- number, as are ports and sockets.
pub mod Serve
use boost_cmt.Base.{ℕ, List, [], ◌∷◌, ◌++◌, Option, none, some, if◌then◌else◌, ◌==◌}

-- The pointer `acc`.
pub data Acc : Type 0 where
  null deleted : Acc
  opened : ℕ → Acc

-- Where the task of `listen` is.
pub data Listener : Type 0 where
  -- No task, or one that is posted and not started, for a port.
  idle : Listener
  posted : ℕ → Listener
  -- In the `accept` of the try block.
  accepting : Listener
  -- In the `accept` of the handler of the exception, with its code.
  retrying : ℕ → Listener
  -- An exception of this code left it, into `listen_done`.
  failed : ℕ → Listener
  -- It called `async_accept` where no object is, or no longer.
  dangling : Listener

-- `tasks` are the calls of handlers that were posted, with the socket and the code.
pub record Acceptor : Type 0 where
  pub acc : Acc
  pub new_connection : Option ℕ
  pub listener : Listener
  pub tasks : List (Option ℕ × (ℕ × ℕ))

-- acceptor_private( s )
abbrev pub new_acceptor : Acceptor
new_acceptor = record { acc = null; new_connection = none; listener = idle; tasks = [] }

-- acceptor::listen, on an acceptor that does not listen yet.
unfoldable pub listen_on : Acceptor → ℕ → ℕ → Acceptor
listen_on a port handler = record a { new_connection = some handler; listener = posted port }

-- `accept` up to the point where it waits, in the try block or in the handler.
unfoldable pub call_accept : Acc → Listener → Listener
call_accept deleted at = dangling
call_accept (opened port) at = at
call_accept null at = dangling

-- `if( !acc )`, where `ec` is the code that the constructor of asio's acceptor throws, or 0.
unfoldable pub open_acc : Acc → ℕ → ℕ → Acceptor → Acceptor
unfolding call_accept
open_acc null ec port a =
    if ec == 0
    then record a { acc = opened port; listener = accepting }
    else record a { listener = failed ec }
open_acc (opened p) ec port a = record a { listener = accepting }
open_acc deleted ec port a = record a { listener = call_accept deleted accepting }

-- The task of `listen` starts.
unfoldable pub start_listen : Listener → ℕ → Acceptor → Acceptor
unfolding open_acc
start_listen (posted port) ec a = open_acc a.acc ec port a
start_listen idle ec a = a
start_listen accepting ec a = a
start_listen (retrying code) ec a = a
start_listen (failed code) ec a = a
start_listen dangling ec a = a

-- The call that is posted for a new connection, and the next `accept`.
unfoldable pub hand_over : ℕ → ℕ → Acceptor → Acceptor
unfolding call_accept
hand_over sock code a = record a {
  listener = call_accept a.acc accepting;
  tasks = a.tasks ++ ((a.new_connection, (sock, code)) ∷ []);
}

-- The accept that `listen` waits for completes with the code `ec` and, where it is 0, `sock`.
unfoldable pub accepted : Listener → ℕ → ℕ → Acceptor → Acceptor
unfolding call_accept hand_over
accepted accepting ec sock a =
    if ec == 0 then hand_over sock 0 a else record a { listener = call_accept a.acc (retrying ec) }
accepted (retrying code) ec sock a =
    if ec == 0 then hand_over sock code a else record a { listener = failed ec }
accepted idle ec sock a = a
accepted (posted port) ec sock a = a
accepted (failed code) ec sock a = a
accepted dangling ec sock a = a

-- ~acceptor_private up to its wait for `listen_done`.
unfoldable pub delete_acc : Acceptor → Acceptor
delete_acc a = record a { acc = deleted }
