-- ===== src/Lib.antt =====
-- Boost.CMT: cooperative multitasking, with promises and sockets on top of it.
--
-- A `thread` (src/thread.cpp) runs contexts, of which one is current at a time. The others are in
-- the ready queue, or blocked on a promise, or in the sleep queue up to a time. Tasks that any thread
-- posts go through a lock-free input queue into two heaps, from which the contexts that process
-- tasks take them. A promise (include/boost/cmt/future.hpp, src/future.cpp) notifies the thread of
-- its waiter. The wrappers of Boost.Asio wait for promises that the handlers of its operations fill,
-- and the TCP socket adds buffers on both ways.
--
-- The files, with what they model:
--   Error: the exceptions of include/boost/cmt/error.hpp, and results that may be a throw.
--   Promise: promise<T>, promise_base and future<T>; Promise/Signals: include/boost/cmt/signals.hpp.
--   StdHeap: the heap algorithms of <algorithm>, an interface with the laws that the C++ standard
--     gives; StdHeap/Sorted implements it.
--   Thread/State: the fields of thread_private, cmt_context and task. Objects are numbers; a field is
--     a function of the object, so what the code does through one pointer is seen through all.
--   Thread/Ready, Thread/Notify, Thread/Queue, Thread/Timeouts, Thread/Switch, Thread/Quit,
--   Thread/Post: the functions of src/thread.cpp, each file under its name for them.
--   Thread/Run: the tasks of include/boost/cmt/task.hpp. Thread/Loop: process_tasks. Thread/Spawn:
--     async, schedule and sync of include/boost/cmt/thread.hpp. Thread/Remote: current, create and
--     start_thread, the call of quit from another thread, and the conversion of times.
--   Thread/Wakeup: the wakeup of a thread that sleeps, by those that post to it.
--   Thread/Places: the steps of all contexts of a thread together.
--   Mutex: include/boost/cmt/mutex.hpp and spin_lock.hpp. Retainable: include/boost/cmt/retainable.hpp.
--   Socket: src/asio/tcp/socket.cpp, over the interface Socket/Stream of a connection.
--   Streambuf: include/boost/cmt/asio/basic_socket_streambuf.hpp, over Streambuf/Connection;
--     Streambuf/Iostream: include/boost/cmt/asio/basic_socket_iostream.hpp.
--   Asio: include/boost/cmt/asio.hpp, src/asio.cpp, src/asio/udp/socket.cpp, src/asio/acceptor.cpp.
--   Actor: include/boost/cmt/actor.hpp and actor_interface.hpp; Actor/Signal takes Boost.Signals as an
--     interface. Log: include/boost/cmt/log/log.hpp; Log/Console:
--     console_defines.h in the same folder, without the branch for the attributes of a Windows
--     console, which log.hpp never turns on.
--   Examples: a test of every result on a concrete state.
--
-- The loops of a thread over linked lists and heaps run on fuel, and return none only if it runs out.
-- The results on them say how much is enough: one more than the contexts or tasks that are looped
-- over. The loop of Streambuf has one Boolean for each round, whether it reads the error code that the
-- handler stored, and ends after as many rounds that do as it has bytes.
-- A function that blocks is two: up to the switch of contexts, and from there on. What other contexts
-- do in between is any change of the state. The clock's readings are arguments; times and priorities
-- are only compared, and stand as their distance from the least value.
--
-- Not modelled: machine contexts and stacks, what the system does to start and join OS threads,
-- memory orders, the io_service, async_delegate (it does not compile), and the strands (not built,
-- and unfinished).
pub mod Base
pub mod Error
pub mod Promise
pub mod StdHeap
pub mod Thread
pub mod Socket
pub mod Mutex
pub mod Retainable
pub mod Streambuf
pub mod Asio
pub mod Actor
pub mod Log
pub mod Examples
