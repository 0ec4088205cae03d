-- ===== src/Thread.antt =====
-- class thread_private and class thread of src/thread.cpp.
pub mod State
pub mod Ready
pub mod Notify
pub mod Queue
pub mod Timeouts
pub mod Switch
pub mod Quit
pub mod Post
pub mod Run
pub mod Loop
pub mod Spawn
pub mod Places
pub mod Wakeup
pub mod Remote
