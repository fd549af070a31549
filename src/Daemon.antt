-- ===== src/Daemon.antt =====
-- The running daemon: every component that the event loop and the worker share, in one state. The
-- main thread and the worker exchange work through two queues, and a run is a sequence of steps.
pub mod Posting
pub mod WorkerThread
pub mod Untimed
pub mod Timed
pub mod State
pub mod Sinks
pub mod Lifecycle
pub mod Dispatcher
pub mod Supervisor
pub mod Worker
pub mod Events
