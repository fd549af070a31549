-- ===== src/Lib.antt =====
-- cec-control: a daemon that drives an HDMI-CEC adapter, and the client that commands it.
--
-- The client's command line becomes a message (src/common/command_registry.cpp), which crosses a
-- socket as bytes (src/common/messages.cpp). The daemon's main thread routes it
-- (src/daemon/cec_daemon.cpp, src/daemon/command_dispatcher.cpp): the standby policy and the power
-- supervisor answer on the spot, anything else becomes a job of the worker thread
-- (src/daemon/cec/adapter_worker.cpp), which alone calls the adapter and posts its results back. The
-- supervisor (src/daemon/power/power_supervisor.cpp) carries out what two decision types emit: the
-- sleep sequencer (power_lifecycle.cpp) and the reconnect cycle (adapter_reconnect.cpp).
--
-- Files:
--   Message, KeyCodes, Registry: src/common/messages.*, key_codes.*, command_registry.*. A parser's
--     error text is a value with the text's parts; `std::stoi` is Registry/Numbers, on ASCII text.
--   Backoff: src/common/backoff_schedule.h.
--   Power/Lifecycle, Power/Reconnect, Power/SuspendQueue: src/daemon/power. A handler takes the state
--     and returns the new one with the `Output`; `handle` and `run` are sequences of calls.
--   Throttler: src/daemon/command_throttler.*, with the clock in the adapter's record.
--   Adapter, Operations: src/daemon/cec/adapter_interface.h and operations.*. A command is an action
--     on the adapter that ends in a value or an exception.
--   Dispatch: src/daemon/command_dispatch.*, with the handlers of the table's rows.
--   Standby: src/daemon/standby_policy.*.
--   SocketServer: src/daemon/socket_server.*. The answers of the kernel, of the event loop and of the
--     command handler are the parameter `Outside`, by the number of the call; `Runs` has the callbacks
--     as a step relation.
--   Hooks: src/daemon/hook/cec_hook_subsystem.*, and Hooks/Queue and Hooks/Spawn for hook_executor.*.
--   DbusMonitor: src/daemon/dbus_monitor.*, with sd-bus as the parameter `Outside`; a pass over the bus
--     takes the list of what `sd_bus_process` does. Descriptors, slots and the bus are flags.
--   LibcecAdapter: src/daemon/cec/libcec_adapter.*, with libcec as the parameter `Libcec`. It fills the
--     interface of Adapter (`backend`).
--   Configuration: src/common/config_manager.*, and Configuration/Settings for
--     src/daemon/app_config.*. A file is its text.
--   Arguments: src/common/argument_parser.*.
--   Client: src/client/*, with the system's calls as the parameter `System`; an outcome holds the exit
--     code and what was printed.
--   Daemon: one state, `World`, for src/daemon/adapter_lifecycle.*, command_dispatcher.*,
--     cec/adapter_worker.*, power/power_supervisor.*, src/common/main_thread_work.* and the handlers
--     of src/daemon/cec_daemon.cpp. A closure posted, or a job, is a value that holds what the closure
--     captures, and runs as `run_posted` or `run_job`. The two threads share the two queues
--     and the adapter's connection hint, which the main thread reads here only between jobs; an
--     interleaving is a list of `Wake`s (Daemon/Events), each handled whole. Daemon/WorkerThread and
--     Daemon/Posting have the two queues on their own, with the steps of each thread inside a call, under
--     any order of them; a thread in a condition variable is asleep until it is notified or stirs.
--   Startup: the subsystems of `CECDaemon`, with Startup/Start for `start` and Startup/Stop for `stop`
--     and the destructor. What the parts answer is the parameter `Machine`; a state has which of the
--     subsystems there are, and `past` the states gone through.
--   EventLoop: src/common/event_loop.*. What a handler asks of the loop is the parameter `behave`, and
--     a run takes the list of the batches that epoll reports. Poller: src/common/event_poller.*.
--   Deadline: src/common/deadline.h, with the clock's reading for an argument.
--   UnixSocket: src/common/unix_socket.*; Sources: src/common/timer_source.* and signal_source.*;
--     SystemPaths: src/common/system_paths.*; Logger: src/common/logger.*. The answers of the system are
--     parameters, a record for each.
--   Help: src/common/help_printer.*.
--   Bootstrap: src/main.cpp, src/daemon/daemon_bootstrap.cpp, and the handlers of
--     src/daemon/cec_daemon.cpp that end the loop. It puts Arguments, Client, Configuration, Startup and
--     Help together; its run of the daemon takes the list of what ends it, and does not run `World`.
--   Prelude: shared names, Boolean tests, lists and texts. Examples: runs at concrete inputs.
--
-- Numbers: a byte is a number below 256; uint32_t values wrap as written; times are milliseconds. What
-- the adapter answers (`Backend`), libcec's constants (`CecConstants`) and whether a timer can be
-- armed (`arm_ok`, by the number of the call) are parameters, with no hypothesis on them.
--
-- Fuel: the supervisor's `execute` calls itself at most three deep (an attempt that fails at once, and
-- a timer that then cannot be armed); `applyLifecycle` calls itself once for each event that it takes
-- off the queue, so it has one unit more than the queue is long. `none` stands for fuel run out, and the
-- theorems on the supervisor and on the daemon's handlers say that it does not happen.
--
-- Not modelled: what is logged where; the memory that the threads share, beyond its locks; epoll, sd-bus
-- and libcec themselves; the clock.
pub mod Prelude
pub mod Message
pub mod Backoff
pub mod Power
pub mod Adapter
pub mod Throttler
pub mod KeyCodes
pub mod Operations
pub mod Registry
pub mod Dispatch
pub mod SocketServer
pub mod Hooks
pub mod DbusMonitor
pub mod LibcecAdapter
pub mod Configuration
pub mod Arguments
pub mod Client
pub mod Standby
pub mod Daemon
pub mod Startup
pub mod EventLoop
pub mod Poller
pub mod Deadline
pub mod UnixSocket
pub mod Sources
pub mod SystemPaths
pub mod Logger
pub mod Help
pub mod Bootstrap
pub mod Examples
