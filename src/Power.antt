-- ===== src/Power.antt =====
-- src/daemon/power: the suspend and resume sequencer, the reconnect cycle and what drives them.
pub mod Lifecycle
pub mod Reconnect
pub mod SuspendQueue
