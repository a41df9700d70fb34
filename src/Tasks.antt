-- ===== src/Tasks.antt =====
-- companion/internal/tasks: work that outlives the call that started it.
pub mod Buffer
pub mod Stream
pub mod State
pub mod Manager
pub mod Calls
pub mod Forget
pub mod Invariant
pub mod Purge
pub mod Tracked
pub mod Settled
mod Tests
