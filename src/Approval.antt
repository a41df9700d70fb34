-- ===== src/Approval.antt =====
-- companion/internal/approval/approval.go.
pub mod State
pub mod Policy
pub mod Prompts
pub mod Attach
pub mod Race
pub mod Events
pub mod Cells
pub mod Invariant
pub mod History
pub mod Collected
pub mod Order
mod Tests
