-- ===== src/Gate.antt =====
-- companion/internal/cmdgate: the rung, the workspace grants and the delegations.
pub mod Grants
pub mod Decide
pub mod Safety
pub mod Delegations
pub mod Standing
mod Tests
