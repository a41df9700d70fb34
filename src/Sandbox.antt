-- ===== src/Sandbox.antt =====
-- companion/internal/sandbox: the paths that a remote caller may name.
pub mod Names
pub mod Clean
pub mod Resolve
pub mod Accepted
pub mod Inside
pub mod Workspaces
mod Tests
