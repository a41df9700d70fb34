-- ===== src/Routes.antt =====
-- companion/internal/routerule/rule.go: the table of rules that says where a save lands.
pub mod Glob
pub mod Rules
pub mod Landing
pub mod First
pub mod Shadow
mod Tests
