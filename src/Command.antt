-- ===== src/Command.antt =====
-- companion/internal/cmdrule, cmdgate, and the shell test of cmdexec.
pub mod Shells
pub mod Line
pub mod Lexical
pub mod Rules
pub mod Check
pub mod Safety
mod Tests
