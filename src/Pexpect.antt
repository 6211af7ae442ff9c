-- ===== src/Pexpect.antt =====
-- pexpect-dpty/pexpect.py: the searchers, the expect loop, the reader thread and the rest of `spawn`.
pub mod Searcher
pub mod Expect
pub mod CommandLine
pub mod Drain
pub mod Process
pub mod Pattern
pub mod Sending
pub mod Polling
pub mod Reading
pub mod Run
pub mod Interact
pub mod Start
pub mod Pty
pub mod Window
mod Tests
