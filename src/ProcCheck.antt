-- ===== src/ProcCheck.antt =====
-- pexpect-dpty/proc_check.py: what the shell tests read from /proc and from the terminal. Processes,
-- files and the clock are arguments; times are in milliseconds.
pub mod Stat
pub mod Children
pub mod Foreground
pub mod Counted
pub mod Table
pub mod Awaited
mod Tests
