-- ===== src/Driver.antt =====
-- tests/stdriver.py: the options, the lists of tests, the runs and their grades.
pub mod Result
pub mod Options
pub mod Listing
pub mod Grades
pub mod Script
mod Tests
