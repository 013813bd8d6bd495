-- ===== src/Statistics.antt =====
-- app/application/handlers/calculate_stats.py and statistics_handler.py: the digits in the files
-- that were stored, and the number of files by status.
pub mod Digits
pub mod Totals
pub mod Unordered
pub mod Files
mod Examples
