-- ===== src/Repositories.antt =====
-- app/infrastructure/database: the rows of models.py and the repositories of repositories.py, over
-- a session that is an argument.
pub mod Rows
pub mod Tasks
pub mod Claims
pub mod Table
pub mod Saved
pub mod Exclusive
pub mod Files
pub mod Pages
pub mod Wiring
mod Examples
pub mod Runs
