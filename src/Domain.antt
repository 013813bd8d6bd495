-- ===== src/Domain.antt =====
-- app/domain: the value objects and the entities, with the rules that they enforce.
pub mod Status
pub mod Time
pub mod Hash
pub mod Size
pub mod Task
pub mod File
mod Examples
