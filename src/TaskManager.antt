-- ===== src/TaskManager.antt =====
-- task_manager/task_manager.go, by what its files say.
pub mod New
pub mod Interface
pub mod Retry
pub mod Attempts
pub mod Operations
pub mod Laws
pub mod Settled
pub mod Totals
pub mod Accounting
pub mod Atomic
pub mod OneRow
mod Tests
pub mod Untried
