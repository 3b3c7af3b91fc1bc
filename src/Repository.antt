-- ===== src/Repository.antt =====
-- repository/mysql_repository.go, over a model of the two tables and of the statements' failures.
pub mod New
pub mod Tables
pub mod Failures
pub mod Create
pub mod Find
pub mod Delete
pub mod Up
pub mod Search
pub mod Takes
pub mod Linked
pub mod Capacity
mod Tests
mod SessionTests
pub mod Cleaning
pub mod Actions
pub mod Placing
pub mod Delivery
pub mod Contents
pub mod Stores
pub mod Keeps
pub mod Session
pub mod Contract
