-- ===== src/Preloader.antt =====
-- preloader_service/preloader_service.go.
pub mod New
pub mod Service
pub mod Intake
pub mod Workers
pub mod Shares
pub mod Preloads
mod Tests
mod WorkerTests
