-- ===== src/Waiting.antt =====
-- waiting_service: the tasks that wait in memory for their time. `Items` is heap.go, `Links` the
-- pointers behind it.
pub mod New
pub mod Items
pub mod Links
pub mod TaskHeap
pub mod Loop
pub mod Filled
pub mod Tests
