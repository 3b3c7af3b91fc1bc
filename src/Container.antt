-- ===== src/Container.antt =====
-- Go's container/heap over its interface: what waiting_service/task_heap.go calls. `Heap` has the
-- algorithms, `Order` the heap order on priorities, `Up` and `Down` what the loops restore, `Whole` what heap.Init,
-- heap.Pop and heap.Remove do with them.
pub mod Heap
pub mod Order
pub mod Laws
pub mod Up
pub mod Down
pub mod Whole
