-- ===== src/Sender.antt =====
-- sender_service/sender_service.go and sender_service/task_queue.go.
pub mod New
pub mod Queue
pub mod Buffer
pub mod Fifo
pub mod Moves
pub mod Batcher
pub mod Sizes
pub mod Batches
pub mod Handles
pub mod Lending
pub mod Confirmation
pub mod Confirmed
pub mod Pipeline
pub mod Hands
pub mod Flow
pub mod Placed
pub mod Carried
pub mod Accounted
pub mod Received
pub mod Work
pub mod Spent
pub mod Staff
pub mod Going
pub mod Settles
mod Tests
mod FlowTests
mod PipelineTests
