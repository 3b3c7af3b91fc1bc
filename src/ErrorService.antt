-- ===== src/ErrorService.antt =====
-- error_service: events on their way to the handlers of the application. `Queue` is the bounded
-- queue, `System` the interleaving of those who report events with the loop that handles them.
pub mod New
pub mod Queue
pub mod Overflow
pub mod System
pub mod Wakeup
pub mod Order
mod Tests
