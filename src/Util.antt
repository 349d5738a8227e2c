-- ===== src/Util.antt =====
-- internal/util: the queues and the lock that the REST and gateway clients build on.
pub mod Shift
pub mod Queue
pub mod TicketQueue
pub mod AtomicLock
mod Tests
