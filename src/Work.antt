-- ===== src/Work.antt =====
-- Durable work (src/work): the domain records, their repository, and the services over it.
pub mod Domain
pub mod Repository
pub mod Environment
pub mod Service
pub mod Invariant
pub mod History
pub mod Calls
pub mod Lease
pub mod Dispatcher
pub mod Tests
