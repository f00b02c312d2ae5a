-- ===== src/Core.antt =====
-- pkg/core: the workers that move users from step to step of a workflow. A bitmap is a value here:
-- the crowds of a worker and of a transaction are objects of their own, and every other bitmap is
-- only read, or cut down to the worker's total crowd, which a second time changes nothing.
pub mod Crowd
pub mod Holders
pub mod Steps
pub mod Transaction
pub mod Execution
pub mod Worker
mod Tests
