-- ===== src/Locks.antt =====
-- The spinning locks of kernel/src/sync, as relations of one atomic step: of a processor
-- in the ticket lock, and of a call of the reader-writer lock.
pub mod Cores
pub mod Ticket
pub mod ReadWrite
