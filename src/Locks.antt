-- ===== src/Locks.antt =====
-- shared/sync/lockcell.rs: the lock cells, as steps of execution contexts that are interleaved in
-- any order. The memory is sequentially consistent.
pub mod Family
pub mod Ticket
pub mod ReadWrite
