-- ===== src/Thread.antt =====
-- os161/kern/thread: interrupt levels and lists of threads.
pub mod Spl
pub mod Migrate
pub mod Semaphore
pub mod List
