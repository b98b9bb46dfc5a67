-- ===== src/Tests.antt =====
-- Runs on concrete inputs, and the theorems at inputs that meet their hypotheses.
mod Bitmap
mod Hangman
mod Sfs
mod Thread
mod Uio
mod Array
mod Migrate
mod Clock
mod Semaphore
mod Inode
mod Dir
mod Kmalloc
mod Libc
