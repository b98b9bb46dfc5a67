-- ===== src/Sfs.antt =====
-- os161/kern/fs/sfs: the simple file system. Its state is the volume (superblock size, free map, the
-- disk it is mounted on); the operations on a file work on a volume and one in-memory inode.
pub mod State
pub mod Block
pub mod Balloc
pub mod Bmap
pub mod Trunc
pub mod Io
pub mod Dir
pub mod Inode
