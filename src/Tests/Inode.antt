-- ===== src/Tests/Inode.antt =====
-- A volume with the root directory, block 1, in memory.
use os161_testbed.Common.{
  ℕ, zero, suc, ◌≡◌, refl, true, false, [], ◌∷◌, some, inl, arith, replicate, length-replicate,
}
use os161_testbed.Common.Bits.{test}
use os161_testbed.Common.Run.{Ensures}
use os161_testbed.Bitmap.Wf.{bit}
use os161_testbed.Sfs.State.{Sfs, Dinode}
use os161_testbed.Sfs.Block.Retry.{with_codes}
use os161_testbed.Sfs.Inode.{Loaded, Pool, loadvnode, makeobj}
use os161_testbed.Sfs.Inode.Layout.{
  IsInode, Small, inode_of_bytes, bytes_of_inode, inode_of_bytes-bytes_of_inode,
}
use os161_testbed.Sfs.Inode.Table.{found}
use os161_testbed.Sfs.Inode.Load.{IsPool, Held, NotHeld, in_memory, loadvnode-Held, IsVolume-codes}
use os161_testbed.Sfs.Inode.Make.{Made, NotMade, makeobj-Made}
use os161_testbed.Tests.Sfs.{volume, volume-IsVolume}

abbrev root : Dinode
root = record {
  size = 0;
  kind = 2;
  linkcount = 1;
  direct = replicate 15 0;
  indirect = 0;
  waste = replicate 440 0;
}

zeros : (n : ℕ) → Small (replicate n 0)
zeros zero = tt
zeros (suc n) = (omega arith, zeros n)

root-IsInode : IsInode root
root-IsInode = record {
  size = omega arith;
  kind = omega arith;
  linkcount = omega arith;
  directs = refl;
  direct = zeros 15;
  indirect = omega arith;
  waste = length-replicate {A = ℕ} 440 0;
}

abbrev pub loaded : Loaded
loaded = record { addr = 4096; sv = record { i = root; ino = 1; dirty = true }; refcount = 1 }

abbrev pool : Pool
pool = record { fs = volume; vnodes = loaded ∷ [] }

pool-IsPool : IsPool pool
unfolding bit test
pool-IsPool = record { volume = volume-IsVolume; table = (omega arith, refl, omega arith, tt, tt) }

-- the same on a disk that has no failures ahead
abbrev pub healthy : Pool
healthy = record pool { fs = with_codes volume [] }

healthy-IsPool : IsPool healthy
unfolding bit test
healthy-IsPool = record {
  volume = IsVolume-codes [] volume-IsVolume (λ n e. omega arith);
  table = (omega arith, refl, omega arith, tt, tt);
}

inode_of_bytes-bytes_of_inode_example : inode_of_bytes (bytes_of_inode root) ≡ root
inode_of_bytes-bytes_of_inode_example = inode_of_bytes-bytes_of_inode root root-IsInode

loadvnode-Held_example :
    Ensures (Held pool 1 0) (NotHeld pool) (loadvnode (some 8192) true 1 0 pool)
unfolding bit test found
loadvnode-Held_example =
    loadvnode-Held pool-IsPool 1 0 (some 8192) true (omega arith) refl (omega arith)
      (λ e. omega arith, tt) (in_memory _ refl refl)

makeobj-Made_example :
    Ensures (Made healthy 1) (NotMade healthy) (makeobj (some 8192) true 1 healthy)
makeobj-Made_example =
    makeobj-Made 1 (some 8192) true healthy-IsPool refl (inl refl) (omega arith)
      (λ e. omega arith, tt)

-- A file without links in block 1, with block 2 as its only block.
abbrev shrunk : Dinode
shrunk = record root { kind = 1; linkcount = 0; direct = 2 ∷ replicate 14 0 }

abbrev unlinked : Loaded
unlinked = record loaded { sv = record { i = shrunk; ino = 1; dirty = false } }

abbrev three_used : Sfs
three_used = record volume { freemap = record { nbits = 8; v = 7 ∷ [] } }
