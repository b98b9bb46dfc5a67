-- ===== src/Sfs/Inode/Erase.antt =====
-- What sfs_reclaim does with the last vnode of a file without links and without an indirect block.
use os161_testbed.Common.{ℕ, ◌≡◌, ◌≢◌, false, List, ◌∷◌, ◌++◌, ◌==◌, if◌then◌else◌, get_or}
use os161_testbed.Common.Codes.{Errno}
use os161_testbed.Common.Run.{Run, done, and_then, ◌>>◌}
use os161_testbed.Sfs.State.{Sfs, Vnode, File}
use os161_testbed.Sfs.Trunc.Direct.{IsDirect, direct_of}
use os161_testbed.Sfs.Balloc.Volume.{in_use}
use os161_testbed.Sfs.Inode.{Loaded, Pool, set_sv, deref_vnode, remove_vnode, free_inode}
use os161_testbed.Sfs.Inode.Layout.{IsInode}
use os161_testbed.Sfs.Inode.Table.{NoIno}
use os161_testbed.Sfs.Inode.Load.{IsPool}
use os161_testbed.Sfs.Inode.Parts.{Parts}
use os161_testbed.Sfs.Inode.Reclaim.{around}

-- the file of a vnode
abbrev pub file_of : Sfs → Loaded → File
file_of s l = record { fs = s; sv = l.sv }

-- The vnode is gone; its inode's block and the file's blocks are free, and no other block is freed.
pub record Erased (s : Sfs) (us : List Loaded) (l : Loaded) (vs : List Loaded) (q : Pool)
    : Type 0 where
  pub gone : q.vnodes ≡ us ++ vs
  pub inode : in_use q.fs l.sv.ino ≡ false
  pub blocks :
      (m : ℕ) → direct_of (file_of s l) m ≢ 0 → in_use q.fs (direct_of (file_of s l) m) ≡ false
  pub kept :
      (j : ℕ)
      → j ≢ l.sv.ino
      → ((m : ℕ) → direct_of (file_of s l) m ≢ j)
      → in_use q.fs j ≡ in_use s j
  pub pool : IsPool q

-- The inode could not be written: the vnode stays, with no blocks.
pub record NotErased (us : List Loaded) (l : Loaded) (vs : List Loaded) (e : Errno) (q : Pool)
    : Type 0 where
  pub error : e ≢ 0
  pub sv : Vnode
  pub stays : q.vnodes ≡ us ++ set_sv sv l ∷ vs
  pub size : sv.i.size ≡ 0
  pub empty : (m : ℕ) → get_or sv.i.direct m 0 ≡ 0

module _ (s : Sfs) (us : List Loaded) (l : Loaded) (vs : List Loaded)
    (ok : IsPool (around s us l vs)) (inode : IsInode l.sv.i) (direct : IsDirect (file_of s l))
    (apart : (m : ℕ) → NoIno (direct_of (file_of s l) m) (us ++ l ∷ vs)) where
  -- the end of the call: the inode's block is freed and the vnode leaves the table
  last_part : Pool → Run Pool (Unit {0})
  last_part q = and_then (deref_vnode l.addr q) (λ l'.
      (if l'.sv.i.linkcount == 0 then free_inode l'.sv.ino else done tt) >> remove_vnode l.addr)
