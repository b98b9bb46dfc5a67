-- ===== src/Sfs/Inode/Reclaim.antt =====
-- What sfs_reclaim does with a vnode of a file that has links.
use os161_testbed.Common.{ℕ, ◌-◌, ◌<◌, ◌≡◌, ◌≢◌, ap, true, List, ◌∷◌, ◌++◌, none, some, ebusy, eio}
use os161_testbed.Common.Codes.{Errno}
use os161_testbed.Common.Run.{Run, done, panic, fault}
use os161_testbed.Lhd.Block.{code}
use os161_testbed.Sfs.State.{Sfs, Vnode}
use os161_testbed.Sfs.Inode.{Loaded, Pool, set_sv, deref_vnode, remove_vnode}
use os161_testbed.Sfs.Inode.Layout.{IsInode}
use os161_testbed.Sfs.Inode.Parts.{Parts, IsTable-Parts, find_addr-eq-some, remove_addr-eq-some}
use os161_testbed.Sfs.Inode.Table.{NoIno}
use os161_testbed.Sfs.Inode.Load.{IsPool, on_disk, SameButCodes}

-- The pool with the vnode `l` between others.
abbrev pub around : Sfs → (us : List Loaded) → Loaded → (vs : List Loaded) → Pool
around s us l vs = record { fs = s; vnodes = us ++ l ∷ vs }

-- The vnode is gone, and its inode is on disk if it was dirty and the write succeeds at once; after a media
-- error the inode's block has its old contents.
pub record Reclaimed (s : Sfs) (us : List Loaded) (l : Loaded) (vs : List Loaded) (q : Pool)
    : Type 0 where
  pub last : l.refcount ≡ 1
  pub gone : q.vnodes ≡ us ++ vs
  pub noino : NoIno l.sv.ino q.vnodes
  pub pool : IsPool q
  pub stored : l.sv.dirty ≡ true → code s.device ≡ 0 → on_disk q.fs l.sv.ino ≡ l.sv.i
  pub stale :
      l.sv.dirty ≡ true
      → code s.device ≢ 0
      → (code s.device ≡ eio) × (q.fs.device.sectors l.sv.ino ≡ s.device.sectors l.sv.ino)
  pub others : (b : ℕ) → l.sv.ino ≢ b → q.fs.device.sectors b ≡ s.device.sectors b
  pub freemap : q.fs.freemap ≡ s.freemap

-- The vnode stays: other references are left, or its inode could not be written.
pub data NotReclaimed (s : Sfs) (us : List Loaded) (l : Loaded) (vs : List Loaded) (e : Errno)
    (q : Pool) : Type 0 where
  busy :
      e ≡ ebusy
      → 1 < l.refcount
      → q ≡ around s us (record l { refcount = l.refcount - 1 }) vs
      → IsPool q
      → NotReclaimed s us l vs e q
  unwritten :
      e ≢ 0
      → l.refcount ≡ 1
      → q.vnodes ≡ us ++ l ∷ vs
      → SameButCodes s q.fs
      → NotReclaimed s us l vs e q

module _ (s : Sfs) (us : List Loaded) (l : Loaded) (vs : List Loaded)
    (ok : IsPool (around s us l vs)) (inode : IsInode l.sv.i) where
  parts : Parts l vs s us
  parts = IsTable-Parts l vs s us ok.table

  pub deref_vnode-eq-done :
      (t : Sfs) (sv : Vnode)
      → deref_vnode l.addr (around t us (set_sv sv l) vs)
        ≡ done (set_sv sv l) (around t us (set_sv sv l) vs)
  unfolding deref_vnode
  deref_vnode-eq-done t sv =
      ap (λ o. elim o [ none ↦ fault | some x ↦ done x (around t us (set_sv sv l) vs) ])
        (find_addr-eq-some (set_sv sv l) vs us parts.before)

  pub remove_vnode-eq-done :
      (t : Sfs) (sv : Vnode)
      → remove_vnode l.addr (around t us (set_sv sv l) vs)
        ≡ done tt (record { fs = t; vnodes = us ++ vs })
  unfolding remove_vnode
  remove_vnode-eq-done t sv =
      ap (λ o. elim o [ none ↦ panic | some ls ↦ done tt (record { fs = t; vnodes = ls }) ])
        (remove_addr-eq-some (set_sv sv l) vs us parts.before)
