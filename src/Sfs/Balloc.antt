-- ===== src/Sfs/Balloc.antt =====
-- os161/kern/fs/sfs/sfs_balloc.c: block allocation.
pub mod Volume
pub mod Free
use os161_testbed.Common.{ℕ, Bool, true, false, ltb, ◌/=◌, if◌then◌else◌}
use os161_testbed.Common.Codes.{Errno}
use os161_testbed.Common.Run.{Run, done, fail, panic, fault, stuck, Cmd, ◌>>=◌, ◌>>◌, and_then}
use os161_testbed.Bitmap
use os161_testbed.Bitmap.{Bitmap}
use os161_testbed.Sfs.State.{Sfs, zero_block}
use os161_testbed.Sfs.Block.{writeblock}

-- A bitmap operation on the free map.
on_freemap : {A : Type 0} → Sfs → Run Bitmap A → Run Sfs A
on_freemap s (done a b) = done a (record s { freemap = b })
on_freemap s (fail e b) = fail e (record s { freemap = b })
on_freemap s panic = panic
on_freemap s fault = fault
on_freemap s stuck = stuck

-- sfs->sfs_freemapdirty = true
set_dirty : Cmd Sfs (Unit {0})
set_dirty s = done tt (record s { freemapdirty = true })

-- sfs_clearblock
unfoldable pub clearblock : ℕ → Cmd Sfs (Unit {0})
clearblock block = writeblock block zero_block

-- the panic for an invalid block
check_block : ℕ → Cmd Sfs (Unit {0})
check_block block s = if ltb block s.nblocks then done tt s else panic

-- result = sfs_clearblock(...); if (result) bitmap_unmark(...); return result;
undo : ℕ → Run Sfs (Unit {0}) → Run Sfs ℕ
undo block (done u s) = done block s
undo block (fail e s) = and_then (on_freemap s (Bitmap.unmark block s.freemap)) (λ _. fail e)
undo block panic = panic
undo block fault = fault
undo block stuck = stuck

alloc_block : Cmd Sfs ℕ
alloc_block s = on_freemap s (Bitmap.alloc s.freemap)

clear_new : ℕ → Cmd Sfs ℕ
clear_new block s = undo block (clearblock block s)

-- sfs_balloc
unfoldable pub balloc : Cmd Sfs ℕ
unfolding on_freemap set_dirty check_block undo alloc_block clear_new
balloc = do block ← alloc_block; set_dirty; check_block block; clear_new block

unmark_block : ℕ → Cmd Sfs (Unit {0})
unmark_block block s = on_freemap s (Bitmap.unmark block s.freemap)

-- sfs_bfree
unfoldable pub bfree : ℕ → Cmd Sfs (Unit {0})
unfolding on_freemap set_dirty unmark_block
bfree block = do unmark_block block; set_dirty

isset_block : ℕ → Cmd Sfs ℕ
isset_block block s = on_freemap s (Bitmap.isset block s.freemap)

-- sfs_bused
unfoldable pub bused : ℕ → Cmd Sfs Bool
unfolding on_freemap check_block isset_block
bused block = do check_block block; r ← isset_block block; done (r /= 0)
