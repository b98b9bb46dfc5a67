-- ===== src/Tests/Dir.antt =====
-- The empty root directory of a volume, and a name put into it.
use os161_testbed.Common.{
  ℕ, ◌≡◌, refl, true, false, length, arith, [], ◌∷◌, Option, none, some, enoent,
}
use os161_testbed.Common.Run.{Run, done, fail, panic, fault, stuck}
use os161_testbed.Bitmap.{alloc, isset}
use os161_testbed.Uio.{uiomove}
use os161_testbed.Sfs.State.{File, zero_block}
use os161_testbed.Sfs.Block.{readblock, writeblock}
use os161_testbed.Sfs.Balloc.{balloc, clearblock, bused}
use os161_testbed.Sfs.Bmap.{bmap, load_direct, store_direct}
use os161_testbed.Sfs.Io.{metaio}
use os161_testbed.Sfs.Dir.{
  entrylen, entry_of_bytes, look, Search, link, findname, search, nentries, readdir, writedir,
}
use os161_testbed.Sfs.Dir.Entry.{written, Found, look-Found}
use os161_testbed.Sfs.Inode.{Pool, loadvnode}
use os161_testbed.Sfs.Inode.Lookonce.{lookonce}
use os161_testbed.Tests.Inode.{healthy, loaded}

-- the vnode and the slot of a lookup that succeeds
abbrev answers : Run Pool (ℕ × Option ℕ) → Option (ℕ × Option ℕ)
answers (done r p) = some r
answers (fail e p) = none
answers panic = none
answers fault = none
answers stuck = none

-- the error of one that fails
abbrev fails_with : Run Pool (ℕ × Option ℕ) → Option ℕ
fails_with (done r p) = none
fails_with (fail e p) = some e
fails_with panic = none
fails_with fault = none
fails_with stuck = none

lookonce_empty : fails_with (lookonce 4096 (120 ∷ []) none true healthy) ≡ some enoent
unfolding lookonce findname search nentries
lookonce_empty = refl

-- a lookup of "x" after a change to the directory
abbrev then_look : Run File ℕ → Option (ℕ × Option ℕ)
then_look (done slot f) = answers (
    lookonce 4096 (120 ∷ []) none true
      (record { fs = f.fs; vnodes = record loaded { sv = f.sv } ∷ [] }))
then_look (fail e f) = none
then_look panic = none
then_look fault = none
then_look stuck = none

-- "x" is linked to inode 1, the directory itself, and is looked up.
lookonce_linked :
    then_look (link (120 ∷ []) 1 (record { fs = healthy.fs; sv = loaded.sv })) ≡ some (4096, some 0)
unfolding link lookonce findname search nentries readdir writedir metaio bmap load_direct balloc
    alloc clearblock writeblock zero_block uiomove store_direct bused isset readblock loadvnode
lookonce_linked = refl

-- the root directory, which is empty
abbrev empty_dir : File
empty_dir = record { fs = healthy.fs; sv = loaded.sv }

-- what a search holds before it has found its name
abbrev at_start : Search
at_start = record { found = false; ino = none; slot = none; emptyslot = none }

look-Found_example :
    (length (written (97 ∷ 98 ∷ []) 7) ≡ entrylen)
    × Found
        (97 ∷ 98 ∷ [])
        (97 ∷ [])
        7
        3
        at_start
        empty_dir
        (look (97 ∷ []) 3 (entry_of_bytes (written (97 ∷ 98 ∷ []) 7)) at_start empty_dir)
look-Found_example =
    look-Found (97 ∷ 98 ∷ []) (97 ∷ []) 7 3 at_start empty_dir
      (λ e. omega arith, (λ e. omega arith, tt)) (omega arith) (λ e. omega arith) (omega arith) refl
