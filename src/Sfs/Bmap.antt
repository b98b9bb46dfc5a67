-- ===== src/Sfs/Bmap.antt =====
-- sfs_bmap of os161/kern/fs/sfs/sfs_bmap.c: from a block of a file to a block of the disk.
pub mod Lookup
pub mod Extend
use os161_testbed.Common.{
  ℕ, ◌-◌, ◌/◌, ◌%◌, Bool, true, false, not, ◌&&◌, List, ltb, ◌==◌, ◌/=◌, if◌then◌else◌, get_elem?,
  set, efbig, Option, none, some,
}
use os161_testbed.Common.Words.{get_word, set_word}
use os161_testbed.Common.Run.{Run, done, fail, panic, fault, stuck, Cmd, ◌>>=◌, ◌>>◌, and_then}
use os161_testbed.Sfs.State.{
  Sfs, Dinode, Vnode, File, on_fs, lift_fs, ndirect, nindirect, dbperidb, zero_block,
}
use os161_testbed.Sfs.Block.{readblock, writeblock}
use os161_testbed.Sfs.Balloc.{balloc, bused}

-- sv->sv_i.sfi_direct[n]
unfoldable pub load_direct : ℕ → Cmd File ℕ
load_direct n f = elim (get_elem? f.sv.i.direct n) [ none ↦ fault | some b ↦ done b f ]

-- sv->sv_i.sfi_direct[n] = block; sv->sv_dirty = true
unfoldable pub store_direct : ℕ → ℕ → Cmd File (Unit {0})
store_direct n block f =
    let i = f.sv.i in
    done tt (record f {
      sv = record (f.sv) { i = record i { direct = set i.direct n block }; dirty = true };
    })

-- sv->sv_i.sfi_indirect = block; sv->sv_dirty = true
unfoldable pub store_indirect : ℕ → Cmd File (Unit {0})
store_indirect block f =
    done tt
      (record f { sv = record (f.sv) { i = record (f.sv.i) { indirect = block }; dirty = true } })

unfoldable pub load_indirect : Cmd File ℕ
load_indirect f = done f.sv.i.indirect f

-- the check that a block handed back is marked in use, and `*diskblock = block`
pub hand_back : ℕ → Cmd File ℕ
hand_back block =
    if block == 0
    then done block
    else do used ← on_fs (bused block); if used then done block else (λ _. panic)

-- the first half: one of the direct blocks
pub direct_block : ℕ → Bool → Cmd File ℕ
direct_block fileblock doalloc = do
  block ← load_direct fileblock
  if block == 0 && doalloc
      then (do new ← on_fs balloc; store_direct fileblock new; hand_back new)
      else hand_back block

-- The entry of the indirect block `idblock`, whose contents are `idbuf`.
pub indirect_entry : ℕ → ℕ → Bool → List ℕ → Cmd File ℕ
indirect_entry idblock idoff doalloc idbuf =
    let block = get_word idbuf idoff in
    if block == 0 && doalloc
    then (do
      new ← on_fs balloc
      on_fs (writeblock idblock (set_word idbuf idoff new))
      hand_back new)
    else hand_back block

-- the second half, with the block number less SFS_NDIRECT
pub indirect_block : ℕ → Bool → Cmd File ℕ
indirect_block idoff doalloc = do
  idblock ← load_indirect
  if idblock == 0 && not doalloc
      then done 0
      else if idblock == 0
      then (do new ← on_fs balloc; store_indirect new; indirect_entry new idoff doalloc zero_block)
      else (do idbuf ← on_fs (readblock idblock); indirect_entry idblock idoff doalloc idbuf)

-- sfs_bmap
unfoldable pub bmap : ℕ → Bool → Cmd File ℕ
unfolding hand_back direct_block indirect_entry indirect_block load_indirect lift_fs
bmap fileblock doalloc =
    if ltb fileblock ndirect
    then direct_block fileblock doalloc
    else if ltb ((fileblock - ndirect) / dbperidb) nindirect
    then indirect_block ((fileblock - ndirect) % dbperidb) doalloc
    else fail efbig
