-- ===== src/Sfs/Trunc.antt =====
-- sfs_itrunc of os161/kern/fs/sfs/sfs_bmap.c: cutting a file, or growing it, to a length.
pub mod Direct
pub mod Length
use os161_testbed.Common.{
  ℕ, zero, suc, ◌+◌, ◌-◌, ◌/◌, ◌%◌, ◌^◌, Bool, true, false, not, ◌&&◌, ◌||◌, List, leb, ltb, ◌/=◌,
  if◌then◌else◌,
}
use os161_testbed.Common.Words.{get_word, set_word}
use os161_testbed.Common.Run.{done, Cmd, ◌>>=◌, ◌>>◌}
use os161_testbed.Sfs.State.{Dinode, File, on_fs, lift_fs, ndirect, dbperidb, blocksize}
use os161_testbed.Sfs.Block.{readblock, writeblock}
use os161_testbed.Sfs.Balloc.{bfree}
use os161_testbed.Sfs.Bmap.{load_direct, store_direct, store_indirect, load_indirect}

-- DIVROUNDUP(len, SFS_BLOCKSIZE), cut to uint32_t
abbrev pub blocklen : ℕ → ℕ
blocklen len = (len + blocksize - 1) / blocksize % 2 ^ 32

-- for (i=0; i<SFS_NDIRECT; i++) ..., with the rounds left
pub trunc_direct : ℕ → ℕ → ℕ → Cmd File (Unit {0})
trunc_direct limit zero i = done tt
trunc_direct limit (suc n) i =
    let rest = trunc_direct limit n (i + 1) in
    do
      block ← load_direct i
      if leb limit i && block /= 0 then (do on_fs (bfree block); store_direct i 0; rest) else rest

-- `idbuf`, `hasnonzero` and `iddirty`
pub record Scan : Type 0 where
  pub idbuf : List ℕ
  pub hasnonzero : Bool
  pub iddirty : Bool

-- one round of for (j=0; j<SFS_DBPERIDB; j++)
discard : ℕ → ℕ → Scan → Cmd File Scan
discard limit j c =
    let block = get_word c.idbuf j in
    if ltb limit (ndirect + j) && block /= 0
    then (do on_fs (bfree block); done (record c { idbuf = set_word c.idbuf j 0; iddirty = true }))
    else done c

remember : ℕ → Scan → Scan
remember j c = record c { hasnonzero = c.hasnonzero || get_word c.idbuf j /= 0 }

pub scan : ℕ → ℕ → ℕ → Scan → Cmd File Scan
scan limit zero j c = done c
scan limit (suc n) j c = do c' ← discard limit j c; scan limit n (j + 1) (remember j c')

-- the end of the indirect part: free the block, write it back, or leave it
finish : ℕ → Scan → Cmd File (Unit {0})
finish idblock c =
    if not c.hasnonzero
    then (do on_fs (bfree idblock); store_indirect 0)
    else if c.iddirty
    then on_fs (writeblock idblock c.idbuf)
    else done tt

trunc_indirect : ℕ → ℕ → Cmd File (Unit {0})
trunc_indirect limit idblock =
    if ltb limit (ndirect + dbperidb - 1) && idblock /= 0
    then (do
      idbuf ← on_fs (readblock idblock)
      c ← scan limit dbperidb 0 (record { idbuf = idbuf; hasnonzero = false; iddirty = false })
      finish idblock c)
    else done tt

-- sv->sv_i.sfi_size = len; sv->sv_dirty = true
set_size : ℕ → Cmd File (Unit {0})
set_size len f =
    let i : Dinode = record (f.sv.i) { size = len % 2 ^ 32 } in
    done tt (record f { sv = record (f.sv) { i = i; dirty = true } })

-- sfs_itrunc
unfoldable pub itrunc : ℕ → Cmd File (Unit {0})
unfolding trunc_direct discard remember scan finish trunc_indirect set_size load_indirect lift_fs
itrunc len = do
  trunc_direct (blocklen len) ndirect 0
  idblock ← load_indirect
  trunc_indirect (blocklen len) idblock
  set_size len
