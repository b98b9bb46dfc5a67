-- ===== src/Sfs/Io.antt =====
-- File-level I/O of os161/kern/fs/sfs/sfs_io.c: sfs_partialio, sfs_blockio, sfs_io and sfs_metaio.
-- A job is a file with the uio of the request; the static I/O buffers are values.
use os161_testbed.Common.{
  ℕ, zero, suc, ◌+◌, ◌-◌, ◌*◌, ◌/◌, ◌%◌, ◌^◌, true, not, ◌&&◌, List, ◌++◌, ltb, leb, ◌==◌, ◌/=◌,
  if◌then◌else◌, take, drop, replicate, length,
}
use os161_testbed.Common.Run.{Run, done, fail, panic, fault, stuck, Cmd, ◌>>=◌, ◌>>◌, kassert}
use os161_testbed.Uio.{Uio, Direction, read, write, is_read, uiomove, uiomovezeros}
use os161_testbed.Lhd.{Request}
use os161_testbed.Sfs.State.{File, on_fs, blocksize, zero_block}
use os161_testbed.Sfs.Block.{rwblock, readblock, writeblock}
use os161_testbed.Sfs.Bmap.{bmap}

pub record Job : Type 0 where
  pub file : File
  pub uio : Uio

-- An operation on the file, or on the uio alone.
lift_file : {A : Type 0} → Uio → Run File A → Run Job A
lift_file u (done a f) = done a (record { file = f; uio = u })
lift_file u (fail e f) = fail e (record { file = f; uio = u })
lift_file u panic = panic
lift_file u fault = fault
lift_file u stuck = stuck

on_file : {A : Type 0} → Cmd File A → Cmd Job A
on_file m j = lift_file j.uio (m j.file)

lift_uio : {A : Type 0} → File → Run Uio A → Run Job A
lift_uio f (done a u) = done a (record { file = f; uio = u })
lift_uio f (fail e u) = fail e (record { file = f; uio = u })
lift_uio f panic = panic
lift_uio f fault = fault
lift_uio f stuck = stuck

on_uio : {A : Type 0} → Cmd Uio A → Cmd Job A
on_uio m j = lift_uio j.file (m j.uio)

-- `iobuf`: zeros for a hole, which only a read may meet, or the block
fetch : Direction → ℕ → Cmd File (List ℕ)
fetch rw diskblock =
    if diskblock == 0
    then (do kassert (is_read rw); done zero_block)
    else on_fs (readblock diskblock)

-- the last step of a write
flush : Direction → ℕ → List ℕ → Cmd File (Unit {0})
flush read diskblock iobuf = done tt
flush write diskblock iobuf = on_fs (writeblock diskblock iobuf)

abbrev splice : ℕ → List ℕ → List ℕ → List ℕ
splice start middle xs = take start xs ++ middle ++ drop (start + length middle) xs

-- sfs_partialio
unfoldable pub partialio : (skipstart len : ℕ) → Cmd Job (Unit {0})
unfolding lift_file on_file lift_uio on_uio fetch flush
partialio skipstart len j =
    let rw = j.uio.rw in
    let fileblock = j.uio.offset / blocksize % 2 ^ 32 in
    (do
      kassert (leb (skipstart + len) blocksize)
      diskblock ← on_file (bmap fileblock (not (is_read rw)))
      iobuf ← on_file (fetch rw diskblock)
      moved ← on_uio (uiomove (take len (drop skipstart iobuf)))
      on_file (flush rw diskblock (splice skipstart moved iobuf)))
      j

-- uio_offset and uio_resid of a request for one block, and what they become after it
aim : ℕ → Uio → Uio
aim diskoff u = record u { offset = diskoff; resid = blocksize }

restore : ℕ → Uio → Uio → Uio
restore diskoff old u = record u {
  offset = u.offset + old.offset - diskoff;
  resid = (u.resid + old.resid - blocksize) % 2 ^ 32;
}

after_block : ℕ → Job → Run Request (Unit {0}) → Run Job (Unit {0})
after_block diskoff j (done a r) = done a (record {
  file = record (j.file) { fs = record (j.file.fs) { device = r.disk } };
  uio = restore diskoff j.uio r.uio;
})
after_block diskoff j (fail e r) = fail e (record {
  file = record (j.file) { fs = record (j.file.fs) { device = r.disk } };
  uio = restore diskoff j.uio r.uio;
})
after_block diskoff j panic = panic
after_block diskoff j fault = fault
after_block diskoff j stuck = stuck

-- sfs_rwblock on the caller's uio; `diskblock * SFS_BLOCKSIZE` is a product on uint32_t
whole_block : ℕ → Cmd Job (Unit {0})
whole_block diskblock j =
    let diskoff = diskblock * blocksize % 2 ^ 32 in
    if leb blocksize j.uio.resid
    then after_block diskoff j
        (rwblock (record { disk = j.file.fs.device; uio = aim diskoff j.uio }))
    else panic

-- sfs_blockio
unfoldable pub blockio : Cmd Job (Unit {0})
unfolding lift_file on_file lift_uio on_uio aim restore after_block whole_block
blockio j =
    let rw = j.uio.rw in
    let fileblock = j.uio.offset / blocksize % 2 ^ 32 in
    (do
      diskblock ← on_file (bmap fileblock (not (is_read rw)))
      if diskblock == 0
          then (do kassert (is_read rw); on_uio (uiomovezeros blocksize))
          else whole_block diskblock)
      j

-- for (i=0; i<nblocks; i++), with the rounds left
blocks_loop : ℕ → Cmd Job (Unit {0})
blocks_loop zero = done tt
blocks_loop (suc n) = do blockio; blocks_loop n

-- the partial block at the start, if the request does not begin at a block
leading : Cmd Job (Unit {0})
leading j =
    let blkoff = j.uio.offset % blocksize in
    let room = blocksize - blkoff in
    if blkoff == 0
    then done tt j
    else partialio blkoff (if ltb j.uio.resid room then j.uio.resid else room) j

-- the partial block at the end
trailing : Cmd Job (Unit {0})
trailing j =
    if ltb j.uio.resid blocksize
    then (if j.uio.resid == 0 then done tt j else partialio 0 j.uio.resid j)
    else panic

whole_blocks : Cmd Job (Unit {0})
whole_blocks j = blocks_loop (j.uio.resid / blocksize) j

aligned : Cmd Job (Unit {0})
aligned j =
    if j.uio.resid == 0
    then done tt j
    else if j.uio.offset % blocksize == 0
    then (do whole_blocks; trailing) j
    else panic

-- sv->sv_i.sfi_size = pos; sv->sv_dirty = true, if `pos` is past the end
grow : ℕ → File → File
grow pos f =
    if ltb f.sv.i.size pos
    then record f {
      sv = record (f.sv) { i = record (f.sv.i) { size = pos % 2 ^ 32 }; dirty = true };
    }
    else f

-- what follows `out:`
wrap_up : (origresid extraresid : ℕ) → Job → Job
wrap_up origresid extraresid j = record {
  file =
      if (j.uio.resid /= origresid) && not (is_read j.uio.rw)
      then grow j.uio.offset j.file
      else j.file;
  uio = record (j.uio) { resid = (j.uio.resid + extraresid) % 2 ^ 32 };
}

out : (origresid extraresid : ℕ) → Run Job (Unit {0}) → Run Job (Unit {0})
out origresid extraresid (done a j) = done a (wrap_up origresid extraresid j)
out origresid extraresid (fail e j) = fail e (wrap_up origresid extraresid j)
out origresid extraresid panic = panic
out origresid extraresid fault = fault
out origresid extraresid stuck = stuck

-- the cut of a read at the end of the file; `body` is the transfer
cut : ℕ → Job → (body : Cmd Job (Unit {0})) → Run Job (Unit {0})
cut extraresid j body =
    let origresid = j.uio.resid in
    if ltb extraresid origresid
    then out origresid extraresid
        (body (record j { uio = record (j.uio) { resid = origresid - extraresid } }))
    else panic

transfer : Cmd Job (Unit {0})
transfer = do leading; aligned

-- sfs_io
unfoldable pub io : Cmd Job (Unit {0})
unfolding blocks_loop leading trailing whole_blocks aligned grow wrap_up out cut transfer
io j =
    let size = j.file.sv.i.size in
    let endpos = j.uio.offset + j.uio.resid in
    if is_read j.uio.rw && leb size j.uio.offset
    then done tt j
    else if is_read j.uio.rw && ltb size endpos
    then cut ((endpos - size) % 2 ^ 32) j transfer
    else out j.uio.resid 0 (transfer j)

-- the part of sfs_metaio on a block that is there; the answer is what `data` holds when it returns
meta_block : Direction → (blockoffset actualpos diskblock : ℕ) → List ℕ → Cmd File (List ℕ)
meta_block rw blockoffset actualpos diskblock bytes = do
  metaiobuf ← on_fs (readblock diskblock)
  if ltb blocksize (blockoffset + length bytes)
      then (λ _. fault)
      else if is_read rw
      then done (take (length bytes) (drop blockoffset metaiobuf))
      else (do
        on_fs (writeblock diskblock (splice blockoffset bytes metaiobuf))
        λ f. done bytes (grow (actualpos + length bytes) f))

-- sfs_metaio, with the bytes that `data` holds; a transfer across the end of a block is a fault
unfoldable pub metaio : (actualpos : ℕ) → List ℕ → Direction → Cmd File (List ℕ)
unfolding meta_block grow
metaio actualpos bytes rw = do
  diskblock ← bmap (actualpos / blocksize % 2 ^ 32) (not (is_read rw))
  if diskblock == 0
      then (do kassert (is_read rw); done (replicate (length bytes) 0))
      else meta_block rw (actualpos % blocksize) actualpos diskblock bytes
