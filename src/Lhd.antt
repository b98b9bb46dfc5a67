-- ===== src/Lhd.antt =====
-- os161/kern/dev/lamebus/lhd.c: the disk driver. A disk is its sectors, their number, and the result
-- codes of the operations to come, as the interrupt handler turns them into errno values; past the
-- end of the list they succeed. An operation that the hardware fails leaves the disk unchanged. The
-- semaphores that serialise operations, and the registers, are left out.
pub mod Block
use os161_testbed.Common.{
  ℕ, zero, suc, ◌+◌, ◌*◌, ◌/◌, ◌%◌, ◌^◌, Bool, true, false, ◌||◌, List, [], ◌∷◌, ltb, ◌==◌, ◌/=◌,
  if◌then◌else◌, update, replicate, einval,
}
use os161_testbed.Common.Codes.{Errno}
use os161_testbed.Common.Run.{Run, done, fail, panic, fault, stuck, Cmd, ◌>>=◌, ◌>>◌, and_then}
use os161_testbed.Uio.{Uio, Direction, read, write, is_read, uiomove}

pub record Disk : Type 0 where
  pub sectors : ℕ → List ℕ
  -- d_blocks
  pub size : ℕ
  pub codes : List Errno

-- a disk and the request that it works on
pub record Request : Type 0 where
  pub disk : Disk
  pub uio : Uio

abbrev pub sectsize : ℕ
sectsize = 512

abbrev with_uio : {A : Type 0} → Disk → Run Uio A → Run Request A
with_uio d (done a u) = done a (record { disk = d; uio = u })
with_uio d (fail e u) = fail e (record { disk = d; uio = u })
with_uio d panic = panic
with_uio d fault = fault
with_uio d stuck = stuck

-- uiomove on the request's uio
move : List ℕ → Cmd Request (List ℕ)
move ptr r = with_uio r.disk (uiomove ptr r.uio)

-- Start the operation and wait for its result code.
operate : List Errno → Cmd Request (Unit {0})
operate [] r = done tt r
operate (c ∷ cs) r =
    let r' : Request = record r { disk = record (r.disk) { codes = cs } } in
    if c == 0 then done tt r' else fail c r'

-- the hardware's half of a write that succeeds
put_sector : ℕ → List ℕ → Cmd Request (Unit {0})
put_sector n bytes r =
    done tt (record r { disk = record (r.disk) { sectors = update r.disk.sectors n bytes } })

-- P(lh->lh_done)
wait_done : Cmd Request (Unit {0})
wait_done r = operate r.disk.codes r

-- uiomove from the on-card buffer, which holds sector `n`
move_out : ℕ → Cmd Request (List ℕ)
move_out n r = move (r.disk.sectors n) r

-- One round of the loop. `lh_buf` is the on-card buffer, whose old contents do not matter.
one_sector : Direction → ℕ → Cmd Request (Unit {0})
unfolding move operate wait_done move_out put_sector
one_sector write n r = (do bytes ← move (replicate sectsize 0); wait_done; put_sector n bytes) r
one_sector read n r = (do wait_done; _ ← move_out n; done tt) r

-- for (i=0; i<len; i++), with the rounds left
sector_loop : ℕ → Direction → ℕ → Cmd Request (Unit {0})
unfolding one_sector
sector_loop zero rw n = done tt
sector_loop (suc k) rw n = do one_sector rw n; sector_loop k rw (n + 1)

-- lhd_io
unfoldable pub io : Cmd Request (Unit {0})
unfolding sector_loop
io r =
    let sector = r.uio.offset / sectsize % 2 ^ 32 in
    let len = r.uio.resid / sectsize in
    if (r.uio.offset % sectsize /= 0) || (r.uio.resid % sectsize /= 0)
    then fail einval r
    else if ltb r.disk.size ((sector + len) % 2 ^ 32)
    then fail einval r
    else sector_loop len r.uio.rw sector r
