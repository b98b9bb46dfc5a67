-- ===== src/Sfs/Block.antt =====
-- Block I/O of os161/kern/fs/sfs/sfs_io.c: sfs_rwblock with its retries, sfs_readblock,
-- sfs_writeblock. The caller of sfs_readblock gets the buffer that its request filled.
pub mod Tried
pub mod Retry
use os161_testbed.Common.{ℕ, zero, suc, ◌*◌, List, [], ◌∷◌, ◌++◌, ◌==◌, if◌then◌else◌, einval, eio}
use os161_testbed.Common.Codes.{Errno}
use os161_testbed.Common.Run.{Run, done, fail, panic, fault, stuck, Cmd}
use os161_testbed.Uio.{Uio, Iovec, kinit, read, write}
use os161_testbed.Lhd.{Disk, Request, io}
use os161_testbed.Sfs.State.{Sfs, blocksize, zero_block}

-- What sfs_rwblock does with the code that DEVOP_IO returned; `again` is the retry, if one is left.
settle : Run Request (Unit {0}) → (again : Cmd Request (Unit {0})) → Run Request (Unit {0})
settle (done u r) again = done u r
settle (fail e r) again = if e == einval then panic else if e == eio then again r else fail e r
settle panic again = panic
settle fault again = fault
settle stuck again = stuck

-- The loop at `retry`, with the retries left. (`tries` counts from 0 to 10.)
rw_loop : ℕ → Cmd Request (Unit {0})
rw_loop zero r = settle (io r) (fail eio)
rw_loop (suc k) r = settle (io r) (rw_loop k)

-- sfs_rwblock
unfoldable pub rwblock : Cmd Request (Unit {0})
unfolding settle rw_loop io
rwblock = rw_loop 10

-- the bytes of the caller's buffer after a request with one iovec
abbrev pub contents : Uio → List ℕ
contents u = bytes u.iov
  where
    bytes : List Iovec → List ℕ
    bytes [] = []
    bytes (v ∷ vs) = v.past ++ v.rest

run_request : {A : Type 0} → Sfs → (Uio → A) → Run Request (Unit {0}) → Run Sfs A
run_request s result (done u r) = done (result r.uio) (record s { device = r.disk })
run_request s result (fail e r) = fail e (record s { device = r.disk })
run_request s result panic = panic
run_request s result fault = fault
run_request s result stuck = stuck

-- sfs_readblock, into a buffer whose old contents do not matter
unfoldable pub readblock : ℕ → Cmd Sfs (List ℕ)
unfolding rwblock run_request
readblock block s =
    run_request s contents
      (rwblock (record { disk = s.device; uio = kinit zero_block (block * blocksize) read }))

-- sfs_writeblock
unfoldable pub writeblock : ℕ → List ℕ → Cmd Sfs (Unit {0})
unfolding rwblock run_request
writeblock block bytes s =
    run_request s (λ _. tt)
      (rwblock (record { disk = s.device; uio = kinit bytes (block * blocksize) write }))
