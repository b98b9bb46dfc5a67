-- ===== src/Sfs/Block/Retry.antt =====
-- What the retries of sfs_rwblock do for a read and for a write.
use os161_testbed.Common.{
  ℕ, zero, suc, ◌+◌, ◌*◌, ◌<◌, subst, ◌≡◌, ◌≢◌, refl, false, List, ◌==◌, if◌then◌else◌, length,
  arith, update, Bool-cases, inl, inr, einval, eio,
}
use mathlib.Core.List.{append-nil}
use os161_testbed.Common.Codes.{Errno}
use os161_testbed.Common.Run.{Run, done, fail, Ensures, returns, fails, mono}
use os161_testbed.Uio.{Uio, read, write, kinit}
use os161_testbed.Uio.Move.{spent_uio}
use os161_testbed.Lhd.{Disk, Request}
use os161_testbed.Lhd.Block.{IsDisk, request, io_write, io_read, io-spent, code, left}
use os161_testbed.Sfs.State.{Sfs, zero_block, length-zero_block}
use os161_testbed.Sfs.Block.Tried.{
  NoInval, NoInval-drop, Tried, Tried-first, Tried-later, Tried-NoInval,
}
use os161_testbed.Sfs.Block.{rw_loop, settle, readblock, writeblock, run_request, contents}

-- the volume with the codes of its disk replaced
abbrev pub with_codes : Sfs → List Errno → Sfs
with_codes s cs = record s { device = record (s.device) { codes = cs } }

-- the request's uio when its bytes are gone
abbrev used : ℕ → List ℕ → Uio
used b bytes = spent_uio bytes (b * 512 + 512) write

abbrev dropped : Disk → Disk
dropped d = record d { codes = left d }

dropped-IsDisk : {d : Disk} → IsDisk d → IsDisk (dropped d)
dropped-IsDisk good = record { long = good.long; small = good.small }

rw_loop-spent :
    (d : Disk) (b : ℕ) (bytes : List ℕ) (k : ℕ)
    → IsDisk d
    → b < d.size
    → rw_loop k (request d (used b bytes)) ≡ done tt (request d (used b bytes))
unfolding rw_loop settle
rw_loop-spent d b bytes zero good hb = rw (io-spent d b good hb bytes)
rw_loop-spent d b bytes (suc k) good hb = rw (io-spent d b good hb bytes)

-- What a write of sector `b` comes to: it is retried, after a media error, on a uio that is used up.
abbrev pub write_result : Disk → ℕ → List ℕ → Run Request (Unit {0})
write_result d b bytes =
    if code d == 0
    then done tt
        (request (record d { sectors = update d.sectors b bytes; codes = left d }) (used b bytes))
    else if code d == eio
    then done tt (request (dropped d) (used b bytes))
    else fail (code d) (request (dropped d) (used b bytes))

rw_loop-write :
    (d : Disk) (b : ℕ) (bytes : List ℕ) (k : ℕ)
    → IsDisk d
    → b < d.size
    → length bytes ≡ 512
    → code d ≢ einval
    → rw_loop (suc k) (request d (kinit bytes (b * 512) write)) ≡ write_result d b bytes
unfolding rw_loop settle
rw_loop-write d b bytes k good hb hl valid = elim (Bool-cases (code d == 0)) [
  | inl e ↦ rw (io_write d b good hb bytes hl, e)
  | inr e ↦
      let v : (code d == einval) ≡ false = ground arith in
      elim (Bool-cases (code d == eio)) [
        | inl f ↦
            rw (io_write d b good hb bytes hl, e, v, f, settle)
              (rw_loop-spent (dropped d) b bytes k (dropped-IsDisk good) hb)
        | inr f ↦ rw (io_write d b good hb bytes hl, e, v, f, settle)
      ]
]

-- sfs_writeblock of a block within the disk, where the hardware does not answer that the sector is
-- invalid. If the first operation succeeds the block has the new bytes. If it fails with EIO the call
-- still returns success, and nothing is written. Any other code is returned, and nothing is written.
pub writeblock_lem :
    (s : Sfs) (block : ℕ) (bytes : List ℕ)
    → IsDisk s.device
    → block < s.device.size
    → length bytes ≡ 512
    → code s.device ≢ einval
    → writeblock block bytes s ≡ (
        if code s.device == 0
        then done tt (record s {
          device = record (s.device) {
            sectors = update s.device.sectors block bytes;
            codes = left s.device;
          };
        })
        else if code s.device == eio
        then done tt (with_codes s (left s.device))
        else fail (code s.device) (with_codes s (left s.device)))
unfolding writeblock
writeblock_lem s block bytes good hb hl valid =
    rw (rw_loop-write s.device block bytes 9 good hb hl valid)
      (elim (Bool-cases (code s.device == 0)) [
        | inl e ↦ rw (e, run_request)
        | inr e ↦ elim (Bool-cases (code s.device == eio)) [
          | inl f ↦ rw (e, f, run_request)
          | inr f ↦ rw (e, f, run_request)
        ]
      ])

-- A read of sector `b` that ends in success has its bytes, and in failure the last code.
abbrev Read : ℕ → Disk → ℕ → Request → Type 0
Read k d b r =
    (cs : List Errno) × (r
      ≡ request (record d { codes = cs }) (spent_uio (d.sectors b) (b * 512 + 512) read))
    × Tried k d.codes 0 cs

abbrev NotRead : ℕ → Disk → Errno → Request → Type 0
NotRead k d e r =
    (cs : List Errno) × (r.disk ≡ record d { codes = cs }) × Tried k d.codes e cs × (e ≢ 0)

-- the last operation that is left
rw_loop-read :
    (d : Disk) (b : ℕ) (bytes : List ℕ) (k : ℕ)
    → IsDisk d
    → b < d.size
    → length bytes ≡ 512
    → NoInval d.codes
    → Ensures
        (λ _ r. Read k d b r)
        (NotRead k d)
        (rw_loop k (request d (kinit bytes (b * 512) read)))
unfolding rw_loop settle
rw_loop-read d b bytes zero good hb hl valid =
    rw (io_read d b good hb bytes hl) (elim (Bool-cases (code d == 0)) [
      | inl e ↦
          let zero_code : code d ≡ 0 = ground arith in
          rw e (
            returns (
              left d,
              refl,
              subst (λ c. Tried 0 d.codes c (left d)) zero_code (Tried-first 0 d.codes (λ _. refl)),
            ))
      | inr e ↦
          let v : (code d == einval) ≡ false = ground (arith, valid 0) in
          elim (Bool-cases (code d == eio)) [
            | inl f ↦
                let media : code d ≡ eio = ground arith in
                rw (e, v, f, settle)
                  (fails (
                    left d,
                    refl,
                    subst (λ c. Tried 0 d.codes c (left d)) media
                        (Tried-first 0 d.codes (λ _. refl)),
                    omega arith,
                  ))
            | inr f ↦
                rw (e, v, f, settle)
                  (fails (left d, refl, Tried-first 0 d.codes (λ _. refl), ground arith))
          ]
    ])
rw_loop-read d b bytes (suc k) good hb hl valid =
    rw (io_read d b good hb bytes hl) (elim (Bool-cases (code d == 0)) [
      | inl e ↦
          let zero_code : code d ≡ 0 = ground arith in
          rw e (
            returns (
              left d,
              refl,
              subst (λ c. Tried (suc k) d.codes c (left d)) zero_code
                  (Tried-first (suc k) d.codes (λ m. absurd (omega arith))),
            ))
      | inr e ↦
          let v : (code d == einval) ≡ false = ground (arith, valid 0) in
          elim (Bool-cases (code d == eio)) [
            | inl f ↦
                let media : code d ≡ eio = ground arith in
                rw (e, v, f, settle)
                  (mono
                    (rw_loop-read (dropped d) b bytes k (dropped-IsDisk good) hb hl
                      (NoInval-drop d.codes valid))
                    (λ _ r (cs, same, h). (cs, same, Tried-later k d.codes media h))
                    (λ _ r (cs, same, h, ne). (cs, same, Tried-later k d.codes media h, ne)))
            | inr f ↦
                rw (e, v, f, settle)
                  (fails (
                    left d,
                    refl,
                    Tried-first (suc k) d.codes (λ m. absurd (ground arith)),
                    ground arith,
                  ))
          ]
    ])

-- What a read of a block promises: the volume is as before but for the codes used up.
abbrev pub ReadExactly : Sfs → ℕ → List ℕ → Sfs → Type 0
ReadExactly s block bytes t =
    (bytes ≡ s.device.sectors block)
    × ((cs : List Errno) × (t ≡ with_codes s cs) × Tried 10 s.device.codes 0 cs)

abbrev pub FailedExactly : Sfs → Errno → Sfs → Type 0
FailedExactly s e t =
    (e ≢ 0) × ((cs : List Errno) × (t ≡ with_codes s cs) × Tried 10 s.device.codes e cs)

-- sfs_readblock of a block within the disk, where the hardware never answers that the sector is invalid:
-- it retries operations that answer EIO, ten times at most, and ends with the answer of the first one that
-- is another, or with EIO when all eleven answered it. On success it returns the block's bytes, and
-- otherwise that code, and changes nothing but the result codes used up.
pub readblock_lem :
    (s : Sfs) (block : ℕ)
    → IsDisk s.device
    → block < s.device.size
    → NoInval s.device.codes
    → Ensures (ReadExactly s block) (FailedExactly s) (readblock block s)
unfolding readblock
readblock_lem s block good hb valid =
    finish _ (rw_loop-read s.device block zero_block 10 good hb length-zero_block valid)
  where
    finish :
        (r : Run Request (Unit {0}))
        → Ensures (λ _ q. Read 10 s.device block q) (NotRead 10 s.device) r
        → Ensures (ReadExactly s block) (FailedExactly s) (run_request s contents r)
    finish r (returns (cs, e, h)) = returns (rw e (append-nil _), (cs, rw e, h))
    finish r (fails (cs, e, h, ne)) = fails (ne, (cs, rw e, h))

-- the same, without what the codes were
abbrev pub Reads : Sfs → ℕ → List ℕ → Sfs → Type 0
Reads s block bytes t =
    (bytes ≡ s.device.sectors block) × ((cs : List Errno) × (t ≡ with_codes s cs) × NoInval cs)

abbrev pub Unread : Sfs → Errno → Sfs → Type 0
Unread s e t = (e ≢ 0) × ((cs : List Errno) × (t ≡ with_codes s cs) × NoInval cs)

pub readblock-Reads :
    (s : Sfs) (block : ℕ)
    → IsDisk s.device
    → block < s.device.size
    → NoInval s.device.codes
    → Ensures (Reads s block) (Unread s) (readblock block s)
readblock-Reads s block good hb valid =
    mono (readblock_lem s block good hb valid)
      (λ _ t (same, (cs, e, h)). (same, (cs, e, Tried-NoInval h valid)))
      (λ _ t (ne, (cs, e, h)). (ne, (cs, e, Tried-NoInval h valid)))
