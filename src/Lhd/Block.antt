-- ===== src/Lhd/Block.antt =====
-- lhd_io on a request for one sector from a kernel buffer.
use os161_testbed.Common.{
  ℕ, ◌+◌, ◌*◌, ◌/◌, ◌%◌, ◌^◌, ◌<◌, ◌≡◌, refl, false, List, [], ◌∷◌, ltb, ◌==◌, if◌then◌else◌,
  length, get_or, drop, replicate, length-replicate, arith, update, le→not_ltb, Bool-cases, inl,
  inr,
}
use os161_testbed.Common.Codes.{Errno}
use os161_testbed.Common.Run.{done, fail}
use os161_testbed.Uio.{Uio, read, write, kinit}
use os161_testbed.Uio.Move.{uiomove-kinit, spent_uio}
use os161_testbed.Lhd.{Disk, Request, io, operate}

-- Every sector has 512 bytes, and sector numbers fit in 32 bits.
pub record IsDisk (d : Disk) : Type 0 where
  pub long : (n : ℕ) → length (d.sectors n) ≡ 512
  pub small : d.size < 2 ^ 32

abbrev pub request : Disk → Uio → Request
request d u = record { disk = d; uio = u }

-- the result code of the next operation, and the codes after it
abbrev pub code : Disk → Errno
code d = get_or d.codes 0 0

abbrev pub left : Disk → List Errno
left d = drop 1 d.codes

module _ (d : Disk) (b : ℕ) (good : IsDisk d) (hb : b < d.size) where
  aligned :
      (b * 512 % 512 ≡ 0)
      × (b * 512 / 512 % 2 ^ 32 ≡ b)
      × (ltb d.size ((b + 1) % 2 ^ 32) ≡ false)
      × ((b * 512 + 512) % 512 ≡ 0)
      × ((b * 512 + 512) / 512 % 2 ^ 32 ≡ (b + 1) % 2 ^ 32)
      × (ltb d.size (((b + 1) % 2 ^ 32 + 0) % 2 ^ 32) ≡ false)
  aligned =
      let s = good.small in
      (
        omega arith,
        omega arith,
        le→not_ltb _ _ (omega arith),
        omega arith,
        omega arith,
        le→not_ltb _ _ (omega arith),
      )

  -- A request whose uio has no bytes left succeeds and does nothing.
  pub io-spent :
      (bytes : List ℕ)
      → io (request d (spent_uio bytes (b * 512 + 512) write))
        ≡ done tt (request d (spent_uio bytes (b * 512 + 512) write))
  unfolding io
  io-spent bytes = let (_, _, _, e, f, g) = aligned in rw (e, f, g)

  operate_lem :
      (u : Uio)
      → operate d.codes (request d u) ≡ (
          if code d == 0
          then done tt (record { disk = record d { codes = left d }; uio = u })
          else fail (code d) (record { disk = record d { codes = left d }; uio = u }))
  unfolding operate
  operate_lem u = go d.codes refl
    where
      go :
          (cs : List Errno)
          → cs ≡ d.codes
          → operate cs (request d u) ≡ (
              if get_or cs 0 0 == 0
              then done tt (record { disk = record d { codes = drop 1 cs }; uio = u })
              else fail (get_or cs 0 0) (record { disk = record d { codes = drop 1 cs }; uio = u }))
      go [] e = rw e refl
      go (c ∷ cs) e = refl

  module _ (bytes : List ℕ) (hd : length bytes ≡ 512) where
    one : length bytes / 512 ≡ 1
    one = omega arith

    whole : length bytes % 512 ≡ 0
    whole = omega arith

    -- A write takes the caller's bytes before it starts the operation, so its uio is used up whether
    -- the operation succeeds or not.
    pub io_write : io (request d (kinit bytes (b * 512) write)) ≡ (
        if code d == 0
        then done tt (record {
          disk = record d { sectors = update d.sectors b bytes; codes = left d };
          uio = spent_uio bytes (b * 512 + 512) write;
        })
        else fail (code d) (record {
          disk = record d { codes = left d };
          uio = spent_uio bytes (b * 512 + 512) write;
        }))
    unfolding io
    io_write =
        let (p, q, r, _, _, _) = aligned in
        let m =
          uiomove-kinit (replicate 512 0) bytes (b * 512) 512 write (length-replicate {A = ℕ} 512 0)
            hd (omega arith) (omega arith) in
        elim (Bool-cases (code d == 0)) [
          | inl e ↦ rw (one, whole, p, q, r, m, operate_lem, e)
          | inr e ↦ rw (one, whole, p, q, r, m, operate_lem, e)
        ]

    -- A read that fails leaves its uio as it was.
    pub io_read : io (request d (kinit bytes (b * 512) read)) ≡ (
        if code d == 0
        then done tt (record {
          disk = record d { codes = left d };
          uio = spent_uio (d.sectors b) (b * 512 + 512) read;
        })
        else fail
            (code d)
            (record { disk = record d { codes = left d }; uio = kinit bytes (b * 512) read }))
    unfolding io
    io_read =
        let (p, q, r, _, _, _) = aligned in
        let m =
          uiomove-kinit (d.sectors b) bytes (b * 512) 512 read (good.long b) hd (omega arith)
            (omega arith) in
        elim (Bool-cases (code d == 0)) [
          | inl e ↦ rw (one, whole, p, q, r, operate_lem, e, m)
          | inr e ↦ rw (one, whole, p, q, r, operate_lem, e)
        ]
