-- ===== src/Sfs/Bmap/Lookup.antt =====
-- Well-formed files, and the block map that sfs_bmap looks up.
use os161_testbed.Common.{
  ℕ, ◌-◌, ◌/◌, ◌%◌, ◌<◌, ◌≤◌, ◌≡◌, ◌≢◌, refl, Bool, true, false, ◌&&◌, List, ltb, ◌==◌, ◌⊎◌,
  if◌then◌else◌, length, get_or, arith, le→not_ltb, lt→ltb, Bool-cases, inl, inr, efbig, dec_lt,
  get_elem?-eq-get_or,
}
use os161_testbed.Common.Words.{get_word}
use os161_testbed.Common.Codes.{Errno}
use os161_testbed.Common.Run.{done, Ensures, returns, fails, bind}
use os161_testbed.Sfs.State.{Sfs, File, lift_fs, lift_fs-Ensures, eq_of_parts}
use os161_testbed.Sfs.Block.Retry.{with_codes, readblock_lem}
use os161_testbed.Sfs.Block.Tried.{NoInval, Tried, Tried-NoInval}
use os161_testbed.Sfs.Balloc.Free.{bused-eq-done}
use os161_testbed.Sfs.Balloc.Volume.{IsVolume, in_use, IsVolume-grown, IsDisk-codes}
use os161_testbed.Sfs.Bmap.{
  bmap, load_indirect, load_direct, hand_back, direct_block, indirect_block, indirect_entry,
}

-- A block number that a file may hold: none, or a block of the volume that is marked in use.
abbrev pub Mapped : Sfs → ℕ → Type 0
Mapped s b = (b ≡ 0) ⊎ ((b < s.nblocks) × (in_use s b ≡ true))

-- the disk block of block `n` of the file, 0 for none
abbrev pub block_of : File → ℕ → ℕ
block_of f n =
    if ltb n 15
    then get_or f.sv.i.direct n 0
    else if f.sv.i.indirect == 0
    then 0
    else get_word (f.fs.device.sectors f.sv.i.indirect) (n - 15)

pub record IsFile (f : File) : Type 0 where
  pub volume : IsVolume f.fs
  pub directs : length f.sv.i.direct ≡ 15
  pub direct : (n : ℕ) → Mapped f.fs (get_or f.sv.i.direct n 0)
  pub indirect : Mapped f.fs f.sv.i.indirect
  pub entry :
      (j : ℕ) → f.sv.i.indirect ≢ 0 → Mapped f.fs (get_word (f.fs.device.sectors f.sv.i.indirect) j)

-- the file with the codes of its disk replaced
abbrev pub file_codes : File → List Errno → File
file_codes f cs = record f { fs = with_codes f.fs cs }

pub and_false : (b : Bool) → (b && false) ≡ false
and_false true = refl
and_false false = refl

module _ {f : File} where
  pub hand_back-eq-done : (b : ℕ) → IsVolume f.fs → Mapped f.fs b → hand_back b f ≡ done b f
  unfolding hand_back lift_fs
  hand_back-eq-done b ok (inl e) = rw e refl
  hand_back-eq-done b ok (inr (lt, on)) = elim (Bool-cases (b == 0)) [
    | inl e ↦ rw (e, hand_back)
    | inr e ↦ rw (e, hand_back) (rw (bused-eq-done b ok lt, on) refl)
  ]

  pub load_direct-eq-done :
      (n : ℕ) → n < length f.sv.i.direct → load_direct n f ≡ done (get_or f.sv.i.direct n 0) f
  unfolding load_direct
  load_direct-eq-done n h = rw (get_elem?-eq-get_or f.sv.i.direct n 0 h, load_direct)

-- Block `n` is to be found in an indirect block.
abbrev pub Indirect : File → ℕ → Type 0
Indirect f n = (15 ≤ n) × (n < 143) × (f.sv.i.indirect ≢ 0)

-- The indirect block was read with the answer `e`, and nothing changed but the result codes used up.
abbrev pub ReadIndirect : File → ℕ → Errno → File → Type 0
ReadIndirect f n e t =
    Indirect f n × ((cs : List Errno) × (t ≡ file_codes f cs) × Tried 10 f.fs.device.codes e cs)

-- What a lookup of block `n` promises: the block's number, and nothing changes but by reading an indirect
-- block. It fails past the last block, and where the indirect block cannot be read.
abbrev pub Looked : File → ℕ → ℕ → File → Type 0
Looked f n b t =
    (n < 143) × (b ≡ block_of f n) × ((¬ Indirect f n × (t ≡ f)) ⊎ ReadIndirect f n 0 t)

abbrev pub NotLooked : File → ℕ → Errno → File → Type 0
NotLooked f n e t = ((143 ≤ n) × (e ≡ efbig) × (t ≡ f)) ⊎ ((e ≢ 0) × ReadIndirect f n e t)

pub IsFile-codes : {f : File} (cs : List Errno) → IsFile f → NoInval cs → IsFile (file_codes f cs)
IsFile-codes cs ok valid = record {
  volume =
      IsVolume-grown ok.volume _ ok.volume.map refl refl (λ j on. on) (IsDisk-codes ok.volume cs)
        refl valid;
  directs = ok.directs;
  direct = ok.direct;
  indirect = ok.indirect;
  entry = ok.entry;
}

module _ {f : File} (ok : IsFile f) (n : ℕ) where
  lookup_direct : n < 15 → Ensures (Looked f n) (NotLooked f n) (direct_block n false f)
  unfolding direct_block
  lookup_direct lt =
      let b = get_or f.sv.i.direct n 0 in
      rw (load_direct-eq-done {f = f} n (omega (arith, ok.directs))) (
        rw (and_false (b == 0)) (
          rw (hand_back-eq-done {f = f} b ok.volume (ok.direct n))
            (returns (omega arith, rw (lt→ltb _ _ lt), inl ((λ i. omega (arith, i.0)), refl)))))

  indirect_lt : (f.sv.i.indirect == 0) ≡ false → f.sv.i.indirect < f.fs.nblocks
  indirect_lt there = elim ok.indirect [ inl e ↦ absurd (ground arith) | inr (lt, on) ↦ lt ]

  -- the entry of an indirect block that has been read
  entry_lookup :
      (cs : List Errno)
      → 15 ≤ n
      → n < 143
      → (f.sv.i.indirect == 0) ≡ false
      → Tried 10 f.fs.device.codes 0 cs
      → Ensures (Looked f n) (NotLooked f n) (
          indirect_entry f.sv.i.indirect
            (n - 15)
            false
            (f.fs.device.sectors f.sv.i.indirect)
            (file_codes f cs))
  unfolding indirect_entry
  entry_lookup cs lo hi there tried =
      let w = get_word (f.fs.device.sectors f.sv.i.indirect) (n - 15) in
      let ok' = IsFile-codes cs ok (Tried-NoInval tried ok.volume.valid) in
      rw (and_false (w == 0)) (
        rw
          (hand_back-eq-done {f = file_codes f cs} w ok'.volume (ok'.entry (n - 15) (ground arith)))
          (returns (
            hi,
            rw (le→not_ltb n 15 lo, there),
            inr ((lo, hi, (λ z. ground arith)), (cs, refl, tried)),
          )))

  lookup_indirect :
      15 ≤ n → n < 143 → Ensures (Looked f n) (NotLooked f n) (indirect_block (n - 15) false f)
  unfolding indirect_block indirect_entry load_indirect
  lookup_indirect lo hi = elim (Bool-cases (f.sv.i.indirect == 0)) [
    | inl none_there ↦
        rw none_there (
          returns (hi, rw (le→not_ltb n 15 lo, none_there), inl ((λ i. ground (arith, i.2)), refl)))
    | inr there ↦ rw there (
        bind
          (lift_fs-Ensures f.sv (
            readblock_lem f.fs f.sv.i.indirect ok.volume.disk
              (omega (arith, indirect_lt there, ok.volume.fits)) ok.volume.valid))
          (λ idbuf t ((same, (cs, e, tried)), sv).
            rw (eq_of_parts e sv, same) (entry_lookup cs lo hi there tried))
          (λ e t ((ne, (cs, eq, tried)), sv).
            inr (ne, ((lo, hi, (λ z. ground arith)), (cs, eq_of_parts eq sv, tried)))))
  ]

-- sfs_bmap without allocation on a well-formed file, where the hardware does not answer that a
-- sector is invalid: it answers the disk block that the inode's direct entry or the indirect block on
-- disk holds, or 0 where there is none. It fails with EFBIG for every block from 143 on, and for a block
-- below only where the indirect block has to be read and the disk's last answer, once the retries after
-- EIO are over, is an error, which is then the result. Nothing changes but the device's result codes, by the reads of the indirect block. It never
-- panics.
pub bmap-lookup :
    {f : File} (n : ℕ) → IsFile f → Ensures (Looked f n) (NotLooked f n) (bmap n false f)
unfolding bmap
bmap-lookup {f} n ok = elim (dec_lt n 15) [
  | yes lt ↦ rw (lt→ltb _ _ lt) (lookup_direct ok n lt)
  | no ge ↦ elim (dec_lt n 143) [
    | yes lt ↦
        rw (le→not_ltb n 15 (omega arith), lt→ltb ((n - 15) / 128) 1 (omega arith))
          (let e : (n - 15) % 128 ≡ n - 15 = omega arith in
            rw e (lookup_indirect ok n (omega arith) lt))
    | no big ↦
        rw (le→not_ltb n 15 (omega arith), le→not_ltb ((n - 15) / 128) 1 (omega arith))
          (fails (inl (omega arith, refl, refl)))
  ]
]
