-- ===== src/Sfs/Balloc/Volume.antt =====
-- Block allocation on a well-formed volume.
use os161_testbed.Common.{
  ℕ, ◌<◌, ◌≤◌, ◌≡◌, ◌≢◌, refl, ◌∙◌, Bool, true, false, ◌||◌, List, ◌==◌, length, arith, update,
  lt→ltb, Bool-cases, inl, inr, eio, dec_lt,
}
use os161_testbed.Common.Codes.{Errno}
use os161_testbed.Common.Run.{Run, and_then, Ensures, returns, fails}
use os161_testbed.Bitmap.{Bitmap}
use os161_testbed.Bitmap.Wf.{bit, IsValid}
use os161_testbed.Bitmap.Alloc.{Lowest, NoneLeft, alloc-Lowest}
use os161_testbed.Lhd.Block.{IsDisk, code, left}
use os161_testbed.Sfs.State.{Sfs, zero_block, length-zero_block}
use os161_testbed.Sfs.Block.Retry.{writeblock_lem}
use os161_testbed.Sfs.Block.Tried.{NoInval, NoInval-drop}
use os161_testbed.Sfs.Balloc.{
  balloc, set_dirty, check_block, clear_new, undo, on_freemap, clearblock,
}

-- A well-formed volume: the free map covers the blocks, every bit past the last block and the
-- superblock's bit are in use, the blocks lie on the disk, and no request is out of range.
pub record IsVolume (s : Sfs) : Type 0 where
  pub map : IsValid s.freemap
  pub covers : s.nblocks ≤ s.freemap.nbits
  pub past : (b : ℕ) → s.nblocks ≤ b → b < s.freemap.nbits → bit s.freemap b ≡ true
  pub super : bit s.freemap 0 ≡ true
  pub disk : IsDisk s.device
  pub fits : s.nblocks ≤ s.device.size
  pub valid : NoInval s.device.codes

-- whether block `b` is marked in use
abbrev pub in_use : Sfs → ℕ → Bool
in_use s b = bit s.freemap b

-- What sfs_balloc promises of the block `b`. If the write of zeros succeeds at once, they are there; after
-- a media error the block has its old contents.
pub record Allocated (s : Sfs) (b : ℕ) (t : Sfs) : Type 0 where
  pub range : b < s.nblocks
  pub nonzero : b ≢ 0
  pub was_free : in_use s b ≡ false
  pub marks : (j : ℕ) → in_use t j ≡ (b == j || in_use s j)
  pub blocks : t.nblocks ≡ s.nblocks
  pub dirty : t.freemapdirty ≡ true
  pub others : (j : ℕ) → b ≢ j → t.device.sectors j ≡ s.device.sectors j
  pub cleared : code s.device ≡ 0 → t.device.sectors b ≡ zero_block
  pub stale : code s.device ≢ 0 → (code s.device ≡ eio) × (t.device.sectors b ≡ s.device.sectors b)
  pub rest : t.device.codes ≡ left s.device
  pub volume : IsVolume t

-- What a failure of sfs_balloc leaves.
pub record Unallocated (s : Sfs) (e : Errno) (t : Sfs) : Type 0 where
  pub error : e ≢ 0
  pub map : t.freemap ≡ s.freemap
  pub sectors : t.device.sectors ≡ s.device.sectors
  pub blocks : t.nblocks ≡ s.nblocks
  pub volume : IsVolume t

-- A volume whose map has grown, on a disk that is still good.
module _ {s : Sfs} (ok : IsVolume s) where
  pub IsVolume-grown :
      (t : Sfs)
      → IsValid t.freemap
      → t.freemap.nbits ≡ s.freemap.nbits
      → t.nblocks ≡ s.nblocks
      → ((j : ℕ) → in_use s j ≡ true → in_use t j ≡ true)
      → IsDisk t.device
      → t.device.size ≡ s.device.size
      → NoInval t.device.codes
      → IsVolume t
  IsVolume-grown t map nbits nblocks grows disk size valid = record {
    map = map;
    covers = omega (arith, ok.covers);
    past = λ b lo hi. grows b (ok.past b (omega arith) (omega arith));
    super = grows 0 ok.super;
    disk = disk;
    fits = omega (arith, ok.fits);
    valid = valid;
  }

  -- a sector of 512 bytes written, or the codes alone used up
  pub IsDisk-update :
      (b : ℕ) (bytes : List ℕ) (cs : List Errno)
      → length bytes ≡ 512
      → IsDisk (record (s.device) { sectors = update s.device.sectors b bytes; codes = cs })
  IsDisk-update b bytes cs hl = record {
    long = λ n. elim (Bool-cases (b == n)) [ inl e ↦ rw e hl | inr e ↦ rw e (ok.disk.long n) ];
    small = ok.disk.small;
  }

  pub IsDisk-codes : (cs : List Errno) → IsDisk (record (s.device) { codes = cs })
  IsDisk-codes cs = record { long = ok.disk.long; small = ok.disk.small }

  -- the volume once `b` is marked and the map is dirty
  abbrev marked : Bitmap → Sfs
  marked m = record s { freemap = m; freemapdirty = true }

free_in_range :
    {s : Sfs} → IsVolume s → (b : ℕ) → b < s.freemap.nbits → in_use s b ≡ false → b < s.nblocks
free_in_range {s} ok b lt free = elim (dec_lt b s.nblocks) [
  | yes h ↦ h
  | no h ↦ absurd (ground (arith, ok.past b (omega arith) lt))
]

module _ {s : Sfs} (ok : IsVolume s) (b : ℕ) (m : Bitmap) (found : Lowest s.freemap b m) where
  grows : (j : ℕ) → in_use s j ≡ true → bit m j ≡ true
  grows j on = let bits = found.3 in bits.bits j ∙ ground arith

  nonzero_block : b ≢ 0
  nonzero_block e = ground (arith, ok.super, found.1)

  Allocated-of :
      (t : Sfs)
      → b < s.nblocks
      → t.freemap ≡ m
      → t.nblocks ≡ s.nblocks
      → t.freemapdirty ≡ true
      → ((j : ℕ) → b ≢ j → t.device.sectors j ≡ s.device.sectors j)
      → (code s.device ≡ 0 → t.device.sectors b ≡ zero_block)
      → (code s.device ≢ 0 → (code s.device ≡ eio) × (t.device.sectors b ≡ s.device.sectors b))
      → t.device.codes ≡ left s.device
      → IsDisk t.device
      → t.device.size ≡ s.device.size
      → Allocated s b t
  Allocated-of t lt map blocks dirty others cleared stale rest disk size =
      let bits = found.3 in
      record {
        range = lt;
        nonzero = nonzero_block;
        was_free = found.1;
        marks = λ j. rw map (bits.bits j);
        blocks = blocks;
        dirty = dirty;
        others = others;
        cleared = cleared;
        stale = stale;
        rest = rest;
        volume =
            IsVolume-grown ok t (rw map bits.valid) (rw map bits.size) blocks
              (λ j on. rw map (grows j on)) disk size
              (rw rest (NoInval-drop s.device.codes ok.valid));
      }

  clear_new-Allocated :
      b < s.nblocks → Ensures (Allocated s) (Unallocated s) (clear_new b (marked ok m))
  unfolding clear_new undo clearblock on_freemap
  clear_new-Allocated lt =
      let (_, _, _, _, back) = found in
      let w =
        writeblock_lem (marked ok m) b zero_block ok.disk (omega (arith, ok.fits)) length-zero_block
          (ok.valid 0) in
      rw w (elim (Bool-cases (code s.device == 0)) [
        | inl e ↦ rw e (
            returns (
              Allocated-of _ lt refl refl refl (λ j ne. ground arith) (λ _. ground arith)
                (λ z. absurd (ground arith)) refl
                (IsDisk-update ok b zero_block (left s.device) length-zero_block) refl))
        | inr e ↦ elim (Bool-cases (code s.device == eio)) [
          | inl f ↦
              rw (e, f)
                (returns (
                  Allocated-of _ lt refl refl refl (λ j ne. refl) (λ z. ground arith)
                    (λ _. (ground arith, refl)) refl (IsDisk-codes ok (left s.device)) refl))
          | inr f ↦
              rw (e, f, back)
                (fails (record {
                  error = ground arith;
                  map = refl;
                  sectors = refl;
                  blocks = refl;
                  volume =
                      IsVolume-grown ok _ ok.map refl refl (λ j on. on)
                        (IsDisk-codes ok (left s.device)) refl
                        (NoInval-drop s.device.codes ok.valid);
                }))
        ]
      ])

-- sfs_balloc on a well-formed volume: on success the block is one of the volume's, not block 0, was
-- free and is now the only block newly marked in use; no other block's contents change. The block holds
-- zeros if the write of zeros succeeds at once; otherwise the write answered EIO, and the call succeeds
-- with the block's old contents. A failure has a code that is not 0 and
-- leaves the free map and the disk's contents as they were. The volume stays well-formed, and the
-- call never panics.
pub balloc-Allocated : {s : Sfs} → IsVolume s → Ensures (Allocated s) (Unallocated s) (balloc s)
unfolding balloc
balloc-Allocated {s} ok = from_map _ (alloc-Lowest ok.map)
  where
    rest_of :
        (b : ℕ) (m : Bitmap)
        → Lowest s.freemap b m
        → Ensures
            (Allocated s)
            (Unallocated s)
            (and_then (check_block b (marked ok m)) (λ _. clear_new b))
    rest_of b m found =
        rw (lt→ltb _ _ (free_in_range ok b found.0 found.1))
          (clear_new-Allocated ok b m found (free_in_range ok b found.0 found.1))

    from_map :
        (r : Run Bitmap ℕ)
        → Ensures (Lowest s.freemap) (NoneLeft s.freemap) r
        → Ensures (Allocated s) (Unallocated s) (
            and_then (on_freemap s r) (λ b.
              λ t. and_then (set_dirty t) (λ _ t. and_then (check_block b t) (λ _. clear_new b))))
    from_map r (returns {a = b} {s = m} found) = rest_of b m found
    from_map r (fails {s = m} (code, same, full)) = fails (record {
      error = omega arith;
      map = same;
      sectors = refl;
      blocks = refl;
      volume =
          IsVolume-grown ok _ (rw same ok.map) (rw same) refl (λ j on. rw same on) ok.disk refl
            ok.valid;
    })
