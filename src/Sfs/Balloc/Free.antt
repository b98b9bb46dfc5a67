-- ===== src/Sfs/Balloc/Free.antt =====
-- Freeing a block of a well-formed volume, and asking whether one is in use.
use os161_testbed.Common.{ℕ, ◌<◌, ◌≡◌, ◌≢◌, refl, ◌∙◌, true, not, ◌&&◌, ◌==◌, arith, lt→ltb}
use os161_testbed.Common.Run.{Run, done, and_then, Ensures, returns, fails}
use os161_testbed.Common.Bits.{test}
use os161_testbed.Bitmap.{Bitmap}
use os161_testbed.Bitmap.Wf.{bit}
use os161_testbed.Bitmap.Marks.{Bits, unmark-Bits, isset-eq-done}
use os161_testbed.Sfs.State.{Sfs}
use os161_testbed.Sfs.Balloc.{bfree, bused, set_dirty, on_freemap}
use os161_testbed.Sfs.Balloc.Volume.{IsVolume, in_use}

-- What sfs_bfree promises of block `b`.
pub record Freed (s : Sfs) (b : ℕ) (t : Sfs) : Type 0 where
  pub marks : (j : ℕ) → in_use t j ≡ (not (b == j) && in_use s j)
  pub device : t.device ≡ s.device
  pub blocks : t.nblocks ≡ s.nblocks
  pub dirty : t.freemapdirty ≡ true
  pub volume : IsVolume t

-- sfs_bfree of a block in use, other than the superblock, on a well-formed volume marks that block
-- free and no other, marks the map dirty, touches no contents, and keeps the volume well-formed; the
-- call never panics.
pub bfree-Freed :
    {s : Sfs} (b : ℕ)
    → IsVolume s
    → b < s.nblocks
    → b ≢ 0
    → in_use s b ≡ true
    → Ensures (λ _ t. Freed s b t) (λ _ _. ⊥) (bfree b s)
unfolding bfree
bfree-Freed {s} b ok lt ne on = go _ (unmark-Bits ok.map b (omega (arith, ok.covers)) on)
  where
    go :
        (r : Run Bitmap (Unit {0}))
        → Ensures (λ _ m. Bits s.freemap m (λ j. not (b == j) && bit s.freemap j)) (λ _ _. ⊥) r
        → Ensures (λ _ t. Freed s b t) (λ _ _. ⊥) (and_then (on_freemap s r) (λ _. set_dirty))
    go r (returns bits) = returns (record {
      marks = bits.bits;
      device = refl;
      blocks = refl;
      dirty = refl;
      volume = record {
        map = bits.valid;
        covers = omega (arith, ok.covers, bits.size);
        past = λ j lo hi. bits.bits j ∙ ground (arith, ok.past j lo (omega (arith, bits.size)));
        super = bits.bits 0 ∙ ground (arith, ok.super);
        disk = ok.disk;
        fits = ok.fits;
        valid = ok.valid;
      };
    })
    go r (fails f) = absurd f

-- sfs_bused of a block of a well-formed volume says whether it is marked in use, and changes nothing.
pub bused-eq-done : {s : Sfs} (b : ℕ) → IsVolume s → b < s.nblocks → bused b s ≡ done (in_use s b) s
unfolding bused bit test
bused-eq-done {s} b ok lt = rw (lt→ltb _ _ lt, isset-eq-done ok.map b (omega (arith, ok.covers)))
