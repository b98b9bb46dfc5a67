-- ===== src/Common/Bits.antt =====
-- Bits of an `unsigned char`. Each law over a byte is checked at all values by evaluation.
use Prim.Native.Nat.{ℕ, zero, suc, ◌-◌, ◌^◌, ◌<◌, bit_and, bit_or, bit_and-bitwise}
use mathlib.Core.Path.{◌≡◌, refl}
use mathlib.Core.Bool.{Bool, true, false, not, ◌&&◌, ◌||◌}
use native.Mathlib.Omega.{arith}
use os161_testbed.Common.Tests.{◌==◌, ◌/=◌, ltb, same, same_eq, ltb→lt, ==_iff}

-- `((WORD_TYPE)1) << offset`, with an offset below 8
abbrev pub mask : ℕ → ℕ
mask offset = 2 ^ offset

-- bit `p` of the byte `w`
unfoldable pub test : ℕ → ℕ → Bool
test w p = bit_and w (mask p) /= 0

-- Does `law` hold at every number under `bound`?
unfoldable pub all_below : (bound : ℕ) → (law : ℕ → Bool) → Bool
all_below zero law = true
all_below (suc bound) law = all_below bound law && law bound

pub all_below_sound :
    (bound : ℕ) (law : ℕ → Bool) (i : ℕ) → all_below bound law ≡ true → i < bound → law i ≡ true
unfolding all_below
all_below_sound zero law i all below = absurd (omega arith)
all_below_sound (suc bound) law i all below =
    let earlier = all_below_sound bound law i in ground (arith, earlier)

abbrev bytes_bits : (ℕ → ℕ → Bool) → Bool
bytes_bits p = all_below 256 (λ w. all_below 8 (p w))

bytes_bits_sound :
    (p : ℕ → ℕ → Bool) (w o : ℕ) → bytes_bits p ≡ true → w < 256 → o < 8 → p w o ≡ true
bytes_bits_sound p w o h hw ho =
    all_below_sound 8 (p w) o (all_below_sound 256 (λ w. all_below 8 (p w)) w h hw) ho

abbrev or_law : ℕ → ℕ → ℕ → Bool
or_law p w o = same (test (bit_or w (mask o)) p) (o == p || test w p)

abbrev or_laws : ℕ → ℕ → Bool
or_laws w o = ltb (bit_or w (mask o)) 256 && all_below 8 (λ p. or_law p w o)

abbrev and_law : ℕ → ℕ → ℕ → Bool
and_law p w o = same (test (bit_and w (255 - mask o)) p) (not (o == p) && test w p)

abbrev and_laws : ℕ → ℕ → Bool
and_laws w o = ltb (bit_and w (255 - mask o)) 256 && all_below 8 (λ p. and_law p w o)

abbrev undo_law : ℕ → ℕ → Bool
undo_law w o = test w o || bit_and (bit_or w (mask o)) (255 - mask o) == w

or_table : bytes_bits or_laws ≡ true
unfolding all_below test
or_table = refl

and_table : bytes_bits and_laws ≡ true
unfolding all_below test
and_table = refl

undo_table : bytes_bits undo_law ≡ true
unfolding all_below test
undo_table = refl

module _ (w o : ℕ) (hw : w < 256) (ho : o < 8) where
  pub bit_or-lt : bit_or w (mask o) < 256
  bit_or-lt = let h = bytes_bits_sound or_laws w o or_table hw ho in ltb→lt _ _ (ground arith)

  pub bit_and-lt : bit_and w (255 - mask o) < 256
  bit_and-lt = let h = bytes_bits_sound and_laws w o and_table hw ho in ltb→lt _ _ (ground arith)

  pub test-bit_or : (p : ℕ) → p < 8 → test (bit_or w (mask o)) p ≡ (o == p || test w p)
  test-bit_or p hp =
      let h = bytes_bits_sound or_laws w o or_table hw ho in
      same_eq _ _ (all_below_sound 8 (λ p. or_law p w o) p (ground arith) hp)

  pub test-bit_and :
      (p : ℕ) → p < 8 → test (bit_and w (255 - mask o)) p ≡ (not (o == p) && test w p)
  test-bit_and p hp =
      let h = bytes_bits_sound and_laws w o and_table hw ho in
      same_eq _ _ (all_below_sound 8 (λ p. and_law p w o) p (ground arith) hp)

  pub bit_and-bit_or : test w o ≡ false → bit_and (bit_or w (mask o)) (255 - mask o) ≡ w
  bit_and-bit_or clear =
      let h = bytes_bits_sound undo_law w o undo_table hw ho in (==_iff _ w).0 (ground arith)

-- A byte with all eight bits set is 0xff.
abbrev full_law : ℕ → Bool
full_law w =
    let low = test w 0 && test w 1 && test w 2 && test w 3 in
    let high = test w 4 && test w 5 && test w 6 && test w 7 in same (w == 0xff) (low && high)

full_table : all_below 256 full_law ≡ true
unfolding all_below test
full_table = refl

ones_table : all_below 8 (test 0xff) ≡ true
unfolding all_below test
ones_table = refl

pub test_ones : (q : ℕ) → q < 8 → test 0xff q ≡ true
test_ones q h = all_below_sound 8 (test 0xff) q ones_table h

pub eq_of_tests : (w : ℕ) → w < 256 → ((q : ℕ) → q < 8 → test w q ≡ true) → w ≡ 0xff
eq_of_tests w h all =
    let t = all_below_sound 256 full_law w full_table h in
    (==_iff w 0xff).0 (
      ground (
        arith,
        t,
        all 0 (omega arith),
        all 1 (omega arith),
        all 2 (omega arith),
        all 3 (omega arith),
        all 4 (omega arith),
        all 5 (omega arith),
        all 6 (omega arith),
        all 7 (omega arith),
      ))

pub zero-test : (q : ℕ) → test 0 q ≡ false
unfolding test
zero-test q = rw (bit_and-bitwise 0 (mask q))
