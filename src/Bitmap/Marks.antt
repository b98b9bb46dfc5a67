-- ===== src/Bitmap/Marks.antt =====
-- bitmap_mark, bitmap_unmark and bitmap_isset on a valid bitmap.
use os161_testbed.Common.{
  ℕ, ◌/◌, ◌%◌, ◌≤◌, ◌<◌, ◌≡◌, refl, ◌⊎◌, inl, inr, Bool, true, false, ◌||◌, some, arith, ◌==◌, ◌/=◌,
  not, ◌&&◌, get_or, set, bit_and, set-set, set-get_or, ◌∙◌, get_or-set_self, get_elem?,
  get_elem?-eq-get_or, ◌-◌, bit_or,
}
use os161_testbed.Common.Bits.{mask, test, bit_and-bit_or}
use os161_testbed.Common.Run.{done, panic, Ensures, returns}
use os161_testbed.Bitmap.{Bitmap, mark, unmark, isset}
use os161_testbed.Bitmap.Wf.{bit, IsValid, word_in, or-IsValid, and-IsValid, bit-or, bit-and}

-- `b'` is valid, of the same size, and has the bits that `f` says.
pub record Bits (b b' : Bitmap) (f : ℕ → Bool) : Type 0 where
  pub valid : IsValid b'
  pub size : b'.nbits ≡ b.nbits
  pub bits : (j : ℕ) → bit b' j ≡ f j

module _ {b : Bitmap} (ok : IsValid b) (i : ℕ) where
  pub or-Bits :
      (hi : i < b.nbits)
      → Bits b
          (record b { v = set b.v (i / 8) (bit_or (get_or b.v (i / 8) 0) (mask (i % 8))) })
          (λ j. i == j || bit b j)
  or-Bits hi = record {
    valid = or-IsValid ok i hi;
    size = refl;
    bits = bit-or b i (word_in ok i hi) (ok.bytes (i / 8));
  }

  in_word : i < b.nbits → get_elem? b.v (i / 8) ≡ some (get_or b.v (i / 8) 0)
  in_word hi = get_elem?-eq-get_or b.v (i / 8) 0 (word_in ok i hi)

  pub mark-eq-done :
      i < b.nbits
      → bit b i ≡ false
      → mark i b
        ≡ done tt (record b { v = set b.v (i / 8) (bit_or (get_or b.v (i / 8) 0) (mask (i % 8))) })
  unfolding mark bit test
  mark-eq-done hi clear = ground (arith, in_word hi)

  pub unmark-eq-done :
      i < b.nbits
      → bit b i ≡ true
      → unmark i b
        ≡ done tt (record b {
          v = set b.v (i / 8) (bit_and (get_or b.v (i / 8) 0) (0xff - mask (i % 8)));
        })
  unfolding unmark bit test
  unmark-eq-done hi on = ground (arith, in_word hi)

  -- bitmap_mark of a clear bit in range sets that bit, leaves every other bit, and keeps the
  -- bitmap valid; it does not panic.
  pub mark-Bits :
      i < b.nbits
      → bit b i ≡ false
      → Ensures (λ _ b'. Bits b b' (λ j. i == j || bit b j)) (λ _ _. ⊥) (mark i b)
  mark-Bits hi clear = rw (mark-eq-done hi clear) (returns (or-Bits hi))

  -- bitmap_unmark of a set bit in range clears that bit, leaves every other bit, and keeps the
  -- bitmap valid; it does not panic.
  pub unmark-Bits :
      i < b.nbits
      → bit b i ≡ true
      → Ensures (λ _ b'. Bits b b' (λ j. not (i == j) && bit b j)) (λ _ _. ⊥) (unmark i b)
  unmark-Bits hi on = rw (unmark-eq-done hi on) (
      returns (record {
        valid = and-IsValid ok i hi;
        size = refl;
        bits = bit-and b i (word_in ok i hi) (ok.bytes (i / 8));
      }))

  pub isset-eq-done :
      i < b.nbits → isset i b ≡ done (bit_and (get_or b.v (i / 8) 0) (mask (i % 8))) b
  unfolding isset
  isset-eq-done hi = ground (arith, in_word hi)

  -- bitmap_mark panics on an index past the end and on a bit that is set.
  pub mark-panic : (b.nbits ≤ i) ⊎ (bit b i ≡ true) → mark i b ≡ panic
  unfolding mark bit test
  mark-panic (inl past) = ground arith
  mark-panic (inr on) = ground (arith, in_word)

  -- bitmap_unmark panics on an index past the end and on a bit that is clear.
  pub unmark-panic : (b.nbits ≤ i) ⊎ (bit b i ≡ false) → unmark i b ≡ panic
  unfolding unmark bit test
  unmark-panic (inl past) = ground arith
  unmark-panic (inr off) = ground (arith, in_word)

  -- bitmap_isset in range answers nonzero exactly when the bit is set, and changes nothing.
  pub isset-bit :
      i < b.nbits → Ensures (λ r b'. ((r /= 0) ≡ bit b i) × (b' ≡ b)) (λ _ _. ⊥) (isset i b)
  unfolding bit test
  isset-bit hi = rw (isset-eq-done hi) (returns (refl, refl))

-- Clearing the bit just set gives back the very same bytes.
pub unmark-or :
    {b : Bitmap} (i : ℕ)
    → IsValid b
    → i < b.nbits
    → bit b i ≡ false
    → unmark i (record b { v = set b.v (i / 8) (bit_or (get_or b.v (i / 8) 0) (mask (i % 8))) })
      ≡ done tt b
unfolding bit
unmark-or {b} i ok hi clear =
    let w = get_or b.v (i / 8) 0 in
    let at = get_or-set_self b.v (i / 8) (bit_or w (mask (i % 8))) 0 (word_in ok i hi) in
    unmark-eq-done (or-IsValid ok i hi) i hi
      (bit-or b i (word_in ok i hi) (ok.bytes (i / 8)) i ∙ ground arith)
    ∙ rw (at, bit_and-bit_or w (i % 8) (ok.bytes (i / 8)) (omega arith) clear, set-set, set-get_or)
        refl
