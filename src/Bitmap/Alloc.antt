-- ===== src/Bitmap/Alloc.antt =====
-- bitmap_alloc finds the lowest clear bit.
use os161_testbed.Common.{
  ℕ, zero, suc, ◌+◌, ◌*◌, ◌/◌, ◌%◌, ◌^◌, ◌≤◌, ◌<◌, ◌≡◌, refl, inl, inr, true, false, ◌||◌, Option,
  none, some, arith, ◌==◌, ◌/=◌, get_or, set, length, bit_and, ◌-◌, bit_or, enospc, Bool-cases, ◌≢◌,
  dec_lt, lt→ltb, ◌∙◌,
}
use os161_testbed.Common.Bits.{mask, test, test_ones, eq_of_tests}
use os161_testbed.Common.Codes.{Errno}
use os161_testbed.Common.Run.{Run, done, Ensures, returns, fails, mono}
use os161_testbed.Bitmap.{
  Bitmap, words, store, find_clear, take_bit, take_index, alloc_loop, alloc, unmark,
}
use os161_testbed.Bitmap.Wf.{bit, IsValid, load_lem}
use os161_testbed.Bitmap.Marks.{Bits, or-Bits, unmark-or}

-- What a search of the offsets from `o` on may answer.
abbrev FirstClear : ℕ → ℕ → Option ℕ → Type 0
FirstClear o w none = (q : ℕ) → o ≤ q → q < 8 → test w q ≡ true
FirstClear o w (some p) = (p < 8) × (test w p ≡ false) × ((q : ℕ) → o ≤ q → q < p → test w q ≡ true)

module _ (o w : ℕ) (here : test w o ≡ true) where
  FirstClear-next : (r : Option ℕ) → FirstClear (o + 1) w r → FirstClear o w r
  FirstClear-next none h = λ q lo hi. grind (arith, h q, here)
  FirstClear-next (some p) (lt, off, on) = (lt, off, λ q lo hi. grind (arith, on q, here))

find_clear-FirstClear : (n o w : ℕ) → n + o ≡ 8 → FirstClear o w (find_clear n o w)
unfolding find_clear
find_clear-FirstClear zero o w e = λ q lo hi. absurd (omega arith)
find_clear-FirstClear (suc n) o w e = elim (Bool-cases (bit_and w (mask o) == 0)) [
  | inl clear ↦ rw clear (omega arith, clear_lem clear, λ q lo hi. absurd (omega arith))
  | inr taken ↦ rw taken (
      FirstClear-next o w (taken_lem taken) (find_clear n (o + 1) w)
        (find_clear-FirstClear n (o + 1) w (omega arith)))
]
  where
    clear_lem : (bit_and w (mask o) == 0) ≡ true → test w o ≡ false
    clear_lem t = unfold test in ground arith

    taken_lem : (bit_and w (mask o) == 0) ≡ false → test w o ≡ true
    taken_lem t = unfold test in ground arith

-- The state after the bit at `i` is taken.
abbrev taken : Bitmap → ℕ → Bitmap
taken b i = record b { v = set b.v (i / 8) (bit_or (get_or b.v (i / 8) 0) (mask (i % 8))) }

-- What the loop may answer when it starts at word `ix`.
abbrev Finds : Bitmap → ℕ → Run Bitmap ℕ → Type 0
Finds b ix =
    Ensures
      (λ i b'.
        (i < b.nbits)
        × (bit b i ≡ false)
        × ((j : ℕ) → 8 * ix ≤ j → j < i → bit b j ≡ true)
        × (b' ≡ taken b i))
      (λ e b'.
        (e ≡ enospc) × (b' ≡ b) × ((j : ℕ) → 8 * ix ≤ j → j < 8 * length b.v → bit b j ≡ true))

module _ {b : Bitmap} (ok : IsValid b) (ix : ℕ) (hx : ix < length b.v) where
  -- bit `q` of word `ix`
  bit_at : (q : ℕ) → q < 8 → bit b (8 * ix + q) ≡ test (get_or b.v ix 0) q
  unfolding bit
  bit_at q h =
      let d : (8 * ix + q) / 8 ≡ ix = omega arith in
      let m : (8 * ix + q) % 8 ≡ q = omega arith in rw (d, m)

  bit_of : (j : ℕ) → 8 * ix ≤ j → j < 8 * ix + 8 → bit b j ≡ test (get_or b.v ix 0) (j - 8 * ix)
  bit_of j lo hi =
      let e : 8 * ix + (j - 8 * ix) ≡ j = omega arith in rw e at (bit_at (j - 8 * ix) (omega arith))

  -- A clear bit lies before the end, since the bits past the end are in use.
  clear_in : (q : ℕ) → q < 8 → test (get_or b.v ix 0) q ≡ false → 8 * ix + q < b.nbits
  clear_in q h off = elim (dec_lt (8 * ix + q) b.nbits) [
    | yes lt ↦ lt
    | no ge ↦ absurd (ground (arith, ok.over (8 * ix + q) (omega arith) (omega arith), bit_at q h))
  ]

  take_bit-eq-done :
      (p : ℕ)
      → p < 8
      → 8 * ix + p < b.nbits
      → take_bit ix (get_or b.v ix 0) (some p) b ≡ done (8 * ix + p) (taken b (8 * ix + p))
  unfolding take_bit take_index store
  take_bit-eq-done p h inside =
      let d : (8 * ix + p) / 8 ≡ ix = omega arith in
      let m : (8 * ix + p) % 8 ≡ p = omega arith in
      let i : (ix * 8 + p) % 2 ^ 32 ≡ 8 * ix + p = omega (arith, ok.small) in
      rw (d, m, i, lt→ltb _ _ inside)

  take_bit-Finds :
      (r : Option ℕ)
      → FirstClear 0 (get_or b.v ix 0) r
      → get_or b.v ix 0 ≢ 0xff
      → Finds b ix (take_bit ix (get_or b.v ix 0) r b)
  take_bit-Finds none on ne =
      absurd (ne (eq_of_tests _ (ok.bytes ix) (λ q h. on q (omega arith) h)))
  take_bit-Finds (some p) (lt, off, on) ne =
      let inside = clear_in p lt off in
      rw (take_bit-eq-done p lt inside) (
        returns (
          inside,
          bit_at p lt ∙ off,
          λ j lo hi. bit_of j lo (omega arith) ∙ on _ (omega arith) (omega arith),
          refl,
        ))

-- A loop that passes over a full word.
module _ (b : Bitmap) (ix : ℕ) (on : (j : ℕ) → 8 * ix ≤ j → j < 8 * ix + 8 → bit b j ≡ true) where
  on_below :
      (m : ℕ)
      → ((j : ℕ) → 8 * (ix + 1) ≤ j → j < m → bit b j ≡ true)
      → (j : ℕ) → 8 * ix ≤ j
      → j < m
      → bit b j ≡ true
  on_below m h j lo hi = elim (dec_lt j (8 * ix + 8)) [
    | yes near ↦ on j lo near
    | no far ↦ h j (omega arith) hi
  ]

  Finds-skip : {r : Run Bitmap ℕ} → Finds b (ix + 1) r → Finds b ix r
  Finds-skip h =
      mono h (λ i b' (lt, off, below, e). (lt, off, on_below i below, e))
        (λ c b' (code, e, above). (code, e, on_below (8 * length b.v) above))

alloc_loop-Finds :
    {b : Bitmap} → IsValid b → (n ix : ℕ) → n + ix ≡ length b.v → Finds b ix (alloc_loop n ix b)
unfolding alloc_loop
alloc_loop-Finds {b} ok zero ix e = fails (refl, refl, λ j lo hi. absurd (omega arith))
alloc_loop-Finds {b} ok (suc n) ix e = elim (Bool-cases (get_or b.v ix 0 /= 0xff)) [
  | inl ne ↦
      rw (load_lem b ix (omega arith), ne)
        (take_bit-Finds ok ix (omega arith) _ (find_clear-FirstClear 8 0 (get_or b.v ix 0) refl)
          (ground arith))
  | inr e255 ↦
      rw (load_lem b ix (omega arith), e255)
        (Finds-skip b ix
          (λ j lo hi.
            bit_of ok ix (omega arith) j lo hi ∙ ones (ground arith) (j - 8 * ix) (omega arith))
          (alloc_loop-Finds ok n (ix + 1) (omega arith)))
]
  where
    ones : get_or b.v ix 0 ≡ 0xff → (q : ℕ) → q < 8 → test (get_or b.v ix 0) q ≡ true
    ones w q h = rw w (test_ones q h)

-- What bitmap_alloc promises of a success, and of a failure.
abbrev pub Lowest : Bitmap → ℕ → Bitmap → Type 0
Lowest b i b' =
    (i < b.nbits)
    × (bit b i ≡ false)
    × ((j : ℕ) → j < i → bit b j ≡ true)
    × Bits b b' (λ j. i == j || bit b j)
    × (unmark i b' ≡ done tt b)

abbrev pub NoneLeft : Bitmap → Errno → Bitmap → Type 0
NoneLeft b e b' = (e ≡ enospc) × (b' ≡ b) × ((j : ℕ) → j < b.nbits → bit b j ≡ true)

-- bitmap_alloc on a valid bitmap: on success the index is the lowest clear bit, it lies in range,
-- and the new bitmap is valid and has exactly that bit set besides; unmarking the index gives the
-- old bitmap back. It fails only with ENOSPC, with the bitmap unchanged and every bit in range set.
-- It never panics and never leaves the array.
pub alloc-Lowest : {b : Bitmap} → IsValid b → Ensures (Lowest b) (NoneLeft b) (alloc b)
unfolding alloc
alloc-Lowest {b} ok =
    mono (alloc_loop-Finds ok (words b.nbits) 0 (omega (arith, ok.sized)))
      (λ i b' (lt, off, below, e).
        rw e (lt, off, λ j hi. below j (omega arith) hi, or-Bits ok i lt, unmark-or i ok lt off))
      (λ c b' (code, e, above).
        (code, e, λ j hi. above j (omega arith) (omega (arith, ok.sized, ok.small))))
