-- ===== src/Bitmap/Wf.antt =====
-- The bits of a bitmap, and the representation invariant of `struct bitmap`.
use os161_testbed.Common.{
  ℕ, ◌+◌, ◌*◌, ◌/◌, ◌%◌, ◌^◌, ◌≤◌, ◌<◌, ◌≡◌, inl, inr, Bool, true, false, ◌||◌, arith, ◌==◌, bit_or,
  bit_and, not, ◌&&◌, get_or, set, length, length-set, get_or-set_self, get_or-set_ne,
  get_elem?-eq-get_or, Bool-cases, ==_iff, ap, ◌∙◌, zero, suc, List, [], ◌∷◌, ◌-◌,
}
use os161_testbed.Common.Bits.{mask, test, test-bit_or, test-bit_and, bit_or-lt, bit_and-lt}
use os161_testbed.Common.Run.{done}
use os161_testbed.Bitmap.{Bitmap, words, load}

-- whether bit `i` is set
unfoldable pub bit : Bitmap → ℕ → Bool
bit b i = test (get_or b.v (i / 8) 0) (i % 8)

-- `v` has a word for every bit, each word is a byte, and the bits past the end are in use.
pub record IsValid (b : Bitmap) : Type 0 where
  pub small : b.nbits + 7 < 2 ^ 32
  pub sized : length b.v ≡ words b.nbits
  pub bytes : (k : ℕ) → get_or b.v k 0 < 256
  pub over : (i : ℕ) → b.nbits ≤ i → i < 8 * length b.v → bit b i ≡ true

pub load_lem : (b : Bitmap) (ix : ℕ) → ix < length b.v → load ix b ≡ done (get_or b.v ix 0) b
unfolding load
load_lem b ix h = ground (arith, get_elem?-eq-get_or b.v ix 0 h)

-- Two indices in the same word differ in their offsets.
split_eq : (i j : ℕ) → i / 8 ≡ j / 8 → (i % 8 == j % 8) ≡ (i == j)
split_eq i j e = ground arith

module _ (b : Bitmap) (i : ℕ) (hi : i / 8 < length b.v) (hw : get_or b.v (i / 8) 0 < 256) where
  abbrev word : ℕ
  word = get_or b.v (i / 8) 0

  pub bit-set_word :
      (j w : ℕ)
      → bit (record b { v = set b.v (i / 8) w }) j
        ≡ test (elim (i / 8 == j / 8) [ true ↦ w | false ↦ get_or b.v (j / 8) 0 ]) (j % 8)
  unfolding bit
  bit-set_word j w = elim (Bool-cases (i / 8 == j / 8)) [
    | inl e ↦ rw e (ground (arith, get_or-set_self b.v (i / 8) w 0))
    | inr e ↦ rw e (ground (arith, get_or-set_ne b.v (i / 8) (j / 8) w 0))
  ]

  -- `v[ix] |= mask` sets bit `i` and no other.
  pub bit-or :
      (j : ℕ)
      → bit (record b { v = set b.v (i / 8) (bit_or word (mask (i % 8))) }) j ≡ (i == j || bit b j)
  unfolding bit
  bit-or j = bit-set_word j (bit_or word (mask (i % 8))) ∙ elim (Bool-cases (i / 8 == j / 8)) [
    | inl e ↦ rw e (
        ground (
          arith,
          test-bit_or word (i % 8) hw (omega arith) (j % 8) (omega arith),
          split_eq i j ((==_iff _ _).0 e),
          ap (λ k. get_or b.v k 0) ((==_iff (i / 8) (j / 8)).0 e),
        ))
    | inr e ↦ rw e (ground arith)
  ]

  -- `v[ix] &= ~mask` clears bit `i` and no other.
  pub bit-and :
      (j : ℕ)
      → bit (record b { v = set b.v (i / 8) (bit_and word (0xff - mask (i % 8))) }) j
        ≡ (not (i == j) && bit b j)
  unfolding bit
  bit-and j =
      bit-set_word j (bit_and word (0xff - mask (i % 8))) ∙ elim (Bool-cases (i / 8 == j / 8)) [
        | inl e ↦ rw e (
            ground (
              arith,
              test-bit_and word (i % 8) hw (omega arith) (j % 8) (omega arith),
              split_eq i j ((==_iff _ _).0 e),
              ap (λ k. get_or b.v k 0) ((==_iff (i / 8) (j / 8)).0 e),
            ))
        | inr e ↦ rw e (ground arith)
      ]

-- The same, for offset `j` of word `ix`.
pub bit-or_at :
    (b : Bitmap) (ix j k : ℕ)
    → ix < length b.v
    → j < 8
    → get_or b.v ix 0 < 256
    → bit (record b { v = set b.v ix (bit_or (get_or b.v ix 0) (mask j)) }) k
      ≡ (8 * ix + j == k || bit b k)
bit-or_at b ix j k hi hj hw =
    let d : (8 * ix + j) / 8 ≡ ix = omega arith in
    let m : (8 * ix + j) % 8 ≡ j = omega arith in
    rw (d, m) at (bit-or b (8 * ix + j) (rw d hi) (rw d hw) k)

-- A write of a byte to a word keeps every word a byte.
pub bytes-set :
    (v : List ℕ) (ix w : ℕ)
    → ((k : ℕ) → get_or v k 0 < 256)
    → w < 256
    → (k : ℕ) → get_or (set v ix w) k 0 < 256
bytes-set [] ix w h hw k = h k
bytes-set (x ∷ xs) zero w h hw zero = hw
bytes-set (x ∷ xs) zero w h hw (suc k) = h (suc k)
bytes-set (x ∷ xs) (suc ix) w h hw zero = h zero
bytes-set (x ∷ xs) (suc ix) w h hw (suc k) = bytes-set xs ix w (λ n. h (suc n)) hw k

module _ {b : Bitmap} (ok : IsValid b) (i : ℕ) (hi : i < b.nbits) where
  pub word_in : i / 8 < length b.v
  word_in = omega (arith, ok.sized, ok.small)

  pub or-IsValid :
      IsValid (record b { v = set b.v (i / 8) (bit_or (get_or b.v (i / 8) 0) (mask (i % 8))) })
  or-IsValid = record {
    small = ok.small;
    sized = length-set b.v (i / 8) _ ∙ ok.sized;
    bytes = bytes-set b.v (i / 8) _ ok.bytes (bit_or-lt _ (i % 8) (ok.bytes (i / 8)) (omega arith));
    over = λ j past inside. ground (
      arith,
      bit-or b i word_in (ok.bytes (i / 8)) j,
      ok.over j past
          (omega (arith, length-set b.v (i / 8) (bit_or (get_or b.v (i / 8) 0) (mask (i % 8))))),
    );
  }

  pub and-IsValid :
      IsValid
        (record b { v = set b.v (i / 8) (bit_and (get_or b.v (i / 8) 0) (0xff - mask (i % 8))) })
  and-IsValid = record {
    small = ok.small;
    sized = length-set b.v (i / 8) _ ∙ ok.sized;
    bytes =
        bytes-set b.v (i / 8) _ ok.bytes (bit_and-lt _ (i % 8) (ok.bytes (i / 8)) (omega arith));
    over = λ j past inside. ground (
      arith,
      bit-and b i word_in (ok.bytes (i / 8)) j,
      ok.over j past (
          omega
            (arith, length-set b.v (i / 8) (bit_and (get_or b.v (i / 8) 0) (0xff - mask (i % 8))))),
    );
  }
