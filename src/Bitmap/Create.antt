-- ===== src/Bitmap/Create.antt =====
-- bitmap_create makes a valid bitmap with every bit in range clear.
use os161_testbed.Common.{
  ℕ, zero, suc, ◌+◌, ◌*◌, ◌/◌, ◌%◌, ◌^◌, ◌<◌, ◌≡◌, refl, inl, inr, true, false, ◌||◌, Option, none,
  some, arith, ◌==◌, ◌&&◌, get_or, set, length, ltb, ◌-◌, bit_or, Bool-cases, ==_iff, lt→ltb,
  ltb→lt, ◌∙◌, sym, replicate, get_or-replicate, length-replicate, length-set, leb,
}
use os161_testbed.Common.Bits.{mask, bit_or-lt, zero-test}
use os161_testbed.Common.Run.{Run, Ensures, returns, mono}
use os161_testbed.Bitmap.{Bitmap, words, store, fill_over, mark_over, create}
use os161_testbed.Bitmap.Wf.{bit, IsValid, load_lem, bit-or_at, bytes-set}

-- A bitmap whose words are all bytes, with a word for every bit.
record IsSized (b : Bitmap) : Type 0 where
  small : b.nbits + 7 < 2 ^ 32
  sized : length b.v ≡ words b.nbits
  bytes : (k : ℕ) → get_or b.v k 0 < 256

-- The loop over the spare bits of a word sets the bits from `i` on and no other.
record Filled (b : Bitmap) (i : ℕ) (b' : Bitmap) : Type 0 where
  good : IsSized b'
  size : b'.nbits ≡ b.nbits
  long : length b'.v ≡ length b.v
  bits : (k : ℕ) → k < 8 * length b.v → bit b' k ≡ (leb i k || bit b k)

-- The bitmap after one round.
abbrev put : Bitmap → ℕ → ℕ → Bitmap
put b ix j = record b { v = set b.v ix (bit_or (get_or b.v ix 0) (mask j)) }

module _ {b : Bitmap} (ix j : ℕ) (ok : IsSized b) (hj : j < 8) (hx : ix < length b.v) where
  put-IsSized : IsSized (put b ix j)
  put-IsSized = record {
    small = ok.small;
    sized = length-set b.v ix _ ∙ ok.sized;
    bytes = bytes-set b.v ix _ ok.bytes (bit_or-lt _ j (ok.bytes ix) hj);
  }

  Filled-put : {b' : Bitmap} → Filled (put b ix j) (8 * ix + (j + 1)) b' → Filled b (8 * ix + j) b'
  Filled-put f = record {
    good = f.good;
    size = f.size;
    long = f.long ∙ length-set b.v ix _;
    bits = λ k h. ground (
      arith,
      f.bits k (omega (arith, length-set b.v ix (bit_or (get_or b.v ix 0) (mask j)))),
      bit-or_at b ix j k hx hj (ok.bytes ix),
    );
  }

fill_over-Filled :
    (b : Bitmap) (n j ix : ℕ)
    → IsSized b
    → n + j ≡ 8
    → suc ix ≡ length b.v
    → Ensures (λ _ b'. Filled b (8 * ix + j) b') (λ _ _. ⊥) (fill_over n j ix b)
unfolding fill_over store
fill_over-Filled b zero j ix ok e last =
    returns (record { good = ok; size = refl; long = refl; bits = λ k h. ground arith })
fill_over-Filled b (suc n) j ix ok e last =
    let hj : j < 8 = omega arith in
    let hx : ix < length b.v = omega arith in
    rw (load_lem b ix hx) (
      mono
        (fill_over-Filled (put b ix j) n (j + 1) ix (put-IsSized ix j ok hj hx) (omega arith)
          (last ∙ sym (length-set b.v ix _)))
        (λ _ b' f. Filled-put ix j ok hj hx f) (λ e s h. h))

abbrev zeros : ℕ → Bitmap
zeros nbits = record { nbits = nbits; v = replicate (words nbits) 0 }

zeros-IsSized : (nbits : ℕ) → nbits + 7 < 2 ^ 32 → IsSized (zeros nbits)
zeros-IsSized nbits h = record {
  small = h;
  sized = length-replicate {A = ℕ} (words nbits) 0;
  bytes = λ k. rw (get_or-replicate {A = ℕ} (words nbits) k 0) (omega arith);
}

bit-zeros : (nbits i : ℕ) → bit (zeros nbits) i ≡ false
unfolding bit
bit-zeros nbits i = rw (get_or-replicate {A = ℕ} (words nbits) (i / 8) 0) (zero-test (i % 8))

-- What bitmap_create promises of a new bitmap.
abbrev pub Fresh : ℕ → Bitmap → Type 0
Fresh nbits b = IsValid b × (b.nbits ≡ nbits) × ((i : ℕ) → i < nbits → bit b i ≡ false)

Fresh-of_Filled :
    (nbits : ℕ) {b : Bitmap} → nbits + 7 < 2 ^ 32 → Filled (zeros nbits) nbits b → Fresh nbits b
Fresh-of_Filled nbits {b} h f =
    let len = length-replicate {A = ℕ} (words nbits) 0 in
    (
      record {
        small = f.good.small;
        sized = f.good.sized;
        bytes = f.good.bytes;
        over = λ i lo hi. f.bits i (omega (arith, f.long)) ∙ ground (arith, f.size);
      },
      f.size,
      λ i hi. f.bits i (omega (arith, len)) ∙ ground (arith, bit-zeros nbits i),
    )

module _ (nbits : ℕ) (h : nbits + 7 < 2 ^ 32) where
  abbrev last_ix : ℕ
  last_ix = words nbits - 1

  abbrev overbits : ℕ
  overbits = (nbits + 2 ^ 32 - last_ix * 8) % 2 ^ 32

  -- With bits left over, both assertions hold, and the loop starts at bit `nbits`.
  spare :
      ltb (nbits / 8) (words nbits) ≡ true
      → ((nbits / 8 == words nbits - 1) ≡ true)
        × ((ltb 0 overbits && ltb overbits 8) ≡ true)
        × (8 * last_ix + overbits ≡ nbits)
        × (8 - overbits + overbits ≡ 8)
        × (suc last_ix ≡ words nbits)
  spare more =
      let lt = ltb→lt _ _ more in
      let e : overbits ≡ nbits - last_ix * 8 = omega arith in
      (
        (==_iff _ _).1 (omega arith),
        (let a = lt→ltb 0 overbits (omega arith) in
            let b = lt→ltb overbits 8 (omega arith) in rw (a, b)),
        omega arith,
        omega arith,
        omega arith,
      )

mark_over-Fresh :
    (nbits : ℕ)
    → nbits + 7 < 2 ^ 32
    → Ensures (λ _ b. Fresh nbits b) (λ _ _. ⊥) (mark_over nbits (zeros nbits))
unfolding mark_over
mark_over-Fresh nbits h = elim (Bool-cases (ltb (nbits / 8) (words nbits))) [
  | inl more ↦
      let (first, second, start, rounds, last) = spare nbits h more in
      rw (more, first, second)
        (mono
          (fill_over-Filled (zeros nbits) (8 - overbits nbits h) (overbits nbits h)
            (last_ix nbits h) (zeros-IsSized nbits h) rounds
            (last ∙ sym (length-replicate (words nbits) 0)))
          (λ _ b f. Fresh-of_Filled nbits h (rw start at f)) (λ e s no. no))
  | inr none_left ↦ rw none_left (
      returns (
        Fresh-of_Filled nbits h (record {
          good = zeros-IsSized nbits h;
          size = refl;
          long = refl;
          bits = λ k lt. ground (arith, length-replicate {A = ℕ} (words nbits) 0);
        })))
]

abbrev pub Created : ℕ → Option (Run Bitmap (Unit {0})) → Type 0
Created nbits none = ⊥
Created nbits (some r) = Ensures (λ _ b. Fresh nbits b) (λ _ _. ⊥) r

-- If both allocations succeed, bitmap_create of a number of bits below 2^32 - 7 returns a valid
-- bitmap of that size with every bit in range clear; its assertions hold and no index leaves the array.
pub create-Fresh : (nbits : ℕ) → nbits + 7 < 2 ^ 32 → Created nbits (create nbits true true)
unfolding create
create-Fresh nbits h = mark_over-Fresh nbits h
