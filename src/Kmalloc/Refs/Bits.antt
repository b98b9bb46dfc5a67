-- ===== src/Kmalloc/Refs/Bits.antt =====
-- The bits of a word of pagerefs_inuse, and how many are set.
use os161_testbed.Common.{
  ℕ, zero, suc, ◌+◌, ◌*◌, ◌/◌, ◌%◌, ◌<◌, ◌≤◌, ◌≡◌, ◌≢◌, inl, inr, refl, ap, true, false, List, [],
  ◌∷◌, Option, none, some, arith, ◌==◌, length, get_or, set, Bool-cases, subst, ==_iff,
}
use os161_testbed.Kmalloc.Refs.{bit_of, set_bit, clear_bit, first_clear}

pub bit_of-set_bit_self : (w j : ℕ) → bit_of (set_bit w j) j ≡ true
unfolding bit_of set_bit
bit_of-set_bit_self w zero = ground arith
bit_of-set_bit_self w (suc j) =
    let half : (set_bit (w / 2) j * 2 + w % 2) / 2 ≡ set_bit (w / 2) j = omega arith in
    rw half (bit_of-set_bit_self (w / 2) j)

pub bit_of-set_bit_ne : (w i j : ℕ) → i ≢ j → bit_of (set_bit w i) j ≡ bit_of w j
unfolding bit_of set_bit
bit_of-set_bit_ne w zero zero ne = absurd (ne refl)
bit_of-set_bit_ne w zero (suc j) ne =
    let half : (w / 2 * 2 + 1) / 2 ≡ w / 2 = omega arith in rw half refl
bit_of-set_bit_ne w (suc i) zero ne =
    let low : (set_bit (w / 2) i * 2 + w % 2) % 2 ≡ w % 2 = omega arith in rw low refl
bit_of-set_bit_ne w (suc i) (suc j) ne =
    let half : (set_bit (w / 2) i * 2 + w % 2) / 2 ≡ set_bit (w / 2) i = omega arith in
    rw half (bit_of-set_bit_ne (w / 2) i j (λ e. ne (ap suc e)))

pub bit_of-clear_bit_ne : (w i j : ℕ) → i ≢ j → bit_of (clear_bit w i) j ≡ bit_of w j
unfolding bit_of clear_bit
bit_of-clear_bit_ne w zero zero ne = absurd (ne refl)
bit_of-clear_bit_ne w zero (suc j) ne =
    let half : w / 2 * 2 / 2 ≡ w / 2 = omega arith in rw half refl
bit_of-clear_bit_ne w (suc i) zero ne =
    let low : (clear_bit (w / 2) i * 2 + w % 2) % 2 ≡ w % 2 = omega arith in rw low refl
bit_of-clear_bit_ne w (suc i) (suc j) ne =
    let half : (clear_bit (w / 2) i * 2 + w % 2) / 2 ≡ clear_bit (w / 2) i = omega arith in
    rw half (bit_of-clear_bit_ne (w / 2) i j (λ e. ne (ap suc e)))

-- 2 ^ n - 1
unfoldable pub ones : (n : ℕ) → ℕ
ones zero = 0
ones (suc n) = ones n * 2 + 1

pub set_bit-le-ones : (n j w : ℕ) → j < n → w ≤ ones n → set_bit w j ≤ ones n
unfolding set_bit ones
set_bit-le-ones zero j w lt le = absurd (omega arith)
set_bit-le-ones (suc n) zero w lt le = omega arith
set_bit-le-ones (suc n) (suc j) w lt le =
    omega (arith, set_bit-le-ones n j (w / 2) (omega arith) (omega arith))

pub clear_bit-le : (w j : ℕ) → clear_bit w j ≤ w
unfolding clear_bit
clear_bit-le w zero = omega arith
clear_bit-le w (suc j) = omega (arith, clear_bit-le (w / 2) j)

eq-ones : (n w : ℕ) → w ≤ ones n → ((j : ℕ) → j < n → bit_of w j ≡ true) → w ≡ ones n
unfolding ones bit_of
eq-ones zero w le all = omega arith
eq-ones (suc n) w le all =
    let low : w % 2 ≡ 1 = ground (arith, all 0 (omega arith)) in
    omega (arith, eq-ones n (w / 2) (omega arith) (λ j lt. all (suc j) (omega arith)))

-- What the search of a word finds: a clear bit, or none.
abbrev Clear : (n j w : ℕ) → Option ℕ → Type 0
Clear n j w none = (i : ℕ) → j ≤ i → i < j + n → bit_of w i ≡ true
Clear n j w (some i) = (i < j + n) × (bit_of w i ≡ false)

first_clear-Clear : (n j w : ℕ) → Clear n j w (first_clear n j w)
unfolding first_clear
first_clear-Clear zero j w = λ i lo hi. absurd (omega arith)
first_clear-Clear (suc n) j w = elim (Bool-cases (bit_of w j)) [
  | inl on ↦ rw on (later (first_clear n (j + 1) w) on (first_clear-Clear n (j + 1) w))
  | inr off ↦ rw off (omega arith, off)
]
  where
    later : (o : Option ℕ) → bit_of w j ≡ true → Clear n (j + 1) w o → Clear (suc n) j w o
    later none on all = λ i lo hi. elim (Bool-cases (j == i)) [
      | inl e ↦ subst (λ k. bit_of w k ≡ true) ((==_iff j i).0 e) on
      | inr ne ↦ all i (ground arith) (omega arith)
    ]
    later (some i) on found = (omega arith, found.1)

-- A word that is not full has a clear bit.
pub first_clear-some :
    (w : ℕ)
    → w ≤ 0xffffffff
    → w ≢ 0xffffffff
    → (j : ℕ) × (j < 32) × (first_clear 32 0 w ≡ some j) × (bit_of w j ≡ false)
unfolding ones
first_clear-some w le ne = go (first_clear 32 0 w) refl (first_clear-Clear 32 0 w)
  where
    go :
        (o : Option ℕ)
        → first_clear 32 0 w ≡ o
        → Clear 32 0 w o
        → (j : ℕ) × (j < 32) × (first_clear 32 0 w ≡ some j) × (bit_of w j ≡ false)
    go none e all = absurd (ne (eq-ones 32 w le (λ j lt. all j (omega arith) (omega arith))))
    go (some j) e found = (j, omega arith, e, found.1)

-- how many of the lowest n bits are set
unfoldable pub count : (n w : ℕ) → ℕ
count zero w = 0
count (suc n) w = count n (w / 2) + w % 2

count-set_bit : (n w j : ℕ) → j < n → bit_of w j ≡ false → count n (set_bit w j) ≡ count n w + 1
unfolding count set_bit bit_of
count-set_bit zero w j lt off = absurd (omega arith)
count-set_bit (suc n) w zero lt off =
    let half : (w / 2 * 2 + 1) / 2 ≡ w / 2 = omega arith in
    let low : w % 2 ≡ 0 = ground arith in rw half (omega arith)
count-set_bit (suc n) w (suc j) lt off =
    let half : (set_bit (w / 2) j * 2 + w % 2) / 2 ≡ set_bit (w / 2) j = omega arith in
    rw half (omega (arith, count-set_bit n (w / 2) j (omega arith) off))

count-clear_bit : (n w j : ℕ) → j < n → bit_of w j ≡ true → count n (clear_bit w j) + 1 ≡ count n w
unfolding count clear_bit bit_of
count-clear_bit zero w j lt on = absurd (omega arith)
count-clear_bit (suc n) w zero lt on =
    let half : w / 2 * 2 / 2 ≡ w / 2 = omega arith in
    let low : w % 2 ≡ 1 = ground arith in rw half (omega arith)
count-clear_bit (suc n) w (suc j) lt on =
    let half : (clear_bit (w / 2) j * 2 + w % 2) / 2 ≡ clear_bit (w / 2) j = omega arith in
    rw half (omega (arith, count-clear_bit n (w / 2) j (omega arith) on))

-- how many bits are set in all words
unfoldable pub total : List ℕ → ℕ
total [] = 0
total (w ∷ ws) = count 32 w + total ws

total-set :
    (ws : List ℕ) (i w : ℕ)
    → i < length ws
    → total (set ws i w) + count 32 (get_or ws i 0) ≡ total ws + count 32 w
unfolding total
total-set [] i w lt = absurd (omega arith)
total-set (v ∷ ws) zero w lt = omega arith
total-set (v ∷ ws) (suc i) w lt = omega (arith, total-set ws i w (omega arith))

module _ (ws : List ℕ) (i j : ℕ) (lt : i < length ws) (bit : j < 32) where
  pub total-set_bit :
      bit_of (get_or ws i 0) j ≡ false → total (set ws i (set_bit (get_or ws i 0) j)) ≡ total ws + 1
  total-set_bit off = omega (
    arith,
    total-set ws i (set_bit (get_or ws i 0) j) lt,
    count-set_bit 32 (get_or ws i 0) j bit off,
  )

  pub total-clear_bit :
      bit_of (get_or ws i 0) j ≡ true
      → total (set ws i (clear_bit (get_or ws i 0) j)) + 1 ≡ total ws
  total-clear_bit on = omega (
    arith,
    total-set ws i (clear_bit (get_or ws i 0) j) lt,
    count-clear_bit 32 (get_or ws i 0) j bit on,
  )
