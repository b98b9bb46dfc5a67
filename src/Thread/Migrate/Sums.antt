-- ===== src/Thread/Migrate/Sums.antt =====
-- Sums over the cpus, and how often a thread stands on a list.
use os161_testbed.Common.{
  ℕ, zero, suc, ◌+◌, ◌*◌, ◌<◌, ◌≤◌, ◌≡◌, ◌≢◌, refl, List, [], ◌∷◌, ◌++◌, ◌==◌, if◌then◌else◌, arith,
  ℕ_discrete, sym, length,
}

abbrev pub occurrences : (t : ℕ) → List ℕ → ℕ
occurrences t [] = 0
occurrences t (x ∷ xs) = (if x == t then 1 else 0) + occurrences t xs

pub occurrences-append :
    (t : ℕ) (xs ys : List ℕ) → occurrences t (xs ++ ys) ≡ occurrences t xs + occurrences t ys
occurrences-append t [] ys = omega arith
occurrences-append t (x ∷ xs) ys = omega (arith, occurrences-append t xs ys)

pub occurrences-le-length : (t : ℕ) (xs : List ℕ) → occurrences t xs ≤ length xs
occurrences-le-length t [] = omega arith
occurrences-le-length t (x ∷ xs) = let rest = occurrences-le-length t xs in ground arith

-- f 0 + ... + f (n - 1)
abbrev pub sum : (n : ℕ) → (ℕ → ℕ) → ℕ
sum zero f = 0
sum (suc n) f = sum n f + f n

pub sum_mono : (n : ℕ) (f g : ℕ → ℕ) → ((i : ℕ) → i < n → f i ≤ g i) → sum n f ≤ sum n g
sum_mono zero f g h = omega arith
sum_mono (suc n) f g h =
    omega (arith, sum_mono n f g (λ i lt. h i (omega arith)), h n (omega arith))

pub sum-eq : (n : ℕ) (f g : ℕ → ℕ) → ((i : ℕ) → i < n → f i ≡ g i) → sum n f ≡ sum n g
sum-eq zero f g h = refl
sum-eq (suc n) f g h = omega (arith, sum-eq n f g (λ i lt. h i (omega arith)), h n (omega arith))

pub sum-const : (n k : ℕ) → sum n (λ _. k) ≡ n * k
sum-const zero k = omega arith
sum-const (suc n) k = let rest = sum-const n k in grind arith

-- One term changes.
pub sum-change :
    (n c : ℕ) (f g : ℕ → ℕ) → c < n → ((i : ℕ) → i ≢ c → f i ≡ g i) → sum n f + g c ≡ sum n g + f c
sum-change zero c f g lt h = absurd (omega arith)
sum-change (suc n) c f g lt h = elim (ℕ_discrete n c) [
  | yes e ↦
      let below = sum-eq n f g (λ i lt'. h i (λ e'. omega arith)) in
      rw (sym e) (omega (arith, below))
  | no ne ↦ omega (arith, sum-change n c f g (omega (arith, ne)) h, h n ne)
]
