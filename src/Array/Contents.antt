-- ===== src/Array/Contents.antt =====
-- The entries in use of an array, and what growth and removal make of them.
use os161_testbed.Common.{
  ℕ, zero, suc, ◌+◌, ◌-◌, ◌<◌, ◌≤◌, ◌≡◌, refl, ap, ◌∙◌, List, [], ◌∷◌, ◌++◌, leb, length, take,
  drop, arith, lt→ltb, true, length-append,
}
use os161_testbed.Common.Run.{Ensures, returns}
use os161_testbed.Array.{Array, remove_at}

abbrev pub contents : Array → List ℕ
contents a = take a.num a.v

-- The entries in use fit in the capacity, which is the size of the allocation.
pub record IsArray (a : Array) : Type 0 where
  pub sized : length a.v ≡ a.max
  pub fits : a.num ≤ a.max

minus_one : (n : ℕ) → suc n - 1 ≡ n
minus_one n = omega arith

module _ {A : Type 0} where
  pub length-take : (n : ℕ) (xs : List A) → n ≤ length xs → length (take n xs) ≡ n
  length-take zero xs h = refl
  length-take (suc n) [] h = absurd (omega arith)
  length-take (suc n) (x ∷ xs) h = ap suc (length-take n xs (omega arith))

  pub length-drop : (n : ℕ) (xs : List A) → n ≤ length xs → length (drop n xs) + n ≡ length xs
  length-drop zero xs h = omega arith
  length-drop (suc n) [] h = absurd (omega arith)
  length-drop (suc n) (x ∷ xs) h = omega (arith, length-drop n xs (omega arith))

  pub take-append : (n : ℕ) (xs ys : List A) → n ≤ length xs → take n (take n xs ++ ys) ≡ take n xs
  take-append zero xs ys h = refl
  take-append (suc n) [] ys h = absurd (omega arith)
  take-append (suc n) (x ∷ xs) ys h = ap (λ r. x ∷ r) (take-append n xs ys (omega arith))

  -- Moving the entries after entry `i` down by one place.
  moved_down :
      (i num : ℕ) (xs ys : List A)
      → i < num
      → num ≤ length xs
      → take (num - 1) (take i xs ++ (take (num - (i + 1)) (drop (i + 1) xs) ++ ys))
        ≡ take i (take num xs) ++ drop (i + 1) (take num xs)
  moved_down i zero xs ys lt h = absurd (omega arith)
  moved_down i (suc m) [] ys lt h = absurd (omega arith)
  moved_down zero (suc m) (x ∷ xs) ys lt h = rw (minus_one m) (take-append m xs ys (omega arith))
  moved_down (suc i) (suc zero) (x ∷ xs) ys lt h = absurd (omega arith)
  moved_down (suc i) (suc (suc m)) (x ∷ xs) ys lt h =
      let next : suc i + 1 ≡ suc (i + 1) = omega arith in
      let left : suc (suc m) - suc (i + 1) ≡ suc m - (i + 1) = omega arith in
      rw (next, left, minus_one (suc m))
        (ap (λ r. x ∷ r)
          (rw (minus_one m) at (moved_down i (suc m) xs ys (omega arith) (omega arith))))

-- array_remove of an entry in use takes that entry out and keeps the others in order.
pub remove_at-contents :
    {a : Array} (index : ℕ)
    → IsArray a
    → index < a.num
    → Ensures
        (λ _ b. (contents b ≡ take index (contents a) ++ drop (index + 1) (contents a)) × IsArray b)
        (λ _ _. ⊥)
        (remove_at index a)
unfolding remove_at
remove_at-contents {a} index ok lt =
    let small : leb a.num a.max ≡ true = ground (arith, ok.fits) in
    let k = a.num - (index + 1) in
    rw (small, lt→ltb index a.num lt)
      (returns (
        moved_down index a.num a.v _ lt (omega (arith, ok.fits, ok.sized)),
        record {
          sized =
              length-append (take index a.v) _
              ∙ omega (
                arith,
                ok.fits,
                ok.sized,
                length-append (take k (drop (index + 1) a.v)) (drop (index + k) a.v),
                length-take index a.v (omega (arith, ok.fits, ok.sized)),
                length-drop (index + 1) a.v (omega (arith, ok.fits, ok.sized)),
                length-drop (index + k) a.v (omega (arith, ok.fits, ok.sized)),
                length-take k (drop (index + 1) a.v) (
                    omega (
                      arith,
                      ok.fits,
                      ok.sized,
                      length-drop (index + 1) a.v (omega (arith, ok.fits, ok.sized)),
                    )),
              );
          fits = omega (arith, ok.fits);
        },
      ))
