-- ===== src/Libc/Order.antt =====
-- strcmp.
use os161_testbed.Common.{
  ℕ, zero, suc, ◌+◌, ◌<◌, ◌≡◌, ◌↔◌, inl, inr, refl, subst, true, false, ltb, ◌==◌, ◌/=◌,
  if◌then◌else◌, arith, Bool-cases, List, [], ◌∷◌, length, some,
}
use os161_testbed.Libc.{Memory, strcmp, Sign, minus_one, nought, one, sign}
use os161_testbed.Libc.Strings.{IsString}

-- how strcmp orders two strings
abbrev pub order : List ℕ → List ℕ → Sign
order [] [] = nought
order [] (d ∷ ds) = minus_one
order (c ∷ cs) [] = one
order (c ∷ cs) (d ∷ ds) = let rest = order cs ds in if c == d then rest else sign c d

strcmp_from :
    (fuel i a b : ℕ) (mem : Memory) (s t : List ℕ)
    → length s < fuel
    → IsString mem (a + i) s
    → IsString mem (b + i) t
    → strcmp fuel i a b mem ≡ some (order s t)
unfolding strcmp sign
strcmp_from zero i a b mem s t lt ok ok' = absurd (omega arith)
strcmp_from (suc fuel) i a b mem [] [] lt ok ok' = rw (ok, ok') refl
strcmp_from (suc fuel) i a b mem [] (d ∷ ds) lt ok ok' =
    let e : (0 == d) ≡ false = ground (arith, ok'.1) in
    let f : ltb d 0 ≡ false = ground arith in rw (ok, ok'.0, f, e) refl
strcmp_from (suc fuel) i a b mem (c ∷ cs) [] lt ok ok' =
    let e : (c == 0) ≡ false = ground (arith, ok.1) in
    let f : (c /= 0) ≡ true = ground (arith, ok.1) in
    let g : ltb 0 c ≡ true = ground (arith, ok.1) in rw (ok.0, ok', f, e, g) refl
strcmp_from (suc fuel) i a b mem (c ∷ cs) (d ∷ ds) lt ok ok' =
    let f : (c /= 0) ≡ true = ground (arith, ok.1) in
    let g : a + i + 1 ≡ a + (i + 1) = omega arith in
    let h : b + i + 1 ≡ b + (i + 1) = omega arith in
    let rest =
      strcmp_from fuel (i + 1) a b mem cs ds (omega arith) (subst (λ p. IsString mem p cs) g ok.2)
        (subst (λ p. IsString mem p ds) h ok'.2) in
    elim (Bool-cases (c == d)) [
      | inl e ↦ rw (ok.0, ok'.0, f, e) rest
      | inr e ↦ rw (ok.0, ok'.0, f, e) refl
    ]

order-eq : (s t : List ℕ) → order s t ≡ nought → s ≡ t
unfolding sign
order-eq [] [] e = refl
order-eq [] (d ∷ ds) e = absurd (ground arith)
order-eq (c ∷ cs) [] e = absurd (ground arith)
order-eq (c ∷ cs) (d ∷ ds) e = elim (Bool-cases (c == d)) [
  | inl f ↦
      let same : c ≡ d = ground arith in
      let rest : order cs ds ≡ nought = rw f at e in rw (same, order-eq cs ds rest) refl
  | inr f ↦ absurd (ground arith)
]

order_refl : (s : List ℕ) → order s s ≡ nought
order_refl [] = refl
order_refl (c ∷ cs) = let f : (c == c) ≡ true = ground arith in rw f (order_refl cs)

-- strcmp of two strings, with fuel for the first, ends and answers their order by unsigned characters; the
-- answer is 0 just when the strings are the same.
pub strcmp-order :
    (fuel a b : ℕ) (mem : Memory) (s t : List ℕ)
    → length s < fuel
    → IsString mem a s
    → IsString mem b t
    → (strcmp fuel 0 a b mem ≡ some (order s t)) × ((order s t ≡ nought) ↔ (s ≡ t))
strcmp-order fuel a b mem s t lt ok ok' =
    let e : a ≡ a + 0 = omega arith in
    let f : b ≡ b + 0 = omega arith in
    (
      strcmp_from fuel 0 a b mem s t lt (subst (λ p. IsString mem p s) e ok)
          (subst (λ p. IsString mem p t) f ok'),
      (order-eq s t, λ g. subst (λ u. order s u ≡ nought) g (order_refl s)),
    )
