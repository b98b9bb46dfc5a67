-- ===== src/Libc/Copied.antt =====
-- When a block is copied, and copies of two parts as a copy of the whole.
use os161_testbed.Common.{
  ℕ, zero, suc, ◌+◌, ◌-◌, ◌<◌, ◌≤◌, ◌≡◌, ◌⊎◌, inl, inr, refl, subst, ap, ◌∙◌, true, false, ltb,
  ◌==◌, arith, Bool-cases,
}
use os161_testbed.Libc.{Memory, copy_char, copy_long}

-- The block at dst is the old block at src, and all else is as it was.
pub record Copied (dst src len : ℕ) (mem mem' : Memory) : Type 0 where
  pub inside : (i : ℕ) → i < len → mem' (dst + i) ≡ mem (src + i)
  pub outside : (a : ℕ) → (a < dst) ⊎ (dst + len ≤ a) → mem' a ≡ mem a

pub copy_char-Copied : (d s : ℕ) (mem : Memory) → Copied d s 1 mem (copy_char d s mem)
copy_char-Copied d s mem = record {
  inside = λ i lt.
      let e : (d == d + i) ≡ true = ground arith in
      let f : s + i ≡ s = omega arith in rw (e, f) refl;
  outside = λ a o. let e : (d == a) ≡ false = ground arith in rw e refl;
}

pub copy_long-Copied : (d s : ℕ) (mem : Memory) → Copied d s 4 mem (copy_long d s mem)
unfolding copy_long
copy_long-Copied d s mem = record { inside = byte; outside = same }
  where
    byte : (i : ℕ) → i < 4 → copy_long d s mem (d + i) ≡ mem (s + i)
    byte zero lt =
        let z : d + 0 ≡ d = omega arith in
        let w : s + 0 ≡ s = omega arith in
        let e : (d + 1 == d) ≡ false = ground arith in
        let f : (d + 2 == d) ≡ false = ground arith in
        let g : (d + 3 == d) ≡ false = ground arith in
        let h : (d == d) ≡ true = ground arith in rw (z, w, e, f, g, h) refl
    byte (suc zero) lt =
        let f : (d + 2 == d + 1) ≡ false = ground arith in
        let g : (d + 3 == d + 1) ≡ false = ground arith in
        let h : (d + 1 == d + 1) ≡ true = ground arith in rw (f, g, h) refl
    byte (suc (suc zero)) lt =
        let g : (d + 3 == d + 2) ≡ false = ground arith in
        let h : (d + 2 == d + 2) ≡ true = ground arith in rw (g, h) refl
    byte (suc (suc (suc zero))) lt = let h : (d + 3 == d + 3) ≡ true = ground arith in rw h refl
    byte (suc (suc (suc (suc i)))) lt = absurd (omega arith)

    same : (a : ℕ) → (a < d) ⊎ (d + 4 ≤ a) → copy_long d s mem a ≡ mem a
    same a o =
        let e : (d + 1 == a) ≡ false = ground arith in
        let f : (d + 2 == a) ≡ false = ground arith in
        let g : (d + 3 == a) ≡ false = ground arith in
        let h : (d == a) ≡ false = ground arith in rw (g, f, e, h) refl

pub none-Copied : (d s : ℕ) (mem : Memory) → Copied d s 0 mem mem
none-Copied d s mem = record { inside = λ i lt. absurd (omega arith); outside = λ a o. refl }

-- A block in two parts, where copying the first part leaves the source of the other alone.
module _ (dst src m n : ℕ) {mem mem1 mem2 : Memory} where
  pub join_up :
      (dst ≤ src) ⊎ (src + (m + n) ≤ dst)
      → Copied dst src m mem mem1
      → Copied (dst + m) (src + m) n mem1 mem2
      → Copied dst src (m + n) mem mem2
  join_up apart one two = record {
    inside = λ i lt. elim (Bool-cases (ltb i m)) [
      | inl e ↦ two.outside (dst + i) (inl (ground arith)) ∙ one.inside i (ground arith)
      | inr e ↦
          let there : dst + m + (i - m) ≡ dst + i = ground arith in
          let from : src + m + (i - m) ≡ src + i = ground arith in
          subst (λ a. mem2 a ≡ mem (src + i)) there
            (two.inside (i - m) (ground arith)
              ∙ ap mem1 from
              ∙ one.outside (src + i) (beyond i lt e apart))
    ];
    outside = λ a o. two.outside a (part_two a o) ∙ one.outside a (part_one a o);
  }
    where
      beyond :
          (i : ℕ)
          → i < m + n
          → ltb i m ≡ false
          → (dst ≤ src) ⊎ (src + (m + n) ≤ dst)
          → (src + i < dst) ⊎ (dst + m ≤ src + i)
      beyond i lt e (inl le) = inr (ground arith)
      beyond i lt e (inr le) = inl (omega arith)

      part_two : (a : ℕ) → (a < dst) ⊎ (dst + (m + n) ≤ a) → (a < dst + m) ⊎ (dst + m + n ≤ a)
      part_two a (inl lt) = inl (omega arith)
      part_two a (inr le) = inr (omega arith)

      part_one : (a : ℕ) → (a < dst) ⊎ (dst + (m + n) ≤ a) → (a < dst) ⊎ (dst + m ≤ a)
      part_one a (inl lt) = inl lt
      part_one a (inr le) = inr (omega arith)

  pub join_down :
      src ≤ dst
      → Copied (dst + m) (src + m) n mem mem1
      → Copied dst src m mem1 mem2
      → Copied dst src (m + n) mem mem2
  join_down le one two = record {
    inside = λ i lt. elim (Bool-cases (ltb i m)) [
      | inl e ↦ two.inside i (ground arith) ∙ one.outside (src + i) (inl (ground arith))
      | inr e ↦
          let there : dst + m + (i - m) ≡ dst + i = ground arith in
          let from : src + m + (i - m) ≡ src + i = ground arith in
          two.outside (dst + i) (inr (ground arith))
          ∙ subst (λ a. mem1 a ≡ mem (src + i)) there
              (one.inside (i - m) (ground arith) ∙ ap mem from)
    ];
    outside = λ a o. two.outside a (part_one a o) ∙ one.outside a (part_two a o);
  }
    where
      part_two : (a : ℕ) → (a < dst) ⊎ (dst + (m + n) ≤ a) → (a < dst + m) ⊎ (dst + m + n ≤ a)
      part_two a (inl lt) = inl (omega arith)
      part_two a (inr le) = inr (omega arith)

      part_one : (a : ℕ) → (a < dst) ⊎ (dst + (m + n) ≤ a) → (a < dst) ⊎ (dst + m ≤ a)
      part_one a (inl lt) = inl lt
      part_one a (inr le) = inr (omega arith)

-- a block that is given by other expressions
pub same_block :
    (d s n d' s' n' : ℕ) (mem mem' : Memory)
    → d ≡ d'
    → s ≡ s'
    → n ≡ n'
    → Copied d s n mem mem'
    → Copied d' s' n' mem mem'
same_block d s n d' s' n' mem mem' e f g c = rw (← e, ← f, ← g) c
