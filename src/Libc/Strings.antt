-- ===== src/Libc/Strings.antt =====
-- The string functions, where memory holds a string that ends in a NUL.
use os161_testbed.Common.{
  ℕ, zero, suc, ◌+◌, ◌<◌, ◌≤◌, ◌≡◌, ◌≢◌, ◌⊎◌, inl, inr, refl, subst, ap, ◌∙◌, true, false, ◌==◌,
  ◌/=◌, update, arith, List, [], ◌∷◌, ◌++◌, length, some,
}
use os161_testbed.Libc.{Memory, strlen, strcpy, strcat}

-- The string s starts at address p.
abbrev pub IsString : Memory → (p : ℕ) → List ℕ → Type 0
IsString mem p [] = mem p ≡ 0
IsString mem p (c ∷ cs) = (mem p ≡ c) × (c ≢ 0) × IsString mem (p + 1) cs

-- strlen from character ret on
strlen_from :
    (fuel ret str : ℕ) (mem : Memory) (s : List ℕ)
    → length s < fuel
    → IsString mem (str + ret) s
    → strlen fuel ret str mem ≡ some (ret + length s)
unfolding strlen
strlen_from zero ret str mem s lt ok = absurd (omega arith)
strlen_from (suc fuel) ret str mem [] lt ok =
    let e : (mem (str + ret) /= 0) ≡ false = ground arith in
    let f : ret ≡ ret + 0 = omega arith in rw e (ap some f)
strlen_from (suc fuel) ret str mem (c ∷ cs) lt ok =
    let e : (mem (str + ret) /= 0) ≡ true = ground (arith, ok.0, ok.1) in
    let f : ret + 1 + length cs ≡ ret + suc (length cs) = omega arith in
    let g : str + ret + 1 ≡ str + (ret + 1) = omega arith in
    rw e (
      strlen_from fuel (ret + 1) str mem cs (omega arith) (subst (λ p. IsString mem p cs) g ok.2)
      ∙ ap some f)

-- The n bytes at p are the same in both.
abbrev SameAt : (p n : ℕ) → Memory → Memory → Type 0
SameAt p n mem mem' = (a : ℕ) → p ≤ a → a < p + n → mem' a ≡ mem a

same-IsString :
    (mem mem' : Memory) (p : ℕ) (s : List ℕ)
    → SameAt p (length s + 1) mem mem'
    → IsString mem p s
    → IsString mem' p s
same-IsString mem mem' p [] same ok = same p (omega arith) (omega arith) ∙ ok
same-IsString mem mem' p (c ∷ cs) same ok = (
  same p (omega arith) (omega arith) ∙ ok.0,
  ok.1,
  same-IsString mem mem' (p + 1) cs (λ a lo hi. same a (omega arith) (omega arith)) ok.2,
)

-- What copying a string from src to dest leaves, from character i on.
pub record Stored (dest i : ℕ) (s : List ℕ) (mem mem' : Memory) : Type 0 where
  pub string : IsString mem' (dest + i) s
  pub same : (a : ℕ) → (a < dest + i) ⊎ (dest + i + length s < a) → mem' a ≡ mem a

strcpy_from :
    (fuel i dest src : ℕ) (mem : Memory) (s : List ℕ)
    → length s < fuel
    → (dest + i + length s < src + i) ⊎ (src + i + length s < dest + i)
    → IsString mem (src + i) s
    → (mem' : Memory) × (strcpy fuel i dest src mem ≡ some mem') × Stored dest i s mem mem'
unfolding strcpy
strcpy_from zero i dest src mem s lt apart ok = absurd (omega arith)
strcpy_from (suc fuel) i dest src mem [] lt apart ok =
    let e : (mem (src + i) /= 0) ≡ false = ground arith in
    let f : (dest + i == dest + i) ≡ true = ground arith in
    (
      update mem (dest + i) 0,
      rw e refl,
      record {
        string = rw f refl;
        same = λ a o. let g : (dest + i == a) ≡ false = ground arith in rw g refl;
      },
    )
strcpy_from (suc fuel) i dest src mem (c ∷ cs) lt apart ok =
    let e : (mem (src + i) /= 0) ≡ true = ground (arith, ok.0, ok.1) in
    let mem1 = update mem (dest + i) (mem (src + i)) in
    let g : src + i + 1 ≡ src + (i + 1) = omega arith in
    let h : dest + (i + 1) ≡ dest + i + 1 = omega arith in
    let rest_ok : IsString mem1 (src + (i + 1)) cs =
      same-IsString mem mem1 (src + (i + 1)) cs
        (λ a lo hi. let n : (dest + i == a) ≡ false = ground arith in rw n refl)
        (subst (λ p. IsString mem p cs) g ok.2) in
    let (mem', run, stored) =
      strcpy_from fuel (i + 1) dest src mem1 cs (omega arith) (later apart) rest_ok in
    let f : (dest + i == dest + i) ≡ true = ground arith in
    (
      mem',
      rw e run,
      record {
        string = (
          stored.same (dest + i) (inl (omega arith)) ∙ rw f ok.0,
          ok.1,
          subst (λ p. IsString mem' p cs) h stored.string,
        );
        same = λ a o.
            stored.same a (wider a o)
            ∙ (let n : (dest + i == a) ≡ false = ground arith in rw n refl);
      },
    )
  where
    later :
        (dest + i + suc (length cs) < src + i) ⊎ (src + i + suc (length cs) < dest + i)
        → (dest + (i + 1) + length cs < src + (i + 1))
          ⊎ (src + (i + 1) + length cs < dest + (i + 1))
    later (inl lt) = inl (omega arith)
    later (inr lt) = inr (omega arith)

    wider :
        (a : ℕ)
        → (a < dest + i) ⊎ (dest + i + suc (length cs) < a)
        → (a < dest + (i + 1)) ⊎ (dest + (i + 1) + length cs < a)
    wider a (inl lt) = inl (omega arith)
    wider a (inr lt) = inr (omega arith)

-- A string whose end is another string.
append-IsString :
    (mem mem' : Memory) (p : ℕ) (s t : List ℕ)
    → SameAt p (length s) mem mem'
    → IsString mem p s
    → IsString mem' (p + length s) t
    → IsString mem' p (s ++ t)
append-IsString mem mem' p [] t same ok ok' =
    let e : p + 0 ≡ p = omega arith in subst (λ q. IsString mem' q t) e ok'
append-IsString mem mem' p (c ∷ cs) t same ok ok' =
    let e : p + suc (length cs) ≡ p + 1 + length cs = omega arith in
    (
      same p (omega arith) (omega arith) ∙ ok.0,
      ok.1,
      append-IsString mem mem' (p + 1) cs t (λ a lo hi. same a (omega arith) (omega arith)) ok.2
          (subst (λ q. IsString mem' q t) e ok'),
    )

strcat-strcpy :
    (fuel dest src offset : ℕ) (mem : Memory)
    → strlen fuel 0 dest mem ≡ some offset
    → strcat fuel dest src mem ≡ strcpy fuel 0 (dest + offset) src mem
unfolding strcat
strcat-strcpy fuel dest src offset mem e = rw (strcat, e) refl

-- strcat, with fuel for either string, ends with the two strings joined at dest, where src lies wholly
-- before or wholly after the room that they take; memory outside the appended part is as it was.
pub strcat-IsString :
    (fuel dest src : ℕ) (mem : Memory) (s t : List ℕ)
    → length s < fuel
    → length t < fuel
    → (dest + length s + length t < src) ⊎ (src + length t < dest)
    → IsString mem dest s
    → IsString mem src t
    → (mem' : Memory) × (strcat fuel dest src mem ≡ some mem')
      × IsString mem' dest (s ++ t)
      × ((a : ℕ) → (a < dest + length s) ⊎ (dest + length s + length t < a) → mem' a ≡ mem a)
strcat-IsString fuel dest src mem s t lt lt' apart ok ok' =
    let e : dest ≡ dest + 0 = omega arith in
    let f : src ≡ src + 0 = omega arith in
    let g : dest + length s + 0 ≡ dest + length s = omega arith in
    let len : strlen fuel 0 dest mem ≡ some (length s) =
      strlen_from fuel 0 dest mem s lt (subst (λ p. IsString mem p s) e ok)
      ∙ ap some (let z : 0 + length s ≡ length s = omega arith in z) in
    let (mem', run, stored) =
      strcpy_from fuel 0 (dest + length s) src mem t lt' (room apart)
        (subst (λ p. IsString mem p t) f ok') in
    (
      mem',
      strcat-strcpy fuel dest src (length s) mem len ∙ run,
      append-IsString mem mem' dest s t (λ a lo hi. stored.same a (inl (omega arith))) ok
          (subst (λ p. IsString mem' p t) g stored.string),
      λ a o. stored.same a (outside a o),
    )
  where
    room :
        (dest + length s + length t < src) ⊎ (src + length t < dest)
        → (dest + length s + 0 + length t < src + 0) ⊎ (src + 0 + length t < dest + length s + 0)
    room (inl lt) = inl (omega arith)
    room (inr lt) = inr (omega arith)

    outside :
        (a : ℕ)
        → (a < dest + length s) ⊎ (dest + length s + length t < a)
        → (a < dest + length s + 0) ⊎ (dest + length s + 0 + length t < a)
    outside a (inl lt) = inl (omega arith)
    outside a (inr lt) = inr (omega arith)
