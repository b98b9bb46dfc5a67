-- ===== src/Kmalloc/Back.antt =====
-- A block that goes back to its page.
use os161_testbed.Common.{
  ℕ, suc, ◌≡◌, ◌≢◌, ◌⊎◌, ◌↔◌, inl, inr, refl, sym, ap, subst, true, false, List, [], ◌∷◌, ◌++◌,
  arith, length, ◌==◌, if◌then◌else◌, Bool-cases, ==_iff,
}
use os161_testbed.Kmalloc.Page.{Blocks, NotIn}
use os161_testbed.Kmalloc.Live.{In, NotIn-ne, Blocks-in, In-append_right}

-- a list without the first x
unfoldable pub remove : ℕ → List ℕ → List ℕ
remove x [] = []
remove x (y ∷ ys) = if y == x then ys else y ∷ remove x ys

pub length-remove : (x : ℕ) (ys : List ℕ) → In x ys → length ys ≡ suc (length (remove x ys))
unfolding remove
length-remove x [] i = absurd i
length-remove x (y ∷ ys) (inl e) = let t : (y == x) ≡ true = ground arith in rw t refl
length-remove x (y ∷ ys) (inr i) = elim (Bool-cases (y == x)) [
  | inl e ↦ rw e refl
  | inr e ↦ rw e (ap suc (length-remove x ys i))
]

-- x may be taken out of the middle of a list and stand in front.
NotIn-remove : (x z : ℕ) (xs ys : List ℕ) → NotIn z (xs ++ ys) → NotIn z (xs ++ remove x ys)
unfolding remove
NotIn-remove x z [] [] ok = tt
NotIn-remove x z [] (y ∷ ys) ok = elim (Bool-cases (y == x)) [
  | inl e ↦ rw e ok.1
  | inr e ↦ rw e (ok.0, NotIn-remove x z [] ys ok.1)
]
NotIn-remove x z (w ∷ xs) ys ok = (ok.0, NotIn-remove x z xs ys ok.1)

Blocks-remove :
    (size x : ℕ) (xs ys : List ℕ) → Blocks size (xs ++ ys) → Blocks size (xs ++ remove x ys)
unfolding remove
Blocks-remove size x [] [] ok = tt
Blocks-remove size x [] (y ∷ ys) ok = elim (Bool-cases (y == x)) [
  | inl e ↦ rw e ok.3
  | inr e ↦ rw e (ok.0, ok.1, NotIn-remove x y [] ys ok.2, Blocks-remove size x [] ys ok.3)
]
Blocks-remove size x (w ∷ xs) ys ok =
    (ok.0, ok.1, NotIn-remove x w xs ys ok.2, Blocks-remove size x xs ys ok.3)

NotIn-removed : (size x : ℕ) (ys : List ℕ) → Blocks size ys → NotIn x (remove x ys)
unfolding remove
NotIn-removed size x [] ok = tt
NotIn-removed size x (y ∷ ys) ok = elim (Bool-cases (y == x)) [
  | inl e ↦ rw e (subst (λ z. NotIn z ys) ((==_iff y x).0 e) ok.2)
  | inr e ↦ rw e ((λ f. let t : (y == x) ≡ true = ground arith in cc), NotIn-removed size x ys ok.3)
]

pub Blocks-right : (size : ℕ) (xs ys : List ℕ) → Blocks size (xs ++ ys) → Blocks size ys
Blocks-right size [] ys ok = ok
Blocks-right size (x ∷ xs) ys ok = Blocks-right size xs ys ok.3

-- what is in the second part is not in the first
pub NotIn-left : (size x : ℕ) (xs ys : List ℕ) → Blocks size (xs ++ ys) → In x ys → NotIn x xs
NotIn-left size x [] ys ok i = tt
NotIn-left size x (w ∷ xs) ys ok i = (
  (λ e. NotIn-ne w x (xs ++ ys) ok.2 (In-append_right x xs ys i) (sym e)),
  NotIn-left size x xs ys ok.3 i,
)

NotIn-append : (x : ℕ) (xs ys : List ℕ) → NotIn x xs → NotIn x ys → NotIn x (xs ++ ys)
NotIn-append x [] ys a b = b
NotIn-append x (w ∷ xs) ys a b = (a.0, NotIn-append x xs ys a.1 b)

pub Blocks-back :
    (size x : ℕ) (xs ys : List ℕ)
    → Blocks size (xs ++ ys)
    → In x ys
    → Blocks size (x ∷ xs ++ remove x ys)
Blocks-back size x xs ys ok i =
    let fit = Blocks-in size x (xs ++ ys) ok (In-append_right x xs ys i) in
    (
      fit.0,
      fit.1,
      NotIn-append x xs (remove x ys) (NotIn-left size x xs ys ok i)
          (NotIn-removed size x ys (Blocks-right size xs ys ok)),
      Blocks-remove size x xs ys ok,
    )

the_rest :
    (x y z : ℕ) (zs : List ℕ)
    → (z == x) ≡ false
    → In y (remove x (z ∷ zs))
    → (z ≡ y) ⊎ In y (remove x zs)
unfolding remove
the_rest x y z zs e i = rw e at i

In-of-remove : (x y : ℕ) (zs : List ℕ) → In y (remove x zs) → In y zs
unfolding remove
In-of-remove x y [] i = i
In-of-remove x y (z ∷ zs) i = elim (Bool-cases (z == x)) [
  | inl e ↦ inr (rw e at i)
  | inr e ↦ elim (the_rest x y z zs e i) [ inl f ↦ inl f | inr j ↦ inr (In-of-remove x y zs j) ]
]

In-remove_ne : (x y : ℕ) (zs : List ℕ) → y ≢ x → In y zs → In y (remove x zs)
unfolding remove
In-remove_ne x y [] ne i = i
In-remove_ne x y (z ∷ zs) ne (inl e) = let t : (z == x) ≡ false = ground arith in rw t (inl e)
In-remove_ne x y (z ∷ zs) ne (inr i) = elim (Bool-cases (z == x)) [
  | inl e ↦ rw e i
  | inr e ↦ rw e (inr (In-remove_ne x y zs ne i))
]

pub In-remove :
    (size x y : ℕ) (ys : List ℕ) → Blocks size ys → In y (remove x ys) ↔ ((y ≢ x) × In y ys)
In-remove size x y ys ok = (
  λ i. (NotIn-ne x y (remove x ys) (NotIn-removed size x ys ok) i, back ys i),
  λ (ne, i). keep ys ne i,
)
  where
    back : (zs : List ℕ) → In y (remove x zs) → In y zs
    back zs i = In-of-remove x y zs i

    keep : (zs : List ℕ) → y ≢ x → In y zs → In y (remove x zs)
    keep zs ne i = In-remove_ne x y zs ne i
