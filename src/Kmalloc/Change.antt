-- ===== src/Kmalloc/Change.antt =====
-- One page of a heap is changed, added or taken out.
use os161_testbed.Common.{
  ℕ, ◌<◌, ◌≤◌, ◌≡◌, ◌≢◌, ◌⊎◌, inl, inr, refl, sym, ap, ◌∙◌, true, false, List, [], ◌∷◌, ◌++◌, arith,
  ◌==◌, length, get_or, set, Bool-cases, get_or-set_self, get_or-set_ne, length-set, ==_iff,
}
use os161_testbed.Kmalloc.{Heap, Pageref, unlink_ref}
use os161_testbed.Kmalloc.Refs.{Roots}
use os161_testbed.Kmalloc.Refs.Slots.{IsRoots, InUse}
use os161_testbed.Kmalloc.Page.{Page}
use os161_testbed.Kmalloc.Holds.{
  IsPage, Away, Pages, InUses, ptrs, of_type, Holds, OnlyAt, IsPage-away, Pages-Away, Away-change,
  Away-mid, Away-put, Away-drop, InUses-kept,
}

-- the pages with p in their midst
abbrev pub around : (xs : List Page) → Page → (ys : List Page) → List Page
around xs p ys = xs ++ p ∷ ys

pub Pages-mid :
    {word : ℕ → ℕ} {refs : ℕ → Pageref} {top : ℕ} (xs ys : List Page) (p : Page)
    → Pages word refs top (around xs p ys)
    → IsPage word refs top p × (0 < length p.used)
Pages-mid [] ys p ok = (ok.0, ok.1)
Pages-mid (x ∷ xs) ys p ok = Pages-mid xs ys p ok.3

-- the same page, with other blocks free
abbrev pub with_blocks : Page → (free used : List ℕ) → Page
with_blocks p free used = record p { free = free; used = used }

module _ (p : Page) (free used : List ℕ) where
  ptrs-put :
      (xs ys : List Page) → ptrs (around xs (with_blocks p free used) ys) ≡ ptrs (around xs p ys)
  ptrs-put [] ys = refl
  ptrs-put (x ∷ xs) ys = ap (λ qs. x.ptr ∷ qs) (ptrs-put xs ys)

  ptrs-of_type-put :
      (t : ℕ) (xs ys : List Page)
      → ptrs (of_type t (around xs (with_blocks p free used) ys))
        ≡ ptrs (of_type t (around xs p ys))
  ptrs-of_type-put t [] ys = elim (Bool-cases (p.blk == t)) [
    | inl e ↦ rw e refl
    | inr e ↦ rw e refl
  ]
  ptrs-of_type-put t (x ∷ xs) ys = elim (Bool-cases (x.blk == t)) [
    | inl e ↦ rw e (ap (λ qs. x.ptr ∷ qs) (ptrs-of_type-put t xs ys))
    | inr e ↦ rw e (ptrs-of_type-put t xs ys)
  ]

  InUses-put :
      (s : Roots) (xs ys : List Page)
      → InUses s (around xs p ys)
      → InUses s (around xs (with_blocks p free used) ys)
  InUses-put s [] ys ok = ok
  InUses-put s (x ∷ xs) ys ok = (ok.0, InUses-put s xs ys ok.1)

  module _ {word word' : ℕ → ℕ} {refs refs' : ℕ → Pageref} {top : ℕ}
      (only : OnlyAt p.page p.ptr word word' refs refs')
      (there : IsPage word' refs' top (with_blocks p free used)) (busy : 0 < length used) where
    Pages-put :
        (xs ys : List Page)
        → Pages word refs top (around xs p ys)
        → Pages word' refs' top (around xs (with_blocks p free used) ys)
    Pages-put [] ys ok = (
      there,
      busy,
      Away-change p (with_blocks p free used) refl refl ys ok.2,
      Pages-Away p there.aligned (omega arith) only ys ok.2 ok.3,
    )
    Pages-put (x ∷ xs) ys ok =
        let apart = Away-mid xs ys p x ok.2 in
        (
          IsPage-away p there.aligned (omega arith) only x (λ e. apart.0 (sym e))
              (λ e. apart.1 (sym e)) ok.0,
          ok.1,
          Away-put xs ys p (with_blocks p free used) x refl refl ok.2,
          Pages-put xs ys ok.3,
        )

-- A page of the heap has other blocks free than before.
pub Holds-put :
    {h : Heap} (xs ys : List Page) (p : Page) (free used : List ℕ) (word' : ℕ → ℕ)
    (refs' : ℕ → Pageref)
    → Holds h (around xs p ys)
    → OnlyAt p.page p.ptr h.word word' h.refs refs'
    → IsPage word' refs' h.roots.ram.firstpaddr (with_blocks p free used)
    → 0 < length used
    → Holds (record h { word = word'; refs = refs' }) (around xs (with_blocks p free used) ys)
Holds-put xs ys p free used word' refs' ok only there busy = record {
  all = ok.all ∙ sym (ptrs-put p free used xs ys);
  types = ok.types;
  bases = λ t lt. ok.bases t lt ∙ sym (ptrs-of_type-put p free used t xs ys);
  pages = Pages-put p free used only there busy xs ys ok.pages;
  roots = ok.roots;
  in_use = InUses-put p free used _ xs ys ok.in_use;
}

of_type-drop :
    (t : ℕ) (xs ys : List Page) (p : Page)
    → t ≢ p.blk
    → of_type t (around xs p ys) ≡ of_type t (xs ++ ys)
of_type-drop t [] ys p ne = let e : (p.blk == t) ≡ false = ground arith in rw e refl
of_type-drop t (x ∷ xs) ys p ne = rw (of_type-drop t xs ys p ne) refl

-- A page in the midst is taken out of the lists.
module _ (word : ℕ → ℕ) (refs : ℕ → Pageref) (top : ℕ) where
  unlink_ref-ptrs :
      (xs ys : List Page) (p : Page)
      → Pages word refs top (around xs p ys)
      → unlink_ref p.ptr (ptrs (around xs p ys)) ≡ ptrs (xs ++ ys)
  unfolding unlink_ref
  unlink_ref-ptrs [] ys p ok = let e : (p.ptr == p.ptr) ≡ true = ground arith in rw e refl
  unlink_ref-ptrs (x ∷ xs) ys p ok =
      let apart = Away-mid xs ys p x ok.2 in
      let ne : (x.ptr == p.ptr) ≡ false = ground (arith, apart.1) in
      rw ne (ap (λ qs. x.ptr ∷ qs) (unlink_ref-ptrs xs ys p ok.3))

  unlink_ref-ptrs-of_type :
      (xs ys : List Page) (p : Page)
      → Pages word refs top (around xs p ys)
      → unlink_ref p.ptr (ptrs (of_type p.blk (around xs p ys))) ≡ ptrs (of_type p.blk (xs ++ ys))
  unfolding unlink_ref
  unlink_ref-ptrs-of_type [] ys p ok =
      let e : (p.ptr == p.ptr) ≡ true = ground arith in
      let f : (p.blk == p.blk) ≡ true = ground arith in rw (f, e) refl
  unlink_ref-ptrs-of_type (x ∷ xs) ys p ok =
      let apart = Away-mid xs ys p x ok.2 in
      let ne : (x.ptr == p.ptr) ≡ false = ground (arith, apart.1) in
      elim (Bool-cases (x.blk == p.blk)) [
        | inl e ↦ rw (e, ne) (ap (λ qs. x.ptr ∷ qs) (unlink_ref-ptrs-of_type xs ys p ok.3))
        | inr e ↦ rw e (unlink_ref-ptrs-of_type xs ys p ok.3)
      ]

  InUses-drop :
      (s s' : Roots) (p : Page)
      → ((q : ℕ) → q ≢ p.ptr → InUse s q → InUse s' q)
      → (xs ys : List Page) → Pages word refs top (around xs p ys)
      → InUses s (around xs p ys)
      → InUses s' (xs ++ ys)
  InUses-drop s s' p kept [] ys ok inu = away ys ok.2 inu.1
    where
      away : (zs : List Page) → Away p zs → InUses s zs → InUses s' zs
      away [] a u = tt
      away (z ∷ zs) a u = (kept z.ptr a.1 u.0, away zs a.2 u.1)
  InUses-drop s s' p kept (x ∷ xs) ys ok inu =
      let apart = Away-mid xs ys p x ok.2 in
      (kept x.ptr (λ e. apart.1 (sym e)) inu.0, InUses-drop s s' p kept xs ys ok.3 inu.1)

module _ (p : Page) {word word' : ℕ → ℕ} {refs refs' : ℕ → Pageref}
    (only : OnlyAt p.page p.ptr word word' refs refs') where
  Pages-drop :
      (top : ℕ) (xs ys : List Page)
      → Pages word refs top (around xs p ys)
      → Pages word' refs' top (xs ++ ys)
  Pages-drop top [] ys ok = Pages-Away p ok.0.aligned (omega arith) only ys ok.2 ok.3
  Pages-drop top (x ∷ xs) ys ok =
      let apart = Away-mid xs ys p x ok.2 in
      let here = (Pages-mid xs ys p ok.3).0 in
      (
        IsPage-away p here.aligned (omega arith) only x (λ e. apart.0 (sym e))
            (λ e. apart.1 (sym e)) ok.0,
        ok.1,
        Away-drop xs ys p x ok.2,
        Pages-drop top xs ys ok.3,
      )

-- The lists after remove_lists.
abbrev pub unlinked : Heap → Page → Heap
unlinked h p = record h {
  sizebases = set h.sizebases p.blk (unlink_ref p.ptr (get_or h.sizebases p.blk []));
  allbase = unlink_ref p.ptr h.allbase;
}

-- A page leaves the heap, and its pageref is given back.
pub Holds-drop :
    {h : Heap} (xs ys : List Page) (p : Page) (word' : ℕ → ℕ) (refs' : ℕ → Pageref) (roots' : Roots)
    → Holds h (around xs p ys)
    → OnlyAt p.page p.ptr h.word word' h.refs refs'
    → IsRoots roots'
    → roots'.ram ≡ h.roots.ram
    → ((q : ℕ) → q ≢ p.ptr → InUse h.roots q → InUse roots' q)
    → Holds (record (unlinked h p) { word = word'; refs = refs'; roots = roots' }) (xs ++ ys)
Holds-drop {h} xs ys p word' refs' roots' ok only rok same kept = record {
  all =
      ap (unlink_ref p.ptr) ok.all
      ∙ unlink_ref-ptrs h.word h.refs h.roots.ram.firstpaddr xs ys p ok.pages;
  types = length-set h.sizebases p.blk (unlink_ref p.ptr (get_or h.sizebases p.blk [])) ∙ ok.types;
  bases = λ t lt. bases' t lt (Bool-cases (p.blk == t));
  pages = rw same (Pages-drop p only h.roots.ram.firstpaddr xs ys ok.pages);
  roots = rok;
  in_use =
      InUses-drop h.word h.refs h.roots.ram.firstpaddr h.roots roots' p kept xs ys ok.pages
        ok.in_use;
}
  where
    here : IsPage h.word h.refs h.roots.ram.firstpaddr p
    here = (Pages-mid xs ys p ok.pages).0

    bases' :
        (t : ℕ)
        → t < 8
        → ((p.blk == t) ≡ true) ⊎ ((p.blk == t) ≡ false)
        → get_or (set h.sizebases p.blk (unlink_ref p.ptr (get_or h.sizebases p.blk []))) t []
          ≡ ptrs (of_type t (xs ++ ys))
    bases' t lt (inl e) = rw (← (==_iff p.blk t).0 e) (
        get_or-set_self h.sizebases p.blk (unlink_ref p.ptr (get_or h.sizebases p.blk [])) []
          (rw ok.types here.blk)
        ∙ ap (unlink_ref p.ptr) (ok.bases p.blk here.blk)
        ∙ unlink_ref-ptrs-of_type h.word h.refs h.roots.ram.firstpaddr xs ys p ok.pages)
    bases' t lt (inr ne) =
        get_or-set_ne h.sizebases p.blk t (unlink_ref p.ptr (get_or h.sizebases p.blk [])) []
          (ground arith)
        ∙ ok.bases t lt
        ∙ ap ptrs (of_type-drop t xs ys p (ground arith))

-- A new page comes to the head of the lists.
abbrev pub linked : Heap → Page → Heap
linked h p = record h {
  sizebases = set h.sizebases p.blk (p.ptr ∷ get_or h.sizebases p.blk []);
  allbase = p.ptr ∷ h.allbase;
}

pub Holds-new :
    {h : Heap} (ps : List Page) (p : Page) (word' : ℕ → ℕ) (refs' : ℕ → Pageref) (roots' : Roots)
    → Holds h ps
    → OnlyAt p.page p.ptr h.word word' h.refs refs'
    → IsRoots roots'
    → h.roots.ram.firstpaddr ≤ roots'.ram.firstpaddr
    → ((q : ℕ) → InUse h.roots q → InUse roots' q)
    → InUse roots' p.ptr
    → IsPage word' refs' roots'.ram.firstpaddr p
    → 0 < length p.used
    → Away p ps
    → Holds (record (linked h p) { word = word'; refs = refs'; roots = roots' }) (p ∷ ps)
Holds-new {h} ps p word' refs' roots' ok only rok grown kept inu there busy away = record {
  all = ap (λ qs. p.ptr ∷ qs) ok.all;
  types = length-set h.sizebases p.blk (p.ptr ∷ get_or h.sizebases p.blk []) ∙ ok.types;
  bases = λ t lt. bases' t lt (Bool-cases (p.blk == t));
  pages = (there, busy, away, Pages-Away p there.aligned grown only ps away ok.pages);
  roots = rok;
  in_use = (inu, InUses-kept kept ps ok.in_use);
}
  where
    bases' :
        (t : ℕ)
        → t < 8
        → ((p.blk == t) ≡ true) ⊎ ((p.blk == t) ≡ false)
        → get_or (set h.sizebases p.blk (p.ptr ∷ get_or h.sizebases p.blk [])) t []
          ≡ ptrs (of_type t (p ∷ ps))
    bases' t lt (inl e) = rw e (
        rw (← (==_iff p.blk t).0 e) (
          get_or-set_self h.sizebases p.blk (p.ptr ∷ get_or h.sizebases p.blk []) []
            (rw ok.types there.blk)
          ∙ ap (λ qs. p.ptr ∷ qs) (ok.bases p.blk there.blk)
          ∙ ap (λ u. p.ptr ∷ ptrs (of_type u ps)) ((==_iff p.blk t).0 e)))
    bases' t lt (inr ne) = rw ne (
        get_or-set_ne h.sizebases p.blk t (p.ptr ∷ get_or h.sizebases p.blk []) [] (ground arith)
        ∙ ok.bases t lt)
