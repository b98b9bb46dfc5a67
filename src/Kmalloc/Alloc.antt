-- ===== src/Kmalloc/Alloc.antt =====
-- subpage_kmalloc: a free block of a page of the right type, or the first of a new page.
use os161_testbed.Common.{
  ℕ, suc, ◌+◌, ◌*◌, ◌/◌, ◌%◌, ◌<◌, ◌≤◌, ◌≡◌, ◌≢◌, ◌⊎◌, inl, inr, refl, sym, ap, subst, ◌∙◌, true,
  false, List, [], ◌∷◌, ◌++◌, arith, length, ◌==◌, ltb, Bool-cases, update, ==_iff,
}
use os161_testbed.Common.Run.{done}
use os161_testbed.Kmalloc.{Heap, size_of, doalloc, take_from, new_page}
use os161_testbed.Kmalloc.Page.{Page, pageref, Headed, Chain, Blocks, NotIn, size_cases, doalloc-eq}
use os161_testbed.Kmalloc.Holds.{IsPage, Pages, OnlyAt, ptrs, of_type, size_of-pos}
use os161_testbed.Kmalloc.Change.{around, with_blocks}

-- What is on the freelist of a page stands within it.
pub Blocks-Headed : (size : ℕ) (xs ys : List ℕ) → 0 < size → Blocks size (xs ++ ys) → Headed xs
Blocks-Headed size [] ys pos ok = tt
Blocks-Headed size (x ∷ xs) ys pos ok = omega (arith, ok.0)

-- nfree fits in its 16 bits
pub most_blocks : (t : ℕ) → t < 8 → (2 ≤ 4096 / size_of t) × (4096 / size_of t ≤ 256)
most_blocks t lt =
    size_cases (λ s. (2 ≤ 4096 / s) × (4096 / s ≤ 256)) (omega arith) (omega arith) (omega arith)
      (omega arith) (omega arith) (omega arith) (omega arith) (omega arith) t lt

pub NotIn-insert : (x y : ℕ) (xs ys : List ℕ) → y ≢ x → NotIn x (xs ++ ys) → NotIn x (xs ++ y ∷ ys)
NotIn-insert x y [] ys ne ok = (ne, ok)
NotIn-insert x y (z ∷ zs) ys ne ok = (ok.0, NotIn-insert x y zs ys ne ok.1)

-- The first block may stand anywhere.
Blocks-move :
    (size x : ℕ) (xs ys : List ℕ) → Blocks size (x ∷ xs ++ ys) → Blocks size (xs ++ x ∷ ys)
Blocks-move size x [] ys ok = ok
Blocks-move size x (y ∷ xs) ys ok = (
  ok.3.0,
  ok.3.1,
  NotIn-insert y x xs ys (λ e. ok.2.0 (sym e)) ok.3.2,
  Blocks-move size x xs ys (ok.0, ok.1, ok.2.1, ok.3.3),
)

abbrev pub took : Page → (x : ℕ) → List ℕ → Page
took p x rest = with_blocks p rest (x ∷ p.used)

module _ (h : Heap) (p : Page) (x : ℕ) (rest : List ℕ) (free : p.free ≡ x ∷ rest)
    (ok : IsPage h.word h.refs h.roots.ram.firstpaddr p)
    (top : h.roots.ram.firstpaddr ≤ 512 * 1024 * 1024) where
  pos : (16 ≤ size_of p.blk) × (size_of p.blk ≤ 2048)
  pos = size_of-pos p.blk ok.blk

  blocks : Blocks (size_of p.blk) (x ∷ rest ++ p.used)
  blocks = subst (λ f. Blocks (size_of p.blk) (f ++ p.used)) free ok.blocks

  chain : Chain h.word p.page (x ∷ rest)
  chain = subst (λ f. Chain h.word p.page f) free ok.chain

  full : suc (length rest) + length p.used ≡ 4096 / size_of p.blk
  full = subst (λ f. length f + length p.used ≡ 4096 / size_of p.blk) free ok.full

  pub doalloc-took :
      doalloc p.ptr h
      ≡ done (p.page + x) (record h { refs = update h.refs p.ptr (pageref p.page p.blk rest) })
  doalloc-took =
      doalloc-eq p.page p.blk ok.aligned (omega (arith, ok.high)) (omega (arith, ok.low)) ok.blk h
        p.ptr x rest (ok.ref ∙ ap (pageref p.page p.blk) free) (omega (arith, blocks.0, pos))
        (Blocks-Headed (size_of p.blk) rest p.used (omega (arith, pos)) blocks.3)
        (omega (arith, most_blocks p.blk ok.blk, full)) chain.0

  pub took-OnlyAt :
      OnlyAt p.page p.ptr h.word h.word h.refs (update h.refs p.ptr (pageref p.page p.blk rest))
  took-OnlyAt = record {
    words = λ a out. refl;
    pagerefs = λ q ne. let e : (p.ptr == q) ≡ false = ground arith in rw e refl;
  }

  pub took-IsPage :
      IsPage h.word
        (update h.refs p.ptr (pageref p.page p.blk rest))
        h.roots.ram.firstpaddr
        (took p x rest)
  took-IsPage = record {
    aligned = ok.aligned;
    low = ok.low;
    high = ok.high;
    blk = ok.blk;
    ref = let e : (p.ptr == p.ptr) ≡ true = ground arith in rw e refl;
    chain = chain.1;
    blocks = Blocks-move (size_of p.blk) x rest p.used blocks;
    full = omega (arith, full);
  }

-- What the search of the pages of type t finds.
pub data Search (t : ℕ) (ps : List Page) : Type 0 where
  full_up :
      ((h : Heap)
        → Pages h.word h.refs h.roots.ram.firstpaddr ps
        → take_from t (ptrs (of_type t ps)) h ≡ new_page t h)
      → Search t ps
  found_free :
      (xs ys : List Page) (p : Page) (x : ℕ) (rest : List ℕ)
      → ps ≡ around xs p ys
      → p.blk ≡ t
      → p.free ≡ x ∷ rest
      → ((h : Heap)
          → Pages h.word h.refs h.roots.ram.firstpaddr ps
          → take_from t (ptrs (of_type t ps)) h ≡ doalloc p.ptr h)
      → Search t ps

type_of_page :
    (page blk t : ℕ) → page % 4096 ≡ 0 → blk < 8 → blk ≡ t → ((page + blk) % 4096 == t) ≡ true
type_of_page page blk t al lt e = let f : (page + blk) % 4096 ≡ t = omega (arith, e) in ground arith

pub search : (t : ℕ) (ps : List Page) → Search t ps
unfolding take_from
search t [] = full_up (λ h ok. refl)
search t (p ∷ ps) = go (Bool-cases (p.blk == t)) p.free refl (search t ps)
  where
    skip : (p.blk == t) ≡ false → Search t ps → Search t (p ∷ ps)
    skip e (full_up all) = full_up (λ h ok. rw e (all h ok.3))
    skip e (found_free xs ys q x rest at ty fr all) =
        found_free (p ∷ xs) ys q x rest (ap (λ qs. p ∷ qs) at) ty fr (λ h ok. rw e (all h ok.3))

    none_free : (p.blk == t) ≡ true → p.free ≡ [] → Search t ps → Search t (p ∷ ps)
    none_free e f (full_up all) = full_up (λ h ok.
        rw (e, ok.0.ref, type_of_page p.page p.blk t ok.0.aligned ok.0.blk (ground arith), f)
          (all h ok.3))
    none_free e f (found_free xs ys q x rest at ty fr all) =
        found_free (p ∷ xs) ys q x rest (ap (λ qs. p ∷ qs) at) ty fr (λ h ok.
          rw (e, ok.0.ref, type_of_page p.page p.blk t ok.0.aligned ok.0.blk (ground arith), f)
            (all h ok.3))

    go :
        ((p.blk == t) ≡ true) ⊎ ((p.blk == t) ≡ false)
        → (free : List ℕ) → p.free ≡ free
        → Search t ps
        → Search t (p ∷ ps)
    go (inr e) free f later = skip e later
    go (inl e) [] f later = none_free e f later
    go (inl e) (x ∷ rest) f later = found_free [] ps p x rest refl ((==_iff p.blk t).0 e) f (λ h ok.
        let some_free : ltb 0 (suc (length rest)) ≡ true = ground arith in
        rw
          (
            e,
            ok.0.ref,
            type_of_page p.page p.blk t ok.0.aligned ok.0.blk (ground arith),
            f,
            some_free,
          )
          refl)
