-- ===== src/Kmalloc/Holds.antt =====
-- When a heap holds a list of pages: their pagerefs are on the lists and are in use, and each page's
-- freelist is the one in memory.
use os161_testbed.Common.{
  ℕ, ◌+◌, ◌/◌, ◌%◌, ◌<◌, ◌≤◌, ◌≡◌, ◌≢◌, ◌⊎◌, sym, ◌∙◌, List, [], ◌∷◌, ◌++◌, arith, ◌==◌, length,
  get_or, if◌then◌else◌,
}
use os161_testbed.Kmalloc.{Heap, Pageref, size_of}
use os161_testbed.Kmalloc.Ram.{kseg0}
use os161_testbed.Kmalloc.Refs.{Roots}
use os161_testbed.Kmalloc.Refs.Slots.{IsRoots, InUse}
use os161_testbed.Kmalloc.Page.{size_cases, Page, pageref, Chain, Blocks}

-- A page below physical address top: its pageref, its freelist, and its blocks, each free or used.
pub record IsPage (word : ℕ → ℕ) (refs : ℕ → Pageref) (top : ℕ) (p : Page) : Type 0 where
  pub aligned : p.page % 4096 ≡ 0
  pub low : kseg0 ≤ p.page
  pub high : p.page + 4096 ≤ kseg0 + top
  pub blk : p.blk < 8
  pub ref : refs p.ptr ≡ pageref p.page p.blk p.free
  pub chain : Chain word p.page p.free
  pub blocks : Blocks (size_of p.blk) (p.free ++ p.used)
  pub full : length p.free + length p.used ≡ 4096 / size_of p.blk

abbrev pub Away : Page → List Page → Type 0
Away p [] = Unit
Away p (q ∷ qs) = (q.page ≢ p.page) × (q.ptr ≢ p.ptr) × Away p qs

-- Pages at different addresses, each with a used block.
abbrev pub Pages : (word : ℕ → ℕ) (refs : ℕ → Pageref) (top : ℕ) → List Page → Type 0
Pages word refs top [] = Unit
Pages word refs top (p ∷ ps) =
    IsPage word refs top p × (0 < length p.used) × Away p ps × Pages word refs top ps

abbrev pub InUses : Roots → List Page → Type 0
InUses s [] = Unit
InUses s (p ∷ ps) = InUse s p.ptr × InUses s ps

abbrev pub ptrs : List Page → List ℕ
ptrs [] = []
ptrs (p ∷ ps) = p.ptr ∷ ptrs ps

-- the pages of one block type
abbrev pub of_type : (t : ℕ) → List Page → List Page
of_type t [] = []
of_type t (p ∷ ps) = if p.blk == t then p ∷ of_type t ps else of_type t ps

pub record Holds (h : Heap) (ps : List Page) : Type 0 where
  pub all : h.allbase ≡ ptrs ps
  pub types : length h.sizebases ≡ 8
  pub bases : (t : ℕ) → t < 8 → get_or h.sizebases t [] ≡ ptrs (of_type t ps)
  pub pages : Pages h.word h.refs h.roots.ram.firstpaddr ps
  pub roots : IsRoots h.roots
  pub in_use : InUses h.roots ps

pub InUses-kept :
    {s s' : Roots}
    → ((q : ℕ) → InUse s q → InUse s' q)
    → (ps : List Page) → InUses s ps
    → InUses s' ps
InUses-kept kept [] ok = tt
InUses-kept kept (p ∷ ps) ok = (kept p.ptr ok.0, InUses-kept kept ps ok.1)

-- The words of this page are the same.
abbrev pub SameIn : (page : ℕ) → (ℕ → ℕ) → (ℕ → ℕ) → Type 0
SameIn page word word' = (a : ℕ) → page ≤ a → a < page + 4096 → word' a ≡ word a

Chain-in :
    {word word' : ℕ → ℕ} (page size : ℕ) (xs ys : List ℕ)
    → 0 < size
    → SameIn page word word'
    → Blocks size (xs ++ ys)
    → Chain word page xs
    → Chain word' page xs
Chain-in page size [] ys pos same blocks ok = tt
Chain-in page size (x ∷ xs) ys pos same blocks ok = (
  same (page + x) (omega arith) (omega (arith, blocks.0)) ∙ ok.0,
  Chain-in page size xs ys pos same blocks.3 ok.1,
)

pub size_of-pos : (t : ℕ) → t < 8 → (16 ≤ size_of t) × (size_of t ≤ 2048)
size_of-pos t lt =
    size_cases (λ s. (16 ≤ s) × (s ≤ 2048)) (omega arith) (omega arith) (omega arith) (omega arith)
      (omega arith) (omega arith) (omega arith) (omega arith) t lt

module _ {word word' : ℕ → ℕ} {refs refs' : ℕ → Pageref} {top top' : ℕ} where
  -- A page survives a change elsewhere.
  pub IsPage-kept :
      (p : Page)
      → SameIn p.page word word'
      → refs' p.ptr ≡ refs p.ptr
      → top ≤ top'
      → IsPage word refs top p
      → IsPage word' refs' top' p
  IsPage-kept p same ref le ok = record {
    aligned = ok.aligned;
    low = ok.low;
    high = omega (arith, ok.high);
    blk = ok.blk;
    ref = ref ∙ ok.ref;
    chain =
        Chain-in p.page (size_of p.blk) p.free p.used (omega (arith, size_of-pos p.blk ok.blk)) same
          ok.blocks ok.chain;
    blocks = ok.blocks;
    full = ok.full;
  }

-- A change to one page and its pageref only.
pub record OnlyAt (page ptr : ℕ) (word word' : ℕ → ℕ) (refs refs' : ℕ → Pageref) : Type 0 where
  pub words : (a : ℕ) → (a < page) ⊎ (page + 4096 ≤ a) → word' a ≡ word a
  pub pagerefs : (q : ℕ) → q ≢ ptr → refs' q ≡ refs q

module _ {word word' : ℕ → ℕ} {refs refs' : ℕ → Pageref} {top top' : ℕ} (p : Page)
    (aligned : p.page % 4096 ≡ 0) (le : top ≤ top')
    (only : OnlyAt p.page p.ptr word word' refs refs') where
  pub IsPage-away :
      (q : Page)
      → q.page ≢ p.page
      → q.ptr ≢ p.ptr
      → IsPage word refs top q
      → IsPage word' refs' top' q
  IsPage-away q ne ne' ok =
      IsPage-kept q (λ a lo hi. only.words a (let al = ok.aligned in ground arith))
        (only.pagerefs q.ptr ne') le ok

  pub Pages-Away : (ps : List Page) → Away p ps → Pages word refs top ps → Pages word' refs' top' ps
  Pages-Away [] away ok = tt
  Pages-Away (q ∷ qs) away ok =
      (IsPage-away q away.0 away.1 ok.0, ok.1, ok.2, Pages-Away qs away.2 ok.3)

pub Away-change :
    (p p' : Page) → p'.page ≡ p.page → p'.ptr ≡ p.ptr → (ps : List Page) → Away p ps → Away p' ps
Away-change p p' e f [] ok = tt
Away-change p p' e f (q ∷ qs) ok =
    ((λ z. ok.0 (z ∙ e)), (λ z. ok.1 (z ∙ f)), Away-change p p' e f qs ok.2)

-- p stands in xs ++ p ∷ ys away from q, and so away from p is q.
pub Away-mid :
    (xs ys : List Page) (p q : Page) → Away q (xs ++ p ∷ ys) → (p.page ≢ q.page) × (p.ptr ≢ q.ptr)
Away-mid [] ys p q away = (away.0, away.1)
Away-mid (x ∷ xs) ys p q away = Away-mid xs ys p q away.2

pub Away-put :
    (xs ys : List Page) (p p' q : Page)
    → p'.page ≡ p.page
    → p'.ptr ≡ p.ptr
    → Away q (xs ++ p ∷ ys)
    → Away q (xs ++ p' ∷ ys)
Away-put [] ys p p' q e f away = ((λ z. away.0 (sym e ∙ z)), (λ z. away.1 (sym f ∙ z)), away.2)
Away-put (x ∷ xs) ys p p' q e f away = (away.0, away.1, Away-put xs ys p p' q e f away.2)

pub Away-drop : (xs ys : List Page) (p q : Page) → Away q (xs ++ p ∷ ys) → Away q (xs ++ ys)
Away-drop [] ys p q away = away.2
Away-drop (x ∷ xs) ys p q away = (away.0, away.1, Away-drop xs ys p q away.2)
