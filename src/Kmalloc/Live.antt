-- ===== src/Kmalloc/Live.antt =====
-- The blocks that the callers of kmalloc hold.
use os161_testbed.Common.{
  ℕ, ◌+◌, ◌%◌, ◌≤◌, ◌≡◌, ◌≢◌, ◌⊎◌, inl, inr, sym, subst, ◌∙◌, List, [], ◌∷◌, ◌++◌, arith,
}
use os161_testbed.Kmalloc.{Pageref, size_of}
use os161_testbed.Kmalloc.Page.{Page, NotIn, Blocks, blocks_apart}
use os161_testbed.Kmalloc.Holds.{IsPage, Away, Pages, size_of-pos, Away-mid}
use os161_testbed.Kmalloc.Change.{around, Pages-mid}

abbrev pub In : ℕ → List ℕ → Type 0
In x [] = ⊥
In x (y ∷ ys) = (y ≡ x) ⊎ In x ys

-- The block of size s at address a is of page p, and in use.
pub record LiveIn (p : Page) (a s : ℕ) : Type 0 where
  pub offset : ℕ
  pub held : In offset p.used
  pub address : a ≡ p.page + offset
  pub size : s ≡ size_of p.blk

-- The block of size s at address a is in use.
abbrev pub Live : List Page → (a s : ℕ) → Type 0
Live [] a s = ⊥
Live (p ∷ ps) a s = LiveIn p a s ⊎ Live ps a s

-- Two blocks do not overlap.
abbrev pub Disjoint : (a s b t : ℕ) → Type 0
Disjoint a s b t = (a + s ≤ b) ⊎ (b + t ≤ a)

pub In-append_left : (x : ℕ) (xs ys : List ℕ) → In x xs → In x (xs ++ ys)
In-append_left x [] ys i = absurd i
In-append_left x (y ∷ xs) ys (inl e) = inl e
In-append_left x (y ∷ xs) ys (inr i) = inr (In-append_left x xs ys i)

pub In-append_right : (x : ℕ) (xs ys : List ℕ) → In x ys → In x (xs ++ ys)
In-append_right x [] ys i = i
In-append_right x (y ∷ xs) ys i = inr (In-append_right x xs ys i)

pub NotIn-ne : (x y : ℕ) (xs : List ℕ) → NotIn x xs → In y xs → y ≢ x
NotIn-ne x y [] n i = absurd i
NotIn-ne x y (z ∷ zs) n (inl e) = λ f. n.0 (e ∙ f)
NotIn-ne x y (z ∷ zs) n (inr i) = NotIn-ne x y zs n.1 i

pub Blocks-in :
    (size x : ℕ) (xs : List ℕ) → Blocks size xs → In x xs → (x + size ≤ 4096) × (x % size ≡ 0)
Blocks-in size x [] ok i = absurd i
Blocks-in size x (y ∷ ys) ok (inl e) = rw (← e) (ok.0, ok.1)
Blocks-in size x (y ∷ ys) ok (inr i) = Blocks-in size x ys ok.3 i

module _ (word : ℕ → ℕ) (refs : ℕ → Pageref) (top : ℕ) where
  -- A free block of a page overlaps none in use there.
  apart_in :
      (p : Page) (x : ℕ) (rest : List ℕ) (a s : ℕ)
      → IsPage word refs top p
      → p.free ≡ x ∷ rest
      → LiveIn p a s
      → Disjoint (p.page + x) (size_of p.blk) a s
  apart_in p x rest a s ok e l =
      let blocks : Blocks (size_of p.blk) (x ∷ rest ++ p.used) =
        subst (λ f. Blocks (size_of p.blk) (f ++ p.used)) e ok.blocks in
      let there : In l.offset (rest ++ p.used) = In-append_right l.offset rest p.used l.held in
      let ne = NotIn-ne x l.offset (rest ++ p.used) blocks.2 there in
      let fits = Blocks-in (size_of p.blk) l.offset (rest ++ p.used) blocks.3 there in
      let pos = size_of-pos p.blk ok.blk in
      go (blocks_apart (size_of p.blk) x l.offset (omega arith) blocks.1 fits.1 (λ f. ne (sym f)))
    where
      go :
          (x + size_of p.blk ≤ l.offset) ⊎ (l.offset + size_of p.blk ≤ x)
          → Disjoint (p.page + x) (size_of p.blk) a s
      go (inl le) = inl (omega (arith, l.address))
      go (inr le) = inr (omega (arith, l.address, l.size))

  -- Blocks of different pages do not overlap.
  apart_pages :
      (p q : Page) (x a s : ℕ)
      → p.page % 4096 ≡ 0
      → x + size_of p.blk ≤ 4096
      → IsPage word refs top q
      → q.page ≢ p.page
      → LiveIn q a s
      → Disjoint (p.page + x) (size_of p.blk) a s
  apart_pages p q x a s al fits ok ne l =
      let fits' =
        Blocks-in (size_of q.blk) l.offset (q.free ++ q.used) ok.blocks
          (In-append_right l.offset q.free q.used l.held) in
      let al' = ok.aligned in let at = l.address in let sz = l.size in go (below al')
    where
      below : q.page % 4096 ≡ 0 → (p.page + 4096 ≤ q.page) ⊎ (q.page + 4096 ≤ p.page)
      below al' = blocks_apart 4096 p.page q.page (omega arith) al al' (λ e. ne (sym e))

      go :
          (p.page + 4096 ≤ q.page) ⊎ (q.page + 4096 ≤ p.page)
          → Disjoint (p.page + x) (size_of p.blk) a s
      go (inl le) = inl (omega (arith, l.address))
      go (inr le) = inr (
          omega (
            arith,
            l.address,
            l.size,
            (Blocks-in (size_of q.blk) l.offset (q.free ++ q.used) ok.blocks
                (In-append_right l.offset q.free q.used l.held)).0,
          ))

  -- A block of a page that stands away from others overlaps none of theirs.
  pub apart-Away :
      (p : Page) (x a s : ℕ) (ps : List Page)
      → p.page % 4096 ≡ 0
      → x + size_of p.blk ≤ 4096
      → Away p ps
      → Pages word refs top ps
      → Live ps a s
      → Disjoint (p.page + x) (size_of p.blk) a s
  apart-Away p x a s [] al fits away ok l = absurd l
  apart-Away p x a s (q ∷ qs) al fits away ok (inl l) = apart_pages p q x a s al fits ok.0 away.0 l
  apart-Away p x a s (q ∷ qs) al fits away ok (inr l) = apart-Away p x a s qs al fits away.2 ok.3 l

  first :
      (p : Page) {x : ℕ} {rest : List ℕ}
      → p.free ≡ x ∷ rest
      → IsPage word refs top p
      → x + size_of p.blk ≤ 4096
  first p e ok = (subst (λ f. Blocks (size_of p.blk) (f ++ p.used)) e ok.blocks).0

  -- A free block overlaps none in use.
  pub free_apart :
      (xs ys : List Page) (p : Page) (x : ℕ) (rest : List ℕ) (a s : ℕ)
      → Pages word refs top (around xs p ys)
      → p.free ≡ x ∷ rest
      → Live (around xs p ys) a s
      → Disjoint (p.page + x) (size_of p.blk) a s
  free_apart [] ys p x rest a s ok e (inl l) = apart_in p x rest a s ok.0 e l
  free_apart [] ys p x rest a s ok e (inr l) =
      apart-Away p x a s ys ok.0.aligned (first p e ok.0) ok.2 ok.3 l
  free_apart (z ∷ zs) ys p x rest a s ok e (inl l) =
      let here = (Pages-mid zs ys p ok.3).0 in
      apart_pages p z x a s here.aligned (first p e here) ok.0
        (λ f. (Away-mid zs ys p z ok.2).0 (sym f)) l
  free_apart (z ∷ zs) ys p x rest a s ok e (inr l) = free_apart zs ys p x rest a s ok.3 e l
