-- ===== src/Kmalloc/Gives.antt =====
-- What kmalloc promises of a small request.
use os161_testbed.Common.{
  ℕ, zero, suc, ◌+◌, ◌*◌, ◌<◌, ◌≤◌, ◌≡◌, ◌≢◌, ◌⊎◌, ◌↔◌, inl, inr, refl, ap, subst, ◌∙◌, true, false,
  List, [], ◌∷◌, ◌++◌, arith, length, leb, Bool-cases, get_or, update,
}
use os161_testbed.Common.Run.{done, Ensures, returns, mono}
use os161_testbed.Kmalloc.{
  Heap, size_of, sizes, kmalloc, subpage_kmalloc, blocktype, blocktype_from, take_from, doalloc,
}
use os161_testbed.Kmalloc.Refs.Alloc.{Never}
use os161_testbed.Kmalloc.Ram.{kseg0}
use os161_testbed.Kmalloc.Page.{Page, pageref, Blocks}
use os161_testbed.Kmalloc.Holds.{Holds, InUses, ptrs, of_type}
use os161_testbed.Kmalloc.Change.{around, Pages-mid, Holds-put}
use os161_testbed.Kmalloc.Live.{In, LiveIn, Live, Disjoint, free_apart, apart-Away}
use os161_testbed.Kmalloc.Alloc.{
  took, doalloc-took, took-OnlyAt, took-IsPage, Search, full_up, found_free, search,
}
use os161_testbed.Kmalloc.Fresh.{NewPage, Lost, no_page, new, new_page-NewPage}

-- The size bytes at a are within one of the pages.
abbrev pub Inside : List Page → (a size : ℕ) → Type 0
Inside [] a size = ⊥
Inside (p ∷ ps) a size = ((p.page ≤ a) × (a + size ≤ p.page + 4096)) ⊎ Inside ps a size

Inside-mid :
    (xs ys : List Page) (p : Page) (x size : ℕ)
    → x + size ≤ 4096
    → Inside (around xs p ys) (p.page + x) size
Inside-mid [] ys p x size fits = inl (omega arith, omega arith)
Inside-mid (z ∷ zs) ys p x size fits = inr (Inside-mid zs ys p x size fits)

-- NULL, and the lists, the pages and their blocks as they were; then the heap still holds them, or a
-- pageref was lost. Or a block that is large enough, overlaps none in use, and lies within a page of the
-- heap or past all memory handed out before.
pub data Given (h : Heap) (ps : List Page) (sz ret : ℕ) (h' : Heap) : Type 0 where
  null :
      ret ≡ 0
      → h'.word ≡ h.word
      → h'.refs ≡ h.refs
      → h'.sizebases ≡ h.sizebases
      → h'.allbase ≡ h.allbase
      → InUses h'.roots ps
      → Holds h' ps ⊎ Lost h'.roots
      → Given h ps sz ret h'
  block :
      (ps' : List Page) (size : ℕ)
      → Holds h' ps'
      → ret ≢ 0
      → sz ≤ size
      → ((a s : ℕ) → Live ps' a s ↔ (((a ≡ ret) × (s ≡ size)) ⊎ Live ps a s))
      → ((a s : ℕ) → Live ps a s → Disjoint ret size a s)
      → Inside ps ret size ⊎ (kseg0 + h.roots.ram.firstpaddr ≤ ret)
      → Given h ps sz ret h'

-- One more block of a page is in use.
LiveIn-took :
    (p : Page) (x : ℕ) (rest : List ℕ) (a s : ℕ)
    → LiveIn (took p x rest) a s ↔ (((a ≡ p.page + x) × (s ≡ size_of p.blk)) ⊎ LiveIn p a s)
LiveIn-took p x rest a s = (to, from)
  where
    split :
        (l : LiveIn (took p x rest) a s)
        → (x ≡ l.offset) ⊎ In l.offset p.used
        → ((a ≡ p.page + x) × (s ≡ size_of p.blk)) ⊎ LiveIn p a s
    split l (inl e) = inl (rw e l.address, l.size)
    split l (inr i) =
        inr (record { offset = l.offset; held = i; address = l.address; size = l.size })

    to : LiveIn (took p x rest) a s → ((a ≡ p.page + x) × (s ≡ size_of p.blk)) ⊎ LiveIn p a s
    to l = split l l.held

    from : ((a ≡ p.page + x) × (s ≡ size_of p.blk)) ⊎ LiveIn p a s → LiveIn (took p x rest) a s
    from (inl (e, f)) = record { offset = x; held = inl refl; address = e; size = f }
    from (inr l) = record {
      offset = l.offset;
      held = inr l.held;
      address = l.address;
      size = l.size;
    }

-- E comes to the front of a disjunction.
module _ {L' L E R : Type 0} (f : L' ↔ (E ⊎ L)) where
  at_left : (L' ⊎ R) ↔ (E ⊎ (L ⊎ R))
  at_left = (to, from)
    where
      widen : E ⊎ L → E ⊎ (L ⊎ R)
      widen (inl e) = inl e
      widen (inr l) = inr (inl l)

      to : L' ⊎ R → E ⊎ (L ⊎ R)
      to (inl l) = widen (f.0 l)
      to (inr r) = inr (inr r)

      from : E ⊎ (L ⊎ R) → L' ⊎ R
      from (inl e) = inl (f.1 (inl e))
      from (inr (inl l)) = inl (f.1 (inr l))
      from (inr (inr r)) = inr r

  pub at_right : (R ⊎ L') ↔ (E ⊎ (R ⊎ L))
  at_right = (to, from)
    where
      widen : E ⊎ L → E ⊎ (R ⊎ L)
      widen (inl e) = inl e
      widen (inr l) = inr (inr l)

      to : R ⊎ L' → E ⊎ (R ⊎ L)
      to (inl r) = inr (inl r)
      to (inr l) = widen (f.0 l)

      from : E ⊎ (R ⊎ L) → R ⊎ L'
      from (inl e) = inr (f.1 (inl e))
      from (inr (inl r)) = inl r
      from (inr (inr l)) = inr (f.1 (inr l))

Live-took :
    (xs ys : List Page) (p : Page) (x : ℕ) (rest : List ℕ) (a s : ℕ)
    → Live (around xs (took p x rest) ys) a s
      ↔ (((a ≡ p.page + x) × (s ≡ size_of p.blk)) ⊎ Live (around xs p ys) a s)
Live-took [] ys p x rest a s = at_left (LiveIn-took p x rest a s)
Live-took (z ∷ zs) ys p x rest a s = at_right (Live-took zs ys p x rest a s)

-- a page of which no block is in use
none-Live : (p : Page) (ps : List Page) (a s : ℕ) → p.used ≡ [] → Live (p ∷ ps) a s → Live ps a s
none-Live p ps a s e (inl l) = absurd (subst (In l.offset) e l.held)
none-Live p ps a s e (inr l) = l

module _ {h : Heap} {ps : List Page} (ok : Holds h ps) (t sz : ℕ) (lt : t < 8)
    (large : sz ≤ size_of t) where
  -- from a page that has a free block
  Given-old :
      (xs ys : List Page) (p : Page) (x : ℕ) (rest : List ℕ)
      → ps ≡ around xs p ys
      → p.blk ≡ t
      → p.free ≡ x ∷ rest
      → Ensures (Given h ps sz) Never (doalloc p.ptr h)
  Given-old xs ys p x rest at ty free =
      let ok' : Holds h (around xs p ys) = subst (Holds h) at ok in
      let here = (Pages-mid xs ys p ok'.pages).0 in
      let top : h.roots.ram.firstpaddr ≤ 512 * 1024 * 1024 =
        omega (arith, ok.roots.ram.ordered, ok.roots.ram.high) in
      rw (doalloc-took h p x rest free here top) (
        returns (
          block (around xs (took p x rest) ys) (size_of p.blk)
            (Holds-put xs ys p rest (x ∷ p.used) h.word
              (update h.refs p.ptr (pageref p.page p.blk rest)) ok'
              (took-OnlyAt h p x rest free here top) (took-IsPage h p x rest free here top)
              (omega arith))
            (λ e. omega (arith, here.low, e)) (rw ty large)
            (λ a s. rw at (Live-took xs ys p x rest a s))
            (λ a s l.
              free_apart h.word h.refs h.roots.ram.firstpaddr xs ys p x rest a s ok'.pages free
                (subst (λ qs. Live qs a s) at l))
            (inl (
              rw at (
                Inside-mid xs ys p x (size_of p.blk)
                  (subst (λ f. Blocks (size_of p.blk) (f ++ p.used)) free here.blocks).0)))))

  Given-new : (ret : ℕ) (h' : Heap) → NewPage h ps t ret h' → Given h ps sz ret h'
  Given-new ret h' (no_page z e f g i inu kept) = null z e f g i inu kept
  Given-new ret h' (new p x rest free used ty at fits aligned pos away holds) =
      block (took p x rest ∷ ps) (size_of p.blk) holds (λ e. omega (arith, at, e, pos))
        (rw ty large) (λ a s. let l = Live-took [] ps p x rest a s in rw at (live_new a s l))
        (λ a s l.
          rw at (
            apart-Away h.word h.refs h.roots.ram.firstpaddr p x a s ps aligned fits away ok.pages
              l))
        (inr (omega arith))
    where
      live_new :
          (a s : ℕ)
          → (Live (took p x rest ∷ ps) a s
              ↔ (((a ≡ p.page + x) × (s ≡ size_of p.blk)) ⊎ Live (p ∷ ps) a s))
          → Live (took p x rest ∷ ps) a s ↔ (((a ≡ p.page + x) × (s ≡ size_of p.blk)) ⊎ Live ps a s)
      live_new a s l = (λ m. narrow (l.0 m), λ m. l.1 (widen m))
        where
          narrow :
              ((a ≡ p.page + x) × (s ≡ size_of p.blk)) ⊎ Live (p ∷ ps) a s
              → ((a ≡ p.page + x) × (s ≡ size_of p.blk)) ⊎ Live ps a s
          narrow (inl e) = inl e
          narrow (inr m) = inr (none-Live p ps a s used m)

          widen :
              ((a ≡ p.page + x) × (s ≡ size_of p.blk)) ⊎ Live ps a s
              → ((a ≡ p.page + x) × (s ≡ size_of p.blk)) ⊎ Live (p ∷ ps) a s
          widen (inl e) = inl e
          widen (inr m) = inr (inr m)

  take_from-Given : Ensures (Given h ps sz) Never (take_from t (get_or h.sizebases t []) h)
  take_from-Given = rw (ok.bases t lt) (found (search t ps))
    where
      found : Search t ps → Ensures (Given h ps sz) Never (take_from t (ptrs (of_type t ps)) h)
      found (full_up all) =
          rw (all h ok.pages) (mono (new_page-NewPage ps t lt ok) Given-new (λ e s bad. bad))
      found (found_free xs ys p x rest at ty free all) =
          rw (all h ok.pages) (Given-old xs ys p x rest at ty free)

-- Where some size is large enough, the loop of blocktype finds one.
blocktype_from-fits :
    (sz i k : ℕ) (ss : List ℕ) (h : Heap)
    → k < length ss
    → sz ≤ get_or ss k 0
    → (m : ℕ) × (m < length ss) × (blocktype_from sz i ss h ≡ done (i + m) h) × (sz ≤ get_or ss m 0)
unfolding blocktype_from
blocktype_from-fits sz i k [] h lt fits = absurd (omega arith)
blocktype_from-fits sz i zero (s ∷ ss) h lt fits =
    let e : i ≡ i + 0 = omega arith in
    let yes_fits : leb sz s ≡ true = ground arith in
    (0, omega arith, rw yes_fits (ap (λ n. done n h) e), fits)
blocktype_from-fits sz i (suc k) (s ∷ ss) h lt fits = elim (Bool-cases (leb sz s)) [
  | inl e ↦
      let f : i ≡ i + 0 = omega arith in (0, omega arith, rw e (ap (λ n. done n h) f), ground arith)
  | inr e ↦
      let (m, mlt, run, large) = blocktype_from-fits sz (i + 1) k ss h (omega arith) fits in
      let f : i + 1 + m ≡ i + suc m = omega arith in
      (suc m, omega arith, rw e (run ∙ ap (λ n. done n h) f), large)
]

-- The block type that blocktype finds.
blocktype-fits :
    (sz : ℕ) (h : Heap)
    → sz < 2048
    → (t : ℕ) × (t < 8) × (blocktype sz h ≡ done t h) × (sz ≤ size_of t)
unfolding blocktype
blocktype-fits sz h lt =
    let (m, mlt, run, fits) = blocktype_from-fits sz 0 7 sizes h (omega arith) (omega arith) in
    let e : 0 + m ≡ m = omega arith in (m, mlt, run ∙ ap (λ k. done k h) e, fits)

-- kmalloc of less than half a page, in a heap that holds a list of pages of blocks: it never panics. It may
-- give NULL: then the lists, the freelists and the blocks in use are as they were and the pagerefs of the
-- pages stay in use, and the heap still holds its pages or some root without a page for its pagerefs
-- counts one as in use. Or it gives a block that is at least as large as asked, overlaps no block in use in
-- the pages, and lies within one of the pages or past all memory handed out before. The heap then holds a
-- list of pages in which that block is in use, and otherwise the same blocks as before.
pub kmalloc-Given :
    {h : Heap} {ps : List Page}
    → Holds h ps
    → (sz : ℕ) → sz < 2048
    → Ensures (Given h ps sz) Never (kmalloc sz h)
unfolding kmalloc subpage_kmalloc
kmalloc-Given {h} {ps} ok sz lt =
    let small : leb 2048 sz ≡ false = ground arith in
    let (t, tlt, run, large) = blocktype-fits sz h lt in
    rw (small, run) (take_from-Given ok t sz tlt large)
