-- ===== src/Kmalloc/Freed.antt =====
-- What kfree promises of a block in use.
use os161_testbed.Common.{
  ℕ, suc, ◌+◌, ◌*◌, ◌/◌, ◌%◌, ◌<◌, ◌≤◌, ◌≡◌, ◌≢◌, ◌↔◌, inl, inr, refl, sym, ap, subst, ◌∙◌, true,
  false, some, List, [], ◌∷◌, ◌++◌, arith, length, ◌==◌, leb, if◌then◌else◌, lt→ltb,
}
use os161_testbed.Common.Run.{Run, done, Ensures, returns, fails, and_then, ◌>>◌, kassert}
use os161_testbed.Kmalloc.{
  Heap, size_of, kfree, subpage_kfree, find_page, put_block, release_if_free, remove_lists,
  on_roots, on_heap, pageaddr,
}
use os161_testbed.Kmalloc.Ram.{page_size}
use os161_testbed.Kmalloc.Refs.{Roots, freepageref, release_kpages}
use os161_testbed.Kmalloc.Refs.Slots.{InUse}
use os161_testbed.Kmalloc.Refs.Alloc.{Never}
use os161_testbed.Kmalloc.Refs.Free.{Dropped, freepageref-Dropped}
use os161_testbed.Kmalloc.Page.{Page}
use os161_testbed.Kmalloc.Holds.{IsPage, Holds, InUses}
use os161_testbed.Kmalloc.Change.{around, Pages-mid, Holds-put, Holds-drop, unlinked}
use os161_testbed.Kmalloc.Live.{In, LiveIn, Live}
use os161_testbed.Kmalloc.Back.{remove, length-remove}
use os161_testbed.Kmalloc.Put.{
  back, new_words, new_refs, after_put, put_block-eq-release, put-OnlyAt, back-IsPage, back-LiveIn,
}
use os161_testbed.Kmalloc.Locate.{locate, others_ne, find_page-eq, Live-around}

-- The block at a is no longer in use, and the others are.
pub record Freed (ps : List Page) (a : ℕ) (u : Unit {0}) (h' : Heap) : Type 0 where
  pub pages : List Page
  pub holds : Holds h' pages
  pub live : (b t : ℕ) → Live pages b t ↔ ((b ≢ a) × Live ps b t)

Ref-in : (s : Roots) (xs ys : List Page) (p : Page) → InUses s (around xs p ys) → InUse s p.ptr
Ref-in s [] ys p u = u.0
Ref-in s (x ∷ xs) ys p u = Ref-in s xs ys p u.1

module _ {h : Heap} (xs ys : List Page) (p : Page) (ok : Holds h (around xs p ys)) (x : ℕ)
    (held : In x p.used) where
  here : IsPage h.word h.refs h.roots.ram.firstpaddr p
  here = (Pages-mid xs ys p ok.pages).0

  top : h.roots.ram.firstpaddr ≤ 512 * 1024 * 1024
  top = omega (arith, ok.roots.ram.ordered, ok.roots.ram.high)

  it : LiveIn p (p.page + x) (size_of p.blk)
  it = record { offset = x; held = held; address = refl; size = refl }

  Live-put :
      (b t : ℕ)
      → Live (around xs (back p x) ys) b t ↔ ((b ≢ p.page + x) × Live (around xs p ys) b t)
  Live-put b t = (to, from)
    where
      to : Live (around xs (back p x) ys) b t → (b ≢ p.page + x) × Live (around xs p ys) b t
      to l = elim ((Live-around xs ys (back p x) b t).0 l) [
        | inl m ↦
            (let n = (back-LiveIn h p x here held top b t).0 m in
              (n.0, (Live-around xs ys p b t).1 (inl n.1)))
        | inr m ↦ (
          others_ne h.word h.refs h.roots.ram.firstpaddr xs ys p (p.page + x) (size_of p.blk) b t
              ok.pages it m,
          (Live-around xs ys p b t).1 (inr m),
        )
      ]

      from : (b ≢ p.page + x) × Live (around xs p ys) b t → Live (around xs (back p x) ys) b t
      from (ne, l) = elim ((Live-around xs ys p b t).0 l) [
        | inl m ↦
            (Live-around xs ys (back p x) b t).1
              (inl ((back-LiveIn h p x here held top b t).1 (ne, m)))
        | inr m ↦ (Live-around xs ys (back p x) b t).1 (inr m)
      ]

  Live-drop :
      remove x p.used ≡ []
      → (b t : ℕ) → Live (xs ++ ys) b t ↔ ((b ≢ p.page + x) × Live (around xs p ys) b t)
  Live-drop empty b t = (to, from)
    where
      to : Live (xs ++ ys) b t → (b ≢ p.page + x) × Live (around xs p ys) b t
      to m = (
        others_ne h.word h.refs h.roots.ram.firstpaddr xs ys p (p.page + x) (size_of p.blk) b t
            ok.pages it m,
        (Live-around xs ys p b t).1 (inr m),
      )

      from : (b ≢ p.page + x) × Live (around xs p ys) b t → Live (xs ++ ys) b t
      from (ne, l) = elim ((Live-around xs ys p b t).0 l) [
        | inl m ↦
            (let n = (back-LiveIn h p x here held top b t).1 (ne, m) in
              absurd (subst (In n.offset) empty n.held))
        | inr m ↦ m
      ]

  release_kept :
      0 < length (remove x p.used)
      → Ensures
          (Freed (around xs p ys) (p.page + x))
          Never
          (release_if_free p.ptr p.blk (after_put h p x here held top))
  unfolding release_if_free after_put new_refs
  release_kept busy =
      let self : (p.ptr == p.ptr) ≡ true = ground arith in
      let all : suc (length p.free) + length (remove x p.used) ≡ 4096 / size_of p.blk =
        omega (arith, here.full, length-remove x p.used held) in
      let fits : leb (suc (length p.free)) (4096 / size_of p.blk) ≡ true = ground arith in
      let more : (suc (length p.free) == 4096 / size_of p.blk) ≡ false = ground arith in
      rw (self, fits, more)
        (returns (record {
          pages = around xs (back p x) ys;
          holds =
              Holds-put xs ys p (x ∷ p.free) (remove x p.used) (new_words h p x here held top)
                (new_refs h p x here held top) ok (put-OnlyAt h p x here held top)
                (back-IsPage h p x here held top) busy;
          live = Live-put;
        }))

  -- the end of release_if_free, after freepageref
  Dropped-cases :
      (r : Run Roots (Unit {0}))
      → Ensures (λ _ s'. Dropped h.roots p.ptr s') Never r
      → remove x p.used ≡ []
      → Ensures (Freed (around xs p ys) (p.page + x)) Never (
          and_then (on_heap (unlinked (after_put h p x here held top) p) r) (λ _.
            on_roots (release_kpages (pageaddr ((after_put h p x here held top).refs p.ptr)))))
  unfolding on_heap on_roots after_put
  Dropped-cases _ (returns {s = s'} d) empty = returns (record {
    pages = xs ++ ys;
    holds =
        Holds-drop xs ys p (new_words h p x here held top) (new_refs h p x here held top) s' ok
          (put-OnlyAt h p x here held top) d.roots d.ram d.kept;
    live = Live-drop empty;
  })
  Dropped-cases _ (fails bad) empty = absurd bad

  release_dropped :
      remove x p.used ≡ []
      → Ensures
          (Freed (around xs p ys) (p.page + x))
          Never
          (release_if_free p.ptr p.blk (after_put h p x here held top))
  unfolding release_if_free after_put new_refs remove_lists on_roots
  release_dropped empty =
      let self : (p.ptr == p.ptr) ≡ true = ground arith in
      let one : length p.used ≡ 1 = length-remove x p.used held ∙ ap (λ l. suc (length l)) empty in
      let all : suc (length p.free) ≡ 4096 / size_of p.blk = omega (arith, here.full) in
      let fits : leb (suc (length p.free)) (4096 / size_of p.blk) ≡ true = ground arith in
      let full : (suc (length p.free) == 4096 / size_of p.blk) ≡ true = ground arith in
      rw (self, fits, full, lt→ltb p.blk 8 here.blk)
        (Dropped-cases (freepageref p.ptr h.roots)
          (freepageref-Dropped ok.roots (Ref-in h.roots xs ys p ok.in_use)) empty)

  put_block-Freed :
      Ensures (Freed (around xs p ys) (p.page + x)) Never (put_block p.ptr (p.page + x) h)
  put_block-Freed = rw (put_block-eq-release h p x here held top) (by_rest (remove x p.used) refl)
    where
      by_rest :
          (used : List ℕ)
          → remove x p.used ≡ used
          → Ensures
              (Freed (around xs p ys) (p.page + x))
              Never
              (release_if_free p.ptr p.blk (after_put h p x here held top))
      by_rest [] e = release_dropped e
      by_rest (y ∷ ys') e = release_kept (rw e (omega arith))

-- the calls around put_block
kfree_found :
    (h : Heap) (p : Page) (a : ℕ) (ps : List Page)
    → a ≢ 0
    → find_page a h.allbase h ≡ done (some p.ptr) h
    → Ensures (Freed ps a) Never (put_block p.ptr a h)
    → Ensures (Freed ps a) Never (kfree a h)
unfolding kfree subpage_kfree
kfree_found h p a ps nz run r =
    let nz' : (a == 0) ≡ false = ground arith in rw (nz', run) (rest (put_block p.ptr a h) r)
  where
    rest :
        (r : Run Heap (Unit {0}))
        → Ensures (Freed ps a) Never r
        → Ensures (Freed ps a) Never (
            and_then (and_then r (λ _. done true)) (λ mine.
              if mine
              then done tt
              else (do kassert (a % page_size == 0); on_roots (release_kpages a))))
    rest _ (returns f) = returns f
    rest _ (fails bad) = absurd bad

-- kfree of a block in use, in a heap that holds a list of pages, never panics: the heap then holds a
-- list of pages in which just that block is no longer in use.
pub kfree-Freed :
    {h : Heap} {ps : List Page}
    → Holds h ps
    → (a s : ℕ) → Live ps a s
    → Ensures (Freed ps a) Never (kfree a h)
kfree-Freed {h} {ps} ok a s l =
    let r = locate ps a s l in
    let p = r.of in
    let ok' : Holds h (around r.before p r.after) = subst (Holds h) r.pages ok in
    let here = (Pages-mid r.before r.after p ok'.pages).0 in
    let found : find_page a h.allbase h ≡ done (some p.ptr) h =
      ap (λ l. find_page a l h) ok'.all
      ∙ (find_page-eq h h.roots.ram.firstpaddr
          (omega (arith, ok.roots.ram.ordered, ok.roots.ram.high)) r.before r.after p a s ok'.pages
          r.live) in
    let freed : Ensures (Freed ps a) Never (put_block p.ptr a h) =
      subst (λ qs. Ensures (Freed qs a) Never (put_block p.ptr a h)) (sym r.pages)
        (subst (λ b. Ensures (Freed (around r.before p r.after) b) Never (put_block p.ptr b h))
          (sym r.live.address)
          (put_block-Freed r.before r.after p ok' r.live.offset r.live.held)) in
    kfree_found h p a ps (λ z. omega (arith, z, r.live.address, here.low)) found freed
