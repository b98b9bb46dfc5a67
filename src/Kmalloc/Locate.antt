-- ===== src/Kmalloc/Locate.antt =====
-- The search of kfree for the page of a block in use, kmalloc.c's walk over allbase.
use os161_testbed.Common.{
  ℕ, ◌+◌, ◌*◌, ◌/◌, ◌%◌, ◌^◌, ◌<◌, ◌≤◌, ◌≡◌, ◌≢◌, ◌⊎◌, ◌↔◌, inl, inr, refl, sym, ap, true, false,
  some, List, [], ◌∷◌, ◌++◌, arith, ltb, leb, ◌&&◌,
}
use os161_testbed.Common.Run.{done}
use os161_testbed.Kmalloc.{Heap, Pageref, size_of, find_page}
use os161_testbed.Kmalloc.Page.{Page, blocks_apart}
use os161_testbed.Kmalloc.Holds.{IsPage, Pages, Away, ptrs, size_of-pos, Away-mid}
use os161_testbed.Kmalloc.Change.{around, Pages-mid}
use os161_testbed.Kmalloc.Live.{LiveIn, Live, Blocks-in, In-append_right}
use os161_testbed.Kmalloc.Gives.{at_right}

-- The page that a block in use is of.
pub record Located (ps : List Page) (a s : ℕ) : Type 0 where
  pub before : List Page
  pub of : Page
  pub after : List Page
  pub pages : ps ≡ around before of after
  pub live : LiveIn of a s

pub locate : (ps : List Page) (a s : ℕ) → Live ps a s → Located ps a s
locate [] a s l = absurd l
locate (p ∷ ps) a s (inl l) = record { before = []; of = p; after = ps; pages = refl; live = l }
locate (p ∷ ps) a s (inr l) =
    let r = locate ps a s l in
    record {
      before = p ∷ r.before;
      of = r.of;
      after = r.after;
      pages = ap (λ qs. p ∷ qs) r.pages;
      live = r.live;
    }

module _ (word : ℕ → ℕ) (refs : ℕ → Pageref) (top : ℕ) where
  -- where a block in use stands
  pub within :
      (p : Page) (a s : ℕ)
      → IsPage word refs top p
      → LiveIn p a s
      → (p.page ≤ a) × (a < p.page + 4096)
  within p a s ok l =
      let fits =
        (Blocks-in (size_of p.blk) l.offset (p.free ++ p.used) ok.blocks
          (In-append_right l.offset p.free p.used l.held)).0 in
      (omega (arith, l.address), omega (arith, l.address, fits, size_of-pos p.blk ok.blk))

  pub elsewhere :
      (p q : Page) (a : ℕ)
      → IsPage word refs top p
      → IsPage word refs top q
      → p.page ≢ q.page
      → p.page ≤ a
      → a < p.page + 4096
      → (leb q.page a && ltb a (q.page + 4096)) ≡ false
  elsewhere p q a ok ok' ne lo hi =
      go (blocks_apart 4096 p.page q.page (omega arith) ok.aligned ok'.aligned ne)
    where
      go :
          (p.page + 4096 ≤ q.page) ⊎ (q.page + 4096 ≤ p.page)
          → (leb q.page a && ltb a (q.page + 4096)) ≡ false
      go (inl le) = ground arith
      go (inr le) = ground arith

  -- blocks of other pages stand at other addresses
  pub others_ne :
      (xs ys : List Page) (p : Page) (a s b t : ℕ)
      → Pages word refs top (around xs p ys)
      → LiveIn p a s
      → Live (xs ++ ys) b t
      → b ≢ a
  others_ne [] ys p a s b t ok l m = after ys ok.2 ok.3 m
    where
      after : (zs : List Page) → Away p zs → Pages word refs top zs → Live zs b t → b ≢ a
      after [] away ok' m e = absurd m
      after (z ∷ zs) away ok' (inl m) e =
          let w = within p a s ok.0 l in
          let w' = within z b t ok'.0 m in
          let f = elsewhere p z a ok.0 ok'.0 (λ g. away.0 (sym g)) w.0 w.1 in ground arith
      after (z ∷ zs) away ok' (inr m) e = after zs away.2 ok'.3 m e
  others_ne (x ∷ xs) ys p a s b t ok l (inl m) =
      let here = (Pages-mid xs ys p ok.3).0 in
      let w = within p a s here l in
      let w' = within x b t ok.0 m in
      let f = elsewhere p x a here ok.0 ((Away-mid xs ys p x ok.2).0) w.0 w.1 in λ e. ground arith
  others_ne (x ∷ xs) ys p a s b t ok l (inr m) = others_ne xs ys p a s b t ok.3 l m

module _ (h : Heap) (top : ℕ) (small : top ≤ 512 * 1024 * 1024) where
  -- the search of the pagerefs finds the page
  pub find_page-eq :
      (xs ys : List Page) (p : Page) (a s : ℕ)
      → Pages h.word h.refs top (around xs p ys)
      → LiveIn p a s
      → find_page a (ptrs (around xs p ys)) h ≡ done (some p.ptr) h
  unfolding find_page
  find_page-eq [] ys p a s ok l =
      let w = within h.word h.refs top p a s ok.0 l in
      let al = ok.0.aligned in
      let lt = ok.0.blk in
      let base : (p.page + p.blk) / 4096 * 4096 ≡ p.page = omega arith in
      let type : ltb ((p.page + p.blk) % 4096) 8 ≡ true =
        (let f : (p.page + p.blk) % 4096 ≡ p.blk = omega arith in ground arith) in
      let inside : (leb p.page a && ltb a (p.page + 4096)) ≡ true = ground (arith, w) in
      let whole : (p.page + 4096) % 2 ^ 32 ≡ p.page + 4096 = omega (arith, ok.0.high) in
      rw (ok.0.ref, base, type, whole, inside) refl
  find_page-eq (x ∷ xs) ys p a s ok l =
      let here = (Pages-mid xs ys p ok.3).0 in
      let w = within h.word h.refs top p a s here l in
      let al = ok.0.aligned in
      let lt = ok.0.blk in
      let base : (x.page + x.blk) / 4096 * 4096 ≡ x.page = omega arith in
      let type : ltb ((x.page + x.blk) % 4096) 8 ≡ true =
        (let f : (x.page + x.blk) % 4096 ≡ x.blk = omega arith in ground arith) in
      let outside =
        elsewhere h.word h.refs top p x a here ok.0 ((Away-mid xs ys p x ok.2).0) w.0 w.1 in
      let whole : (x.page + 4096) % 2 ^ 32 ≡ x.page + 4096 = omega (arith, ok.0.high) in
      rw (ok.0.ref, base, type, whole, outside) (find_page-eq xs ys p a s ok.3 l)

-- The blocks in use are those of one page and those of the others.
pub Live-around :
    (xs ys : List Page) (p : Page) (b t : ℕ)
    → Live (around xs p ys) b t ↔ (LiveIn p b t ⊎ Live (xs ++ ys) b t)
Live-around [] ys p b t = ((λ l. l), λ l. l)
Live-around (x ∷ xs) ys p b t = at_right (Live-around xs ys p b t)
