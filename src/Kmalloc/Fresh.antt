-- ===== src/Kmalloc/Fresh.antt =====
-- A new page for the subpage allocator, and the block that is taken from it.
use os161_testbed.Common.{
  ℕ, zero, suc, ◌+◌, ◌-◌, ◌*◌, ◌/◌, ◌%◌, ◌^◌, ◌<◌, ◌≤◌, ◌≡◌, ◌≢◌, ◌⊎◌, inl, inr, ap, ◌∙◌, refl,
  subst, true, false, List, [], ◌∷◌, ◌++◌, arith, ◌==◌, update, if◌then◌else◌,
}
use native.Mathlib.Nat.{mul-mod_left}
use os161_testbed.Common.Run.{◌>>◌, Run, done, and_then, Ensures, returns, fails}
use os161_testbed.Kmalloc.{Heap, Pageref, size_of, carve, doalloc, new_page, on_roots, on_heap}
use os161_testbed.Kmalloc.Ram.{Ram, kseg0, alloc_kpages}
use os161_testbed.Kmalloc.Refs.{Roots, root_at, allocpageref, release_kpages}
use os161_testbed.Kmalloc.Refs.Slots.{
  IsRam, OnePage, out, got, after_page, alloc_kpages-OnePage, IsRoots, InUse, root_at-put_root_self,
}
use os161_testbed.Kmalloc.Refs.Take.{GotRef, none_left, lost, taken, fresh}
use os161_testbed.Kmalloc.Refs.Alloc.{Never, allocpageref-GotRef}
use os161_testbed.Kmalloc.Page.{Page, pageref, Chain, Blocks, NotIn}
use os161_testbed.Kmalloc.Holds.{
  IsPage, Away, Pages, InUses, Holds, OnlyAt, InUses-kept, IsPage-kept,
}
use os161_testbed.Kmalloc.Change.{linked, Holds-new}
use os161_testbed.Kmalloc.Carve.{descending, length-descending, all_free, carve-Carved, blocks_fit}
use os161_testbed.Kmalloc.Alloc.{doalloc-took, took, took-IsPage}

NotIn-descending : (size n x : ℕ) → n * size < x → NotIn x (descending size n ++ [])
unfolding descending
NotIn-descending size zero x lt = ((λ e. omega (arith, e)), tt)
NotIn-descending size (suc n) x lt =
    ((λ e. omega (arith, e)), NotIn-descending size n x (grind arith))

Blocks-descending :
    (size n : ℕ) → 0 < size → n * size + size ≤ 4096 → Blocks size (descending size n ++ [])
unfolding descending
Blocks-descending size zero pos fits = (omega arith, grind arith, tt, tt)
Blocks-descending size (suc n) pos fits =
    let step : suc n * size ≡ n * size + size = grind arith in
    (
      fits,
      mul-mod_left (suc n) size,
      NotIn-descending size n (suc n * size) (omega (arith, step)),
      Blocks-descending size n pos (omega (arith, step)),
    )

-- the roots after a page has been handed out
abbrev with_page : Roots → Roots
with_page s = record s { ram = after_page s.ram }

with_page-InUse : {s : Roots} (q : ℕ) → InUse s q → InUse (with_page s) q
with_page-InUse q u = record {
  root = u.root;
  index = u.index;
  root_lt = u.root_lt;
  index_lt = u.index_lt;
  page = u.page;
  address = u.address;
  on = u.on;
}

with_page-IsRoots : {s : Roots} → IsRoots s → IsRam (after_page s.ram) → IsRoots (with_page s)
with_page-IsRoots ok ram = record {
  ram = ram;
  many = ok.many;
  each = ok.each;
  below = λ k nz. (let b = ok.below k nz in (b.0, omega (arith, b.1)));
  apart = ok.apart;
}

-- The new page and its pageref are not those of any page of the heap.
Away-fresh :
    (p : Page) (s : Roots) (word : ℕ → ℕ) (refs : ℕ → Pageref) (top : ℕ) (ps : List Page)
    → kseg0 + top ≤ p.page
    → (InUse s p.ptr → ⊥)
    → Pages word refs top ps
    → InUses s ps
    → Away p ps
Away-fresh p s word refs top [] above new ok inu = tt
Away-fresh p s word refs top (q ∷ qs) above new ok inu = (
  (λ e. omega (arith, e, ok.0.high)),
  (λ e. new (subst (InUse s) e inu.0)),
  Away-fresh p s word refs top qs above new ok.3 inu.1,
)

other_refs :
    (refs : ℕ → Pageref) (pr q : ℕ) (r r' : Pageref)
    → q ≢ pr
    → update (update refs pr r') pr r q ≡ refs q
other_refs refs pr q r r' ne = let e : (pr == q) ≡ false = ground arith in rw e refl

descending-cons : (size n : ℕ) → (x : ℕ) × (rest : List ℕ) × (descending size n ≡ x ∷ rest)
unfolding descending
descending-cons size zero = (0, [], refl)
descending-cons size (suc n) = (suc n * size, descending size n, refl)

-- Some root has no page for its pagerefs, but counts one of them as in use.
pub record Lost (s : Roots) : Type 0 where
  pub root : ℕ
  pub root_lt : root < 16
  pub page : (root_at s root).page ≡ 0
  pub counted : (root_at s root).numinuse ≢ 0

-- More memory has been handed out.
Pages-grown :
    (word : ℕ → ℕ) (refs : ℕ → Pageref) {top top' : ℕ}
    → top ≤ top'
    → (ps : List Page) → Pages word refs top ps
    → Pages word refs top' ps
Pages-grown word refs le [] ok = tt
Pages-grown word refs le (p ∷ ps) ok =
    (IsPage-kept p (λ a lo hi. refl) refl le ok.0, ok.1, ok.2, Pages-grown word refs le ps ok.3)

-- What new_page gives: NULL, and the blocks as they were, or the first block of a new page.
pub data NewPage (h : Heap) (ps : List Page) (blk : ℕ) (ret : ℕ) (h' : Heap) : Type 0 where
  no_page :
      ret ≡ 0
      → h'.word ≡ h.word
      → h'.refs ≡ h.refs
      → h'.sizebases ≡ h.sizebases
      → h'.allbase ≡ h.allbase
      → InUses h'.roots ps
      → Holds h' ps ⊎ Lost h'.roots
      → NewPage h ps blk ret h'
  new :
      (p : Page) (x : ℕ) (rest : List ℕ)
      → p.free ≡ x ∷ rest
      → p.used ≡ []
      → p.blk ≡ blk
      → ret ≡ p.page + x
      → x + size_of p.blk ≤ 4096
      → p.page % 4096 ≡ 0
      → kseg0 + h.roots.ram.firstpaddr ≤ p.page
      → Away p ps
      → Holds h' (took p x rest ∷ ps)
      → NewPage h ps blk ret h'

module _ {h : Heap} (ps : List Page) (blk : ℕ) (lt : blk < 8) (ok : Holds h ps)
    (ram : IsRam (after_page h.roots.ram)) where
  page : ℕ
  page = kseg0 + h.roots.ram.firstpaddr

  aligned : page % 4096 ≡ 0
  unfolding page
  aligned = omega (arith, ok.roots.ram.aligned)

  s1 : Roots
  s1 = with_page h.roots

  page_small : page + 4096 ≤ 2 ^ 32
  unfolding page
  page_small = omega (arith, ram.ordered, ram.high)

  -- the first block of the page that has just been cut
  first_block :
      (pr : ℕ) (s2 : Roots)
      → IsRoots s2
      → (InUse s1 pr → ⊥)
      → InUse s2 pr
      → ((q : ℕ) → InUse s1 q → InUse s2 q)
      → s1.ram.firstpaddr ≤ s2.ram.firstpaddr
      → (word : ℕ → ℕ) → Chain word page (descending (size_of blk) (4096 / size_of blk - 1))
      → ((a : ℕ) → (a < page) ⊎ (page + 4096 ≤ a) → word a ≡ h.word a)
      → (x : ℕ) (rest : List ℕ) → descending (size_of blk) (4096 / size_of blk - 1) ≡ x ∷ rest
      → Ensures (NewPage h ps blk) Never (
          doalloc pr (record (linked (record h { roots = s2 }) (all_free pr page blk)) {
            word = word;
            refs =
                update h.refs pr
                  (pageref page blk (descending (size_of blk) (4096 / size_of blk - 1)));
          }))
  unfolding page s1
  first_block pr s2 rok unused inu kept grown word chain same_out x rest free =
      let p = all_free pr page blk in
      let h3 = record (linked (record h { roots = s2 }) p) {
        word = word;
        refs = update h.refs pr (pageref page blk p.free);
      } in
      let fits = blocks_fit blk lt in
      let self : (pr == pr) ≡ true = ground arith in
      let p_ok : IsPage h3.word h3.refs s2.ram.firstpaddr p = record {
        aligned = aligned;
        low = omega arith;
        high = omega (arith, grown);
        blk = lt;
        ref = rw self refl;
        chain = chain;
        blocks = Blocks-descending (size_of blk) (4096 / size_of blk - 1) fits.1 fits.0;
        full = omega (arith, length-descending (size_of blk) (4096 / size_of blk - 1), fits.2);
      } in
      let top : s2.ram.firstpaddr ≤ 512 * 1024 * 1024 =
        omega (arith, rok.ram.ordered, rok.ram.high) in
      let away =
        Away-fresh p s1 h.word h.refs h.roots.ram.firstpaddr ps (omega arith) unused ok.pages
          (InUses-kept with_page-InUse ps ok.in_use) in
      let only : OnlyAt page pr h.word word h.refs (update h3.refs pr (pageref page blk rest)) =
        record {
          words = same_out;
          pagerefs =
              λ q ne. other_refs h.refs pr q (pageref page blk rest) (pageref page blk p.free) ne;
        } in
      rw (doalloc-took h3 p x rest free p_ok top) (
        returns (
          new p x rest free refl refl refl
            (omega (arith, (subst (λ f. Blocks (size_of blk) (f ++ [])) free p_ok.blocks).0))
            aligned (omega arith) away
            (Holds-new ps (took p x rest) word (update h3.refs pr (pageref page blk rest)) s2 ok
              only rok (omega (arith, grown)) (λ q u. kept q (with_page-InUse q u)) inu
              (took-IsPage h3 p x rest free p_ok top) (omega arith) away)))

  -- the heap when only memory has been handed out
  grown_heap : InUses s1 ps → Holds (record h { roots = s1 }) ps
  unfolding s1
  grown_heap inu = record {
    all = ok.all;
    types = ok.types;
    bases = ok.bases;
    pages = Pages-grown h.word h.refs (omega arith) ps ok.pages;
    roots = with_page-IsRoots ok.roots ram;
    in_use = inu;
  }

  after_ref :
      (pr : ℕ) (s2 : Roots)
      → GotRef s1 pr s2
      → Ensures (NewPage h ps blk) Never (
          (if pr == 0
              then (do on_roots (release_kpages page); done 0)
              else (do carve pr page blk; doalloc pr))
            (record h { roots = s2 }))
  unfolding on_roots s1
  after_ref pr s2 (none_left e same all_full) =
      let z : (pr == 0) ≡ true = ground arith in
      let inu = InUses-kept with_page-InUse ps ok.in_use in
      rw (z, same) (returns (no_page refl refl refl refl refl inu (inl (grown_heap inu))))
  after_ref pr s2 (lost k i j e klt none' short same kept) =
      let z : (pr == 0) ≡ true = ground arith in
      let inu = InUses-kept kept ps (InUses-kept with_page-InUse ps ok.in_use) in
      let self : root_at s2 k ≡ taken (root_at s1 k) i j 0 =
        ap (λ s. root_at s k) same
        ∙ root_at-put_root_self s1 k (taken (root_at s1 k) i j 0) s1.ram (rw ok.roots.many klt) in
      rw z (
        returns (
          no_page refl refl refl refl refl inu (
            inr (record {
              root = k;
              root_lt = klt;
              page = rw self refl;
              counted = rw self (λ c. omega (arith, c));
            }))))
  after_ref pr s2 (fresh rok nz unused inu kept grown) =
      let nz' : (pr == 0) ≡ false = ground arith in
      let (word, run, chain, same_out) =
        carve-Carved (record h { roots = s2 }) pr page blk aligned page_small lt in
      let (x, rest, free) = descending-cons (size_of blk) (4096 / size_of blk - 1) in
      rw (nz', run) (first_block pr s2 rok unused inu kept grown word chain same_out x rest free)

  after_page-NewPage :
      Ensures (GotRef s1) Never (allocpageref s1)
      → Ensures (NewPage h ps blk) Never (
          and_then (on_heap (record h { roots = s1 }) (allocpageref s1)) (λ pr.
            if pr == 0
            then (do on_roots (release_kpages page); done 0)
            else (do carve pr page blk; doalloc pr)))
  unfolding on_heap on_roots
  after_page-NewPage r = ref_cases (allocpageref s1) r
    where
      ref_cases :
          (r : Run Roots ℕ)
          → Ensures (GotRef s1) Never r
          → Ensures (NewPage h ps blk) Never (
              and_then (on_heap (record h { roots = s1 }) r) (λ pr.
                if pr == 0
                then (do on_roots (release_kpages page); done 0)
                else (do carve pr page blk; doalloc pr)))
      ref_cases _ (returns {a} {s} g) = after_ref a s g
      ref_cases _ (fails bad) = absurd bad

-- new_page never panics.
pub new_page-NewPage :
    {h : Heap} (ps : List Page) (blk : ℕ)
    → blk < 8
    → Holds h ps
    → Ensures (NewPage h ps blk) Never (new_page blk h)
unfolding new_page on_roots page s1
new_page-NewPage {h} ps blk lt ok =
    go (alloc_kpages 1 h.roots.ram) refl (alloc_kpages-OnePage ok.roots.ram)
  where
    go :
        (r : ℕ × Ram)
        → alloc_kpages 1 h.roots.ram ≡ r
        → OnePage h.roots.ram r
        → Ensures (NewPage h ps blk) Never (new_page blk h)
    go _ e (out short) = rw e (returns (no_page refl refl refl refl refl ok.in_use (inl ok)))
    go _ e (got ram) =
        let nz : (kseg0 + h.roots.ram.firstpaddr == 0) ≡ false = ground arith in
        let al : ((kseg0 + h.roots.ram.firstpaddr) % 4096 == 0) ≡ true =
          rw (aligned ps blk lt ok ram) refl in
        rw (e, nz, al)
          (after_page-NewPage ps blk lt ok ram
            (allocpageref-GotRef (with_page-IsRoots ok.roots ram)))
