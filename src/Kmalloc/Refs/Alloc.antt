-- ===== src/Kmalloc/Refs/Alloc.antt =====
-- The search of allocpageref.
use os161_testbed.Common.{
  ℕ, zero, suc, ◌+◌, ◌*◌, ◌%◌, ◌^◌, ◌<◌, ◌≤◌, ◌≡◌, ◌≢◌, inl, inr, refl, ap, subst, sym, ℕ_discrete,
  false, List, [], ◌∷◌, Option, none, some, arith, ◌==◌, length, get_or, set, Bool-cases,
  get_or-set_self, set-set, leb, ==_iff,
}
use os161_testbed.Common.Run.{Ensures, returns, done, and_then}
use os161_testbed.Kmalloc.Ram.{Ram, alloc_kpages, kseg0}
use os161_testbed.Kmalloc.Refs.{
  Root, Roots, root_at, empty_root, bit_of, pageref_size, first_free, ref_of, take_ref, take_found,
  alloc_from, allocpagerefpage, allocpageref,
}
use os161_testbed.Kmalloc.Refs.Bits.{first_clear-some}
use os161_testbed.Kmalloc.Refs.Slots.{
  OnePage, out, got, after_page, alloc_kpages-OnePage, IsRoots, put_root, InUse,
  root_at-put_root_ne,
}
use os161_testbed.Kmalloc.Refs.Take.{GotRef, none_left, lost, IsFull, taken, taken-GotRef}

-- allocpageref does not fail, and panics neither.
abbrev pub Never : {S : Type 0} → ℕ → S → Type 0
Never e s = ⊥

-- A root without a page has no pageref in use, so that a change to it loses none.
kept-lost :
    (s : Roots) (k : ℕ) (root : Root) (q : ℕ)
    → (root_at s k).page ≡ 0
    → InUse s q
    → InUse (put_root s k root s.ram) q
kept-lost s k root q z u =
    let same =
      root_at-put_root_ne s k u.root root s.ram
        (λ e. u.page (subst (λ l. (root_at s l).page ≡ 0) e z)) in
    record {
      root = u.root;
      index = u.index;
      root_lt = u.root_lt;
      index_lt = u.index_lt;
      page = rw same u.page;
      address = rw same u.address;
      on = rw same u.on;
    }

module _ {s : Roots} (ok : IsRoots s) (k i j : ℕ) (klt : k < 16) (ilt : i < 8) (jlt : j < 32)
    (room : (root_at s k).numinuse < 256)
    (off : bit_of (get_or (root_at s k).inuse i 0) j ≡ false) where
  self : (r : Root) → get_or (set s.roots k r) k empty_root ≡ r
  self r = get_or-set_self s.roots k r empty_root (rw ok.many klt)

  take_ref-old : (root_at s k).page ≢ 0 → Ensures (GotRef s) Never (take_ref k i j s)
  unfolding take_ref ref_of
  take_ref-old nz =
      let root = root_at s k in
      let one : (root.numinuse + 1) % 2 ^ 32 ≡ root.numinuse + 1 = omega arith in
      let there : (root.page == 0) ≡ false = ground arith in
      let b = ok.below k nz in
      let addr : (root.page + pageref_size * (i * 32 + j)) % 2 ^ 32
          ≡ root.page + pageref_size * (i * 32 + j) =
        omega (arith, b, ok.ram.ordered, ok.ram.high) in
      rw
        (
          one,
          self (taken root i j root.page),
          there,
          ref_of,
          self (taken root i j root.page),
          there,
          addr,
        )
        (returns (
          taken-GotRef ok k i j klt ilt jlt off root.page s.ram ok.ram (omega arith)
            (ok.each k klt).aligned b.0 b.1 (inl refl)))

  -- a page for the pagerefs of root k
  with_page :
      (r : ℕ × Ram)
      → alloc_kpages 1 s.ram ≡ r
      → OnePage s.ram r
      → (root_at s k).page ≡ 0
      → Ensures (GotRef s) Never (
          and_then
            (allocpagerefpage k (put_root s k (taken (root_at s k) i j 0) s.ram))
            (λ x. ref_of k i j))
  unfolding ref_of allocpagerefpage
  with_page _ e (out short) z =
      rw (self (taken (root_at s k) i j 0), e, ref_of, self (taken (root_at s k) i j 0))
        (returns (
          lost k i j refl klt z short refl
            (λ q u. kept-lost s k (taken (root_at s k) i j 0) q z u)))
  with_page _ e (got more) z =
      let page = kseg0 + s.ram.firstpaddr in
      let nonzero : (page == 0) ≡ false = ground arith in
      let aligned : page % 4096 ≡ 0 = omega (arith, ok.ram.aligned) in
      let addr : (page + pageref_size * (i * 32 + j)) % 2 ^ 32
          ≡ page + pageref_size * (i * 32 + j) =
        omega (arith, more.ordered, more.high) in
      rw
        (
          self (taken (root_at s k) i j 0),
          e,
          nonzero,
          aligned,
          self (taken (root_at s k) i j 0),
          set-set s.roots k (taken (root_at s k) i j 0) (taken (root_at s k) i j page),
          ref_of,
          self (taken (root_at s k) i j page),
          nonzero,
          addr,
        )
        (returns (
          taken-GotRef ok k i j klt ilt jlt off page (after_page s.ram) more (omega arith) aligned
            (omega arith) (omega arith) (inr (z, omega arith))))

  take_ref-new : (root_at s k).page ≡ 0 → Ensures (GotRef s) Never (take_ref k i j s)
  unfolding take_ref
  take_ref-new z =
      let root = root_at s k in
      let one : (root.numinuse + 1) % 2 ^ 32 ≡ root.numinuse + 1 = omega arith in
      rw (one, self (taken root i j root.page), z)
        (with_page _ refl (alloc_kpages-OnePage ok.ram) z)

  take_ref-GotRef : Ensures (GotRef s) Never (take_ref k i j s)
  take_ref-GotRef = elim (Bool-cases ((root_at s k).page == 0)) [
    | inl e ↦ take_ref-new ((==_iff _ 0).0 e)
    | inr ne ↦ take_ref-old (ground arith)
  ]

-- What the search of the words finds: none free, or a clear bit.
data Searched (i : ℕ) (ws : List ℕ) : Option (ℕ × ℕ) → Type 0 where
  full : ((m : ℕ) → m < length ws → get_or ws m 0 ≡ 0xffffffff) → Searched i ws none
  free :
      (m j : ℕ)
      → m < length ws
      → j < 32
      → bit_of (get_or ws m 0) j ≡ false
      → Searched i ws (some (i + m, j))

first_free-Searched :
    (i : ℕ) (ws : List ℕ) (s : Roots)
    → ((m : ℕ) → get_or ws m 0 ≤ 0xffffffff)
    → (o : Option (ℕ × ℕ)) × (first_free i ws s ≡ done o s) × Searched i ws o
unfolding first_free
first_free-Searched i [] s small = (none, refl, full (λ m lt. absurd (omega arith)))
first_free-Searched i (w ∷ ws) s small = elim (Bool-cases (w == 0xffffffff)) [
  | inl e ↦
      let (o, run, found) = first_free-Searched (i + 1) ws s (λ m. small (suc m)) in
      (o, rw e run, later o ((==_iff w 0xffffffff).0 e) found)
  | inr ne ↦
      let (j, lt, run, off) = first_clear-some w (small 0) (ground arith) in
      (
        some (i + 0, j),
        rw (ne, run) (ap (λ n. done (some (n, j)) s) (omega arith)),
        free 0 j (omega arith) lt off,
      )
]
  where
    later : (o : Option (ℕ × ℕ)) → w ≡ 0xffffffff → Searched (i + 1) ws o → Searched i (w ∷ ws) o
    later _ e (full all) = full (λ m lt. all_words m lt e all)
      where
        all_words :
            (m : ℕ)
            → m < length (w ∷ ws)
            → w ≡ 0xffffffff
            → ((n : ℕ) → n < length ws → get_or ws n 0 ≡ 0xffffffff)
            → get_or (w ∷ ws) m 0 ≡ 0xffffffff
        all_words zero lt e all = e
        all_words (suc m) lt e all = all m (omega arith)
    later _ _ (free m j lt bit off) =
        let e : i + suc m ≡ i + 1 + m = omega arith in
        subst (λ n. Searched i (w ∷ ws) (some (n, j))) e (free (suc m) j (omega arith) bit off)

alloc_from-GotRef :
    {s : Roots} (n k : ℕ)
    → IsRoots s
    → n + k ≡ 16
    → ((l : ℕ) → l < k → IsFull (root_at s l))
    → Ensures (GotRef s) Never (alloc_from n k s)
unfolding alloc_from
alloc_from-GotRef {s} zero k ok e before =
    returns (none_left refl refl (λ l lt. before l (omega arith)))
alloc_from-GotRef {s} (suc n) k ok e before = elim (Bool-cases (leb 256 (root_at s k).numinuse)) [
  | inl all ↦ rw all (alloc_from-GotRef n (k + 1) ok (omega arith) (further (inl (ground arith))))
  | inr room ↦
      let root_ok = ok.each k (omega arith) in
      let (o, run, found) = first_free-Searched 0 (root_at s k).inuse s root_ok.small in
      rw (room, run)
        (go o found (ground arith) (λ f. alloc_from-GotRef n (k + 1) ok (omega arith) (further f))
          root_ok.words)
]
  where
    further : IsFull (root_at s k) → (l : ℕ) → l < k + 1 → IsFull (root_at s l)
    further f l lt = elim (ℕ_discrete l k) [
      | yes same ↦ subst (λ m. IsFull (root_at s m)) (sym same) f
      | no ne ↦ before l (omega arith)
    ]

    go :
        (o : Option (ℕ × ℕ))
        → Searched 0 (root_at s k).inuse o
        → (root_at s k).numinuse < 256
        → (IsFull (root_at s k) → Ensures (GotRef s) Never (alloc_from n (k + 1) s))
        → length (root_at s k).inuse ≡ 8
        → Ensures (GotRef s) Never (take_found (alloc_from n (k + 1)) k o s)
    go _ (full all) room rest words = rest (inr (λ m lt. all m (omega (arith, words))))
    go _ (free m j lt bit off) room rest words =
        take_ref-GotRef ok k (0 + m) j (omega arith) (omega arith) bit room
          (let e : 0 + m ≡ m = omega arith in rw e off)

-- allocpageref with well kept pagerefs never panics. It gives a pageref that was not in use, and the
-- pagerefs stay well kept; or NULL with nothing changed, where every root is full; or NULL where memory has
-- no page left for the pagerefs of a root, of which one then counts as in use though it has no address. In
-- each case the pagerefs in use stay in use.
pub allocpageref-GotRef : {s : Roots} → IsRoots s → Ensures (GotRef s) Never (allocpageref s)
unfolding allocpageref
allocpageref-GotRef ok = alloc_from-GotRef 16 0 ok refl (λ l lt. absurd (omega arith))
