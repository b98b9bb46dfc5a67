-- ===== src/Kmalloc/Refs/Free.antt =====
-- freepageref clears the mark of one pageref, and keeps the others.
use os161_testbed.Common.{
  ℕ, zero, suc, ◌+◌, ◌-◌, ◌*◌, ◌/◌, ◌%◌, ◌<◌, ◌≤◌, ◌≡◌, ◌≢◌, ◌⊎◌, inl, inr, refl, sym, ap, subst,
  ◌∙◌, true, false, arith, ◌==◌, length, get_or, set, Bool-cases, get_or-set_self, get_or-set_ne,
  length-set, ltb, ==_iff, lt→ltb,
}
use os161_testbed.Common.Run.{Ensures, returns}
use os161_testbed.Kmalloc.Refs.{
  Root, Roots, root_at, clear_bit, pageref_size, ref_index, drop_ref, free_from, freepageref,
}
use os161_testbed.Kmalloc.Refs.Bits.{total-clear_bit, clear_bit-le, bit_of-clear_bit_ne}
use os161_testbed.Kmalloc.Refs.Slots.{
  slot, IsRoot, IsRoots, InUse, put_root, root_at-put_root_self, root_at-put_root_ne,
}
use os161_testbed.Kmalloc.Refs.Alloc.{Never}

-- What freepageref leaves: every other pageref in use stays so.
pub record Dropped (s : Roots) (p : ℕ) (s' : Roots) : Type 0 where
  pub roots : IsRoots s'
  pub ram : s'.ram ≡ s.ram
  pub kept : (q : ℕ) → q ≢ p → InUse s q → InUse s' q

-- a root with pageref n given back
abbrev dropped : Root → (n : ℕ) → Root
dropped root n = record {
  page = root.page;
  inuse = set root.inuse (n / 32) (clear_bit (get_or root.inuse (n / 32) 0) (n % 32));
  numinuse = root.numinuse - 1;
}

module _ {root : Root} (ok : IsRoot root) (n : ℕ) (lt : n < 256) where
  word : ℕ
  word = clear_bit (get_or root.inuse (n / 32) 0) (n % 32)

  word_lt : n / 32 < length root.inuse
  word_lt = rw ok.words (omega arith)

  slot-dropped : (m : ℕ) → n ≢ m → slot root m ≡ true → slot (dropped root n) m ≡ true
  unfolding word
  slot-dropped m ne on = elim (Bool-cases (n / 32 == m / 32)) [
    | inl e ↦
        let e' = (==_iff (n / 32) (m / 32)).0 e in
        rw (← e', get_or-set_self root.inuse (n / 32) word 0 word_lt)
          (bit_of-clear_bit_ne (get_or root.inuse (n / 32) 0) (n % 32) (m % 32)
              (λ f. ne (omega (arith, e', f)))
            ∙ rw e' on)
    | inr f ↦ rw (get_or-set_ne root.inuse (n / 32) (m / 32) word 0 (ground arith)) on
  ]

  dropped-IsRoot : slot root n ≡ true → (0 < root.numinuse) × IsRoot (dropped root n)
  unfolding word
  dropped-IsRoot on =
      let less = total-clear_bit root.inuse (n / 32) (n % 32) word_lt (omega arith) on in
      (
        omega (arith, ok.counted, less),
        record {
          words = length-set root.inuse (n / 32) word ∙ ok.words;
          small = λ k. small' k (Bool-cases (n / 32 == k));
          counted = omega (arith, ok.counted, less);
          unused = λ e. omega (arith, ok.unused e);
          aligned = ok.aligned;
        },
      )
    where
      small' :
          (k : ℕ)
          → ((n / 32 == k) ≡ true) ⊎ ((n / 32 == k) ≡ false)
          → get_or (set root.inuse (n / 32) word) k 0 ≤ 0xffffffff
      small' k (inl e) =
          rw (← (==_iff (n / 32) k).0 e, get_or-set_self root.inuse (n / 32) word 0 word_lt)
            (omega (arith, ok.small (n / 32), clear_bit-le (get_or root.inuse (n / 32) 0) (n % 32)))
      small' k (inr ne) =
          rw (get_or-set_ne root.inuse (n / 32) k word 0 (ground arith)) (ok.small k)

-- the state with pageref n of root k given back
abbrev drop_at : Roots → (k n : ℕ) → Roots
drop_at s k n = put_root s k (dropped (root_at s k) n) s.ram

module _ {s : Roots} (ok : IsRoots s) (k n : ℕ) (klt : k < 16) (nlt : n < 256)
    (there : (root_at s k).page ≢ 0) (on : slot (root_at s k) n ≡ true) where
  at_k : root_at (drop_at s k n) k ≡ dropped (root_at s k) n
  at_k = root_at-put_root_self s k (dropped (root_at s k) n) s.ram (rw ok.many klt)

  off_k : (l : ℕ) → k ≢ l → root_at (drop_at s k n) l ≡ root_at s l
  off_k l ne = root_at-put_root_ne s k l (dropped (root_at s k) n) s.ram ne

  -- the pages stay
  same_page : (l : ℕ) → (root_at (drop_at s k n) l).page ≡ (root_at s l).page
  same_page l = elim (Bool-cases (k == l)) [
    | inl e ↦
        let e' = (==_iff k l).0 e in
        subst (λ m. (root_at (drop_at s k n) m).page ≡ (root_at s m).page) e'
          (ap (λ r. r.page) at_k)
    | inr ne ↦ ap (λ r. r.page) (off_k l (ground arith))
  ]

  drop_at-IsRoots : IsRoots (drop_at s k n)
  drop_at-IsRoots = record {
    ram = ok.ram;
    many = length-set s.roots k (dropped (root_at s k) n) ∙ ok.many;
    each = λ l lt. each' l lt (Bool-cases (k == l));
    below = λ l nz. rw (same_page l) (ok.below l (λ z. nz (same_page l ∙ z)));
    apart =
        λ l m ne nz. rw (same_page l, same_page m) (ok.apart l m ne (λ z. nz (same_page l ∙ z)));
  }
    where
      each' :
          (l : ℕ)
          → l < 16
          → ((k == l) ≡ true) ⊎ ((k == l) ≡ false)
          → IsRoot (root_at (drop_at s k n) l)
      each' l lt (inl e) =
          rw (← (==_iff k l).0 e, at_k) ((dropped-IsRoot (ok.each k klt) n nlt on).1)
      each' l lt (inr ne) = rw (off_k l (ground arith)) (ok.each l lt)

  drop_at-kept :
      (q : ℕ) → q ≢ (root_at s k).page + pageref_size * n → InUse s q → InUse (drop_at s k n) q
  drop_at-kept q ne u = record {
    root = u.root;
    index = u.index;
    root_lt = u.root_lt;
    index_lt = u.index_lt;
    page = rw (same_page u.root) u.page;
    address = rw (same_page u.root) u.address;
    on = on' (Bool-cases (k == u.root));
  }
    where
      on' :
          ((k == u.root) ≡ true) ⊎ ((k == u.root) ≡ false)
          → slot (root_at (drop_at s k n) u.root) u.index ≡ true
      on' (inl e) =
          let e' = (==_iff k u.root).0 e in
          rw (← e', at_k)
            (slot-dropped (ok.each k klt) n nlt u.index (λ f. ne (rw (f, e') u.address))
              (rw e' u.on))
      on' (inr f) = rw (off_k u.root (ground arith)) u.on

  drop_ref-Dropped :
      Ensures (λ _ s'. Dropped s ((root_at s k).page + pageref_size * n) s') Never (drop_ref k n s)
  unfolding drop_ref
  drop_ref-Dropped =
      rw (on, lt→ltb 0 (root_at s k).numinuse ((dropped-IsRoot (ok.each k klt) n nlt on).0))
        (returns (record { roots = drop_at-IsRoots; ram = refl; kept = drop_at-kept }))

module _ {s : Roots} (ok : IsRoots s) {p : ℕ} (u : InUse s p) where
  -- p is on the page of its own root only
  index_of : ref_index p (root_at s u.root).page ≡ u.index
  index_of = ground (arith, u.address)

  index_beyond :
      (k : ℕ)
      → k < 16
      → k ≢ u.root
      → (root_at s k).page ≢ 0
      → ltb (ref_index p (root_at s k).page) 256 ≡ false
  index_beyond k lt ne nz =
      let a = (ok.each k lt).aligned in
      let a' = (ok.each u.root u.root_lt).aligned in
      let b = ok.below k nz in
      let b' = ok.below u.root u.page in
      let diff = ok.apart k u.root ne nz in
      let at = u.address in
      let lt' = u.index_lt in let high = ok.ram.ordered in let higher = ok.ram.high in ground arith

  free_from-Dropped :
      (n k : ℕ)
      → n + k ≡ 16
      → k ≤ u.root
      → Ensures (λ _ s'. Dropped s p s') Never (free_from n k p s)
  unfolding free_from
  free_from-Dropped zero k e le = absurd (omega (arith, u.root_lt))
  free_from-Dropped (suc n) k e le = elim (Bool-cases (k == u.root)) [
    | inl f ↦
        let f' = (==_iff k u.root).0 f in
        let there : ((root_at s u.root).page == 0) ≡ false = ground (arith, u.page) in
        let inside : ltb u.index 256 ≡ true = lt→ltb u.index 256 u.index_lt in
        rw (f', there, index_of, inside)
          (subst (λ a. Ensures (λ _ s'. Dropped s a s') Never (drop_ref u.root u.index s))
            (sym u.address) (drop_ref-Dropped ok u.root u.index u.root_lt u.index_lt u.page u.on))
    | inr f ↦
        let rest = free_from-Dropped n (k + 1) (omega arith) (ground arith) in
        elim (Bool-cases ((root_at s k).page == 0)) [
          | inl z ↦
              let none_used : ((root_at s k).numinuse == 0) ≡ true =
                ground (arith, (ok.each k (omega arith)).unused ((==_iff _ 0).0 z)) in
              rw (z, none_used) rest
          | inr nz ↦ rw (nz, index_beyond k (omega arith) (ground arith) (ground arith)) rest
        ]
  ]

-- freepageref of a pageref in use never panics: it leaves the other pagerefs in use and well kept.
pub freepageref-Dropped :
    {s : Roots}
    → IsRoots s
    → {p : ℕ} → InUse s p
    → Ensures (λ _ s'. Dropped s p s') Never (freepageref p s)
unfolding freepageref
freepageref-Dropped ok u = free_from-Dropped ok u 16 0 refl (omega arith)
