-- ===== src/Kmalloc/Refs/Take.antt =====
-- allocpageref marks a pageref that was not in use, and keeps the others.
use os161_testbed.Common.{
  ℕ, ◌+◌, ◌*◌, ◌/◌, ◌%◌, ◌<◌, ◌≤◌, ◌≡◌, ◌≢◌, ◌⊎◌, inl, inr, refl, sym, ap, subst, ◌∙◌, true, false,
  arith, ◌==◌, get_or, set, Bool-cases, get_or-set_self, get_or-set_ne, length-set, ==_iff,
}
use os161_testbed.Kmalloc.Ram.{Ram, kseg0}
use os161_testbed.Kmalloc.Refs.{Root, Roots, root_at, bit_of, set_bit, pageref_size}
use os161_testbed.Kmalloc.Refs.Bits.{
  ones, total-set_bit, set_bit-le-ones, bit_of-set_bit_self, bit_of-set_bit_ne,
}
use os161_testbed.Kmalloc.Refs.Slots.{
  IsRam, slot, IsRoot, IsRoots, InUse, put_root, root_at-put_root_self, root_at-put_root_ne,
}

-- No pageref of this root is free: their number or their bits say so.
abbrev pub IsFull : Root → Type 0
IsFull r = (256 ≤ r.numinuse) ⊎ ((m : ℕ) → m < 8 → get_or r.inuse m 0 ≡ 0xffffffff)

-- a root with pageref number i * 32 + j taken, on the page given
abbrev pub taken : Root → (i j page : ℕ) → Root
taken root i j page = record {
  page = page;
  inuse = set root.inuse i (set_bit (get_or root.inuse i 0) j);
  numinuse = root.numinuse + 1;
}

-- What allocpageref gives: NULL with nothing changed, where every pageref is in use; NULL where memory has
-- no page for the pagerefs of root k, and then one of them, which has no address, counts as in use; or a
-- pageref that is newly in use.
pub data GotRef (s : Roots) (p : ℕ) (s' : Roots) : Type 0 where
  none_left : p ≡ 0 → s' ≡ s → ((k : ℕ) → k < 16 → IsFull (root_at s k)) → GotRef s p s'
  lost :
      (k i j : ℕ)
      → p ≡ 0
      → k < 16
      → (root_at s k).page ≡ 0
      → s.ram.lastpaddr < s.ram.firstpaddr + 4096
      → s' ≡ put_root s k (taken (root_at s k) i j 0) s.ram
      → ((q : ℕ) → InUse s q → InUse s' q)
      → GotRef s p s'
  fresh :
      IsRoots s'
      → p ≢ 0
      → (InUse s p → ⊥)
      → InUse s' p
      → ((q : ℕ) → InUse s q → InUse s' q)
      → s.ram.firstpaddr ≤ s'.ram.firstpaddr
      → GotRef s p s'

module _ {root : Root} (ok : IsRoot root) (i j page : ℕ) (ilt : i < 8) (jlt : j < 32) where
  slot-taken_self : slot (taken root i j page) (i * 32 + j) ≡ true
  slot-taken_self =
      let word : (i * 32 + j) / 32 ≡ i = omega arith in
      let bit : (i * 32 + j) % 32 ≡ j = omega arith in
      rw
        (
          word,
          bit,
          get_or-set_self root.inuse i (set_bit (get_or root.inuse i 0) j) 0 (rw ok.words ilt),
        )
        (bit_of-set_bit_self (get_or root.inuse i 0) j)

  slot-taken : (n : ℕ) → slot root n ≡ true → slot (taken root i j page) n ≡ true
  slot-taken n on = elim (Bool-cases (i == n / 32)) [
    | inl e ↦
        let e' = (==_iff i (n / 32)).0 e in
        rw
          (
            ← e',
            get_or-set_self root.inuse i (set_bit (get_or root.inuse i 0) j) 0 (rw ok.words ilt),
          )
          (elim (Bool-cases (j == n % 32)) [
            | inl f ↦
                subst (λ k. bit_of (set_bit (get_or root.inuse i 0) j) k ≡ true)
                  ((==_iff j (n % 32)).0 f) (bit_of-set_bit_self (get_or root.inuse i 0) j)
            | inr f ↦ bit_of-set_bit_ne (get_or root.inuse i 0) j (n % 32) (ground arith) ∙ rw e' on
          ])
    | inr ne ↦
        rw
          (get_or-set_ne root.inuse i (n / 32) (set_bit (get_or root.inuse i 0) j) 0 (ground arith))
          on
  ]

  taken-IsRoot :
      page % 4096 ≡ 0
      → page ≢ 0
      → bit_of (get_or root.inuse i 0) j ≡ false
      → IsRoot (taken root i j page)
  unfolding ones
  taken-IsRoot aligned there off = record {
    words = length-set root.inuse i (set_bit (get_or root.inuse i 0) j) ∙ ok.words;
    small = λ k. small' k (Bool-cases (i == k));
    counted = omega (arith, ok.counted, total-set_bit root.inuse i j (rw ok.words ilt) jlt off);
    unused = λ e. absurd (there e);
    aligned = aligned;
  }
    where
      small' :
          (k : ℕ)
          → ((i == k) ≡ true) ⊎ ((i == k) ≡ false)
          → get_or (set root.inuse i (set_bit (get_or root.inuse i 0) j)) k 0 ≤ 0xffffffff
      small' k (inl e) =
          rw
            (
              ← (==_iff i k).0 e,
              get_or-set_self root.inuse i (set_bit (get_or root.inuse i 0) j) 0 (rw ok.words ilt),
            )
            (set_bit-le-ones 32 j (get_or root.inuse i 0) jlt (ok.small i))
      small' k (inr ne) =
          rw (get_or-set_ne root.inuse i k (set_bit (get_or root.inuse i 0) j) 0 (ground arith))
            (ok.small k)

-- the state with root k so changed
abbrev pub take_at : Roots → (k i j page : ℕ) → Ram → Roots
take_at s k i j page ram = put_root s k (taken (root_at s k) i j page) ram

module _ {s : Roots} (ok : IsRoots s) (k i j : ℕ) (klt : k < 16) (ilt : i < 8) (jlt : j < 32)
    (off : bit_of (get_or (root_at s k).inuse i 0) j ≡ false) (page : ℕ) (ram : Ram)
    (ram_ok : IsRam ram) (grown : s.ram.firstpaddr ≤ ram.firstpaddr) (aligned : page % 4096 ≡ 0)
    (low : kseg0 ≤ page) (high : page + 4096 ≤ kseg0 + ram.firstpaddr)
    (origin : (page ≡ (root_at s k).page)
      ⊎ (((root_at s k).page ≡ 0) × (kseg0 + s.ram.firstpaddr ≤ page))) where
  at_k : root_at (take_at s k i j page ram) k ≡ taken (root_at s k) i j page
  at_k = root_at-put_root_self s k (taken (root_at s k) i j page) ram (rw ok.many klt)

  off_k : (l : ℕ) → k ≢ l → root_at (take_at s k i j page ram) l ≡ root_at s l
  off_k l ne = root_at-put_root_ne s k l (taken (root_at s k) i j page) ram ne

  -- no other root has this page
  other_page : (l : ℕ) → k ≢ l → (root_at s l).page ≢ page
  other_page l ne e = elim origin [
    | inl old ↦ ok.apart k l ne (λ z. omega (arith, old, z)) (sym old ∙ sym e)
    | inr (z, new) ↦
        let nonzero : (root_at s l).page ≢ 0 = λ z'. omega (arith, z') in
        omega (arith, ok.below l nonzero)
  ]

  taken-IsRoots : IsRoots (take_at s k i j page ram)
  taken-IsRoots = record {
    ram = ram_ok;
    many = length-set s.roots k (taken (root_at s k) i j page) ∙ ok.many;
    each = λ l lt. each' l lt (Bool-cases (k == l));
    below = λ l nz. below' l nz (Bool-cases (k == l));
    apart = λ l m ne nz. apart' l m ne nz (Bool-cases (k == l)) (Bool-cases (k == m));
  }
    where
      each' :
          (l : ℕ)
          → l < 16
          → ((k == l) ≡ true) ⊎ ((k == l) ≡ false)
          → IsRoot (root_at (take_at s k i j page ram) l)
      each' l lt (inl e) =
          rw (← (==_iff k l).0 e, at_k)
            (taken-IsRoot (ok.each k klt) i j page ilt jlt aligned (λ z. omega (arith, z)) off)
      each' l lt (inr ne) = rw (off_k l (ground arith)) (ok.each l lt)

      below' :
          (l : ℕ)
          → (root_at (take_at s k i j page ram) l).page ≢ 0
          → ((k == l) ≡ true) ⊎ ((k == l) ≡ false)
          → (kseg0 ≤ (root_at (take_at s k i j page ram) l).page)
            × ((root_at (take_at s k i j page ram) l).page + 4096 ≤ kseg0 + ram.firstpaddr)
      below' l nz (inl e) = rw (← (==_iff k l).0 e, at_k) (low, high)
      below' l nz (inr ne) =
          let same = off_k l (ground arith) in
          let b = ok.below l (subst (λ (r : Root). r.page ≢ 0) same nz) in
          rw same (b.0, omega (arith, b.1))

      apart' :
          (l m : ℕ)
          → l ≢ m
          → (root_at (take_at s k i j page ram) l).page ≢ 0
          → ((k == l) ≡ true) ⊎ ((k == l) ≡ false)
          → ((k == m) ≡ true) ⊎ ((k == m) ≡ false)
          → (root_at (take_at s k i j page ram) l).page
            ≢ (root_at (take_at s k i j page ram) m).page
      apart' l m ne nz (inl e) (inl f) = absurd (ne (ground arith))
      apart' l m ne nz (inl e) (inr f) =
          rw (← (==_iff k l).0 e, at_k, off_k m (ground arith))
            (λ q. other_page m (ground arith) (sym q))
      apart' l m ne nz (inr e) (inl f) =
          rw (← (==_iff k m).0 f, at_k, off_k l (ground arith)) (other_page l (ground arith))
      apart' l m ne nz (inr e) (inr f) =
          let same = off_k l (ground arith) in
          rw (same, off_k m (ground arith))
            (ok.apart l m ne (subst (λ (r : Root). r.page ≢ 0) same nz))

  kept : (q : ℕ) → InUse s q → InUse (take_at s k i j page ram) q
  kept q u = go (Bool-cases (k == u.root))
    where
      go : ((k == u.root) ≡ true) ⊎ ((k == u.root) ≡ false) → InUse (take_at s k i j page ram) q
      go (inl e) =
          let e' = (==_iff k u.root).0 e in
          let old : page ≡ (root_at s k).page = elim origin [
            | inl o ↦ o
            | inr (z, new) ↦ absurd (u.page (rw (← e') z))
          ] in
          record {
            root = k;
            index = u.index;
            root_lt = klt;
            index_lt = u.index_lt;
            page = rw at_k (λ z. omega (arith, z));
            address = rw (at_k, old, e') u.address;
            on = rw at_k (slot-taken (ok.each k klt) i j page ilt jlt u.index (rw e' u.on));
          }
      go (inr ne) =
          let same = off_k u.root (ground arith) in
          record {
            root = u.root;
            index = u.index;
            root_lt = u.root_lt;
            index_lt = u.index_lt;
            page = rw same u.page;
            address = rw same u.address;
            on = rw same u.on;
          }

  new_use : InUse (take_at s k i j page ram) (page + pageref_size * (i * 32 + j))
  new_use = record {
    root = k;
    index = i * 32 + j;
    root_lt = klt;
    index_lt = omega arith;
    page = rw at_k (λ z. omega (arith, z));
    address = rw at_k refl;
    on = rw at_k (slot-taken_self (ok.each k klt) i j page ilt jlt);
  }

  was_free : InUse s (page + pageref_size * (i * 32 + j)) → ⊥
  was_free u = go (Bool-cases (k == u.root))
    where
      go : ((k == u.root) ≡ true) ⊎ ((k == u.root) ≡ false) → ⊥
      go (inl e) =
          let e' = (==_iff k u.root).0 e in
          let old : page ≡ (root_at s k).page = elim origin [
            | inl o ↦ o
            | inr (z, new) ↦ absurd (u.page (rw (← e') z))
          ] in
          let index : u.index ≡ i * 32 + j =
            omega (arith, old, u.address, ap (λ r. (root_at s r).page) e') in
          let on : slot (root_at s k) (i * 32 + j) ≡ true = rw (← index, e') u.on in
          let word : (i * 32 + j) / 32 ≡ i = omega arith in
          let bit : (i * 32 + j) % 32 ≡ j = omega arith in
          let on' : bit_of (get_or (root_at s k).inuse i 0) j ≡ true =
            subst (λ n. bit_of (get_or (root_at s k).inuse n 0) j ≡ true) word
              (subst (λ n. bit_of (get_or (root_at s k).inuse ((i * 32 + j) / 32) 0) n ≡ true) bit
                on) in
          cc
      go (inr ne) =
          other_page u.root (ground arith)
            (omega (arith, u.address, u.index_lt, (ok.each u.root u.root_lt).aligned))

  pub taken-GotRef : GotRef s (page + pageref_size * (i * 32 + j)) (take_at s k i j page ram)
  taken-GotRef = fresh taken-IsRoots (λ z. omega (arith, z)) was_free new_use kept grown
