-- ===== src/Kmalloc/Large.antt =====
-- Requests of half a page and more, which take whole pages.
use os161_testbed.Common.{
  ℕ, ◌+◌, ◌-◌, ◌*◌, ◌/◌, ◌%◌, ◌^◌, ◌<◌, ◌≤◌, ◌≡◌, inl, inr, refl, true, false, List, [], ◌∷◌, ◌++◌,
  arith, ◌==◌, ltb, leb, le→not_ltb, if◌then◌else◌, Bool-cases,
}
use os161_testbed.Common.Run.{done, Ensures, returns}
use os161_testbed.Kmalloc.{Heap, Pageref, size_of, kmalloc}
use os161_testbed.Kmalloc.Ram.{Ram, kseg0, alloc_kpages}
use os161_testbed.Kmalloc.Refs.Slots.{IsRam}
use os161_testbed.Kmalloc.Refs.Alloc.{Never}
use os161_testbed.Kmalloc.Page.{Page}
use os161_testbed.Kmalloc.Holds.{Pages, Holds, InUses-kept, IsPage-kept}
use os161_testbed.Kmalloc.Live.{Live, Blocks-in, In-append_right}

-- the heap with another firstpaddr
abbrev pub with_first : Heap → (first : ℕ) → Heap
with_first h first = record h {
  roots = record (h.roots) { ram = record (h.roots.ram) { firstpaddr = first } };
}

-- ram_stealmem, where the sum does not pass 2 ^ 32
alloc_kpages-eq :
    (n : ℕ) (r : Ram)
    → 0 < r.firstpaddr
    → r.firstpaddr + n * 4096 < 2 ^ 31
    → alloc_kpages n r ≡ (
        if ltb r.lastpaddr (r.firstpaddr + n * 4096)
        then (0, r)
        else (kseg0 + r.firstpaddr, record r { firstpaddr = r.firstpaddr + n * 4096 }))
unfolding alloc_kpages
alloc_kpages-eq n r low small =
    let size : n * 4096 % 2 ^ 32 ≡ n * 4096 = omega arith in
    let sum : (r.firstpaddr + n * 4096) % 2 ^ 32 ≡ r.firstpaddr + n * 4096 = omega arith in
    rw (size, sum)
      (elim (Bool-cases (ltb r.lastpaddr (r.firstpaddr + n * 4096))) [
        | inl e ↦ rw e refl
        | inr e ↦
            let nz : (r.firstpaddr == 0) ≡ false = ground arith in
            let va : (r.firstpaddr + kseg0) % 2 ^ 32 ≡ kseg0 + r.firstpaddr = omega arith in
            rw (e, nz, va) refl
      ])

-- NULL and the same heap, or whole pages above all that the heap holds.
pub data Whole (h : Heap) (ps : List Page) (sz ret : ℕ) (h' : Heap) : Type 0 where
  null : ret ≡ 0 → h' ≡ h → Whole h ps sz ret h'
  pages :
      ret % 4096 ≡ 0
      → Holds h' ps
      → kseg0 + h.roots.ram.firstpaddr ≤ ret
      → ret + sz ≤ kseg0 + h'.roots.ram.firstpaddr
      → ((a s : ℕ) → Live ps a s → a + s ≤ ret)
      → Whole h ps sz ret h'

-- blocks in use lie below the memory that is left
Live-below :
    (word : ℕ → ℕ) (refs : ℕ → Pageref) (top : ℕ) (ps : List Page) (a s : ℕ)
    → Pages word refs top ps
    → Live ps a s
    → a + s ≤ kseg0 + top
Live-below word refs top [] a s ok l = absurd l
Live-below word refs top (p ∷ ps) a s ok (inl l) = omega (
  arith,
  l.address,
  l.size,
  ok.0.high,
  (Blocks-in (size_of p.blk) l.offset (p.free ++ p.used) ok.0.blocks
      (In-append_right l.offset p.free p.used l.held)).0,
)
Live-below word refs top (p ∷ ps) a s ok (inr l) = Live-below word refs top ps a s ok.3 l

Pages-grown :
    (word : ℕ → ℕ) (refs : ℕ → Pageref) (top top' : ℕ) (ps : List Page)
    → top ≤ top'
    → Pages word refs top ps
    → Pages word refs top' ps
Pages-grown word refs top top' [] le ok = tt
Pages-grown word refs top top' (p ∷ ps) le ok = (
  IsPage-kept p (λ a lo hi. refl) refl le ok.0,
  ok.1,
  ok.2,
  Pages-grown word refs top top' ps le ok.3,
)

Holds-grown :
    {h : Heap} {ps : List Page} (n : ℕ)
    → Holds h ps
    → h.roots.ram.firstpaddr + n * 4096 ≤ h.roots.ram.lastpaddr
    → Holds (with_first h (h.roots.ram.firstpaddr + n * 4096)) ps
Holds-grown {h} {ps} n ok le = record {
  all = ok.all;
  types = ok.types;
  bases = ok.bases;
  pages =
      Pages-grown h.word h.refs h.roots.ram.firstpaddr (h.roots.ram.firstpaddr + n * 4096) ps
        (omega arith) ok.pages;
  roots = record {
    ram = record {
      aligned = omega (arith, ok.roots.ram.aligned);
      low = omega (arith, ok.roots.ram.low);
      ordered = le;
      high = ok.roots.ram.high;
    };
    many = ok.roots.many;
    each = ok.roots.each;
    below = λ k nz. (let b = ok.roots.below k nz in (b.0, omega (arith, b.1)));
    apart = ok.roots.apart;
  };
  in_use =
      InUses-kept
        (λ q u. record {
          root = u.root;
          index = u.index;
          root_lt = u.root_lt;
          index_lt = u.index_lt;
          page = u.page;
          address = u.address;
          on = u.on;
        })
        ps ok.in_use;
}

-- kmalloc of half a page up to one gigabyte, in a heap that holds a list of pages, never panics: it gives
-- NULL and changes nothing, or gives whole pages above every block in use, and the heap holds the same
-- pages below the memory that is left.
pub kmalloc-Whole :
    {h : Heap} {ps : List Page}
    → Holds h ps
    → (sz : ℕ) → 2048 ≤ sz
    → sz ≤ 2 ^ 30
    → Ensures (Whole h ps sz) Never (kmalloc sz h)
unfolding kmalloc
kmalloc-Whole {h} {ps} ok sz large small =
    let big : leb 2048 sz ≡ true = ground arith in
    let first = h.roots.ram.firstpaddr in
    let n = (sz + 4096 - 1) % 2 ^ 32 / 4096 in
    let bound : first + n * 4096 < 2 ^ 31 =
      omega (arith, ok.roots.ram.ordered, ok.roots.ram.high) in
    let run = alloc_kpages-eq n h.roots.ram ok.roots.ram.low bound in
    elim (Bool-cases (ltb h.roots.ram.lastpaddr (first + n * 4096))) [
      | inl full ↦ rw (big, run, full) (returns (null refl refl))
      | inr room ↦
          let nz : (kseg0 + first == 0) ≡ false = ground arith in
          let al : (kseg0 + first) % 4096 ≡ 0 = omega (arith, ok.roots.ram.aligned) in
          rw (big, run, room, nz, al)
            (returns (
              pages al (Holds-grown n ok (ground arith)) (omega arith) (omega arith)
                (λ a s l. Live-below h.word h.refs h.roots.ram.firstpaddr ps a s ok.pages l)))
    ]

-- kmalloc of so much that the addresses pass 2 ^ 32 does not fail: it gives the address of the memory that
-- is left, and reserves none of it: firstpaddr stays or even moves down.
pub kmalloc_wraps :
    (h : Heap) (sz : ℕ)
    → IsRam h.roots.ram
    → sz < 2 ^ 32
    → 2 ^ 32 ≤ h.roots.ram.firstpaddr + sz
    → (first : ℕ) × (kmalloc sz h ≡ done (kseg0 + h.roots.ram.firstpaddr) (with_first h first))
      × (first ≤ h.roots.ram.firstpaddr)
unfolding kmalloc alloc_kpages
kmalloc_wraps h sz ok lt over =
    let big : leb 2048 sz ≡ true = ground (arith, ok.ordered, ok.high) in
    let old = h.roots.ram.firstpaddr in
    let n = (sz + 4096 - 1) % 2 ^ 32 / 4096 in
    let first = (old + n * 4096 % 2 ^ 32) % 2 ^ 32 in
    let less : first ≤ old = omega (arith, ok.ordered, ok.high, ok.aligned) in
    let room : ltb h.roots.ram.lastpaddr first ≡ false =
      le→not_ltb _ _ (omega (arith, ok.ordered)) in
    let nz : (old == 0) ≡ false = ground (arith, ok.low) in
    let va : (old + kseg0) % 2 ^ 32 ≡ kseg0 + old = omega (arith, ok.ordered, ok.high) in
    let nz' : (kseg0 + old == 0) ≡ false = ground arith in
    let al : (kseg0 + old) % 4096 ≡ 0 = omega (arith, ok.aligned) in
    (first, rw (big, room, nz, va, nz', al) refl, less)
