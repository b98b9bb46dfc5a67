-- ===== src/Tests/Kmalloc.antt =====
-- A machine with memory from 64K to 1M, and a heap that nothing has been allocated from.
use os161_testbed.Common.{
  ℕ, zero, suc, ◌+◌, ◌<◌, ◌≤◌, ◌≡◌, ◌≢◌, refl, ap, inl, List, [], ◌∷◌, replicate, get_or,
  get_or-replicate, arith,
}
use os161_testbed.Common.Run.{Run, done, Cmd, ◌>>=◌, ◌>>◌, Ensures}
use os161_testbed.Kmalloc.Ram.{alloc_kpages, kseg0}
use os161_testbed.Kmalloc.Refs.{Root, root_at, empty_root, bit_of, allocpageref, freepageref}
use os161_testbed.Kmalloc.Refs.Bits.{total, count}
use os161_testbed.Kmalloc.Refs.Slots.{IsRoot, IsRoots}
use os161_testbed.Kmalloc.Refs.Take.{GotRef}
use os161_testbed.Kmalloc.Refs.Alloc.{Never, allocpageref-GotRef}
use os161_testbed.Kmalloc.{
  Heap, kmalloc, kfree, subpage_kmalloc, subpage_kfree, blocktype, doalloc, carve, new_page,
  put_block, remove_lists, release_if_free,
}
use os161_testbed.Kmalloc.Page.{Page, pageref}
use os161_testbed.Kmalloc.Holds.{Holds, ptrs, of_type}
use os161_testbed.Kmalloc.Gives.{Given, kmalloc-Given}
use os161_testbed.Kmalloc.Freed.{Freed, kfree-Freed}
use os161_testbed.Kmalloc.Large.{Whole, with_first, kmalloc-Whole, kmalloc_wraps}

abbrev start : Heap
start = record {
  word = λ _. 0;
  refs = λ _. record { pageaddr_and_blocktype = 0; freelist_offset = 0; nfree = 0 };
  sizebases = replicate 8 [];
  allbase = [];
  roots = record {
    roots = replicate 16 empty_root;
    ram = record { firstpaddr = 0x10000; lastpaddr = 0x100000 };
  };
}

abbrev answer : Run Heap (List ℕ) → List ℕ
answer (done r h) = r
answer _ = []

-- the last block of the page first; a block that comes back is the next to go; large ones are pages
abbrev churn : Cmd Heap (List ℕ)
churn = do
  a ← kmalloc 1000
  b ← kmalloc 1000
  c ← kmalloc 600
  kfree b
  d ← kmalloc 513
  e ← kmalloc 5000
  done (a ∷ b ∷ c ∷ d ∷ e ∷ [])

churn_run :
    answer (churn start) ≡ 0x80010c00 ∷ 0x80010800 ∷ 0x80010400 ∷ 0x80010800 ∷ 0x80012000 ∷ []
unfolding kmalloc kfree subpage_kmalloc subpage_kfree blocktype doalloc carve new_page put_block
    remove_lists release_if_free allocpageref freepageref alloc_kpages
churn_run = refl

-- a page of two blocks, the second one in use
abbrev halves : Page
halves = record { ptr = 0x80011000; page = 0x80010000; blk = 7; free = 0 ∷ []; used = 2048 ∷ [] }

abbrev first_root : Root
first_root = record { page = 0x80011000; inuse = 1 ∷ replicate 7 0; numinuse = 1 }

abbrev half_used : Heap
half_used = record {
  word = λ _. 0;
  refs = λ _. pageref 0x80010000 7 (0 ∷ []);
  sizebases = [] ∷ [] ∷ [] ∷ [] ∷ [] ∷ [] ∷ [] ∷ (0x80011000 ∷ []) ∷ [];
  allbase = 0x80011000 ∷ [];
  roots = record {
    roots = first_root ∷ replicate 15 empty_root;
    ram = record { firstpaddr = 0x12000; lastpaddr = 0x100000 };
  };
}

root_page : (k : ℕ) → k ≢ 0 → root_at half_used.roots k ≡ empty_root
root_page zero ne = absurd (ne refl)
root_page (suc k) ne = get_or-replicate {A = Root} 15 k empty_root

empty_root-IsRoot : IsRoot empty_root
unfolding total count
empty_root-IsRoot = record {
  words = refl;
  small = λ i. omega (arith, get_or-replicate {A = ℕ} 8 i 0);
  counted = refl;
  unused = λ e. refl;
  aligned = refl;
}

first_root-IsRoot : IsRoot first_root
unfolding total count
first_root-IsRoot = record {
  words = refl;
  small = small_words;
  counted = refl;
  unused = λ e. absurd (omega (arith, e));
  aligned = refl;
}
  where
    small_words : (i : ℕ) → get_or (1 ∷ replicate 7 0) i 0 ≤ 0xffffffff
    small_words zero = omega arith
    small_words (suc i) = omega (arith, get_or-replicate {A = ℕ} 7 i 0)

half_used-IsRoots : IsRoots half_used.roots
half_used-IsRoots = record {
  ram = record { aligned = refl; low = omega arith; ordered = omega arith; high = omega arith };
  many = refl;
  each = each_root;
  below = page_below;
  apart = pages_apart;
}
  where
    each_root : (k : ℕ) → k < 16 → IsRoot (root_at half_used.roots k)
    each_root zero lt = first_root-IsRoot
    each_root (suc k) lt = rw (root_page (suc k) (λ e. omega (arith, e))) empty_root-IsRoot

    page_below :
        (k : ℕ)
        → (root_at half_used.roots k).page ≢ 0
        → (kseg0 ≤ (root_at half_used.roots k).page)
          × ((root_at half_used.roots k).page + 4096 ≤ kseg0 + 0x12000)
    page_below zero nz = (omega arith, omega arith)
    page_below (suc k) nz =
        absurd (nz (ap (λ r. r.page) (root_page (suc k) (λ e. omega (arith, e)))))

    pages_apart :
        (k l : ℕ)
        → k ≢ l
        → (root_at half_used.roots k).page ≢ 0
        → (root_at half_used.roots k).page ≢ (root_at half_used.roots l).page
    pages_apart zero zero ne nz = absurd (ne refl)
    pages_apart zero (suc l) ne nz =
        rw (root_page (suc l) (λ e. omega (arith, e))) (λ e. omega (arith, e))
    pages_apart (suc k) l ne nz =
        absurd (nz (ap (λ r. r.page) (root_page (suc k) (λ e. omega (arith, e)))))

half_used-Holds : Holds half_used (halves ∷ [])
unfolding bit_of
half_used-Holds = record {
  all = refl;
  types = refl;
  bases = base;
  pages = (
    record {
      aligned = refl;
      low = omega arith;
      high = omega arith;
      blk = omega arith;
      ref = refl;
      chain = (refl, tt);
      blocks = omega arith;
      full = refl;
    },
    omega arith,
    tt,
    tt,
  );
  roots = half_used-IsRoots;
  in_use = (
    record {
      root = 0;
      index = 0;
      root_lt = omega arith;
      index_lt = omega arith;
      page = λ e. omega (arith, e);
      address = refl;
      on = refl;
    },
    tt,
  );
}
  where
    base : (t : ℕ) → t < 8 → get_or half_used.sizebases t [] ≡ ptrs (of_type t (halves ∷ []))
    base zero lt = refl
    base (suc zero) lt = refl
    base (suc (suc zero)) lt = refl
    base (suc (suc (suc zero))) lt = refl
    base (suc (suc (suc (suc zero)))) lt = refl
    base (suc (suc (suc (suc (suc zero))))) lt = refl
    base (suc (suc (suc (suc (suc (suc zero)))))) lt = refl
    base (suc (suc (suc (suc (suc (suc (suc zero))))))) lt = refl
    base (suc (suc (suc (suc (suc (suc (suc (suc t)))))))) lt = absurd (omega arith)

kmalloc-Given_example : Ensures (Given half_used (halves ∷ []) 1500) Never (kmalloc 1500 half_used)
kmalloc-Given_example = kmalloc-Given half_used-Holds 1500 (omega arith)

kfree-Freed_example : Ensures (Freed (halves ∷ []) 0x80010800) Never (kfree 0x80010800 half_used)
kfree-Freed_example =
    kfree-Freed half_used-Holds 0x80010800 2048
      (inl (record { offset = 2048; held = inl refl; address = refl; size = refl }))

kmalloc-Whole_example : Ensures (Whole half_used (halves ∷ []) 5000) Never (kmalloc 5000 half_used)
kmalloc-Whole_example = kmalloc-Whole half_used-Holds 5000 (omega arith) (omega arith)

kmalloc_wraps_example :
    (first : ℕ) × (kmalloc 0xffff0000 half_used ≡ done 0x80012000 (with_first half_used first))
    × (first ≤ 0x12000)
kmalloc_wraps_example =
    kmalloc_wraps half_used 0xffff0000 (half_used-IsRoots.ram) (omega arith) (omega arith)

allocpageref-GotRef_example : Ensures (GotRef half_used.roots) Never (allocpageref half_used.roots)
allocpageref-GotRef_example = allocpageref-GotRef half_used-IsRoots
