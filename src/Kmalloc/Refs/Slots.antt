-- ===== src/Kmalloc/Refs/Slots.antt =====
-- When the pagerefs are well kept, which of them are in use, and what a pageref page adds.
use os161_testbed.Common.{
  ℕ, ◌+◌, ◌*◌, ◌/◌, ◌%◌, ◌^◌, ◌<◌, ◌≤◌, ◌≡◌, ◌≢◌, inl, inr, Bool, true, false, arith, ◌==◌, length,
  get_or, set, Bool-cases, get_or-set_self, get_or-set_ne, ltb,
}
use os161_testbed.Kmalloc.Ram.{Ram, alloc_kpages, kseg0}
use os161_testbed.Kmalloc.Refs.{Root, Roots, root_at, empty_root, bit_of, pageref_size}
use os161_testbed.Kmalloc.Refs.Bits.{total}

-- The pages left are whole, and all memory is within 512 megabytes.
pub record IsRam (r : Ram) : Type 0 where
  pub aligned : r.firstpaddr % 4096 ≡ 0
  pub low : 0 < r.firstpaddr
  pub ordered : r.firstpaddr ≤ r.lastpaddr
  pub high : r.lastpaddr ≤ 512 * 1024 * 1024

abbrev pub after_page : Ram → Ram
after_page r = record r { firstpaddr = r.firstpaddr + 4096 }

-- One page: there is none left, or it is the first free one.
pub data OnePage (r : Ram) : ℕ × Ram → Type 0 where
  out : r.lastpaddr < r.firstpaddr + 4096 → OnePage r (0, r)
  got : IsRam (after_page r) → OnePage r (kseg0 + r.firstpaddr, after_page r)

pub alloc_kpages-OnePage : {r : Ram} → IsRam r → OnePage r (alloc_kpages 1 r)
unfolding alloc_kpages
alloc_kpages-OnePage {r} ok =
    let sum : (r.firstpaddr + 4096) % 2 ^ 32 ≡ r.firstpaddr + 4096 =
      omega (arith, ok.ordered, ok.high) in
    elim (Bool-cases (ltb r.lastpaddr (r.firstpaddr + 4096))) [
      | inl full ↦ rw (sum, full) (out (ground arith))
      | inr room ↦
          let nonzero : (r.firstpaddr == 0) ≡ false = ground (arith, ok.low) in
          let va : (r.firstpaddr + kseg0) % 2 ^ 32 ≡ kseg0 + r.firstpaddr =
            omega (arith, ok.ordered, ok.high) in
          rw (sum, room, nonzero, va)
            (got (record {
              aligned = omega (arith, ok.aligned);
              low = omega arith;
              ordered = ground arith;
              high = ok.high;
            }))
    ]

-- the bit of pageref n of a page
abbrev pub slot : Root → (n : ℕ) → Bool
slot root n = bit_of (get_or root.inuse (n / 32) 0) (n % 32)

pub record IsRoot (r : Root) : Type 0 where
  pub words : length r.inuse ≡ 8
  pub small : (i : ℕ) → get_or r.inuse i 0 ≤ 0xffffffff
  pub counted : r.numinuse ≡ total r.inuse
  pub unused : r.page ≡ 0 → r.numinuse ≡ 0
  pub aligned : r.page % 4096 ≡ 0

pub record IsRoots (s : Roots) : Type 0 where
  pub ram : IsRam s.ram
  pub many : length s.roots ≡ 16
  pub each : (k : ℕ) → k < 16 → IsRoot (root_at s k)
  pub below :
      (k : ℕ)
      → (root_at s k).page ≢ 0
      → (kseg0 ≤ (root_at s k).page) × ((root_at s k).page + 4096 ≤ kseg0 + s.ram.firstpaddr)
  pub apart : (k l : ℕ) → k ≢ l → (root_at s k).page ≢ 0 → (root_at s k).page ≢ (root_at s l).page

abbrev pub put_root : Roots → (k : ℕ) → Root → Ram → Roots
put_root s k root ram = record { roots = set s.roots k root; ram = ram }

-- Only root k is another one after a write to it.
pub root_at-put_root_self :
    (s : Roots) (k : ℕ) (root : Root) (ram : Ram)
    → k < length s.roots
    → root_at (put_root s k root ram) k ≡ root
root_at-put_root_self s k root ram lt = get_or-set_self s.roots k root empty_root lt

pub root_at-put_root_ne :
    (s : Roots) (k l : ℕ) (root : Root) (ram : Ram)
    → k ≢ l
    → root_at (put_root s k root ram) l ≡ root_at s l
root_at-put_root_ne s k l root ram ne = get_or-set_ne s.roots k l root empty_root ne

-- The pageref at address p is in use.
pub record InUse (s : Roots) (p : ℕ) : Type 0 where
  pub root : ℕ
  pub index : ℕ
  pub root_lt : root < 16
  pub index_lt : index < 256
  pub page : (root_at s root).page ≢ 0
  pub address : p ≡ (root_at s root).page + pageref_size * index
  pub on : slot (root_at s root) index ≡ true
