-- ===== src/Kmalloc/Ram.antt =====
-- os161/kern/arch/mips/vm/ram.c, alloc_kpages and free_kpages of os161/kern/arch/mips/vm/dumbvm.c: whole
-- pages for the kernel, handed out in order and never taken back. Sizes and addresses have 32 bits.
use os161_testbed.Common.{ℕ, ◌+◌, ◌*◌, ◌%◌, ◌^◌, ltb, ◌==◌, if◌then◌else◌}

abbrev pub page_size : ℕ
page_size = 4096

-- MIPS_KSEG0
abbrev pub kseg0 : ℕ
kseg0 = 0x80000000

pub record Ram : Type 0 where
  pub firstpaddr : ℕ
  pub lastpaddr : ℕ

-- ram_stealmem; 0 when there is no room
pub stealmem : (npages : ℕ) → Ram → ℕ × Ram
stealmem npages r =
    let size = npages * page_size % 2 ^ 32 in
    if ltb r.lastpaddr ((r.firstpaddr + size) % 2 ^ 32)
    then (0, r)
    else (r.firstpaddr, record r { firstpaddr = (r.firstpaddr + size) % 2 ^ 32 })

-- PADDR_TO_KVADDR, but for 0
abbrev pub kvaddr : ℕ × Ram → ℕ × Ram
kvaddr (paddr, r) = if paddr == 0 then (0, r) else ((paddr + kseg0) % 2 ^ 32, r)

unfoldable pub alloc_kpages : (npages : ℕ) → Ram → ℕ × Ram
unfolding stealmem
alloc_kpages npages r = kvaddr (stealmem npages r)

abbrev pub free_kpages : (addr : ℕ) → Ram → Ram
free_kpages addr r = r
