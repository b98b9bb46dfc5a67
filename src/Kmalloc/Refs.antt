-- ===== src/Kmalloc/Refs.antt =====
-- os161/kern/vm/kmalloc.c: the pagerefs, which are allocated in pages of 256 with a bitmap of those in
-- use. No other thread runs while allocpagerefpage has let go of the spinlock.
pub mod Bits
pub mod Slots
pub mod Take
pub mod Alloc
pub mod Free
use os161_testbed.Common.{
  ℕ, zero, suc, ◌+◌, ◌-◌, ◌*◌, ◌/◌, ◌%◌, ◌^◌, Bool, true, false, not, ◌&&◌, List, [], ◌∷◌, Option,
  none, some, leb, ltb, ◌==◌, ◌/=◌, if◌then◌else◌, get_or, set, replicate,
}
use os161_testbed.Common.Run.{done, panic, Cmd, ◌>>=◌, ◌>>◌, kassert}
use os161_testbed.Kmalloc.Ram.{Ram, page_size, alloc_kpages, free_kpages}

-- (w >> j) & 1
unfoldable pub bit_of : (w j : ℕ) → Bool
bit_of w zero = w % 2 == 1
bit_of w (suc j) = bit_of (w / 2) j

-- w | (1 << j)
pub set_bit : (w j : ℕ) → ℕ
set_bit w zero = w / 2 * 2 + 1
set_bit w (suc j) = set_bit (w / 2) j * 2 + w % 2

-- w & ~(1 << j)
pub clear_bit : (w j : ℕ) → ℕ
clear_bit w zero = w / 2 * 2
clear_bit w (suc j) = clear_bit (w / 2) j * 2 + w % 2

-- sizeof(struct pageref)
abbrev pub pageref_size : ℕ
pageref_size = 16

abbrev pub npagerefs_per_page : ℕ
npagerefs_per_page = 256

abbrev pub inuse_words : ℕ
inuse_words = 8

abbrev pub num_pagerefpages : ℕ
num_pagerefpages = 16

-- struct kheap_root; the page is 0 for NULL
pub record Root : Type 0 where
  pub page : ℕ
  pub inuse : List ℕ
  pub numinuse : ℕ

abbrev pub empty_root : Root
empty_root = record { page = 0; inuse = replicate inuse_words 0; numinuse = 0 }

-- kheaproots, and the memory of the machine
pub record Roots : Type 0 where
  pub roots : List Root
  pub ram : Ram

abbrev pub root_at : Roots → (k : ℕ) → Root
root_at s k = get_or s.roots k empty_root

abbrev pub set_root : (k : ℕ) → Root → Cmd Roots (Unit {0})
set_root k root s = done tt (record s { roots = set s.roots k root })

abbrev pub kpages : (npages : ℕ) → Cmd Roots ℕ
kpages npages s = let (va, ram) = alloc_kpages npages s.ram in done va (record s { ram = ram })

abbrev pub release_kpages : (addr : ℕ) → Cmd Roots (Unit {0})
release_kpages addr s = done tt (record s { ram = free_kpages addr s.ram })

-- allocpagerefpage(&kheaproots[k])
pub allocpagerefpage : (k : ℕ) → Cmd Roots (Unit {0})
allocpagerefpage k = do
  λ s. kassert ((root_at s k).page == 0) s
  va ← kpages 1
  if va == 0 then done tt else (do
    kassert (va % page_size == 0)
    λ s. set_root k (record (root_at s k) { page = va }) s)

-- for (k=1,j=0; k!=0; k<<=1,j++): the first clear bit, with the rounds left
pub first_clear : (rounds j w : ℕ) → Option ℕ
first_clear zero j w = none
first_clear (suc n) j w = if bit_of w j then first_clear n (j + 1) w else some j

-- for (i=0; i<INUSE_WORDS; i++): the slot that is free, if some word is not full
pub first_free : (i : ℕ) → List ℕ → Cmd Roots (Option (ℕ × ℕ))
first_free i [] = done none
first_free i (w ∷ ws) =
    if w == 0xffffffff
    then first_free (i + 1) ws
    else elim (first_clear 32 0 w) [ none ↦ λ _. panic | some j ↦ done (some (i, j)) ]

-- &root->page->refs[i*32 + j], or NULL
pub ref_of : (k i j : ℕ) → Cmd Roots ℕ
ref_of k i j s =
    let page = (root_at s k).page in
    if page == 0 then done 0 s else done ((page + pageref_size * (i * 32 + j)) % 2 ^ 32) s

pub take_ref : (k i j : ℕ) → Cmd Roots ℕ
take_ref k i j = do
  λ s.
      let root = root_at s k in
      set_root k
        (record root {
          inuse = set root.inuse i (set_bit (get_or root.inuse i 0) j);
          numinuse = (root.numinuse + 1) % 2 ^ 32;
        })
        s
  λ s. (if (root_at s k).page == 0 then allocpagerefpage k else done tt) s
  ref_of k i j

-- the slot found in root k, or the rest of the search
abbrev pub take_found : (rest : Cmd Roots ℕ) (k : ℕ) → Option (ℕ × ℕ) → Cmd Roots ℕ
take_found rest k none = rest
take_found rest k (some (i, j)) = take_ref k i j

-- for (whichroot=0; whichroot < NUM_PAGEREFPAGES; whichroot++), with the rounds left
pub alloc_from : (rounds k : ℕ) → Cmd Roots ℕ
alloc_from zero k = done 0
alloc_from (suc n) k =
    let rest = alloc_from n (k + 1) in
    λ s.
      if leb npagerefs_per_page (root_at s k).numinuse
      then rest s
      else (do slot ← first_free 0 (root_at s k).inuse; take_found rest k slot) s

unfoldable pub allocpageref : Cmd Roots ℕ
unfolding bit_of set_bit allocpagerefpage first_clear first_free ref_of take_ref alloc_from
allocpageref = alloc_from num_pagerefpages 0

-- p - page->refs, as an unsigned number
abbrev pub ref_index : (p page : ℕ) → ℕ
ref_index p page =
    if leb page p then (p - page) / pageref_size else 2 ^ 32 - (page - p) / pageref_size

-- the pageref with number j on the page of root k
pub drop_ref : (k j : ℕ) → Cmd Roots (Unit {0})
drop_ref k j s =
    let root = root_at s k in
    let w = get_or root.inuse (j / 32) 0 in
    (do
      kassert (bit_of w (j % 32))
      kassert (ltb 0 root.numinuse)
      set_root k (record root {
        inuse = set root.inuse (j / 32) (clear_bit w (j % 32));
        numinuse = root.numinuse - 1;
      }))
      s

pub free_from : (rounds k p : ℕ) → Cmd Roots (Unit {0})
free_from zero k p = λ _. panic
free_from (suc n) k p =
    let rest = free_from n (k + 1) p in
    λ s.
      let root = root_at s k in
      if root.page == 0
      then (do kassert (root.numinuse == 0); rest) s
      else if ltb (ref_index p root.page) npagerefs_per_page
      then drop_ref k (ref_index p root.page) s
      else rest s

unfoldable pub freepageref : (p : ℕ) → Cmd Roots (Unit {0})
unfolding bit_of clear_bit drop_ref free_from
freepageref p = free_from num_pagerefpages 0 p
