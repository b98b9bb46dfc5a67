-- ===== src/Kmalloc.antt =====
-- os161/kern/vm/kmalloc.c as it is built, without GUARDS, LABELS and SLOW: the subpage allocator. A page
-- is cut into blocks of one size, and its free blocks are chained through their first words. A list of
-- pagerefs, linked by next_samesize or next_all, is a list of their addresses; the pagerefs are a store
-- by address, apart from the words of the blocks. One thread runs; the spinlock is left out.
pub mod Ram
pub mod Refs
pub mod Page
pub mod Holds
pub mod Change
pub mod Live
pub mod Carve
pub mod Alloc
pub mod Fresh
pub mod Gives
pub mod Back
pub mod Put
pub mod Locate
pub mod Freed
pub mod Large
use os161_testbed.Common.{
  ℕ, zero, suc, ◌+◌, ◌-◌, ◌*◌, ◌/◌, ◌%◌, ◌^◌, Bool, true, false, not, ◌&&◌, ◌||◌, List, [], ◌∷◌,
  Option, none, some, leb, ltb, ◌==◌, ◌/=◌, if◌then◌else◌, get_or, set, replicate, update,
}
use os161_testbed.Common.Run.{
  Run, done, fail, panic, fault, stuck, Cmd, ◌>>=◌, ◌>>◌, and_then, kassert,
}
use os161_testbed.Kmalloc.Ram.{page_size}
use os161_testbed.Kmalloc.Refs.{Roots, allocpageref, freepageref, kpages, release_kpages}

abbrev pub sizes : List ℕ
sizes = 16 ∷ 32 ∷ 64 ∷ 128 ∷ 256 ∷ 512 ∷ 1024 ∷ 2048 ∷ []

abbrev pub nsizes : ℕ
nsizes = 8

abbrev pub largest_subpage_size : ℕ
largest_subpage_size = 2048

abbrev pub size_of : (blktype : ℕ) → ℕ
size_of blktype = get_or sizes blktype 0

abbrev pub invalid_offset : ℕ
invalid_offset = 0xffff

-- struct pageref, but for its links
pub record Pageref : Type 0 where
  pub pageaddr_and_blocktype : ℕ
  pub freelist_offset : ℕ
  pub nfree : ℕ

-- PR_PAGEADDR
abbrev pub pageaddr : Pageref → ℕ
pageaddr pr = pr.pageaddr_and_blocktype / page_size * page_size

-- PR_BLOCKTYPE
abbrev pub blocktype_of : Pageref → ℕ
blocktype_of pr = pr.pageaddr_and_blocktype % page_size

-- MKPAB
abbrev pub mkpab : (pa blk : ℕ) → ℕ
mkpab pa blk = pa / page_size * page_size + blk % page_size

-- the words of the blocks, the pagerefs, their lists, and where they come from
pub record Heap : Type 0 where
  pub word : ℕ → ℕ
  pub refs : ℕ → Pageref
  pub sizebases : List (List ℕ)
  pub allbase : List ℕ
  pub roots : Roots

abbrev pub store_word : (addr v : ℕ) → Cmd Heap (Unit {0})
store_word addr v h = done tt (record h { word = update h.word addr v })

abbrev pub set_ref : (pr : ℕ) → Pageref → Cmd Heap (Unit {0})
set_ref pr r h = done tt (record h { refs = update h.refs pr r })

pub on_heap : {A : Type 0} → Heap → Run Roots A → Run Heap A
on_heap h (done a s) = done a (record h { roots = s })
on_heap h (fail e s) = fail e (record h { roots = s })
on_heap h panic = panic
on_heap h fault = fault
on_heap h stuck = stuck

pub on_roots : {A : Type 0} → Cmd Roots A → Cmd Heap A
unfolding on_heap
on_roots m h = on_heap h (m h.roots)

-- for (i=0; i<len/sizeof(uint32_t); i++) ptr[i] = 0xdeadbeef; with the rounds left
pub fill_words : (rounds ptr : ℕ) → (ℕ → ℕ) → ℕ → ℕ
fill_words zero ptr word = word
fill_words (suc n) ptr word = fill_words n (ptr + 4) (update word ptr 0xdeadbeef)

-- fill_deadbeef
pub fill_deadbeef : (ptr len : ℕ) → Cmd Heap (Unit {0})
unfolding fill_words
fill_deadbeef ptr len h = done tt (record h { word = fill_words (len / 4) ptr h.word })

-- the loop of blocktype, from index i
pub blocktype_from : (clientsz i : ℕ) → List ℕ → Cmd Heap ℕ
blocktype_from clientsz i [] = λ _. panic
blocktype_from clientsz i (s ∷ ss) =
    if leb clientsz s then done i else blocktype_from clientsz (i + 1) ss

unfoldable pub blocktype : (clientsz : ℕ) → Cmd Heap ℕ
unfolding blocktype_from
blocktype clientsz = blocktype_from clientsz 0 sizes

-- *guy = pr->next, at the link that points to pr
pub unlink_ref : (pr : ℕ) → List ℕ → List ℕ
unlink_ref pr [] = []
unlink_ref pr (p ∷ ps) = if p == pr then ps else p ∷ unlink_ref pr ps

unfoldable pub remove_lists : (pr blktype : ℕ) → Cmd Heap (Unit {0})
unfolding unlink_ref
remove_lists pr blktype = do
  kassert (ltb blktype nsizes)
  λ h. done tt (record h {
    sizebases = set h.sizebases blktype (unlink_ref pr (get_or h.sizebases blktype []));
    allbase = unlink_ref pr h.allbase;
  })

-- the pageref after a block has been taken off its freelist; nxt is the block's link
pub after_take : (nxt : ℕ) → Pageref → Cmd Heap Pageref
after_take nxt r =
    let nfree = (r.nfree + 2 ^ 16 - 1) % 2 ^ 16 in
    if nxt /= 0
    then (do
      kassert (ltb 0 nfree)
      kassert (ltb ((nxt + 2 ^ 32 - pageaddr r) % 2 ^ 32) page_size)
      done (record r { nfree = nfree; freelist_offset = (nxt + 2 ^ 32 - pageaddr r) % 2 ^ 16 }))
    else (do
      kassert (nfree == 0)
      done (record r { nfree = nfree; freelist_offset = invalid_offset }))

-- doalloc
unfoldable pub doalloc : (pr : ℕ) → Cmd Heap ℕ
unfolding after_take
doalloc pr h =
    let r = h.refs pr in
    let fl = (pageaddr r + r.freelist_offset) % 2 ^ 32 in
    (do
      kassert (ltb r.freelist_offset page_size)
      r' ← after_take (h.word fl) r
      set_ref pr r'
      done fl)
      h

-- for (i=1; i<pr->nfree; i++), with the rounds left; the answer is the last fl
pub carve_loop : (rounds i page size fl : ℕ) → Cmd Heap ℕ
carve_loop zero i page size fl = done fl
carve_loop (suc n) i page size fl = do
  store_word ((page + i * size) % 2 ^ 32) ((page + (i - 1) * size) % 2 ^ 32)
  kassert ((page + i * size) % 2 ^ 32 /= (page + (i - 1) * size) % 2 ^ 32)
  carve_loop n (i + 1) page size ((page + i * size) % 2 ^ 32)

-- the freelist of a new page, and its pageref on the two lists
unfoldable pub carve : (pr page blktype : ℕ) → Cmd Heap (Unit {0})
unfolding carve_loop
carve pr page blktype =
    let nfree = page_size / size_of blktype in
    do
      store_word page 0
      fl ← carve_loop (nfree - 1) 1 page (size_of blktype) page
      let offset = (fl + 2 ^ 32 - page) % 2 ^ 16
      kassert (offset == (nfree - 1) * size_of blktype)
      set_ref pr (record {
        pageaddr_and_blocktype = mkpab page blktype;
        freelist_offset = offset;
        nfree = nfree;
      })
      λ h. done tt (record h {
        sizebases = set h.sizebases blktype (pr ∷ get_or h.sizebases blktype []);
        allbase = pr ∷ h.allbase;
      })

-- no page of the right size has a free block: make a new one
unfoldable pub new_page : (blktype : ℕ) → Cmd Heap ℕ
unfolding on_roots
new_page blktype = do
  page ← on_roots (kpages 1)
  if page == 0 then done 0 else (do
    kassert (page % page_size == 0)
    pr ← on_roots allocpageref
    if pr == 0
        then (do on_roots (release_kpages page); done 0)
        else (do carve pr page blktype; doalloc pr))

-- for (pr = sizebases[blktype]; pr != NULL; pr = pr->next_samesize)
pub take_from : (blktype : ℕ) → List ℕ → Cmd Heap ℕ
take_from blktype [] = new_page blktype
take_from blktype (pr ∷ prs) =
    let rest = take_from blktype prs in
    λ h.
      (do
        kassert (blocktype_of (h.refs pr) == blktype)
        if ltb 0 (h.refs pr).nfree then doalloc pr else rest)
        h

unfoldable pub subpage_kmalloc : (sz : ℕ) → Cmd Heap ℕ
unfolding take_from
subpage_kmalloc sz = do
  blktype ← blocktype sz
  λ h. take_from blktype (get_or h.sizebases blktype []) h

-- the pageref whose page holds the address
pub find_page : (ptr : ℕ) → List ℕ → Cmd Heap (Option ℕ)
find_page ptr [] = done none
find_page ptr (pr ∷ prs) =
    let rest = find_page ptr prs in
    λ h.
      (do
        kassert (ltb (blocktype_of (h.refs pr)) nsizes)
        if leb (pageaddr (h.refs pr)) ptr && ltb ptr ((pageaddr (h.refs pr) + page_size) % 2 ^ 32)
            then done (some pr)
            else rest)
        h

-- the last part of subpage_kfree: the page goes back if all its blocks are free
unfoldable pub release_if_free : (pr blktype : ℕ) → Cmd Heap (Unit {0})
unfolding on_roots
release_if_free pr blktype h =
    let nfree = (h.refs pr).nfree in
    (do
      kassert (leb nfree (page_size / size_of blktype))
      if nfree == page_size / size_of blktype
          then (do
            remove_lists pr blktype
            on_roots (freepageref pr)
            on_roots (release_kpages (pageaddr (h.refs pr))))
          else done tt)
      h

-- the block at ptr goes on the freelist of its page
unfoldable pub put_block : (pr ptr : ℕ) → Cmd Heap (Unit {0})
unfolding fill_deadbeef
put_block pr ptr h =
    let r = h.refs pr in
    let size = size_of (blocktype_of r) in
    let offset = ptr - pageaddr r in
    let fl = (pageaddr r + offset) % 2 ^ 32 in
    (do
      if leb page_size offset || offset % size /= 0 then (λ _. panic) else done tt
      fill_deadbeef ptr size
      if r.freelist_offset == invalid_offset then store_word fl 0 else (do
        store_word fl ((pageaddr r + r.freelist_offset) % 2 ^ 32)
        kassert (fl /= (pageaddr r + r.freelist_offset) % 2 ^ 32))
      set_ref pr (record r { freelist_offset = offset; nfree = (r.nfree + 1) % 2 ^ 16 })
      release_if_free pr (blocktype_of r))
      h

-- The answer is whether the address is on a page of the subpage allocator.
unfoldable pub subpage_kfree : (ptr : ℕ) → Cmd Heap Bool
unfolding find_page
subpage_kfree ptr h =
    (do
      found ← find_page ptr h.allbase
      elim found [ none ↦ done false | some pr ↦ (do put_block pr ptr; done true) ])
      h

-- whole pages
pub big_kmalloc : (sz : ℕ) → Cmd Heap ℕ
unfolding on_roots
big_kmalloc sz = do
  address ← on_roots (kpages ((sz + page_size - 1) % 2 ^ 32 / page_size))
  if address == 0 then done 0 else (do kassert (address % page_size == 0); done address)

unfoldable pub kmalloc : (sz : ℕ) → Cmd Heap ℕ
unfolding big_kmalloc
kmalloc sz = if leb largest_subpage_size sz then big_kmalloc sz else subpage_kmalloc sz

unfoldable pub kfree : (ptr : ℕ) → Cmd Heap (Unit {0})
unfolding on_roots
kfree ptr = if ptr == 0 then done tt else (do
  mine ← subpage_kfree ptr
  if mine then done tt else (do kassert (ptr % page_size == 0); on_roots (release_kpages ptr)))
