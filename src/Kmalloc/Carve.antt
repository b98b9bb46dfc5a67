-- ===== src/Kmalloc/Carve.antt =====
-- A new page is cut into blocks, which are all chained, the last one first.
use os161_testbed.Common.{
  ℕ, zero, suc, ◌+◌, ◌-◌, ◌*◌, ◌/◌, ◌%◌, ◌^◌, ◌<◌, ◌≤◌, ◌≡◌, ◌⊎◌, refl, sym, ap, subst, ◌∙◌, true,
  false, List, [], ◌∷◌, arith, length, ◌==◌, ◌/=◌, update,
}
use os161_testbed.Common.Run.{Run, done}
use os161_testbed.Kmalloc.{Heap, size_of, carve, carve_loop, mkpab}
use os161_testbed.Kmalloc.Page.{
  Page, pageref, head_block, head_offset, Chain, Chain-same, Apart, size_cases,
}
use os161_testbed.Kmalloc.Change.{linked}

-- the offsets of blocks n, n - 1, ..., 0
unfoldable pub descending : (size n : ℕ) → List ℕ
descending size zero = 0 ∷ []
descending size (suc n) = (suc n * size) ∷ descending size n

pub length-descending : (size n : ℕ) → length (descending size n) ≡ suc n
unfolding descending
length-descending size zero = refl
length-descending size (suc n) = ap suc (length-descending size n)

head-descending : (page size n : ℕ) → head_block page (descending size n) ≡ page + n * size
unfolding descending
head-descending page size zero = ap (λ k. page + k) (grind arith)
head-descending page size (suc n) = refl

descending-Apart :
    (page size n a v : ℕ) (word : ℕ → ℕ)
    → page + n * size < a
    → Apart word (update word a v) page size (descending size n)
unfolding descending
descending-Apart page size zero a v word lt =
    let ne : (a == page + 0) ≡ false = ground arith in (rw ne refl, tt)
descending-Apart page size (suc n) a v word lt =
    let ne : (a == page + suc n * size) ≡ false = ground arith in
    (rw ne refl, descending-Apart page size n a v word (grind arith))

-- What the loop leaves: words that chain the blocks, and are the old ones outside the page.
abbrev Cut : (h : Heap) (page size n : ℕ) → Run Heap ℕ → Type 0
Cut h page size n r =
    (word : ℕ → ℕ) × (r ≡ done (page + n * size) (record h { word = word }))
    × Chain word page (descending size n)
    × ((a : ℕ) → (a < page) ⊎ (page + 4096 ≤ a) → word a ≡ h.word a)

carve_loop-Cut :
    (n i page size : ℕ) (h : Heap)
    → 0 < size
    → (n + i) * size + size ≤ 4096
    → page + 4096 ≤ 2 ^ 32
    → Chain h.word page (descending size i)
    → Cut h page size (n + i) (carve_loop n (i + 1) page size (page + i * size) h)
unfolding carve_loop descending
carve_loop-Cut zero i page size h pos fits small ok =
    let e : 0 + i ≡ i = omega arith in rw e (h.word, refl, ok, λ a out. refl)
carve_loop-Cut (suc n) i page size h pos fits small ok =
    let e : suc n + i ≡ n + suc i = omega arith in
    let step : suc i * size ≡ i * size + size = grind arith in
    let inside : suc i * size + size ≤ 4096 =
      (let all : (suc n + i) * size ≡ n * size + (i * size + size) = grind arith in
        omega (arith, step)) in
    let next : i + 1 ≡ suc i = omega arith in
    let back : i + 1 - 1 ≡ i = omega arith in
    let next_size : (i + 1) * size ≡ suc i * size = ap (λ k. k * size) next in
    let back_size : (i + 1 - 1) * size ≡ i * size = ap (λ k. k * size) back in
    let here : (page + (i + 1) * size) % 2 ^ 32 ≡ page + suc i * size =
      rw next_size (omega arith) in
    let before : (page + (i + 1 - 1) * size) % 2 ^ 32 ≡ page + i * size =
      rw back_size (omega (arith, step)) in
    let ne : (page + suc i * size /= page + i * size) ≡ true = ground (arith, step) in
    let word' = update h.word (page + suc i * size) (page + i * size) in
    let self : (page + suc i * size == page + suc i * size) ≡ true = ground arith in
    let (word, run, chain, out) =
      carve_loop-Cut n (suc i) page size (record h { word = word' }) pos (rw (← e) fits) small
        (
          rw self (sym (head-descending page size i)),
          Chain-same h.word word' page size (descending size i)
              (descending-Apart page size i (page + suc i * size) (page + i * size) h.word
                (omega (arith, step)))
              ok,
        ) in
    rw (here, before, ne, e)
      (
        word,
        ap (λ k. carve_loop n (k + 1) page size (page + suc i * size) (record h { word = word' }))
              next
            ∙ run,
        chain,
        λ a o.
            out a o
            ∙ (let away : (page + suc i * size == a) ≡ false = ground arith in rw away refl),
      )

-- the state after a page has been cut: all its blocks are free
abbrev pub all_free : (ptr page blk : ℕ) → Page
all_free ptr page blk = record {
  ptr = ptr;
  page = page;
  blk = blk;
  free = descending (size_of blk) (4096 / size_of blk - 1);
  used = [];
}

-- carve of a new page: it is on the lists, and its freelist holds all its blocks.
abbrev pub Carved : (h : Heap) (pr page blk : ℕ) → Run Heap (Unit {0}) → Type 0
Carved h pr page blk r =
    let p = all_free pr page blk in
    (word : ℕ → ℕ) × (r
      ≡ done tt
          (record (linked h p) { word = word; refs = update h.refs pr (pageref page blk p.free) }))
    × Chain word page p.free
    × ((a : ℕ) → (a < page) ⊎ (page + 4096 ≤ a) → word a ≡ h.word a)

pub blocks_fit :
    (t : ℕ)
    → t < 8
    → ((4096 / size_of t - 1) * size_of t + size_of t ≤ 4096)
      × (0 < size_of t)
      × (0 < 4096 / size_of t)
blocks_fit t lt =
    size_cases (λ s. ((4096 / s - 1) * s + s ≤ 4096) × (0 < s) × (0 < 4096 / s)) (omega arith)
      (omega arith) (omega arith) (omega arith) (omega arith) (omega arith) (omega arith)
      (omega arith) t lt

update-out :
    (word : ℕ → ℕ) (page a v : ℕ) → (a < page) ⊎ (page + 4096 ≤ a) → update word page v a ≡ word a
update-out word page a v o = let away : (page == a) ≡ false = ground arith in rw away refl

head_offset-descending : (size n : ℕ) → head_offset (descending size n) ≡ n * size
unfolding descending
head_offset-descending size zero = grind arith
head_offset-descending size (suc n) = refl

pageref_of :
    (page blk n size : ℕ)
    → page % 4096 ≡ 0
    → blk < 8
    → 0 < 4096 / size
    → (record {
      pageaddr_and_blocktype = mkpab page blk;
      freelist_offset = (4096 / size - 1) * size;
      nfree = 4096 / size;
    })
      ≡ pageref page blk (descending size (4096 / size - 1))
pageref_of page blk n size aligned lt pos =
    let pab : mkpab page blk ≡ page + blk = omega arith in
    let len : 4096 / size ≡ suc (4096 / size - 1) = omega arith in
    let len' = length-descending size (4096 / size - 1) in
    let head = head_offset-descending size (4096 / size - 1) in rw (pab, head, len', ← len) refl

pub carve-Carved :
    (h : Heap) (pr page blk : ℕ)
    → page % 4096 ≡ 0
    → page + 4096 ≤ 2 ^ 32
    → blk < 8
    → Carved h pr page blk (carve pr page blk h)
unfolding carve descending
carve-Carved h pr page blk aligned small lt =
    let size = size_of blk in
    let n = 4096 / size - 1 in
    let fits = blocks_fit blk lt in
    let h' = record h { word = update h.word page 0 } in
    let self : (page == page + 0) ≡ true = ground arith in
    let (word, run, chain, out) =
      carve_loop-Cut n 0 page size h' fits.1
        (omega (arith, fits, ap (λ k. k * size) (let e : n + 0 ≡ n = omega arith in e))) small
        (rw self refl, tt) in
    let n0 : n + 0 ≡ n = omega arith in
    let start : page ≡ page + 0 * size = omega arith in
    let run' : carve_loop n 1 page size page h'
        ≡ done (page + n * size) (record h' { word = word }) =
      ap (λ fl. carve_loop n 1 page size fl h') start
      ∙ run
      ∙ ap (λ k. done (page + k * size) (record h' { word = word })) n0 in
    let offset : (page + n * size + 2 ^ 32 - page) % 2 ^ 16 ≡ n * size = omega (arith, fits) in
    let checked : (n * size == n * size) ≡ true = ground arith in
    (
      word,
      rw (run', offset, checked)
          (ap
            (λ r.
              done tt (record (linked h (all_free pr page blk)) {
                word = word;
                refs = update h.refs pr r;
              }))
            (pageref_of page blk n size aligned lt fits.2)),
      subst (λ k. Chain word page (descending size k)) n0 chain,
      λ a o. out a o ∙ update-out h.word page a 0 o,
    )
