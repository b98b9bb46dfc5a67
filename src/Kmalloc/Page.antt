-- ===== src/Kmalloc/Page.antt =====
-- One page of the subpage allocator: its free and its used blocks, by their offsets, and what taking
-- and putting a block does to its freelist.
use os161_testbed.Common.{
  ℕ, zero, suc, ◌+◌, ◌-◌, ◌*◌, ◌/◌, ◌%◌, ◌^◌, ◌<◌, ◌≤◌, ◌≡◌, ◌≢◌, ◌⊎◌, refl, ◌∙◌, true, false, List,
  [], ◌∷◌, length, arith, update, ltb, lt→ltb, leb, ◌==◌, ◌/=◌,
}
use os161_testbed.Common.Run.{done}
use os161_testbed.Kmalloc.{
  Heap, Pageref, size_of, invalid_offset, doalloc, after_take, put_block, release_if_free,
  fill_words,
}

-- a page in use: the address of its pageref, its own, its block type and the offsets of its blocks
pub record Page : Type 0 where
  pub ptr : ℕ
  pub page : ℕ
  pub blk : ℕ
  pub free : List ℕ
  pub used : List ℕ

-- freelist_offset for a freelist, and the pointer to its first block
abbrev pub head_offset : List ℕ → ℕ
head_offset [] = invalid_offset
head_offset (x ∷ xs) = x

abbrev pub head_block : (page : ℕ) → List ℕ → ℕ
head_block page [] = 0
head_block page (x ∷ xs) = page + x

abbrev pub pageref : (page blk : ℕ) → List ℕ → Pageref
pageref page blk free = record {
  pageaddr_and_blocktype = page + blk;
  freelist_offset = head_offset free;
  nfree = length free;
}

-- The first words of the blocks chain them in this order.
abbrev pub Chain : (word : ℕ → ℕ) (page : ℕ) → List ℕ → Type 0
Chain word page [] = Unit
Chain word page (x ∷ xs) = (word (page + x) ≡ head_block page xs) × Chain word page xs

abbrev pub NotIn : ℕ → List ℕ → Type 0
NotIn x [] = Unit
NotIn x (y ∷ ys) = (y ≢ x) × NotIn x ys

-- Offsets of different blocks of a page.
abbrev pub Blocks : (size : ℕ) → List ℕ → Type 0
Blocks size [] = Unit
Blocks size (x ∷ xs) = (x + size ≤ 4096) × (x % size ≡ 0) × NotIn x xs × Blocks size xs

-- Blocks of one size at different offsets do not overlap.
pub blocks_apart : (s a b : ℕ) → 0 < s → a % s ≡ 0 → b % s ≡ 0 → a ≢ b → (a + s ≤ b) ⊎ (b + s ≤ a)
blocks_apart s a b pos ma mb ne = grind arith

pub size_cases :
    (P : ℕ → Type 0)
    → P 16
    → P 32
    → P 64
    → P 128
    → P 256
    → P 512
    → P 1024
    → P 2048
    → (t : ℕ) → t < 8
    → P (size_of t)
size_cases P a b c d e f g i zero h = a
size_cases P a b c d e f g i (suc zero) h = b
size_cases P a b c d e f g i (suc (suc zero)) h = c
size_cases P a b c d e f g i (suc (suc (suc zero))) h = d
size_cases P a b c d e f g i (suc (suc (suc (suc zero)))) h = e
size_cases P a b c d e f g i (suc (suc (suc (suc (suc zero))))) h = f
size_cases P a b c d e f g i (suc (suc (suc (suc (suc (suc zero)))))) h = g
size_cases P a b c d e f g i (suc (suc (suc (suc (suc (suc (suc zero))))))) h = i
size_cases P a b c d e f g i (suc (suc (suc (suc (suc (suc (suc (suc t)))))))) h =
    absurd (omega arith)

abbrev pub Headed : List ℕ → Type 0
Headed [] = Unit
Headed (y ∷ ys) = y < 4096

pub fill_words-same :
    (n ptr : ℕ) (word : ℕ → ℕ) (a : ℕ)
    → (a < ptr) ⊎ (ptr + 4 * n ≤ a)
    → fill_words n ptr word a ≡ word a
unfolding fill_words
fill_words-same zero ptr word a h = refl
fill_words-same (suc n) ptr word a h =
    fill_words-same n (ptr + 4) (update word ptr 0xdeadbeef) a (ground arith)
    ∙ (let ne : (ptr == a) ≡ false = ground arith in rw ne refl)

-- The first words of these blocks are the same.
abbrev pub Apart : (word word' : ℕ → ℕ) (page size : ℕ) → List ℕ → Type 0
Apart word word' page size [] = Unit
Apart word word' page size (x ∷ xs) =
    (word' (page + x) ≡ word (page + x)) × Apart word word' page size xs

pub Chain-same :
    (word word' : ℕ → ℕ) (page size : ℕ) (xs : List ℕ)
    → Apart word word' page size xs
    → Chain word page xs
    → Chain word' page xs
Chain-same word word' page size [] same ok = tt
Chain-same word word' page size (x ∷ xs) same ok =
    (same.0 ∙ ok.0, Chain-same word word' page size xs same.1 ok.1)

module _ (page blk : ℕ) (aligned : page % 4096 ≡ 0) (small : page + 4096 ≤ 2 ^ 32) (pos : 0 < page)
    (t : blk < 8) where
  pub doalloc-eq :
      (h : Heap) (pr x : ℕ) (xs : List ℕ)
      → h.refs pr ≡ pageref page blk (x ∷ xs)
      → x < 4096
      → Headed xs
      → length xs < 2 ^ 16 - 1
      → h.word (page + x) ≡ head_block page xs
      → doalloc pr h ≡ done (page + x) (record h { refs = update h.refs pr (pageref page blk xs) })
  unfolding doalloc after_take
  doalloc-eq h pr x [] e lt ok few link =
      let base : (page + blk) / 4096 * 4096 ≡ page = omega arith in
      let fl : (page + x) % 2 ^ 32 ≡ page + x = omega arith in
      rw (e, base, fl, link, lt→ltb x 4096 lt) refl
  doalloc-eq h pr x (y ∷ ys) e lt ok few link =
      let base : (page + blk) / 4096 * 4096 ≡ page = omega arith in
      let fl : (page + x) % 2 ^ 32 ≡ page + x = omega arith in
      let nonzero : (page + y /= 0) ≡ true = ground arith in
      let left : (suc (suc (length ys)) + 2 ^ 16 - 1) % 2 ^ 16 ≡ suc (length ys) = omega arith in
      let some_left : ltb 0 (suc (length ys)) ≡ true = ground arith in
      let diff : (page + y + 2 ^ 32 - page) % 2 ^ 32 ≡ y = omega arith in
      let offset : (page + y + 2 ^ 32 - page) % 2 ^ 16 ≡ y = omega arith in
      rw
        (
          e,
          base,
          fl,
          link,
          lt→ltb x 4096 lt,
          nonzero,
          left,
          some_left,
          diff,
          offset,
          lt→ltb y 4096 ok,
        )
        refl

  -- the words after a block has been filled and put at the head of the freelist
  abbrev pub put_words : (x : ℕ) → List ℕ → (ℕ → ℕ) → ℕ → ℕ
  put_words x xs word =
      update (fill_words (size_of blk / 4) (page + x) word) (page + x) (head_block page xs)

  pub put_block-eq :
      (h : Heap) (pr x : ℕ) (xs : List ℕ)
      → h.refs pr ≡ pageref page blk xs
      → x < 4096
      → x % size_of blk ≡ 0
      → Headed xs
      → NotIn x xs
      → length xs < 2 ^ 16 - 1
      → put_block pr (page + x) h
        ≡ release_if_free pr blk (record h {
          word = put_words x xs h.word;
          refs = update h.refs pr (pageref page blk (x ∷ xs));
        })
  unfolding put_block
  put_block-eq h pr x [] e lt cut ok new few =
      let base : (page + blk) / 4096 * 4096 ≡ page = omega arith in
      let type : (page + blk) % 4096 ≡ blk = omega arith in
      let fl : (page + x) % 2 ^ 32 ≡ page + x = omega arith in
      let offset : page + x - page ≡ x = omega arith in
      let inside : leb 4096 x ≡ false = ground arith in
      let cut' : (x % size_of blk /= 0) ≡ false = rw cut refl in
      rw (e, base, type, offset, inside, cut', fl) refl
  put_block-eq h pr x (y ∷ ys) e lt cut ok new few =
      let base : (page + blk) / 4096 * 4096 ≡ page = omega arith in
      let type : (page + blk) % 4096 ≡ blk = omega arith in
      let fl : (page + x) % 2 ^ 32 ≡ page + x = omega arith in
      let offset : page + x - page ≡ x = omega arith in
      let inside : leb 4096 x ≡ false = ground arith in
      let cut' : (x % size_of blk /= 0) ≡ false = rw cut refl in
      let valid : (y == 0xffff) ≡ false = ground arith in
      let next : (page + y) % 2 ^ 32 ≡ page + y = omega arith in
      let ne : (page + x /= page + y) ≡ true = ground (arith, new.0) in
      let more : (suc (length ys) + 1) % 2 ^ 16 ≡ suc (suc (length ys)) = omega arith in
      rw (e, base, type, offset, inside, cut', fl, valid, next, ne, more) refl
