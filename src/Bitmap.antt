-- ===== src/Bitmap.antt =====
-- os161/kern/lib/bitmap.c: a fixed-size array of bits over an array of bytes. `struct bitmap` is the
-- record `Bitmap`; each function that changes one is a command over it. What kmalloc returns to
-- bitmap_create is an argument. An index outside `v` is a `fault`.
pub mod Wf
pub mod Alloc
pub mod Marks
pub mod Create
use os161_testbed.Common.{
  ℕ, zero, suc, ◌+◌, ◌-◌, ◌*◌, ◌/◌, ◌%◌, ◌^◌, Bool, true, false, not, ◌&&◌, Option, none, some,
  List, [], ◌∷◌, bit_and, bit_or, ltb, ◌==◌, ◌/=◌, if◌then◌else◌, get_elem?, set, replicate, enospc,
}
use os161_testbed.Common.Bits.{mask}
use os161_testbed.Common.Run.{Run, done, fail, panic, fault, Cmd, ◌>>=◌, ◌>>◌, and_then, kassert}

pub record Bitmap : Type 0 where
  pub nbits : ℕ
  pub v : List ℕ

abbrev pub bits_per_word : ℕ
bits_per_word = 8

abbrev pub word_allbits : ℕ
word_allbits = 0xff

-- DIVROUNDUP(nbits, BITS_PER_WORD) on `unsigned`
abbrev pub words : ℕ → ℕ
words nbits = ((nbits + bits_per_word - 1) % 2 ^ 32) / bits_per_word

-- `b->v[ix]`
unfoldable pub load : ℕ → Cmd Bitmap ℕ
load ix b = elim (get_elem? b.v ix) [ none ↦ fault | some w ↦ done w b ]

-- `b->v[ix] = w`, after a read of the same word
unfoldable pub store : ℕ → ℕ → Cmd Bitmap (Unit {0})
store ix w b = done tt (record b { v = set b.v ix w })

-- for (j=overbits; j<BITS_PER_WORD; j++) b->v[ix] |= 1 << j; with the rounds left
fill_over : ℕ → ℕ → ℕ → Cmd Bitmap (Unit {0})
fill_over zero j ix = done tt
fill_over (suc n) j ix = do w ← load ix; store ix (bit_or w (mask j)); fill_over n (j + 1) ix

mark_over : ℕ → Cmd Bitmap (Unit {0})
unfolding fill_over
mark_over nbits =
    let ix = words nbits - 1 in
    let overbits = (nbits + 2 ^ 32 - ix * bits_per_word) % 2 ^ 32 in
    if ltb (nbits / bits_per_word) (words nbits)
    then (do
      kassert (nbits / bits_per_word == words nbits - 1)
      kassert (ltb 0 overbits && ltb overbits bits_per_word)
      fill_over (bits_per_word - overbits) overbits ix)
    else done tt

-- The two flags say whether each kmalloc succeeds. `none` stands for NULL.
unfoldable pub create : ℕ → (got_b got_v : Bool) → Option (Run Bitmap (Unit {0}))
unfolding mark_over
create nbits false got_v = none
create nbits true false = none
create nbits true true =
    some (mark_over nbits (record { nbits = nbits; v = replicate (words nbits) 0 }))

-- bitmap_getdata
pub getdata : Bitmap → List ℕ
getdata b = b.v

-- for (offset = 0; ...) if ((b->v[ix] & mask)==0) ...: the first clear offset
find_clear : ℕ → ℕ → ℕ → Option ℕ
find_clear zero offset w = none
find_clear (suc n) offset w =
    if bit_and w (mask offset) == 0 then some offset else find_clear n (offset + 1) w

-- *index = ...; KASSERT(*index < b->nbits); return 0;
take_index : ℕ → Cmd Bitmap ℕ
take_index index b = if ltb index b.nbits then done index b else panic

take_bit : ℕ → ℕ → Option ℕ → Cmd Bitmap ℕ
take_bit ix w none = λ _. panic
take_bit ix w (some offset) = do
  store ix (bit_or w (mask offset))
  take_index ((ix * bits_per_word + offset) % 2 ^ 32)

-- for (ix=0; ix<maxix; ix++) ..., with the rounds left
alloc_loop : ℕ → ℕ → Cmd Bitmap ℕ
alloc_loop zero ix = fail enospc
alloc_loop (suc n) ix =
    let rest = alloc_loop n (ix + 1) in
    do w ← load ix; if w /= word_allbits then take_bit ix w (find_clear bits_per_word 0 w) else rest

unfoldable pub alloc : Cmd Bitmap ℕ
unfolding load store find_clear take_index take_bit alloc_loop
alloc b = alloc_loop (words b.nbits) 0 b

-- bitmap_translate
abbrev pub translate : ℕ → ℕ × ℕ
translate bitno = (bitno / bits_per_word, mask (bitno % bits_per_word))

unfoldable pub mark : ℕ → Cmd Bitmap (Unit {0})
unfolding load store
mark index b =
    let (ix, m) = translate index in
    (do kassert (ltb index b.nbits); w ← load ix; kassert (bit_and w m == 0); store ix (bit_or w m))
      b

-- `~mask` promoted and cut back to a byte is `0xff - mask`.
unfoldable pub unmark : ℕ → Cmd Bitmap (Unit {0})
unfolding load store
unmark index b =
    let (ix, m) = translate index in
    (do
      kassert (ltb index b.nbits)
      w ← load ix
      kassert (bit_and w m /= 0)
      store ix (bit_and w (0xff - m)))
      b

-- The answer is nonzero or zero. There is no check of `index`.
unfoldable pub isset : ℕ → Cmd Bitmap ℕ
unfolding load
isset index = let (ix, m) = translate index in do w ← load ix; done (bit_and w m)
