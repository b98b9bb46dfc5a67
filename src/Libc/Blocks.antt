-- ===== src/Libc/Blocks.antt =====
-- memcpy and memmove copy a block, and memmove also where the blocks overlap.
use os161_testbed.Common.{
  ℕ, zero, suc, ◌+◌, ◌*◌, ◌/◌, ◌%◌, ◌≤◌, ◌≡◌, ◌⊎◌, inl, inr, refl, true, ltb, ◌==◌, arith,
  Bool-cases,
}
use os161_testbed.Libc.{
  Memory, copy_char, copy_long, chars_up, longs_up, chars_down, longs_down, by_longs, memcpy,
  memmove,
}
use os161_testbed.Libc.Copied.{
  Copied, copy_char-Copied, copy_long-Copied, none-Copied, join_up, join_down, same_block,
}

module _ (dst src : ℕ) where
  chars_up-Copied :
      (n i : ℕ) (mem : Memory)
      → (dst ≤ src) ⊎ (src + i + n ≤ dst + i)
      → Copied (dst + i) (src + i) n mem (chars_up n i dst src mem)
  unfolding chars_up
  chars_up-Copied zero i mem apart = none-Copied (dst + i) (src + i) mem
  chars_up-Copied (suc n) i mem apart =
      let mem1 = copy_char (dst + i) (src + i) mem in
      let mem2 = chars_up n (i + 1) dst src mem1 in
      same_block (dst + i) (src + i) (1 + n) (dst + i) (src + i) (suc n) mem mem2 refl refl
        (omega arith)
        (join_up (dst + i) (src + i) 1 n (wider apart) (copy_char-Copied (dst + i) (src + i) mem) (
          same_block (dst + (i + 1)) (src + (i + 1)) n (dst + i + 1) (src + i + 1) n mem1 mem2
            (omega arith) (omega arith) refl (chars_up-Copied n (i + 1) mem1 (later apart))))
    where
      wider :
          (dst ≤ src) ⊎ (src + i + suc n ≤ dst + i)
          → (dst + i ≤ src + i) ⊎ (src + i + (1 + n) ≤ dst + i)
      wider (inl le) = inl (omega arith)
      wider (inr le) = inr (omega arith)

      later :
          (dst ≤ src) ⊎ (src + i + suc n ≤ dst + i)
          → (dst ≤ src) ⊎ (src + (i + 1) + n ≤ dst + (i + 1))
      later (inl le) = inl le
      later (inr le) = inr (omega arith)

  longs_up-Copied :
      (n i : ℕ) (mem : Memory)
      → (dst ≤ src) ⊎ (src + 4 * i + 4 * n ≤ dst + 4 * i)
      → Copied (dst + 4 * i) (src + 4 * i) (4 * n) mem (longs_up n i dst src mem)
  unfolding longs_up
  longs_up-Copied zero i mem apart = none-Copied (dst + 4 * i) (src + 4 * i) mem
  longs_up-Copied (suc n) i mem apart =
      let mem1 = copy_long (dst + 4 * i) (src + 4 * i) mem in
      let mem2 = longs_up n (i + 1) dst src mem1 in
      same_block (dst + 4 * i) (src + 4 * i) (4 + 4 * n) (dst + 4 * i) (src + 4 * i) (4 * suc n) mem
        mem2 refl refl (omega arith)
        (join_up (dst + 4 * i) (src + 4 * i) 4 (4 * n) (wider apart)
          (copy_long-Copied (dst + 4 * i) (src + 4 * i) mem)
          (same_block (dst + 4 * (i + 1)) (src + 4 * (i + 1)) (4 * n) (dst + 4 * i + 4)
            (src + 4 * i + 4) (4 * n) mem1 mem2 (omega arith) (omega arith) refl
            (longs_up-Copied n (i + 1) mem1 (later apart))))
    where
      wider :
          (dst ≤ src) ⊎ (src + 4 * i + 4 * suc n ≤ dst + 4 * i)
          → (dst + 4 * i ≤ src + 4 * i) ⊎ (src + 4 * i + (4 + 4 * n) ≤ dst + 4 * i)
      wider (inl le) = inl (omega arith)
      wider (inr le) = inr (omega arith)

      later :
          (dst ≤ src) ⊎ (src + 4 * i + 4 * suc n ≤ dst + 4 * i)
          → (dst ≤ src) ⊎ (src + 4 * (i + 1) + 4 * n ≤ dst + 4 * (i + 1))
      later (inl le) = inl le
      later (inr le) = inr (omega arith)

  chars_down-Copied :
      src ≤ dst → (n : ℕ) (mem : Memory) → Copied dst src n mem (chars_down n dst src mem)
  unfolding chars_down
  chars_down-Copied le zero mem = none-Copied dst src mem
  chars_down-Copied le (suc n) mem =
      let mem1 = copy_char (dst + n) (src + n) mem in
      same_block dst src (n + 1) dst src (suc n) mem (chars_down n dst src mem1) refl refl
        (omega arith)
        (join_down dst src n 1 le (copy_char-Copied (dst + n) (src + n) mem)
          (chars_down-Copied le n mem1))

  longs_down-Copied :
      src ≤ dst → (n : ℕ) (mem : Memory) → Copied dst src (4 * n) mem (longs_down n dst src mem)
  unfolding longs_down
  longs_down-Copied le zero mem = none-Copied dst src mem
  longs_down-Copied le (suc n) mem =
      let mem1 = copy_long (dst + 4 * n) (src + 4 * n) mem in
      same_block dst src (4 * n + 4) dst src (4 * suc n) mem (longs_down n dst src mem1) refl refl
        (omega arith)
        (join_down dst src (4 * n) 4 le (copy_long-Copied (dst + 4 * n) (src + 4 * n) mem)
          (longs_down-Copied le n mem1))

longs_len : (dst src len : ℕ) → by_longs dst src len ≡ true → 4 * (len / 4) ≡ len
longs_len dst src len e =
    let f : (len % 4 == 0) ≡ true = ground arith in
    let g : len % 4 ≡ 0 = ground arith in omega arith

-- memcpy copies the block where it is not written over before it is read: the destination lies below the
-- source, or behind it.
pub memcpy-Copied :
    (dst src len : ℕ) (mem : Memory)
    → (dst ≤ src) ⊎ (src + len ≤ dst)
    → Copied dst src len mem (memcpy dst src len mem)
unfolding memcpy
memcpy-Copied dst src len mem apart = elim (Bool-cases (by_longs dst src len)) [
  | inl e ↦
      let all = longs_len dst src len e in
      rw e (
        same_block (dst + 4 * 0) (src + 4 * 0) (4 * (len / 4)) dst src len mem
          (longs_up (len / 4) 0 dst src mem) (omega arith) (omega arith) all
          (longs_up-Copied dst src (len / 4) 0 mem (longs_apart all apart)))
  | inr e ↦ rw e (
      same_block (dst + 0) (src + 0) len dst src len mem (chars_up len 0 dst src mem) (omega arith)
        (omega arith) refl (chars_up-Copied dst src len 0 mem (chars_apart apart)))
]
  where
    longs_apart :
        4 * (len / 4) ≡ len
        → (dst ≤ src) ⊎ (src + len ≤ dst)
        → (dst ≤ src) ⊎ (src + 4 * 0 + 4 * (len / 4) ≤ dst + 4 * 0)
    longs_apart all (inl le) = inl le
    longs_apart all (inr le) = inr (omega arith)

    chars_apart : (dst ≤ src) ⊎ (src + len ≤ dst) → (dst ≤ src) ⊎ (src + 0 + len ≤ dst + 0)
    chars_apart (inl le) = inl le
    chars_apart (inr le) = inr (omega arith)

-- memmove copies the block, however the two overlap: the bytes at the destination are those that were at
-- the source, and all others are as they were.
pub memmove-Copied :
    (dst src len : ℕ) (mem : Memory) → Copied dst src len mem (memmove dst src len mem)
unfolding memmove
memmove-Copied dst src len mem = elim (Bool-cases (ltb dst src)) [
  | inl below ↦ rw below (memcpy-Copied dst src len mem (inl (ground arith)))
  | inr above ↦
      let le : src ≤ dst = ground arith in
      elim (Bool-cases (by_longs dst src len)) [
        | inl e ↦
            rw (above, e)
              (same_block dst src (4 * (len / 4)) dst src len mem (longs_down (len / 4) dst src mem)
                refl refl (longs_len dst src len e) (longs_down-Copied dst src le (len / 4) mem))
        | inr e ↦ rw (above, e) (chars_down-Copied dst src le len mem)
      ]
]
