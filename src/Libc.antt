-- ===== src/Libc.antt =====
-- os161/common/libc/string: the functions on blocks of memory and on strings. Memory is the byte at each
-- address, from 0 to 255, and a block does not pass the top of memory. A `long` has four bytes. A loop over a string
-- takes fuel; `none` means that it ran out.
pub mod Copied
pub mod Blocks
pub mod Strings
pub mod Order
use os161_testbed.Common.{
  ℕ, zero, suc, ◌+◌, ◌*◌, ◌/◌, ◌%◌, Bool, true, false, ◌&&◌, Option, none, some, ltb, ◌==◌, ◌/=◌,
  if◌then◌else◌, update,
}

abbrev pub Memory : Type 0
Memory = ℕ → ℕ

-- d[i] = s[i] for `char`, at the addresses of the elements
abbrev pub copy_char : (d s : ℕ) → Memory → Memory
copy_char d s mem = update mem d (mem s)

-- the same for `long`
pub copy_long : (d s : ℕ) → Memory → Memory
copy_long d s mem =
    update (update (update (update mem d (mem s)) (d + 1) (mem (s + 1))) (d + 2) (mem (s + 2)))
      (d + 3) (mem (s + 3))

-- for (i=0; i<len; i++), with the rounds left
pub chars_up : (rounds i dst src : ℕ) → Memory → Memory
chars_up zero i dst src mem = mem
chars_up (suc n) i dst src mem = chars_up n (i + 1) dst src (copy_char (dst + i) (src + i) mem)

pub longs_up : (rounds i dst src : ℕ) → Memory → Memory
longs_up zero i dst src mem = mem
longs_up (suc n) i dst src mem =
    longs_up n (i + 1) dst src (copy_long (dst + 4 * i) (src + 4 * i) mem)

-- for (i=len; i>0; i--), element i-1
pub chars_down : (i dst src : ℕ) → Memory → Memory
chars_down zero dst src mem = mem
chars_down (suc i) dst src mem = chars_down i dst src (copy_char (dst + i) (src + i) mem)

pub longs_down : (i dst src : ℕ) → Memory → Memory
longs_down zero dst src mem = mem
longs_down (suc i) dst src mem = longs_down i dst src (copy_long (dst + 4 * i) (src + 4 * i) mem)

-- Can the blocks be copied by words?
abbrev pub by_longs : (dst src len : ℕ) → Bool
by_longs dst src len = dst % 4 == 0 && src % 4 == 0 && len % 4 == 0

unfoldable pub memcpy : (dst src len : ℕ) → Memory → Memory
unfolding copy_long chars_up longs_up
memcpy dst src len mem =
    if by_longs dst src len then longs_up (len / 4) 0 dst src mem else chars_up len 0 dst src mem

unfoldable pub memmove : (dst src len : ℕ) → Memory → Memory
unfolding copy_long chars_down longs_down
memmove dst src len mem =
    if ltb dst src
    then memcpy dst src len mem
    else if by_longs dst src len
    then longs_down (len / 4) dst src mem
    else chars_down len dst src mem

-- while (str[ret]) ret++;
unfoldable pub strlen : (fuel ret str : ℕ) → Memory → Option ℕ
strlen zero ret str mem = none
strlen (suc fuel) ret str mem =
    let rest = strlen fuel (ret + 1) str mem in if mem (str + ret) /= 0 then rest else some ret

-- for (i=0; src[i]; i++) dest[i] = src[i]; and the NUL
unfoldable pub strcpy : (fuel i dest src : ℕ) → Memory → Option Memory
strcpy zero i dest src mem = none
strcpy (suc fuel) i dest src mem =
    let rest = strcpy fuel (i + 1) dest src (update mem (dest + i) (mem (src + i))) in
    if mem (src + i) /= 0 then rest else some (update mem (dest + i) 0)

unfoldable pub strcat : (fuel dest src : ℕ) → Memory → Option Memory
strcat fuel dest src mem = elim (strlen fuel 0 dest mem) [
  | none ↦ none
  | some offset ↦ strcpy fuel 0 (dest + offset) src mem
]

-- what strcmp answers: -1, 0 or 1
pub data Sign : Type 0 where
  minus_one : Sign
  nought : Sign
  one : Sign

-- the end of strcmp, at the first character of difference
pub sign : (a b : ℕ) → Sign
sign a b = if ltb b a then one else if a == b then nought else minus_one

-- for (i=0; a[i]!=0 && a[i]==b[i]; i++)
unfoldable pub strcmp : (fuel i a b : ℕ) → Memory → Option Sign
unfolding sign
strcmp zero i a b mem = none
strcmp (suc fuel) i a b mem =
    let rest = strcmp fuel (i + 1) a b mem in
    if mem (a + i) /= 0 && mem (a + i) == mem (b + i)
    then rest
    else some (sign (mem (a + i)) (mem (b + i)))
