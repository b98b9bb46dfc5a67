-- ===== src/Endian.antt =====
-- os161/kern/lib/bswap.c: byte order. `val & 0xff00` and a shift are the byte at that place times its new
-- place, and the bytes stand apart, so that `|` adds them. The machine is big-endian.
use os161_testbed.Common.{ℕ, ◌+◌, ◌*◌, ◌/◌, ◌%◌, ◌^◌, ◌<◌, ◌≡◌, arith}

-- byte `k` of a word, counted from the low end
abbrev pub byte : (k val : ℕ) → ℕ
byte k val = val / 2 ^ (8 * k) % 2 ^ 8

-- bswap16
unfoldable pub bswap16 : ℕ → ℕ
bswap16 val = byte 0 val * 2 ^ 8 + byte 1 val

-- bswap32
unfoldable pub bswap32 : ℕ → ℕ
bswap32 val = byte 0 val * 2 ^ 24 + byte 1 val * 2 ^ 16 + byte 2 val * 2 ^ 8 + byte 3 val

-- bswap64
unfoldable pub bswap64 : ℕ → ℕ
bswap64 val =
    byte 0 val * 2 ^ 56
    + byte 1 val * 2 ^ 48
    + byte 2 val * 2 ^ 40
    + byte 3 val * 2 ^ 32
    + byte 4 val * 2 ^ 24
    + byte 5 val * 2 ^ 16
    + byte 6 val * 2 ^ 8
    + byte 7 val

-- join32to64, big-endian
unfoldable pub join32to64 : (x1 x2 : ℕ) → ℕ
join32to64 x1 x2 = x1 * 2 ^ 32 % 2 ^ 64 + x2

-- split64to32, big-endian
unfoldable pub split64to32 : ℕ → ℕ × ℕ
split64to32 x = (x / 2 ^ 32 % 2 ^ 32, x % 2 ^ 32)

pairs : {a b c d : ℕ} → a ≡ c → b ≡ d → ◌≡◌ {A = ℕ × ℕ} (a, b) (c, d)
pairs p q = λ i. (p i, q i)

-- Swapping the bytes of a word of 16, 32 or 64 bits twice gives back the word.
pub bswap-bswap :
    (a b c : ℕ)
    → a < 2 ^ 16
    → b < 2 ^ 32
    → c < 2 ^ 64
    → (bswap16 (bswap16 a) ≡ a) × (bswap32 (bswap32 b) ≡ b) × (bswap64 (bswap64 c) ≡ c)
unfolding bswap16 bswap32 bswap64
bswap-bswap a b c ha hb hc = (omega arith, omega arith, omega arith)

-- Joining two halves and splitting the result gives back the halves, and the other way round.
pub split64to32-join32to64 :
    (x1 x2 x : ℕ)
    → x1 < 2 ^ 32
    → x2 < 2 ^ 32
    → x < 2 ^ 64
    → (◌≡◌ {A = ℕ × ℕ} (split64to32 (join32to64 x1 x2)) (x1, x2))
      × (join32to64 (split64to32 x).0 (split64to32 x).1 ≡ x)
unfolding split64to32 join32to64
split64to32-join32to64 x1 x2 x h1 h2 h = (pairs (omega arith) (omega arith), omega arith)
