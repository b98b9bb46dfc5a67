-- ===== src/Common/Words.antt =====
-- 32-bit words in a buffer of bytes, most significant byte first, as the machine stores them.
use Prim.Native.Nat.{ℕ, zero, suc, ◌+◌, ◌*◌, ◌/◌, ◌%◌, ◌^◌, ◌<◌}
use mathlib.Core.Path.{◌≡◌, refl, ap}
use mathlib.Core.Logic.{◌≢◌}
use mathlib.Core.List.{List, [], ◌∷◌}
use native.Mathlib.Omega.{arith}
use os161_testbed.Common.Lists.{length, replicate}

-- `idbuf[j]`; past the end of the buffer it is 0
abbrev pub get_word : List ℕ → ℕ → ℕ
get_word (a ∷ b ∷ c ∷ d ∷ r) zero = ((a * 256 + b) * 256 + c) * 256 + d
get_word (a ∷ b ∷ c ∷ d ∷ r) (suc j) = get_word r j
get_word _ j = 0

-- `idbuf[j] = w`
abbrev pub set_word : List ℕ → ℕ → ℕ → List ℕ
set_word (a ∷ b ∷ c ∷ d ∷ r) zero w =
    (w / 2 ^ 24 % 256) ∷ (w / 2 ^ 16 % 256) ∷ (w / 2 ^ 8 % 256) ∷ (w % 256) ∷ r
set_word (a ∷ b ∷ c ∷ d ∷ r) (suc j) w = a ∷ b ∷ c ∷ d ∷ set_word r j w
set_word xs j w = xs

pub length-set_word : (xs : List ℕ) (j w : ℕ) → length (set_word xs j w) ≡ length xs
length-set_word [] j w = refl
length-set_word (a ∷ []) j w = refl
length-set_word (a ∷ b ∷ []) j w = refl
length-set_word (a ∷ b ∷ c ∷ []) j w = refl
length-set_word (a ∷ b ∷ c ∷ d ∷ r) zero w = refl
length-set_word (a ∷ b ∷ c ∷ d ∷ r) (suc j) w = omega (arith, length-set_word r j w)

pub get_word-set_word_self :
    (xs : List ℕ) (j w : ℕ) → 4 * j + 3 < length xs → w < 2 ^ 32 → get_word (set_word xs j w) j ≡ w
get_word-set_word_self [] j w h small = absurd (omega arith)
get_word-set_word_self (a ∷ []) j w h small = absurd (omega arith)
get_word-set_word_self (a ∷ b ∷ []) j w h small = absurd (omega arith)
get_word-set_word_self (a ∷ b ∷ c ∷ []) j w h small = absurd (omega arith)
get_word-set_word_self (a ∷ b ∷ c ∷ d ∷ r) zero w h small = omega arith
get_word-set_word_self (a ∷ b ∷ c ∷ d ∷ r) (suc j) w h small =
    get_word-set_word_self r j w (omega arith) small

pub get_word-set_word_ne :
    (xs : List ℕ) (i j w : ℕ) → i ≢ j → get_word (set_word xs i w) j ≡ get_word xs j
get_word-set_word_ne [] i j w h = refl
get_word-set_word_ne (a ∷ []) i j w h = refl
get_word-set_word_ne (a ∷ b ∷ []) i j w h = refl
get_word-set_word_ne (a ∷ b ∷ c ∷ []) i j w h = refl
get_word-set_word_ne (a ∷ b ∷ c ∷ d ∷ r) zero zero w h = absurd (h refl)
get_word-set_word_ne (a ∷ b ∷ c ∷ d ∷ r) zero (suc j) w h = refl
get_word-set_word_ne (a ∷ b ∷ c ∷ d ∷ r) (suc i) zero w h = refl
get_word-set_word_ne (a ∷ b ∷ c ∷ d ∷ r) (suc i) (suc j) w h =
    get_word-set_word_ne r i j w (λ e. h (ap suc e))

pub get_word-replicate : (n j : ℕ) → get_word (replicate n 0) j ≡ 0
get_word-replicate zero j = refl
get_word-replicate (suc zero) j = refl
get_word-replicate (suc (suc zero)) j = refl
get_word-replicate (suc (suc (suc zero))) j = refl
get_word-replicate (suc (suc (suc (suc n)))) zero = refl
get_word-replicate (suc (suc (suc (suc n)))) (suc j) = get_word-replicate n j
