-- ===== src/Tests/Libc.antt =====
-- Memory with the strings "ab" at 10 and "ac" at 20, and blocks that overlap.
use os161_testbed.Common.{
  ℕ, ◌<◌, ◌≡◌, ◌⊎◌, ◌↔◌, inl, refl, some, List, [], ◌∷◌, ◌++◌, update, arith,
}
use os161_testbed.Libc.{Memory, memmove, strcat, strcmp, nought}
use os161_testbed.Libc.Copied.{Copied}
use os161_testbed.Libc.Blocks.{memmove-Copied}
use os161_testbed.Libc.Strings.{IsString, strcat-IsString}
use os161_testbed.Libc.Order.{order, strcmp-order}

abbrev two_strings : Memory
two_strings = update (update (update (update (λ a. 0) 10 97) 11 98) 20 97) 21 99

abbrev ab : List ℕ
ab = 97 ∷ 98 ∷ []

abbrev ac : List ℕ
ac = 97 ∷ 99 ∷ []

ab-IsString : IsString two_strings 10 ab
ab-IsString = (refl, (λ e. absurd (omega arith)), (refl, (λ e. absurd (omega arith)), refl))

ac-IsString : IsString two_strings 20 ac
ac-IsString = (refl, (λ e. absurd (omega arith)), (refl, (λ e. absurd (omega arith)), refl))

memmove_run : memmove 4 0 8 (λ a. a) 8 ≡ 4
unfolding memmove
memmove_run = refl

memmove-Copied_example : Copied 2 0 4 (λ a. a) (memmove 2 0 4 (λ a. a))
memmove-Copied_example = memmove-Copied 2 0 4 (λ a. a)

strcmp-order_example :
    (strcmp 3 0 10 20 two_strings ≡ some (order ab ac)) × ((order ab ac ≡ nought) ↔ (ab ≡ ac))
strcmp-order_example = strcmp-order 3 10 20 two_strings ab ac (omega arith) ab-IsString ac-IsString

strcat-IsString_example :
    (mem' : Memory) × (strcat 3 10 20 two_strings ≡ some mem')
    × IsString mem' 10 (ab ++ ac)
    × ((a : ℕ) → (a < 12) ⊎ (14 < a) → mem' a ≡ two_strings a)
strcat-IsString_example =
    strcat-IsString 3 10 20 two_strings ab ac (omega arith) (omega arith) (inl (omega arith))
      ab-IsString ac-IsString
