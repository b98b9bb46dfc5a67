-- ===== src/Tests/Bitmap.antt =====
-- A bitmap of ten bits, with bits 0 to 8 set: the second word also has its six spare bits set.
use os161_testbed.Common.{
  ℕ, zero, suc, ◌<◌, ◌≤◌, ◌≡◌, refl, true, ◌||◌, some, [], ◌∷◌, arith, get_or, ltb,
}
use os161_testbed.Common.Bits.{test, all_below, all_below_sound}
use os161_testbed.Common.Run.{done, fail, Ensures}
use os161_testbed.Bitmap.{Bitmap, create, load, store, alloc, mark}
use os161_testbed.Bitmap.Wf.{bit, IsValid}
use os161_testbed.Bitmap.Alloc.{Lowest, NoneLeft, alloc-Lowest}
use os161_testbed.Bitmap.Create.{Created, create-Fresh}

abbrev ten : Bitmap
ten = record { nbits = 10; v = 255 ∷ 253 ∷ [] }

ten-IsValid : IsValid ten
unfolding bit test all_below
ten-IsValid = record { small = omega arith; sized = refl; bytes = ten_bytes; over = ten_over }
  where
    ten_bytes : (k : ℕ) → get_or (255 ∷ 253 ∷ []) k 0 < 256
    ten_bytes zero = omega arith
    ten_bytes (suc zero) = omega arith
    ten_bytes (suc (suc k)) = omega arith

    ten_over : (i : ℕ) → 10 ≤ i → i < 16 → bit ten i ≡ true
    ten_over i lo hi =
        let h = all_below_sound 16 (λ i. ltb i 10 || bit ten i) i refl hi in ground arith

alloc_run : alloc ten ≡ done 9 (record { nbits = 10; v = 255 ∷ 255 ∷ [] })
unfolding alloc
alloc_run = refl

alloc_full :
    alloc (record { nbits = 10; v = 255 ∷ 255 ∷ [] })
    ≡ fail 36 (record { nbits = 10; v = 255 ∷ 255 ∷ [] })
unfolding alloc
alloc_full = refl

mark_run : mark 9 ten ≡ done tt (record { nbits = 10; v = 255 ∷ 255 ∷ [] })
unfolding mark
mark_run = refl

create_run : create 10 true true ≡ some (done tt (record { nbits = 10; v = 0 ∷ 252 ∷ [] }))
unfolding create load store
create_run = refl

alloc-Lowest_example : Ensures (Lowest ten) (NoneLeft ten) (alloc ten)
alloc-Lowest_example = alloc-Lowest ten-IsValid

create-Fresh_example : Created 10 (create 10 true true)
create-Fresh_example = create-Fresh 10 (omega arith)
