-- ===== src/Tests/Array.antt =====
-- An array of three entries in an allocation of four.
use os161_testbed.Common.{
  ◌≡◌, refl, arith, [], ◌∷◌, ◌++◌, take, drop, none, some, ℕ, ◌/◌, List, Option, replicate, ap, sym,
  ◌∙◌, length, length-replicate, enomem,
}
use os161_testbed.Common.Run.{done, Ensures}
use os161_testbed.Array.{Array, remove_at, add, empty, setsize, preallocate, grow_loop}
use os161_testbed.Array.Growth.{Gives, add-contents}
use os161_testbed.Array.Contents.{contents, IsArray, remove_at-contents}

abbrev three : Array
three = record { v = 5 ∷ 6 ∷ 7 ∷ 0 ∷ []; num = 3; max = 4 }

three-IsArray : IsArray three
three-IsArray = record { sized = refl; fits = omega arith }

add_run : add (λ _. none) 8 three ≡ done 3 (record { v = 5 ∷ 6 ∷ 7 ∷ 8 ∷ []; num = 4; max = 4 })
unfolding add setsize preallocate
add_run = refl

add_first :
    add (λ _. some (1 ∷ 1 ∷ 1 ∷ 1 ∷ [])) 8 empty
    ≡ done 0 (record { v = 8 ∷ 1 ∷ 1 ∷ 1 ∷ []; num = 1; max = 4 })
unfolding add setsize preallocate grow_loop
add_first = refl

remove_at-contents_example :
    Ensures
      (λ _ b. (contents b ≡ take 1 (contents three) ++ drop 2 (contents three)) × IsArray b)
      (λ _ _. ⊥)
      (remove_at 1 three)
remove_at-contents_example = remove_at-contents 1 three-IsArray (omega arith)

-- an allocator that never fails
abbrev zeros : ℕ → Option (List ℕ)
zeros bytes = some (replicate (bytes / 4) 0)

zeros-Gives : Gives zeros
zeros-Gives bytes block e =
    ap (λ o. elim o [ none ↦ 0 | some b ↦ length b ]) (sym e)
    ∙ length-replicate {A = ℕ} (bytes / 4) 0

add-contents_example :
    Ensures
      (λ index b. (index ≡ three.num) × (contents b ≡ contents three ++ 8 ∷ []) × IsArray b)
      (λ e b. (e ≡ enomem) × (b ≡ three))
      (add zeros 8 three)
add-contents_example = add-contents {kmalloc = zeros} 8 zeros-Gives three-IsArray (omega arith)
