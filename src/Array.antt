-- ===== src/Array.antt =====
-- os161/kern/lib/array.c and os161/kern/include/array.h: growable arrays of pointers. `v` is the whole
-- allocation. kmalloc is an argument: from a size in bytes to the entries of a block, or `none` where it
-- fails. An entry is 4 bytes.
pub mod Contents
pub mod Growth
use os161_testbed.Common.{
  ℕ, zero, suc, ◌+◌, ◌-◌, ◌*◌, ◌%◌, ◌^◌, Bool, true, false, List, [], ◌++◌, Option, none, some, ltb,
  leb, ◌==◌, if◌then◌else◌, length, take, drop, set, get_elem?, enomem,
}
use os161_testbed.Common.Run.{
  Run, done, fail, panic, fault, stuck, Cmd, ◌>>=◌, ◌>>◌, and_then, kassert,
}

pub record Array : Type 0 where
  pub v : List ℕ
  pub num : ℕ
  pub max : ℕ

-- array_init
abbrev pub empty : Array
empty = record { v = []; num = 0; max = 0 }

-- array_get, with its assertion
unfoldable pub get : (index : ℕ) → Cmd Array ℕ
get index a =
    if ltb index a.num
    then elim (get_elem? a.v index) [ none ↦ fault | some x ↦ done x a ]
    else panic

-- while (num > newmax) newmax = newmax ? newmax*2 : 4; the answer is none if the rounds run out
unfoldable pub grow_loop : ℕ → (num newmax : ℕ) → Option ℕ
grow_loop zero num newmax = if ltb newmax num then none else some newmax
grow_loop (suc fuel) num newmax =
    let rest = grow_loop fuel num (if newmax == 0 then 4 else newmax * 2 % 2 ^ 32) in
    if ltb newmax num then rest else some newmax

-- the new block, with the old entries at its start
replace : (newmax : ℕ) → Option (List ℕ) → Cmd Array (Unit {0})
replace newmax none a = fail enomem a
replace newmax (some block) a =
    if ltb (length block) a.num
    then fault
    else done tt (record a { v = take a.num a.v ++ drop a.num block; max = newmax })

with_max : Option ℕ → (ℕ → Option (List ℕ)) → Cmd Array (Unit {0})
with_max none kmalloc a = stuck
with_max (some newmax) kmalloc a = replace newmax (kmalloc (newmax * 4 % 2 ^ 32)) a

-- array_preallocate. 32 rounds reach every size up to 2^31; past it the source doubles for ever.
unfoldable pub preallocate : (ℕ → Option (List ℕ)) → (num : ℕ) → Cmd Array (Unit {0})
unfolding replace with_max
preallocate kmalloc num a =
    if ltb a.max num then with_max (grow_loop 32 num a.max) kmalloc a else done tt a

set_num : ℕ → Cmd Array (Unit {0})
set_num num a = done tt (record a { num = num })

-- array_setsize
unfoldable pub setsize : (ℕ → Option (List ℕ)) → (num : ℕ) → Cmd Array (Unit {0})
unfolding set_num
setsize kmalloc num = do preallocate kmalloc num; set_num num

store_entry : (index val : ℕ) → Cmd Array ℕ
store_entry index val a = elim (get_elem? a.v index) [
  | none ↦ fault
  | some _ ↦ done index (record a { v = set a.v index val })
]

-- array_add; the answer is `*index_ret`
unfoldable pub add : (ℕ → Option (List ℕ)) → (val : ℕ) → Cmd Array ℕ
unfolding store_entry
add kmalloc val a = (do setsize kmalloc ((a.num + 1) % 2 ^ 32); store_entry a.num val) a

-- array_set, with its assertion
unfoldable pub set_entry : (index val : ℕ) → Cmd Array (Unit {0})
unfolding store_entry
set_entry index val a = if ltb index a.num then (do store_entry index val; done tt) a else panic

-- array_remove: memmove of the entries after `index`
unfoldable pub remove_at : (index : ℕ) → Cmd Array (Unit {0})
remove_at index a =
    let num_to_move = a.num - (index + 1) in
    (do
      kassert (leb a.num a.max)
      kassert (ltb index a.num)
      λ a. done tt (record a {
        v =
            take index a.v
            ++ (take num_to_move (drop (index + 1) a.v) ++ drop (index + num_to_move) a.v);
        num = a.num - 1;
      }))
      a
