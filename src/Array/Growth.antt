-- ===== src/Array/Growth.antt =====
-- What array_add and the growth of an array keep.
use os161_testbed.Common.{
  ℕ, zero, suc, ◌+◌, ◌*◌, ◌/◌, ◌%◌, ◌^◌, ◌<◌, ◌≤◌, ◌≡◌, ◌⊎◌, refl, ap, ◌∙◌, sym, List, [], ◌∷◌,
  ◌++◌, Option, none, some, ltb, ◌==◌, length, take, drop, set, get_elem?-eq-get_or, arith, true,
  false, length-append, length-set, Bool-cases, inl, inr, enomem,
}
use os161_testbed.Common.Run.{done, fault, Ensures, returns, fails, bind}
use os161_testbed.Array.{
  Array, grow_loop, preallocate, setsize, add, with_max, replace, set_num, store_entry,
}
use os161_testbed.Array.Contents.{contents, IsArray, length-take, length-drop, take-append}

-- kmalloc gives a block of the size asked for.
abbrev pub Gives : (ℕ → Option (List ℕ)) → Type 0
Gives kmalloc = (bytes : ℕ) (block : List ℕ) → kmalloc bytes ≡ some block → length block ≡ bytes / 4

-- The size that the doubling reaches.
record Reached (num newmax : ℕ) (o : Option ℕ) : Type 0 where
  size : ℕ
  found : o ≡ some size
  enough : num ≤ size
  least : (size ≡ newmax) ⊎ (size ≤ 2 * num)

-- `n` doubled so many times
abbrev doubled : (times n : ℕ) → ℕ
doubled zero n = n
doubled (suc times) n = doubled times (n * 2)

grow_loop-Reached :
    (fuel num newmax : ℕ)
    → 0 < newmax
    → num ≤ doubled fuel newmax
    → num ≤ 2 ^ 31
    → Reached num newmax (grow_loop fuel num newmax)
unfolding grow_loop
grow_loop-Reached zero num newmax pos far small =
    let stop : ltb newmax num ≡ false = ground (arith, far) in
    rw stop (record { size = newmax; found = refl; enough = omega (arith, far); least = inl refl })
grow_loop-Reached (suc fuel) num newmax pos far small = elim (Bool-cases (ltb newmax num)) [
  | inr e ↦ rw e (record { size = newmax; found = refl; enough = ground arith; least = inl refl })
  | inl e ↦
      let more : (newmax == 0) ≡ false = ground arith in
      let below : newmax < num = ground arith in
      let fits : newmax * 2 % 2 ^ 32 ≡ newmax * 2 = omega arith in
      let r = grow_loop-Reached fuel num (newmax * 2) (omega arith) far small in
      rw (e, more, fits)
        (record {
          size = r.size;
          found = r.found;
          enough = r.enough;
          least = elim r.least [ inl s ↦ inr (omega (arith, s)) | inr s ↦ inr s ];
        })
]

grow_loop_four : (fuel num : ℕ) → 0 < num → grow_loop (suc fuel) num 0 ≡ grow_loop fuel num 4
unfolding grow_loop
grow_loop_four fuel num lt = let some' : ltb 0 num ≡ true = ground arith in rw some' refl

-- The size that an array is given when it must hold `num` entries and holds `max`.
grow_loop_first :
    (num max : ℕ)
    → max < num
    → num < 2 ^ 29
    → (size : ℕ) × (grow_loop 32 num max ≡ some size) × (num ≤ size) × (size < 2 ^ 30)
grow_loop_first num zero lt small =
    let r = grow_loop-Reached 31 num 4 (omega arith) (omega arith) (omega arith) in
    (
      r.size,
      grow_loop_four 31 num lt ∙ r.found,
      r.enough,
      elim r.least [ inl s ↦ omega (arith, s) | inr s ↦ omega (arith, s) ],
    )
grow_loop_first num (suc max) lt small =
    let r = grow_loop-Reached 32 num (suc max) (omega arith) (omega arith) (omega arith) in
    (
      r.size,
      r.found,
      r.enough,
      elim r.least [ inl s ↦ omega (arith, s) | inr s ↦ omega (arith, s) ],
    )

-- The allocation holds at least `num` entries, and those in use are as they were.
record Roomy (num : ℕ) (a b : Array) : Type 0 where
  same : contents b ≡ contents a
  count : b.num ≡ a.num
  room : num ≤ b.max
  array : IsArray b

module _ {kmalloc : ℕ → Option (List ℕ)} (gives : Gives kmalloc) {a : Array} (ok : IsArray a) where
  replaced :
      (num size : ℕ)
      → a.num ≤ size
      → num ≤ size
      → size < 2 ^ 30
      → Ensures
          (λ _ b. Roomy num a b)
          (λ e b. (e ≡ enomem) × (b ≡ a))
          (replace size (kmalloc (size * 4 % 2 ^ 32)) a)
  unfolding replace
  replaced num size old new small = go (kmalloc (size * 4 % 2 ^ 32)) refl
    where
      go :
          (o : Option (List ℕ))
          → kmalloc (size * 4 % 2 ^ 32) ≡ o
          → Ensures (λ _ b. Roomy num a b) (λ e b. (e ≡ enomem) × (b ≡ a)) (replace size o a)
      go none e = fails (refl, refl)
      go (some block) e =
          let long : length block ≡ size = omega (arith, gives (size * 4 % 2 ^ 32) block e) in
          let fits : ltb (length block) a.num ≡ false = ground (arith, long) in
          rw fits (
            returns (record {
              same = take-append a.num a.v (drop a.num block) (omega (arith, ok.sized, ok.fits));
              count = refl;
              room = new;
              array = record {
                sized =
                    length-append (take a.num a.v) (drop a.num block)
                    ∙ omega (
                      arith,
                      long,
                      length-take a.num a.v (omega (arith, ok.sized, ok.fits)),
                      length-drop a.num block (omega (arith, long, old)),
                    );
                fits = old;
              };
            }))

  preallocate-Roomy :
      (num : ℕ)
      → a.num ≤ num
      → num < 2 ^ 29
      → Ensures (λ _ b. Roomy num a b) (λ e b. (e ≡ enomem) × (b ≡ a)) (preallocate kmalloc num a)
  unfolding preallocate with_max
  preallocate-Roomy num old small = elim (Bool-cases (ltb a.max num)) [
    | inr e ↦ rw e (returns (record { same = refl; count = refl; room = ground arith; array = ok }))
    | inl e ↦
        let (size, found, enough, bound) = grow_loop_first num a.max (ground arith) small in
        rw (e, found) (replaced num size (omega (arith, enough)) enough bound)
  ]

  setsize-Roomy :
      (num : ℕ)
      → a.num ≤ num
      → num < 2 ^ 29
      → Ensures
          (λ _ b. (c : Array) × Roomy num a c × (b ≡ record c { num = num }))
          (λ e b. (e ≡ enomem) × (b ≡ a))
          (setsize kmalloc num a)
  unfolding setsize set_num
  setsize-Roomy num old small =
      bind (preallocate-Roomy num old small) (λ _ c h. returns (c, h, refl)) (λ _ _ bad. bad)

-- The entry stored behind those in use.
stored :
    (val : ℕ) (xs : List ℕ) (n : ℕ)
    → n < length xs
    → take (n + 1) (set xs n val) ≡ take n xs ++ val ∷ []
stored val [] n lt = absurd (omega arith)
stored val (x ∷ xs) zero lt = refl
stored val (x ∷ xs) (suc n) lt =
    let next : suc n + 1 ≡ suc (n + 1) = omega arith in
    rw next (ap (λ r. x ∷ r) (stored val xs n (omega arith)))

store_entry-eq-done :
    (c : Array) (index val : ℕ)
    → index < length c.v
    → store_entry index val c ≡ done index (record c { v = set c.v index val })
unfolding store_entry
store_entry-eq-done c index val lt =
    ap (λ o. elim o [ none ↦ fault | some _ ↦ done index (record c { v = set c.v index val }) ])
      (get_elem?-eq-get_or c.v index 0 lt)

-- array_add, where kmalloc gives blocks of the size asked for and the array has less than 2^29 - 1
-- entries: the value is the entry behind those in use, which stay in their order, and the answer is its
-- index. The call fails only with ENOMEM, and then changes nothing. It ends, and stays in its allocation.
pub add-contents :
    {kmalloc : ℕ → Option (List ℕ)} {a : Array} (val : ℕ)
    → Gives kmalloc
    → IsArray a
    → a.num + 1 < 2 ^ 29
    → Ensures
        (λ index b. (index ≡ a.num) × (contents b ≡ contents a ++ val ∷ []) × IsArray b)
        (λ e b. (e ≡ enomem) × (b ≡ a))
        (add kmalloc val a)
unfolding add
add-contents {kmalloc} {a} val gives ok small =
    let unwrapped : (a.num + 1) % 2 ^ 32 ≡ a.num + 1 = omega arith in
    rw unwrapped (
      bind (setsize-Roomy gives ok (a.num + 1) (omega arith) small)
        (λ _ b (c, h, e).
          rw
            (
              e,
              store_entry-eq-done (record c { num = a.num + 1 }) a.num val
                  (omega (arith, h.room, h.array.sized)),
            )
            (returns (
              refl,
              stored val c.v a.num (omega (arith, h.room, h.array.sized))
                  ∙ ap (λ xs. xs ++ val ∷ []) (ap (λ k. take k c.v) (sym h.count) ∙ h.same),
              record { sized = length-set c.v a.num val ∙ h.array.sized; fits = h.room },
            )))
        (λ e b bad. bad))
