-- ===== src/Thread/List/Ops.antt =====
-- The operations of threadlist.c on a list that holds a sequence of threads.
use os161_testbed.Common.{
  ℕ, suc, ◌+◌, ◌-◌, ◌%◌, ◌^◌, ◌<◌, ◌≡◌, ◌≢◌, refl, sym, ◌∙◌, subst, Option, none, some, List, [],
  ◌∷◌, ◌++◌, arith, update, length, length-append,
}
use mathlib.Core.List.{append-nil, append_assoc}
use os161_testbed.Common.Run.{done, Ensures, returns}
use os161_testbed.Thread.List.{
  Store, head_node, tail_node, listnode, addhead, addtail, remhead, remtail, remove, take_node,
  insertafter, init,
}
use os161_testbed.Thread.List.Chain.{
  Fwd, Bwd, Away, Distinct, Away-append, last_of, Fwd-first, Fwd-mid, Bwd-mid, Bwd-last, Away-last,
}
use os161_testbed.Thread.List.Holds.{
  nodes, nodes-append, Holds, Detached, Detached-Away, before, after, linked, unlinked,
  linked-Holds, unlinked-Holds, unlinked-Detached, Selves-out, insertafternode-eq-done,
  insertbeforenode-eq-done, removenode-eq-done,
}

count_up-eq : (n m : ℕ) → n ≡ m → m + 1 < 2 ^ 32 → (n + 1) % 2 ^ 32 ≡ suc m
count_up-eq n m e h = omega (arith, e)

count_down-eq : (n m : ℕ) → n ≡ suc m → m + 1 < 2 ^ 32 → (n + 2 ^ 32 - 1) % 2 ^ 32 ≡ m
count_down-eq n m e h = omega (arith, e)

-- threadlist_addhead puts a thread that is on no list in front of the others, if the count has room.
pub addhead-Holds :
    {s : Store} (tl t : ℕ) (ts : List ℕ)
    → Holds tl ts s
    → Detached t s
    → length ts + 1 < 2 ^ 32
    → Ensures (λ _ u. Holds tl (t ∷ ts) u) (λ _ _. ⊥) (addhead tl t s)
unfolding addhead
addhead-Holds {s} tl t ts h d room =
    rw
      (insertafternode-eq-done s (head_node tl) t (after tl ts) (λ e. omega arith)
        (Fwd-first s.next (head_node tl) (tail_node tl) (nodes ts) h.fwd))
      (rw (count_up-eq _ (length ts) h.count room) (returns (linked-Holds tl t [] ts h d)))

-- What threadlist_remhead answers and leaves: the first thread, which is then on no list, with the
-- others left in order; or NULL on an empty list, which stays as it is.
abbrev pub Taken : (tl : ℕ) → List ℕ → Store → Option ℕ → Store → Type 0
Taken tl [] s r u = (r ≡ none) × (u ≡ s)
Taken tl (t ∷ ts) s r u = (r ≡ some t) × Detached t u × Holds tl ts u

module _ (tl t : ℕ) (us vs : List ℕ) {s : Store} (h : Holds tl (us ++ t ∷ vs) s) where
  next_mid : s.next (listnode t) ≡ some (after tl vs)
  next_mid =
      Fwd-mid s.next (head_node tl) (tail_node tl) (listnode t) (nodes us) (nodes vs)
        (subst (λ ns. Fwd s.next (head_node tl) ns (tail_node tl)) (nodes-append us (t ∷ vs)) h.fwd)

  prev_mid : s.prev (listnode t) ≡ some (before tl us)
  prev_mid =
      Bwd-mid s.prev (head_node tl) (tail_node tl) (listnode t) (nodes us) (nodes vs)
        (subst (λ ns. Bwd s.prev (head_node tl) ns (tail_node tl)) (nodes-append us (t ∷ vs)) h.bwd)

  head_room : before tl us ≢ listnode t
  head_room e =
      Away-last (head_node tl) (nodes us) (λ e. omega arith)
        (Distinct-mid (listnode t) (nodes us) (nodes vs)
          (subst Distinct (nodes-append us (t ∷ vs)) h.distinct))
        (sym e)
    where
      Distinct-mid : (n : ℕ) (us vs : List ℕ) → Distinct (us ++ n ∷ vs) → Away n us
      Distinct-mid n [] vs d = tt
      Distinct-mid n (u ∷ us) vs d =
          (λ e. (Away-append u us (n ∷ vs) d.0).1.0 (sym e), Distinct-mid n us vs d.1)

  -- the store after `t` is taken out
  abbrev taken : Store
  taken = record (unlinked (before tl us) (listnode t) (after tl vs) s) {
    count = update s.count tl (length (us ++ vs));
  }

  module _ (room : length (us ++ vs) + 1 < 2 ^ 32) where
    count_taken : (s.count tl + 2 ^ 32 - 1) % 2 ^ 32 ≡ length (us ++ vs)
    count_taken =
        count_down-eq _ (length (us ++ vs))
          (h.count ∙ omega (arith, length-append us vs, length-append us (t ∷ vs))) room

    take_node-eq-done : take_node tl (listnode t) s ≡ done (some t) taken
    unfolding take_node
    take_node-eq-done =
        rw
          (removenode-eq-done s (before tl us) (listnode t) (after tl vs) head_room prev_mid
            next_mid)
          (rw (count_taken, (Selves-out s.self t us vs h.selves).0) refl)

    -- threadlist_remove of a thread on the list leaves it on no list, and the others in order.
    pub remove-Holds :
        Ensures (λ _ u. Detached t u × Holds tl (us ++ vs) u) (λ _ _. ⊥) (remove tl t s)
    unfolding remove
    remove-Holds =
        rw
          (removenode-eq-done s (before tl us) (listnode t) (after tl vs) head_room prev_mid
            next_mid)
          (rw count_taken (returns (unlinked-Detached tl t us vs h, unlinked-Holds tl t us vs h)))

-- threadlist_remhead answers the first thread of a list, which is then on no list, and leaves the others
-- in order; on an empty list it answers NULL and changes nothing. The count must not have wrapped.
pub remhead-Taken :
    {s : Store} (tl : ℕ) (ts : List ℕ)
    → Holds tl ts s
    → length ts < 2 ^ 32
    → Ensures (Taken tl ts s) (λ _ _. ⊥) (remhead tl s)
unfolding remhead
remhead-Taken {s} tl [] h room = rw (h.fwd) (rw (h.back) (returns (refl, refl)))
remhead-Taken {s} tl (t ∷ ts) h room = rw (h.fwd.0) (
    rw (next_mid tl t [] ts h) (
      rw (take_node-eq-done tl t [] ts h (omega arith))
        (returns (refl, unlinked-Detached tl t [] ts h, unlinked-Holds tl t [] ts h))))

-- A thread on no list is not the node before any gap.
before_ne :
    {s : Store} (tl t : ℕ) (us vs : List ℕ)
    → Holds tl (us ++ vs) s
    → Detached t s
    → before tl us ≢ listnode t
before_ne tl t us vs h d e =
    Away-last (head_node tl) (nodes us) (λ e. omega arith)
      (Away-append (listnode t) (nodes us) (nodes vs) (Detached-Away tl t us vs h d)).0 (sym e)

-- threadlist_addtail puts a thread that is on no list behind the others, if the count has room.
pub addtail-Holds :
    {s : Store} (tl t : ℕ) (ts : List ℕ)
    → Holds tl ts s
    → Detached t s
    → length ts + 1 < 2 ^ 32
    → Ensures (λ _ u. Holds tl (ts ++ t ∷ []) u) (λ _ _. ⊥) (addtail tl t s)
unfolding addtail
addtail-Holds {s} tl t ts h d room =
    let h' : Holds tl (ts ++ []) s = subst (λ r. Holds tl r s) (sym (append-nil ts)) h in
    rw
      (insertbeforenode-eq-done s (before tl ts) t (tail_node tl) (before_ne tl t ts [] h' d)
        (Bwd-last s.prev (head_node tl) (tail_node tl) (nodes ts) h.bwd))
      (rw (count_up-eq _ (length (ts ++ [])) h'.count (omega (arith, length-append ts [])))
        (returns (linked-Holds tl t ts [] h' d)))

Bwd-snoc : (g : ℕ → Option ℕ) (p q n : ℕ) (us : List ℕ) → Bwd g p (us ++ n ∷ []) q → g q ≡ some n
Bwd-snoc g p q n [] h = h.1
Bwd-snoc g p q n (u ∷ us) h = Bwd-snoc g u q n us h.1

-- threadlist_remtail answers the last thread of a list that has one, which is then on no list, and
-- leaves the others in order. The count must not have wrapped.
pub remtail-Holds :
    {s : Store} (tl t : ℕ) (ts : List ℕ)
    → Holds tl (ts ++ t ∷ []) s
    → length ts + 1 < 2 ^ 32
    → Ensures (λ r u. (r ≡ some t) × Detached t u × Holds tl ts u) (λ _ _. ⊥) (remtail tl s)
unfolding remtail
remtail-Holds {s} tl t ts h room =
    let chain =
      subst (λ ns. Bwd s.prev (head_node tl) ns (tail_node tl)) (nodes-append ts (t ∷ [])) h.bwd in
    rw (Bwd-snoc s.prev (head_node tl) (tail_node tl) (listnode t) (nodes ts) chain) (
      rw (prev_mid tl t ts [] h) (
        rw (take_node-eq-done tl t ts [] h (omega (arith, length-append ts []))) (
          returns (
            refl,
            unlinked-Detached tl t ts [] h,
            subst (λ r. Holds tl r (taken tl t ts [] h)) (append-nil ts)
                (unlinked-Holds tl t ts [] h),
          ))))

before-snoc : (tl x : ℕ) (us : List ℕ) → before tl (us ++ x ∷ []) ≡ listnode x
before-snoc tl x us = go (head_node tl) us
  where
    go : (p : ℕ) (us : List ℕ) → last_of p (nodes (us ++ x ∷ [])) ≡ listnode x
    go p [] = refl
    go p (u ∷ us) = go (listnode u) us

-- threadlist_insertafter puts a thread that is on no list behind a thread on the list, if the count has
-- room.
pub insertafter-Holds :
    {s : Store} (tl x t : ℕ) (us vs : List ℕ)
    → Holds tl (us ++ x ∷ vs) s
    → Detached t s
    → length (us ++ x ∷ vs) + 1 < 2 ^ 32
    → Ensures (λ _ u. Holds tl (us ++ x ∷ t ∷ vs) u) (λ _ _. ⊥) (insertafter tl x t s)
unfolding insertafter
insertafter-Holds {s} tl x t us vs h d room =
    let assoc = append_assoc us (x ∷ []) vs in
    let h' : Holds tl ((us ++ x ∷ []) ++ vs) s = subst (λ r. Holds tl r s) (sym assoc) h in
    let snoc = before-snoc tl x us in
    let new : Store = record (linked (before tl (us ++ x ∷ [])) (listnode t) (after tl vs) s) {
      count = update s.count tl (suc (length ((us ++ x ∷ []) ++ vs)));
    } in
    let in_place =
      subst (λ r. Holds tl r new) (append_assoc us (x ∷ []) (t ∷ vs))
        (linked-Holds tl t (us ++ x ∷ []) vs h' d) in
    let ne : listnode x ≢ listnode t =
      subst (λ n. n ≢ listnode t) snoc (before_ne tl t (us ++ x ∷ []) vs h' d) in
    rw (insertafternode-eq-done s (listnode x) t (after tl vs) ne (next_mid tl x us vs h)) (
      rw (count_up-eq _ (length (us ++ x ∷ vs)) h.count room)
        (returns (rw (snoc, assoc) at in_place)))

-- threadlist_init makes a list of no threads, whatever was there.
pub init-Holds : (s : Store) (tl : ℕ) → Ensures (λ _ u. Holds tl [] u) (λ _ _. ⊥) (init tl s)
unfolding init
init-Holds s tl = returns (record {
  fwd = ground arith;
  bwd = ground arith;
  front = ground arith;
  back = ground arith;
  selves = tt;
  distinct = tt;
  count = ground arith;
})
