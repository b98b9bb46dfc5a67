-- ===== src/Thread/List/Holds.antt =====
-- A store that holds a sequence of threads as a list, and what the operations of threadlist.c make of it.
use os161_testbed.Common.{
  ℕ, suc, ◌≡◌, ◌≢◌, refl, sym, ◌∙◌, ap, subst, false, ◌==◌, Option, none, some, List, [], ◌∷◌, ◌++◌,
  arith, update, length, length-append,
}
use os161_testbed.Common.Run.{done}
use os161_testbed.Thread.List.{
  Store, head_node, tail_node, listnode, insertafternode, insertbeforenode, removenode,
}
use os161_testbed.Thread.List.Chain.{
  Fwd, Bwd, Away, Distinct, last_of, first_of, Clear, update_self, twice_other, twice_first,
  twice_last, Bwd-Away, Away-last, Away-first,
}
use os161_testbed.Thread.List.Steps.{
  next_in, prev_in, next_out, prev_out, Fwd-next_in, Bwd-prev_in, Clear-out, Fwd-next_out,
  Bwd-prev_out,
}

abbrev pub nodes : List ℕ → List ℕ
nodes [] = []
nodes (t ∷ ts) = listnode t ∷ nodes ts

pub nodes-append : (us vs : List ℕ) → nodes (us ++ vs) ≡ nodes us ++ nodes vs
nodes-append [] vs = refl
nodes-append (u ∷ us) vs = ap (λ r. listnode u ∷ r) (nodes-append us vs)

-- Each thread's node points to it.
abbrev pub Selves : (ℕ → Option ℕ) → List ℕ → Type 0
Selves self [] = Unit
Selves self (t ∷ ts) = (self (listnode t) ≡ some t) × Selves self ts

-- List `tl` holds the threads `ts`, in order, each once; both chains of pointers agree.
pub record Holds (tl : ℕ) (ts : List ℕ) (s : Store) : Type 0 where
  pub fwd : Fwd s.next (head_node tl) (nodes ts) (tail_node tl)
  pub bwd : Bwd s.prev (head_node tl) (nodes ts) (tail_node tl)
  pub front : s.prev (head_node tl) ≡ none
  pub back : s.next (tail_node tl) ≡ none
  pub selves : Selves s.self ts
  pub distinct : Distinct (nodes ts)
  pub count : s.count tl ≡ length ts

-- Thread `t` is on no list.
pub record Detached (t : ℕ) (s : Store) : Type 0 where
  pub next : s.next (listnode t) ≡ none
  pub prev : s.prev (listnode t) ≡ none
  pub self : s.self (listnode t) ≡ some t

-- The stores after a node is linked in or out between `x` and `y`.
abbrev pub linked : (x n y : ℕ) → Store → Store
linked x n y s = record s { next = next_in s.next x n y; prev = prev_in s.prev x n y }

abbrev pub unlinked : (x n y : ℕ) → Store → Store
unlinked x n y s = record s { next = next_out s.next x n y; prev = prev_out s.prev x n y }

pub insertbeforenode-eq-done :
    (s : Store) (x t y : ℕ)
    → x ≢ listnode t
    → s.prev y ≡ some x
    → insertbeforenode t y s ≡ done tt (linked x (listnode t) y s)
unfolding insertbeforenode
insertbeforenode-eq-done s x t y ne e =
    rw (e, update_self s.prev (listnode t) (some x))
      (rw (twice_first s.next (listnode t) x (some y) (some (listnode t)) ne) refl)

pub insertafternode-eq-done :
    (s : Store) (x t y : ℕ)
    → x ≢ listnode t
    → s.next x ≡ some y
    → insertafternode x t s ≡ done tt (linked x (listnode t) y s)
unfolding insertafternode
insertafternode-eq-done s x t y ne e =
    rw (e, update_self s.prev (listnode t) (some x))
      (rw (twice_first s.next (listnode t) x (some y) (some (listnode t)) ne) refl)

pub removenode-eq-done :
    (s : Store) (x n y : ℕ)
    → x ≢ n
    → s.prev n ≡ some x
    → s.next n ≡ some y
    → removenode n s ≡ done tt (unlinked x n y s)
unfolding removenode
removenode-eq-done s x n y nx p q =
    let nx' : (x == n) ≡ false = ground arith in rw (p, q) (rw (nx', p) refl)

head-Away : (tl : ℕ) (ts : List ℕ) → Away (head_node tl) (nodes ts)
head-Away tl [] = tt
head-Away tl (t ∷ ts) = (λ e. omega arith, head-Away tl ts)

tail-Away : (tl : ℕ) (ts : List ℕ) → Away (tail_node tl) (nodes ts)
tail-Away tl [] = tt
tail-Away tl (t ∷ ts) = (λ e. omega arith, tail-Away tl ts)

Away-in : (x n : ℕ) (us vs : List ℕ) → x ≢ n → Away x (us ++ vs) → Away x (us ++ n ∷ vs)
Away-in x n [] vs ne h = (ne, h)
Away-in x n (u ∷ us) vs ne h = (h.0, Away-in x n us vs ne h.1)

Distinct-in :
    (n : ℕ) (us vs : List ℕ) → Distinct (us ++ vs) → Away n (us ++ vs) → Distinct (us ++ n ∷ vs)
Distinct-in n [] vs h away = (away, h)
Distinct-in n (u ∷ us) vs h away =
    (Away-in u n us vs (λ e. away.0 (sym e)) h.0, Distinct-in n us vs h.1 away.1)

Selves-in :
    (self : ℕ → Option ℕ) (t : ℕ) (us vs : List ℕ)
    → Selves self (us ++ vs)
    → self (listnode t) ≡ some t
    → Selves self (us ++ t ∷ vs)
Selves-in self t [] vs h e = (e, h)
Selves-in self t (u ∷ us) vs h e = (h.0, Selves-in self t us vs h.1 e)

pub Selves-out :
    (self : ℕ → Option ℕ) (t : ℕ) (us vs : List ℕ)
    → Selves self (us ++ t ∷ vs)
    → (self (listnode t) ≡ some t) × Selves self (us ++ vs)
Selves-out self t [] vs h = h
Selves-out self t (u ∷ us) vs h = let (e, r) = Selves-out self t us vs h.1 in (e, (h.0, r))

nodes-Clear :
    (tl : ℕ) (us vs : List ℕ)
    → Distinct (nodes (us ++ vs))
    → Clear (head_node tl) (nodes us ++ nodes vs) (tail_node tl)
nodes-Clear tl us vs h =
    subst (λ ns. Clear (head_node tl) ns (tail_node tl)) (nodes-append us vs)
      (record {
        from = head-Away tl (us ++ vs);
        to = tail-Away tl (us ++ vs);
        ends = λ e. omega arith;
        between = h;
      })

-- the nodes before and after the gap between two parts of a list
abbrev pub before : ℕ → List ℕ → ℕ
before tl us = last_of (head_node tl) (nodes us)

abbrev pub after : ℕ → List ℕ → ℕ
after tl vs = first_of (nodes vs) (tail_node tl)

module _ (tl t : ℕ) (us vs : List ℕ) {s : Store} where
  pub Detached-Away :
      Holds tl (us ++ vs) s → Detached t s → Away (listnode t) (nodes us ++ nodes vs)
  Detached-Away h d =
      subst (Away (listnode t)) (nodes-append us vs)
        (Bwd-Away s.prev (head_node tl) (tail_node tl) (listnode t) (nodes (us ++ vs)) h.bwd d.prev)

  -- Linking in a thread that is on no list.
  pub linked-Holds :
      Holds tl (us ++ vs) s
      → Detached t s
      → Holds tl (us ++ t ∷ vs) (record (linked (before tl us) (listnode t) (after tl vs) s) {
        count = update s.count tl (suc (length (us ++ vs)));
      })
  linked-Holds h d =
      let c = nodes-Clear tl us vs h.distinct in
      let away = Detached-Away h d in
      let back = sym (nodes-append us (t ∷ vs)) in
      record {
        fwd =
            subst
              (λ ns.
                Fwd (next_in s.next (before tl us) (listnode t) (after tl vs)) (head_node tl) ns
                  (tail_node tl))
              back
              (Fwd-next_in s.next (head_node tl) (tail_node tl) (listnode t) (nodes us) (nodes vs) c
                away (λ e. omega arith)
                (subst (λ ns. Fwd s.next (head_node tl) ns (tail_node tl)) (nodes-append us vs)
                  h.fwd));
        bwd =
            subst
              (λ ns.
                Bwd (prev_in s.prev (before tl us) (listnode t) (after tl vs)) (head_node tl) ns
                  (tail_node tl))
              back
              (Bwd-prev_in s.prev (head_node tl) (tail_node tl) (listnode t) (nodes us) (nodes vs) c
                away (λ e. omega arith)
                (subst (λ ns. Bwd s.prev (head_node tl) ns (tail_node tl)) (nodes-append us vs)
                  h.bwd));
        front =
            twice_other s.prev (listnode t) (after tl vs) (head_node tl) _ _ (λ e. omega arith)
              (λ e. Away-first (nodes vs) (head-Away tl vs) (λ e. omega arith) (sym e))
            ∙ h.front;
        back =
            twice_other s.next (listnode t) (before tl us) (tail_node tl) _ _ (λ e. omega arith)
              (λ e.
                Away-last (head_node tl) (nodes us) (λ e. omega arith) (tail-Away tl us) (sym e))
            ∙ h.back;
        selves = Selves-in s.self t us vs h.selves d.self;
        distinct = subst Distinct back (
            Distinct-in (listnode t) (nodes us) (nodes vs)
              (subst Distinct (nodes-append us vs) h.distinct) away);
        count =
            update_self s.count tl (suc (length (us ++ vs)))
            ∙ omega (arith, length-append us vs, length-append us (t ∷ vs));
      }

  -- Linking a thread out.
  pub unlinked-Holds :
      Holds tl (us ++ t ∷ vs) s
      → Holds tl (us ++ vs) (record (unlinked (before tl us) (listnode t) (after tl vs) s) {
        count = update s.count tl (length (us ++ vs));
      })
  unlinked-Holds h =
      let c = nodes-Clear tl us (t ∷ vs) h.distinct in
      let back = sym (nodes-append us vs) in
      let out = nodes-append us (t ∷ vs) in
      record {
        fwd =
            subst
              (λ ns.
                Fwd (next_out s.next (before tl us) (listnode t) (after tl vs)) (head_node tl) ns
                  (tail_node tl))
              back
              (Fwd-next_out s.next (head_node tl) (tail_node tl) (listnode t) (nodes us) (nodes vs)
                c (subst (λ ns. Fwd s.next (head_node tl) ns (tail_node tl)) out h.fwd));
        bwd =
            subst
              (λ ns.
                Bwd (prev_out s.prev (before tl us) (listnode t) (after tl vs)) (head_node tl) ns
                  (tail_node tl))
              back
              (Bwd-prev_out s.prev (head_node tl) (tail_node tl) (listnode t) (nodes us) (nodes vs)
                c (subst (λ ns. Bwd s.prev (head_node tl) ns (tail_node tl)) out h.bwd));
        front =
            twice_other s.prev (after tl vs) (listnode t) (head_node tl) _ _
              (λ e. Away-first (nodes vs) (head-Away tl vs) (λ e. omega arith) (sym e))
              (λ e. omega arith)
            ∙ h.front;
        back =
            twice_other s.next (before tl us) (listnode t) (tail_node tl) _ _
              (λ e.
                Away-last (head_node tl) (nodes us) (λ e. omega arith) (tail-Away tl us) (sym e))
              (λ e. omega arith)
            ∙ h.back;
        selves = (Selves-out s.self t us vs h.selves).1;
        distinct = subst Distinct back (
            Clear.between
              (Clear-out (head_node tl) (tail_node tl) (listnode t) (nodes us) (nodes vs) c));
        count = update_self s.count tl (length (us ++ vs));
      }

  -- A thread linked out is on no list.
  pub unlinked-Detached :
      Holds tl (us ++ t ∷ vs) s
      → Detached t (record (unlinked (before tl us) (listnode t) (after tl vs) s) {
        count = update s.count tl (length (us ++ vs));
      })
  unlinked-Detached h = record {
    next = twice_last s.next (before tl us) (listnode t) (some (after tl vs)) none;
    prev = twice_last s.prev (after tl vs) (listnode t) (some (before tl us)) none;
    self = (Selves-out s.self t us vs h.selves).0;
  }
