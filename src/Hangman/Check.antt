-- ===== src/Hangman/Check.antt =====
-- hangman_check finds a path to its target exactly when there is one, and its loop ends.
use os161_testbed.Common.{
  ℕ, zero, suc, ◌<◌, Option, none, some, ◌≡◌, sym, ◌∙◌, arith, ◌==◌, Option-cases, Bool-cases, inl,
  inr, true, false, ==_iff, subst,
}
use os161_testbed.Hangman.{State, Verdict, clear, found, out_of_fuel, walk, check}
use os161_testbed.Hangman.Graph.{
  Reach, here, via, Ends, last, step, depth, next, some-eq, none-some, NoCycle,
}

-- from an actor that may be none
abbrev pub Leads : State → ℕ → Option ℕ → Type 0
Leads s target none = ⊥
Leads s target (some c) = Reach s target c

-- A verdict tells the truth.
abbrev pub Exact : State → ℕ → Option ℕ → Verdict → Type 0
Exact s target cur clear = ¬ (Leads s target cur)
Exact s target cur found = Leads s target cur
Exact s target cur out_of_fuel = ⊥

-- rounds that are enough for the chain from an actor that may be none
abbrev pub rounds : {s : State} → NoCycle s → Option ℕ → ℕ
rounds h none = 1
rounds h (some c) = suc (depth (h c))

-- One round at an actor that is not the target.
walk-next :
    (s : State) (target c fuel : ℕ)
    → (c == target) ≡ false
    → walk (suc (suc fuel)) s target (some c) ≡ walk (suc fuel) s target (next s c)
unfolding walk
walk-next s target c fuel ne = ground arith

walk-same :
    (s : State) (target c fuel : ℕ)
    → (c == target) ≡ true
    → walk (suc fuel) s target (some c) ≡ found
unfolding walk
walk-same s target c fuel same = rw (same, walk)

clear_found : clear ≡ found → ⊥
clear_found e = cc

off_target :
    {s : State} {target c : ℕ}
    → Reach s target c
    → (c == target) ≡ false
    → (d : ℕ) × (next s c ≡ some d) × Reach s target d
off_target here ne = absurd (ground arith)
off_target (via {c = d} e r) ne = (d, e, r)

module _ (s : State) (target c : ℕ) (ne : (c == target) ≡ false) where
  Exact-last : next s c ≡ none → Exact s target (some c) clear
  Exact-last e r = let (d, f, q) = off_target r ne in none-some (sym e ∙ f)

  Exact-step :
      (d : ℕ) (v : Verdict)
      → next s c ≡ some d
      → Exact s target (some d) v
      → Exact s target (some c) v
  Exact-step d clear e no_way = λ r.
      let (d', f, q) = off_target r ne in no_way (subst (Reach s target) (some-eq (sym f ∙ e)) q)
  Exact-step d found e r = via e r
  Exact-step d out_of_fuel e h = h

at_target : {s : State} {target c : ℕ} → (c == target) ≡ true → Reach s target c
at_target {s} {target} {c} same =
    subst (λ x. Reach s target x) (sym ((==_iff c target).0 same)) here

walk-Exact :
    {s : State} (target : ℕ) {c : ℕ} (fuel : ℕ) (h : Ends s c)
    → depth h < fuel
    → Exact s target (some c) (walk fuel s target (some c))
unfolding walk
walk-Exact target zero h lt = elim lt [ ]
walk-Exact target (suc zero) (last e) lt = absurd (omega arith)
walk-Exact target (suc zero) (step e r) lt = absurd (omega arith)
walk-Exact {s} target {c} (suc (suc fuel)) (last e) lt = elim (Bool-cases (c == target)) [
  | inl same ↦
      subst (Exact s target (some c)) (sym (walk-same s target c (suc fuel) same)) (at_target same)
  | inr ne ↦
      subst (Exact s target (some c)) (sym (walk-next s target c fuel ne))
        (rw e (Exact-last s target c ne e))
]
walk-Exact {s} target {c} (suc (suc fuel)) (step {c = d} e r) lt =
    let ih = walk-Exact target (suc fuel) r (omega arith) in
    elim (Bool-cases (c == target)) [
      | inl same ↦
          subst (Exact s target (some c)) (sym (walk-same s target c (suc fuel) same))
            (at_target same)
      | inr ne ↦
          subst (Exact s target (some c)) (sym (walk-next s target c fuel ne))
            (rw e (Exact-step s target c ne d _ e ih))
    ]

-- In a graph without a cycle, and with more rounds than the chain from the holder of `l` is long,
-- hangman_check ends; it finds the target exactly when the holder of `l` waits, over any number of
-- edges, for the target, or is the target itself.
pub check-Exact :
    {s : State} (target l fuel : ℕ) (h : NoCycle s)
    → rounds h (s.holding l) < suc fuel
    → Exact s target (s.holding l) (check fuel s l target)
check-Exact {s} target l fuel h lt = go (s.holding l) lt
  where
    at_none : (f : ℕ) → 1 < suc f → Exact s target none (walk f s target none)
    at_none zero lt = absurd (omega arith)
    at_none (suc f) lt = unfold walk in λ no. no

    go : (cur : Option ℕ) → rounds h cur < suc fuel → Exact s target cur (walk fuel s target cur)
    go none lt = at_none fuel lt
    go (some c) lt = walk-Exact target fuel (h c) (omega arith)

module _ (s : State) (target : ℕ) where
  -- One round at an actor that is not the target and waits for a lockable.
  walk-waits :
      (c l fuel : ℕ)
      → (c == target) ≡ false
      → s.waiting c ≡ some l
      → walk (suc fuel) s target (some c) ≡ walk fuel s target (s.holding l)
  unfolding walk
  walk-waits c l fuel ne e = rw (ne, walk) (rw e)

  -- Whatever the fuel, the answer `clear` is right.
  pub walk-clear :
      (fuel : ℕ) (cur : Option ℕ) → walk fuel s target cur ≡ clear → ¬ (Leads s target cur)
  unfolding walk
  walk-clear zero cur v = cc
  walk-clear (suc fuel) none v = λ way. way
  walk-clear (suc fuel) (some c) v = elim (Bool-cases (c == target)) [
    | inl same ↦ λ _. clear_found (sym v ∙ walk-same s target c fuel same)
    | inr ne ↦ elim (Option-cases (s.waiting c)) [
      | inl e ↦ Exact-last s target c ne (rw e)
      | inr (l, e) ↦ λ way.
          let (d, f, q) = off_target way ne in
          walk-clear fuel (s.holding l) (sym (walk-waits c l fuel ne e) ∙ v)
            (let f' : s.holding l ≡ some d = rw e at f in rw f' q)
    ]
  ]
