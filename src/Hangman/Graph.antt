-- ===== src/Hangman/Graph.antt =====
-- The waits-for graph: actor `a` waits for the actor that holds what `a` waits for.
use os161_testbed.Common.{
  ℕ, suc, Option, none, some, ◌≡◌, ◌≢◌, sym, ◌∙◌, subst, arith, update, Option-cases, inl, inr, ◌⊎◌,
  ℕ_discrete,
}
use os161_testbed.Hangman.{State}

-- the holder of a lockable that may be none
abbrev pub holder : State → Option ℕ → Option ℕ
holder s none = none
holder s (some l) = s.holding l

abbrev pub next : State → ℕ → Option ℕ
next s a = holder s (s.waiting a)

-- From `a` the graph leads to `b`, in any number of edges.
pub data Reach (s : State) (b : ℕ) : ℕ → Type 0 where
  here : Reach s b b
  via : {a c : ℕ} → next s a ≡ some c → Reach s b c → Reach s b a

-- The chain of waits from an actor comes to an end.
pub data Ends (s : State) : ℕ → Type 0 where
  last : {a : ℕ} → next s a ≡ none → Ends s a
  step : {a c : ℕ} → next s a ≡ some c → Ends s c → Ends s a

-- the actors on the chain
abbrev pub depth : {s : State} {a : ℕ} → Ends s a → ℕ
depth (last e) = 1
depth (step e r) = suc (depth r)

-- No chain of waits is endless.
abbrev pub NoCycle : State → Type 0
NoCycle s = (a : ℕ) → Ends s a

pub none-some : {x : ℕ} → none ≡ some x → ⊥
none-some h = cc

pub some-eq : {x y : ℕ} → some x ≡ some y → x ≡ y
some-eq h = cc

module _ {s : State} where
  Reach-trans : {c b a : ℕ} → Reach s b a → Reach s c b → Reach s c a
  Reach-trans here q = q
  Reach-trans (via e p) q = via e (Reach-trans p q)

  -- moving a whole cycle one edge on
  back : {a d : ℕ} → next s a ≡ some d → Reach s a d → (c : ℕ) × (next s d ≡ some c) × Reach s d c
  back {a} e here = (a, e, here)
  back e (via {c} f r) = (c, f, Reach-trans r (via e here))

  -- A chain that ends never comes back to its start.
  pub acyclic : {a c : ℕ} → Ends s a → next s a ≡ some c → ¬ (Reach s a c)
  acyclic (last e) f r = cc
  acyclic {a} (step {c = d} e rest) f r =
      let (c', e', r') = back e (subst (λ x. Reach s a x) (some-eq (sym f ∙ e)) r) in
      acyclic rest e' r'

-- After a change that drops edges, or adds edges to an actor that waits for nobody.
abbrev pub Dropped : State → State → ℕ → Type 0
Dropped s t b =
    (next t b ≡ none) ⊎ (next t b ≡ next s b) ⊎ ((z : ℕ) × (next t b ≡ some z) × (next t z ≡ none))

pub NoCycle-Dropped : {s t : State} → ((b : ℕ) → Dropped s t b) → NoCycle s → NoCycle t
NoCycle-Dropped {s} {t} change h a = go (h a)
  where
    look : {b : ℕ} → Dropped s t b → ((c : ℕ) → next s b ≡ some c → Ends t c) → Ends t b
    look (inl gone) rest = last gone
    look {b} (inr (inl same)) rest = elim (Option-cases (next s b)) [
      | inl e ↦ last (same ∙ e)
      | inr (c, e) ↦ step (same ∙ e) (rest c e)
    ]
    look (inr (inr (z, e, f))) rest = step e (last f)

    go : {b : ℕ} → Ends s b → Ends t b
    go {b} (last e) = look (change b) (λ c f. absurd (none-some (sym e ∙ f)))
    go {b} (step {c} e r) =
        let r' = go r in look (change b) (λ d f. subst (Ends t) (some-eq (sym e ∙ f)) r')

-- After `a`, which waited for nobody, begins to wait for the holder of `l`.
module _ (s : State) (a l : ℕ) (idle : s.waiting a ≡ none) where
  abbrev pub waits : State
  waits = record s { waiting = update s.waiting a (some l) }

  next-other : (b : ℕ) → a ≢ b → next waits b ≡ next s b
  next-other b ne = ground arith

  next_self : next waits a ≡ s.holding l
  next_self = ground arith

  module _ (clear : (c : ℕ) → s.holding l ≡ some c → ¬ (Reach s a c)) where
    avoid : {c : ℕ} → Ends s c → ¬ (Reach s a c) → Ends waits c
    avoid {c} (last e) no_way =
        last (next-other c (λ p. no_way (subst (λ x. Reach s a x) p here)) ∙ e)
    avoid {c} (step e r) no_way =
        step (next-other c (λ p. no_way (subst (λ x. Reach s a x) p here)) ∙ e)
          (avoid r (λ q. no_way (via e q)))

    self : NoCycle s → Ends waits a
    self h = elim (Option-cases (s.holding l)) [
      | inl e ↦ last (next_self ∙ e)
      | inr (c, e) ↦ step (next_self ∙ e) (avoid (h c) (clear c e))
    ]

    go : Ends waits a → {b : ℕ} → Ends s b → Ends waits b
    go end {b} (last e) = elim (ℕ_discrete a b) [
      | yes p ↦ subst (Ends waits) p end
      | no ne ↦ last (next-other b ne ∙ e)
    ]
    go end {b} (step e r) =
        let r' = go end r in
        elim (ℕ_discrete a b) [
          | yes p ↦ subst (Ends waits) p end
          | no ne ↦ step (next-other b ne ∙ e) r'
        ]

    pub NoCycle-waits : NoCycle s → NoCycle waits
    NoCycle-waits h b = go (self h) (h b)
