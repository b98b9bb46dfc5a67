-- ===== src/Thread/List/Chain.antt =====
-- Chains of nodes through a map of pointers, and what linking a node in or out makes of them.
use os161_testbed.Common.{
  ℕ, ◌≡◌, ◌≢◌, refl, sym, ◌∙◌, Option, none, some, List, [], ◌∷◌, ◌++◌, arith, ◌==◌, update, ap,
  Bool-cases, inl, inr, ==_refl,
}

-- From `p` over the nodes `ns` to `q`, along `tln_next` and against `tln_prev`.
abbrev pub Fwd : (ℕ → Option ℕ) → ℕ → List ℕ → ℕ → Type 0
Fwd f p [] q = f p ≡ some q
Fwd f p (n ∷ ns) q = (f p ≡ some n) × Fwd f n ns q

abbrev pub Bwd : (ℕ → Option ℕ) → ℕ → List ℕ → ℕ → Type 0
Bwd g p [] q = g q ≡ some p
Bwd g p (n ∷ ns) q = (g n ≡ some p) × Bwd g n ns q

abbrev pub Away : ℕ → List ℕ → Type 0
Away x [] = Unit
Away x (n ∷ ns) = (x ≢ n) × Away x ns

abbrev pub Distinct : List ℕ → Type 0
Distinct [] = Unit
Distinct (n ∷ ns) = Away n ns × Distinct ns

abbrev pub last_of : ℕ → List ℕ → ℕ
last_of p [] = p
last_of p (a ∷ us) = last_of a us

abbrev pub first_of : List ℕ → ℕ → ℕ
first_of [] q = q
first_of (b ∷ vs) q = b

-- two ends and the nodes between them, all different
pub record Clear (p : ℕ) (ns : List ℕ) (q : ℕ) : Type 0 where
  pub from : Away p ns
  pub to : Away q ns
  pub ends : p ≢ q
  pub between : Distinct ns

pub Clear-step : {p a q : ℕ} {ns : List ℕ} → Clear p (a ∷ ns) q → Clear a ns q
Clear-step c = record {
  from = c.between.0;
  to = c.to.1;
  ends = λ e. c.to.0 (sym e);
  between = c.between.1;
}

pub Agree : (f f' : ℕ → Option ℕ) → List ℕ → Type 0
Agree f f' [] = Unit
Agree f f' (n ∷ ns) = (f' n ≡ f n) × Agree f f' ns

pub update_self : {A : Type 0} (f : ℕ → A) (p : ℕ) (v : A) → update f p v p ≡ v
update_self f p v = rw (==_refl p) refl

pub update_other : {A : Type 0} (f : ℕ → A) (p q : ℕ) (v : A) → p ≢ q → update f p v q ≡ f q
update_other f p q v ne = elim (Bool-cases (p == q)) [
  | inl same ↦ absurd (ne (ground arith))
  | inr other ↦ rw other refl
]

-- Two entries changed.
pub twice_other :
    (f : ℕ → Option ℕ) (a b q : ℕ) (u v : Option ℕ)
    → a ≢ q
    → b ≢ q
    → update (update f a u) b v q ≡ f q
twice_other f a b q u v na nb = update_other (update f a u) b q v nb ∙ update_other f a q u na

pub twice_first :
    (f : ℕ → Option ℕ) (a b : ℕ) (u v : Option ℕ) → b ≢ a → update (update f a u) b v a ≡ u
twice_first f a b u v ne = update_other (update f a u) b a v ne ∙ update_self f a u

pub twice_last : (f : ℕ → Option ℕ) (a b : ℕ) (u v : Option ℕ) → update (update f a u) b v b ≡ v
twice_last f a b u v = update_self (update f a u) b v

pub twice-Agree :
    (f : ℕ → Option ℕ) (a b : ℕ) (u v : Option ℕ) (ns : List ℕ)
    → Away a ns
    → Away b ns
    → Agree f (update (update f a u) b v) ns
unfolding Agree
twice-Agree f a b u v [] ha hb = tt
twice-Agree f a b u v (n ∷ ns) ha hb =
    (twice_other f a b n u v ha.0 hb.0, twice-Agree f a b u v ns ha.1 hb.1)

pub Fwd-retarget :
    (f f' : ℕ → Option ℕ) (p p' q : ℕ) (ns : List ℕ)
    → Fwd f p ns q
    → f' p' ≡ f p
    → Agree f f' ns
    → Fwd f' p' ns q
unfolding Agree
Fwd-retarget f f' p p' q [] h e agree = e ∙ h
Fwd-retarget f f' p p' q (n ∷ ns) h e agree =
    (e ∙ h.0, Fwd-retarget f f' n n q ns h.1 agree.0 agree.1)

pub Bwd-frame :
    (g g' : ℕ → Option ℕ) (p q : ℕ) (ns : List ℕ)
    → Bwd g p ns q
    → g' q ≡ g q
    → Agree g g' ns
    → Bwd g' p ns q
unfolding Agree
Bwd-frame g g' p q [] h e agree = e ∙ h
Bwd-frame g g' p q (n ∷ ns) h e agree = (agree.0 ∙ h.0, Bwd-frame g g' n q ns h.1 e agree.1)

pub Fwd-first :
    (f : ℕ → Option ℕ) (p q : ℕ) (ns : List ℕ) → Fwd f p ns q → f p ≡ some (first_of ns q)
Fwd-first f p q [] h = h
Fwd-first f p q (n ∷ ns) h = h.0

pub Away-append : (x : ℕ) (us vs : List ℕ) → Away x (us ++ vs) → Away x us × Away x vs
Away-append x [] vs h = (tt, h)
Away-append x (a ∷ us) vs h = let (u, v) = Away-append x us vs h.1 in ((h.0, u), v)

pub Away-last : {x : ℕ} (a : ℕ) (us : List ℕ) → x ≢ a → Away x us → x ≢ last_of a us
Away-last a [] ne h = ne
Away-last a (b ∷ us) ne h = Away-last b us h.0 h.1

pub Away-first : {x q : ℕ} (vs : List ℕ) → Away x vs → x ≢ q → x ≢ first_of vs q
Away-first [] h ne = ne
Away-first (b ∷ vs) h ne = h.0

pub none_or_some : {x : ℕ} {o : Option ℕ} → o ≡ none → o ≡ some x → ⊥
none_or_some e f = cc

-- A node whose `tln_prev` is NULL is on no chain.
pub Bwd-Away : (g : ℕ → Option ℕ) (p q n : ℕ) (ns : List ℕ) → Bwd g p ns q → g n ≡ none → Away n ns
Bwd-Away g p q n [] h e = tt
Bwd-Away g p q n (a ∷ ns) h e =
    (λ same. none_or_some (ap g (sym same) ∙ e) h.0, Bwd-Away g a q n ns h.1 e)

pub Fwd-mid :
    (f : ℕ → Option ℕ) (p q n : ℕ) (us vs : List ℕ)
    → Fwd f p (us ++ n ∷ vs) q
    → f n ≡ some (first_of vs q)
Fwd-mid f p q n [] vs h = Fwd-first f n q vs h.1
Fwd-mid f p q n (u ∷ us) vs h = Fwd-mid f u q n us vs h.1

pub Bwd-mid :
    (g : ℕ → Option ℕ) (p q n : ℕ) (us vs : List ℕ)
    → Bwd g p (us ++ n ∷ vs) q
    → g n ≡ some (last_of p us)
Bwd-mid g p q n [] vs h = h.0
Bwd-mid g p q n (u ∷ us) vs h = Bwd-mid g u q n us vs h.1

pub Bwd-last : (g : ℕ → Option ℕ) (p q : ℕ) (ns : List ℕ) → Bwd g p ns q → g q ≡ some (last_of p ns)
Bwd-last g p q [] h = h
Bwd-last g p q (n ∷ ns) h = Bwd-last g n q ns h.1
