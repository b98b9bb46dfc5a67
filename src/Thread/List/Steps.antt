-- ===== src/Thread/List/Steps.antt =====
-- Linking a node into a chain, and out of it.
use os161_testbed.Common.{ℕ, ◌≢◌, sym, ◌∙◌, Option, none, some, List, [], ◌∷◌, ◌++◌, update}
use os161_testbed.Thread.List.Chain.{
  Fwd, Bwd, Away, last_of, first_of, Clear, Clear-step, twice_first, twice_last, twice_other,
  twice-Agree, Fwd-retarget, Bwd-frame, Fwd-first, Away-append, Away-last, Away-first,
}

-- tln_next and tln_prev with `n` linked in between `x` and `y`, and with `n` linked out
abbrev pub next_in : (ℕ → Option ℕ) → (x n y : ℕ) → ℕ → Option ℕ
next_in f x n y = update (update f n (some y)) x (some n)

abbrev pub prev_in : (ℕ → Option ℕ) → (x n y : ℕ) → ℕ → Option ℕ
prev_in g x n y = update (update g n (some x)) y (some n)

abbrev pub next_out : (ℕ → Option ℕ) → (x n y : ℕ) → ℕ → Option ℕ
next_out f x n y = update (update f x (some y)) n none

abbrev pub prev_out : (ℕ → Option ℕ) → (x n y : ℕ) → ℕ → Option ℕ
prev_out g x n y = update (update g y (some x)) n none

pub Fwd-next_in :
    (f : ℕ → Option ℕ) (p q n : ℕ) (us vs : List ℕ)
    → Clear p (us ++ vs) q
    → Away n (us ++ vs)
    → n ≢ p
    → Fwd f p (us ++ vs) q
    → Fwd (next_in f (last_of p us) n (first_of vs q)) p (us ++ n ∷ vs) q
Fwd-next_in f p q n [] vs c away np h = (
  twice_last f n p _ _,
  Fwd-retarget f _ p n q vs h (twice_first f n p _ _ (λ e. np (sym e)) ∙ sym (Fwd-first f p q vs h))
      (twice-Agree f n p _ _ vs away c.from),
)
Fwd-next_in f p q n (a ∷ us) vs c away np h = (
  twice_other f n (last_of a us) p _ _ np
        (λ e. Away-last a us c.from.0 (Away-append p us vs c.from.1).0 (sym e))
      ∙ h.0,
  Fwd-next_in f a q n us vs (Clear-step c) away.1 away.0 h.1,
)

pub Bwd-prev_in :
    (g : ℕ → Option ℕ) (p q n : ℕ) (us vs : List ℕ)
    → Clear p (us ++ vs) q
    → Away n (us ++ vs)
    → n ≢ q
    → Bwd g p (us ++ vs) q
    → Bwd (prev_in g (last_of p us) n (first_of vs q)) p (us ++ n ∷ vs) q
Bwd-prev_in g p q n [] [] c away nq h =
    (twice_first g n q _ _ (λ e. nq (sym e)), twice_last g n q _ _)
Bwd-prev_in g p q n [] (b ∷ vs) c away nq h = (
  twice_first g n b _ _ (λ e. away.0 (sym e)),
  (
    twice_last g n b _ _,
    Bwd-frame g _ b q vs h.1 (twice_other g n b q _ _ nq (λ e. c.to.0 (sym e)))
        (twice-Agree g n b _ _ vs away.1 c.between.0),
  ),
)
Bwd-prev_in g p q n (a ∷ us) vs c away nq h = (
  twice_other g n (first_of vs q) a _ _ away.0
        (λ e. Away-first vs (Away-append a us vs c.between.0).1 (λ e. c.to.0 (sym e)) (sym e))
      ∙ h.0,
  Bwd-prev_in g a q n us vs (Clear-step c) away.1 nq h.1,
)

-- The same chain with the middle node taken out: what the rest of the proofs need of it.
pub Clear-out : (p q n : ℕ) (us vs : List ℕ) → Clear p (us ++ n ∷ vs) q → Clear p (us ++ vs) q
Clear-out p q n [] vs c = record {
  from = c.from.1;
  to = c.to.1;
  ends = c.ends;
  between = c.between.1;
}
Clear-out p q n (a ∷ us) vs c =
    let r = Clear-out a q n us vs (Clear-step c) in
    record {
      from = (c.from.0, Away-out p n us vs c.from.1);
      to = (c.to.0, r.to);
      ends = c.ends;
      between = (r.from, r.between);
    }
  where
    Away-out : (x n : ℕ) (us vs : List ℕ) → Away x (us ++ n ∷ vs) → Away x (us ++ vs)
    Away-out x n [] vs h = h.1
    Away-out x n (u ∷ us) vs h = (h.0, Away-out x n us vs h.1)

pub Fwd-next_out :
    (f : ℕ → Option ℕ) (p q n : ℕ) (us vs : List ℕ)
    → Clear p (us ++ n ∷ vs) q
    → Fwd f p (us ++ n ∷ vs) q
    → Fwd (next_out f (last_of p us) n (first_of vs q)) p (us ++ vs) q
Fwd-next_out f p q n [] vs c h =
    Fwd-retarget f _ n p q vs h.1
      (twice_first f p n _ _ (λ e. c.from.0 (sym e)) ∙ sym (Fwd-first f n q vs h.1))
      (twice-Agree f p n _ _ vs c.from.1 c.between.0)
Fwd-next_out f p q n (a ∷ us) vs c h =
    let away = Away-append p us (n ∷ vs) c.from.1 in
    (
      twice_other f (last_of a us) n p _ _ (λ e. Away-last a us c.from.0 away.0 (sym e))
            (λ e. away.1.0 (sym e))
          ∙ h.0,
      Fwd-next_out f a q n us vs (Clear-step c) h.1,
    )

pub Bwd-prev_out :
    (g : ℕ → Option ℕ) (p q n : ℕ) (us vs : List ℕ)
    → Clear p (us ++ n ∷ vs) q
    → Bwd g p (us ++ n ∷ vs) q
    → Bwd (prev_out g (last_of p us) n (first_of vs q)) p (us ++ vs) q
Bwd-prev_out g p q n [] [] c h = twice_first g q n _ _ (λ e. c.to.0 (sym e))
Bwd-prev_out g p q n [] (b ∷ vs) c h = (
  twice_first g b n _ _ c.between.0.0,
  Bwd-frame g _ b q vs h.1.1 (twice_other g b n q _ _ (λ e. c.to.1.0 (sym e)) (λ e. c.to.0 (sym e)))
      (twice-Agree g b n _ _ vs c.between.1.0 c.between.0.1),
)
Bwd-prev_out g p q n (a ∷ us) vs c h =
    let away = Away-append a us (n ∷ vs) c.between.0 in
    (
      twice_other g (first_of vs q) n a _ _
            (λ e. Away-first vs away.1.1 (λ e. c.to.0 (sym e)) (sym e)) (λ e. away.1.0 (sym e))
          ∙ h.0,
      Bwd-prev_out g a q n us vs (Clear-step c) h.1,
    )
