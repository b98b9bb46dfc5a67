-- ===== src/Thread/Semaphore/Invariant.antt =====
-- What holds of a semaphore and of the threads that use it, in every interleaving.
use os161_testbed.Common.{
  ℕ, suc, ◌+◌, ◌^◌, ◌<◌, ◌≤◌, ◌≡◌, refl, ◌∙◌, sym, ap, subst, true, false, Bool, if◌then◌else◌,
  List, [], ◌∷◌, ◌++◌, none, some, arith, length, length-append, ◌⊎◌, inl, inr,
}
use os161_testbed.Common.Run.{done, Cmd, Ensures, returns, outcome, mono, bind, and_then}
use os161_testbed.Thread.Semaphore.{Semaphore, p_round}
use os161_testbed.Thread.Semaphore.Steps.{
  World, Step, enters, passes, sleeps, posts, wakes, Reach, start, later, Round, took, slept,
  p_round-Round, Posted, alone, woke, v-Posted,
}

-- No unit is lost, and while threads sleep every unit has a thread that is on its way to it.
pub record Inv (n : ℕ) (w : World) : Type 0 where
  pub conserved : w.sem.count + w.passed ≡ n + w.posted
  pub awake : (w.sem.wchan ≡ []) ⊎ (w.sem.count ≤ length w.contending)
  pub word : w.sem.count < 2 ^ 32

-- a round that answers `b` and leaves `u`
Round-outcome : (t : ℕ) (b : Bool) (s u : Semaphore) → p_round t s ≡ done b u → Round t s b u
Round-outcome t b s u e = outcome (subst (Ensures (Round t s) (λ _ _. ⊥)) e (p_round-Round t s))

one_less :
    {cs : List ℕ} (us : List ℕ) (t : ℕ) (vs : List ℕ)
    → cs ≡ us ++ t ∷ vs
    → length cs ≡ suc (length (us ++ vs))
one_less us t vs e = omega (arith, ap length e, length-append us (t ∷ vs), length-append us vs)

module _ {n : ℕ} {w : World} (inv : Inv n w) where
  passed-Inv :
      (us vs : List ℕ) (t : ℕ) (b : Bool) (s : Semaphore)
      → w.contending ≡ us ++ t ∷ vs
      → b ≡ true
      → Round t w.sem b s
      → Inv n (record w { sem = s; contending = us ++ vs; passed = w.passed + 1 })
  passed-Inv us vs t true s e b (took c f) = record {
    conserved = omega (arith, f, inv.conserved);
    awake = elim (inv.awake) [
      | inl none' ↦ inl none'
      | inr few ↦ inr (omega (arith, few, f, one_less us t vs e))
    ];
    word = omega (arith, f, inv.word);
  }
  passed-Inv us vs t false s e b (slept f) = absurd (ground arith)

  slept-Inv :
      (us vs : List ℕ) (t : ℕ) (b : Bool) (s : Semaphore)
      → b ≡ false
      → Round t w.sem b s
      → Inv n (record w { sem = s; contending = us ++ vs })
  slept-Inv us vs t true s b (took c f) = absurd (ground arith)
  slept-Inv us vs t false s b (slept f) = record {
    conserved = inv.conserved;
    awake = inr (omega (arith, f));
    word = inv.word;
  }

  posted-Inv :
      (s : Semaphore) → Posted w.sem none s → Inv n (record w { sem = s; posted = w.posted + 1 })
  posted-Inv s (alone e small) = record {
    conserved = omega (arith, inv.conserved);
    awake = inl e;
    word = small;
  }

  woke-Inv :
      (t : ℕ) (s : Semaphore)
      → Posted w.sem (some t) s
      → Inv n (record w { sem = s; contending = w.contending ++ t ∷ []; posted = w.posted + 1 })
  woke-Inv _ s (woke t ts e small) = record {
    conserved = omega (arith, inv.conserved);
    awake = elim (inv.awake) [
      | inl none' ↦ absurd (omega (arith, ap length (sym e ∙ none')))
      | inr few ↦ inr (omega (arith, few, length-append w.contending (t ∷ [])))
    ];
    word = small;
  }

  entered-Inv : (t : ℕ) → Inv n (record w { contending = w.contending ++ t ∷ [] })
  entered-Inv t = record {
    conserved = inv.conserved;
    awake = elim (inv.awake) [
      | inl none' ↦ inl none'
      | inr few ↦ inr (omega (arith, few, length-append w.contending (t ∷ [])))
    ];
    word = inv.word;
  }

Step-Inv : {n : ℕ} {w u : World} → Step w u → Inv n w → Inv n u
Step-Inv {n = n} (enters t e) inv = subst (Inv n) (sym e) (entered-Inv inv t)
Step-Inv {n = n} {w = w} (passes us vs t s c r e) inv =
    subst (Inv n) (sym e) (passed-Inv inv us vs t true s c refl (Round-outcome t true w.sem s r))
Step-Inv {n = n} {w = w} (sleeps us vs t s c r e) inv =
    subst (Inv n) (sym e) (slept-Inv inv us vs t false s refl (Round-outcome t false w.sem s r))
Step-Inv {n = n} {w = w} (posts s r e) inv =
    subst (Inv n) (sym e) (posted-Inv inv s (v-Posted none w.sem s inv.word r))
Step-Inv {n = n} {w = w} (wakes t s r e) inv =
    subst (Inv n) (sym e) (woke-Inv inv t s (v-Posted (some t) w.sem s inv.word r))

-- In every interleaving, the units that a semaphore started with and those that V has added are
-- those that it holds and those that P has taken; and while threads sleep, it holds at most as many
-- units as there are threads awake inside P.
pub Reach-Inv : {n : ℕ} {w : World} → n < 2 ^ 32 → Reach n w → Inv n w
Reach-Inv small start = record { conserved = refl; awake = inl refl; word = small }
Reach-Inv small (later r st) = Step-Inv st (Reach-Inv small r)

-- Each thread of a list runs one round; the answer is how many return from P.
unfoldable pub each_round : List ℕ → Cmd Semaphore ℕ
each_round [] s = done 0 s
each_round (t ∷ ts) s =
    and_then (p_round t s)
      (λ b s'. and_then (each_round ts s') (λ k. done (if b then k + 1 else k)))

-- `k` of the threads return; either the count runs out or all of them do.
data Settled (ts : List ℕ) (s : Semaphore) (k : ℕ) (u : Semaphore) : Type 0 where
  empty : k + u.count ≡ s.count → u.count ≡ 0 → s.count ≤ length ts → Settled ts s k u
  all : k + u.count ≡ s.count → k ≡ length ts → u.wchan ≡ s.wchan → Settled ts s k u

module _ (t : ℕ) (ts : List ℕ) (s : Semaphore) where
  Settled-next :
      (b : Bool) (s' : Semaphore) (k : ℕ) (u : Semaphore)
      → Round t s b s'
      → Settled ts s' k u
      → Settled (t ∷ ts) s (if b then k + 1 else k) u
  Settled-next _ _ k u (took c e) (empty sum out few) =
      empty (omega (arith, sum, e)) out (omega (arith, few, e))
  Settled-next _ _ k u (took c e) (all sum every same) =
      all (omega (arith, sum, e)) (omega (arith, every)) same
  Settled-next _ _ k u (slept e) (empty sum out few) = empty sum out (omega (arith, e))
  Settled-next _ _ k u (slept e) (all sum every same) =
      empty sum (omega (arith, sum, e)) (omega (arith, e))

each_round-Settled :
    (ts : List ℕ) (s : Semaphore) → Ensures (Settled ts s) (λ _ _. ⊥) (each_round ts s)
unfolding each_round
each_round-Settled [] s = returns (all (omega arith) refl refl)
each_round-Settled (t ∷ ts) s =
    bind (p_round-Round t s)
      (λ b s' r.
        bind (each_round-Settled ts s') (λ k u st. returns (Settled-next t ts s b s' k u r st))
          (λ _ _ bad. bad))
      (λ _ _ bad. bad)

-- From every world that an interleaving leads to, once each thread awake inside P has had a round, every
-- unit taken is one return from P, and no thread sleeps while the count is positive.
pub each_round-awake :
    {n : ℕ} {w : World}
    → n < 2 ^ 32
    → Reach n w
    → Ensures
        (λ k u. (k + u.count ≡ w.sem.count) × ((u.count ≡ 0) ⊎ (u.wchan ≡ [])))
        (λ _ _. ⊥)
        (each_round w.contending w.sem)
each_round-awake {w = w} small r =
    mono (each_round-Settled w.contending w.sem)
      (λ k u st. result w k u st (Reach-Inv small r).awake) (λ _ _ bad. bad)
  where
    result :
        (w : World) (k : ℕ) (u : Semaphore)
        → Settled w.contending w.sem k u
        → (w.sem.wchan ≡ []) ⊎ (w.sem.count ≤ length w.contending)
        → (k + u.count ≡ w.sem.count) × ((u.count ≡ 0) ⊎ (u.wchan ≡ []))
    result w k u (empty sum out few) awake = (sum, inl out)
    result w k u (all sum every same) (inl none') = (sum, inr (same ∙ none'))
    result w k u (all sum every same) (inr few) = (sum, inl (omega (arith, sum, every, few)))
