-- ===== src/Thread/Semaphore/Steps.antt =====
-- Threads that use one semaphore, interleaved at its spinlock.
use os161_testbed.Common.{
  ℕ, zero, suc, ◌+◌, ◌-◌, ◌%◌, ◌^◌, ◌<◌, ◌≡◌, refl, true, false, Bool, List, [], ◌∷◌, ◌++◌, Option,
  none, some, arith, ltb, ◌==◌, subst, dec_lt,
}
use os161_testbed.Common.Run.{Run, done, Ensures, returns}
use os161_testbed.Thread.Semaphore.{Semaphore, p_round, v, wchan_sleep, wchan_wakeone}

pub record World : Type 0 where
  pub sem : Semaphore
  -- the threads inside P that are about to take the spinlock: new ones, and ones made runnable
  pub contending : List ℕ
  -- how many calls of P and of V have returned
  pub passed : ℕ
  pub posted : ℕ

-- A step of one thread.
pub data Step (w u : World) : Type 0 where
  -- thread `t` calls P
  enters : (t : ℕ) → u ≡ record w { contending = w.contending ++ t ∷ [] } → Step w u
  -- thread `t` runs a round of P and returns, or goes to sleep
  passes :
      (us vs : List ℕ) (t : ℕ) (s : Semaphore)
      → w.contending ≡ us ++ t ∷ vs
      → p_round t w.sem ≡ done true s
      → u ≡ record w { sem = s; contending = us ++ vs; passed = w.passed + 1 }
      → Step w u
  sleeps :
      (us vs : List ℕ) (t : ℕ) (s : Semaphore)
      → w.contending ≡ us ++ t ∷ vs
      → p_round t w.sem ≡ done false s
      → u ≡ record w { sem = s; contending = us ++ vs }
      → Step w u
  -- a thread calls V
  posts :
      (s : Semaphore)
      → v w.sem ≡ done none s
      → u ≡ record w { sem = s; posted = w.posted + 1 }
      → Step w u
  wakes :
      (t : ℕ) (s : Semaphore)
      → v w.sem ≡ done (some t) s
      → u ≡ record w { sem = s; contending = w.contending ++ t ∷ []; posted = w.posted + 1 }
      → Step w u

-- The worlds that a new semaphore of count `n` leads to.
pub data Reach (n : ℕ) : World → Type 0 where
  start :
      Reach n
        (record { sem = record { count = n; wchan = [] }; contending = []; passed = 0; posted = 0 })
  later : {w u : World} → Reach n w → Step w u → Reach n u

-- The two outcomes of a round.
pub data Round (t : ℕ) (s : Semaphore) : Bool → Semaphore → Type 0 where
  took : (count : ℕ) → s.count ≡ suc count → Round t s true (record s { count = count })
  slept : s.count ≡ 0 → Round t s false (record s { wchan = s.wchan ++ t ∷ [] })

pub p_round-Round : (t : ℕ) (s : Semaphore) → Ensures (Round t s) (λ _ _. ⊥) (p_round t s)
unfolding p_round wchan_sleep
p_round-Round t s = rounds s.count s.wchan
  where
    rounds :
        (c : ℕ) (q : List ℕ)
        → Ensures
            (Round t (record { count = c; wchan = q }))
            (λ _ _. ⊥)
            (p_round t (record { count = c; wchan = q }))
    rounds zero q = returns (slept refl)
    rounds (suc c) q =
        let more : (suc c == 0) ≡ false = ground arith in
        let up : ltb 0 (suc c) ≡ true = ground arith in
        let less : suc c - 1 ≡ c = omega arith in rw (more, up, less) (returns (took c refl))

-- The two outcomes of V, where it does not panic.
pub data Posted (s : Semaphore) : Option ℕ → Semaphore → Type 0 where
  alone : s.wchan ≡ [] → s.count + 1 < 2 ^ 32 → Posted s none (record s { count = s.count + 1 })
  woke :
      (t : ℕ) (ts : List ℕ)
      → s.wchan ≡ t ∷ ts
      → s.count + 1 < 2 ^ 32
      → Posted s (some t) (record { count = s.count + 1; wchan = ts })

-- What holds of the answer and the state, where a call returns.
abbrev WhenDone : {S A : Type 0} → (A → S → Type 0) → Run S A → Type 0
WhenDone P (done a s) = P a s
WhenDone P _ = Unit

pub v-Posted : (o : Option ℕ) (s u : Semaphore) → s.count < 2 ^ 32 → v s ≡ done o u → Posted s o u
unfolding v wchan_wakeone
v-Posted o s u word e = subst (WhenDone (Posted s)) e (posts' s.count s.wchan word)
  where
    posts' :
        (c : ℕ) (q : List ℕ)
        → c < 2 ^ 32
        → WhenDone (Posted (record { count = c; wchan = q })) (v (record { count = c; wchan = q }))
    posts' c q small = elim (dec_lt (c + 1) (2 ^ 32)) [
      | yes fits ↦
          let same' : (c + 1) % 2 ^ 32 ≡ c + 1 = omega arith in
          let up : ltb 0 (c + 1) ≡ true = ground arith in rw (same', up) (both c q fits)
      | no over ↦ let wrapped : (c + 1) % 2 ^ 32 ≡ 0 = omega arith in rw wrapped tt
    ]
      where
        both :
            (c : ℕ) (q : List ℕ)
            → c + 1 < 2 ^ 32
            → WhenDone
                (Posted (record { count = c; wchan = q }))
                (wchan_wakeone (record { count = c + 1; wchan = q }))
        both c [] fits = alone refl fits
        both c (t ∷ ts) fits = woke t ts refl fits
