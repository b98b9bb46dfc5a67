-- ===== src/Thread/Migrate/Sweep.antt =====
-- What the loop of thread_consider_migration over the cpus does to their run queues.
use os161_testbed.Common.{
  ℕ, zero, suc, ◌+◌, ◌<◌, ◌≤◌, ◌≡◌, ◌≢◌, refl, ◌∙◌, sym, ap, subst, List, ◌==◌, arith, length, ◌⊎◌,
  inl, inr, Bool-cases, ℕ_discrete,
}
use os161_testbed.Common.Run.{Ensures, returns, mono, bind}
use os161_testbed.Thread.Migrate.{Cpus, sweep}
use os161_testbed.Thread.Migrate.Sums.{occurrences, sum, sum-change}
use os161_testbed.Thread.Migrate.Fill.{Grew, Grew-refl, Filled, fill-Filled}

-- how often the cpus below `n` have thread `t` on their queues
abbrev pub queued : (n t : ℕ) → Cpus → ℕ
queued n t s = sum n (λ j. occurrences t (s.runqueue j))

-- how many threads the queues of the cpus below `n` hold
abbrev pub waiting : (n : ℕ) → Cpus → ℕ
waiting n s = sum n (λ j. length (s.runqueue j))

-- After a sweep over the cpus from `i` on, up to `top`.
pub record Swept (share cur self top i n : ℕ) (vs : List ℕ) (s : Cpus) (vs' : List ℕ) (u : Cpus)
    : Type 0 where
  pub queues : (j : ℕ) → j ≢ self → Grew share cur (s.runqueue j) (u.runqueue j)
  pub before : (j : ℕ) → j < i → u.runqueue j ≡ s.runqueue j
  pub own : u.runqueue self ≡ s.runqueue self
  pub threads : (t : ℕ) → occurrences t vs' + queued top t u ≡ occurrences t vs + queued top t s
  pub lengths : length vs' + waiting top u ≡ length vs + waiting top s
  pub left : ℕ
  pub less : left ≤ n
  pub tight :
      n ≡ length vs → occurrences cur vs ≡ 0 → (left ≡ length vs') × (occurrences cur vs' ≡ 0)
  pub full : (left ≡ 0) ⊎ ((j : ℕ) → i ≤ j → j < top → j ≢ self → share ≤ length (u.runqueue j))
  pub numcpus : u.numcpus ≡ s.numcpus

module _ (share cur self top : ℕ) where
  ended :
      (i n : ℕ) (vs : List ℕ) (s : Cpus)
      → (n ≡ 0) ⊎ (i ≡ top)
      → Swept share cur self top i n vs s vs s
  ended i n vs s stop = record {
    queues = λ j away. Grew-refl share cur (s.runqueue j);
    before = λ j lt. refl;
    own = refl;
    threads = λ t. refl;
    lengths = refl;
    left = n;
    less = omega arith;
    tight = λ all none'. (all, none');
    full = elim stop [ inl e ↦ inl e | inr e ↦ inr (λ j ge lt away. absurd (omega arith)) ];
    numcpus = refl;
  }

  module _ (i n : ℕ) (vs : List ℕ) (s : Cpus) where
    -- the own queue is passed over
    passed :
        {vs' : List ℕ} {u : Cpus}
        → i ≡ self
        → Swept share cur self top (i + 1) n vs s vs' u
        → Swept share cur self top i n vs s vs' u
    passed e h = record {
      queues = h.queues;
      before = λ j lt. h.before j (omega arith);
      own = h.own;
      threads = h.threads;
      lengths = h.lengths;
      left = h.left;
      less = h.less;
      tight = h.tight;
      full = elim (h.full) [
        | inl z ↦ inl z
        | inr rest ↦ inr (λ j ge lt ne. rest j (omega (arith, ne)) lt ne)
      ];
      numcpus = h.numcpus;
    }

    sum_visited :
        {p : ℕ × List ℕ} {v : Cpus} (g : List ℕ → ℕ)
        → Filled share cur i n vs s p v
        → i < top
        → sum top (λ j. g (s.runqueue j)) + g (v.runqueue i)
          ≡ sum top (λ j. g (v.runqueue j)) + g (s.runqueue i)
    sum_visited {v = v} g f lt =
        sum-change top i (λ j. g (s.runqueue j)) (λ j. g (v.runqueue j)) lt
          (λ j ne. ap g (sym (f.others j ne)))

    visited :
        {vs' : List ℕ} {u : Cpus} {p : ℕ × List ℕ} {v : Cpus}
        → i < top
        → i ≢ self
        → Filled share cur i n vs s p v
        → Swept share cur self top (i + 1) p.0 p.1 v vs' u
        → Swept share cur self top i n vs s vs' u
    visited {u = u} {v = v} lt away f h = record {
      queues = λ j ne. elim (ℕ_discrete j i) [
        | yes e ↦ rw (e, h.before i (omega arith)) (f.queue)
        | no ne' ↦ subst (λ q. Grew share cur q (u.runqueue j)) (f.others j ne') (h.queues j ne)
      ];
      before = λ j lt'. h.before j (omega arith) ∙ f.others j (λ e. omega arith);
      own = h.own ∙ f.others self (λ e. away (sym e));
      threads = λ t.
          let change = sum_visited (occurrences t) f lt in
          omega (arith, change, h.threads t, f.threads t);
      lengths = let change = sum_visited length f lt in omega (arith, change, h.lengths, f.lengths);
      left = h.left;
      less = omega (arith, h.less, f.less);
      tight = λ all none'. let (a, b) = f.tight all none' in h.tight a b;
      full = elim (f.full) [
        | inl z ↦ inl (omega (arith, h.less))
        | inr much ↦ elim (h.full) [
          | inl z ↦ inl z
          | inr rest ↦ inr (λ j ge lt' ne. elim (ℕ_discrete j i) [
            | yes e ↦ rw (e, h.before i (omega arith)) much
            | no ne' ↦ rest j (omega (arith, ne')) lt' ne
          ])
        ]
      ];
      numcpus = h.numcpus ∙ f.numcpus;
    }

  pub sweep-Swept :
      (rounds i n : ℕ) (vs : List ℕ) (s : Cpus)
      → i + rounds ≡ top
      → n ≤ length vs
      → Ensures
          (Swept share cur self top i n vs s)
          (λ _ _. ⊥)
          (sweep share cur self rounds i n vs s)
  unfolding sweep
  sweep-Swept zero i n vs s e h = returns (ended i n vs s (inr (omega arith)))
  sweep-Swept (suc rounds) i n vs s sum' h = elim (Bool-cases (n == 0)) [
    | inl e ↦ rw e (returns (ended i n vs s (inl (ground arith))))
    | inr ne ↦ elim (Bool-cases (i == self)) [
      | inl e ↦
          rw (ne, e)
            (mono (sweep-Swept rounds (i + 1) n vs s (omega arith) h)
              (λ vs' u w. passed i n vs s (ground arith) w) (λ _ _ b. b))
      | inr away ↦
          rw (ne, away)
            (bind (fill-Filled share cur i n vs s h)
              (λ p v f.
                mono (sweep-Swept rounds (i + 1) p.0 p.1 v (omega arith) (f.left))
                  (λ vs' u w. visited i n vs s (omega arith) (λ e. ground arith) f w) (λ _ _ b. b))
              (λ _ _ b. b))
    ]
  ]
