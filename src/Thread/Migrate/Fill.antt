-- ===== src/Thread/Migrate/Fill.antt =====
-- What the inner loop of thread_consider_migration does to the run queue of one cpu.
use os161_testbed.Common.{
  ℕ, zero, suc, ◌+◌, ◌≤◌, ◌≡◌, ◌≢◌, refl, ◌∙◌, true, false, List, [], ◌∷◌, ◌++◌, ltb, ◌==◌, arith,
  length, length-append, ◌⊎◌, inl, inr, Bool-cases, ==_refl,
}
use os161_testbed.Common.Run.{Ensures, returns, mono}
use os161_testbed.Thread.Migrate.{Cpus, fill, send}
use os161_testbed.Thread.Migrate.Sums.{occurrences, occurrences-append}

-- A run queue that may have got threads other than `cur`, up to a length of `share`.
pub record Grew (share cur : ℕ) (queue queue' : List ℕ) : Type 0 where
  pub current : occurrences cur queue' ≡ occurrences cur queue
  pub grown : length queue ≤ length queue'
  pub limit : (length queue' ≡ length queue) ⊎ (length queue' ≤ share)

pub Grew-refl : (share cur : ℕ) (queue : List ℕ) → Grew share cur queue queue
Grew-refl share cur queue = record { current = refl; grown = omega arith; limit = inl refl }

-- From `n` threads to send and the victims `vs` in `s`, to those of `p` in `u`, at cpu `c`.
pub record Filled (share cur c n : ℕ) (vs : List ℕ) (s : Cpus) (p : ℕ × List ℕ) (u : Cpus)
    : Type 0 where
  pub left : p.0 ≤ length p.1
  pub threads :
      (t : ℕ)
      → occurrences t p.1 + occurrences t (u.runqueue c)
        ≡ occurrences t vs + occurrences t (s.runqueue c)
  pub lengths : length p.1 + length (u.runqueue c) ≡ length vs + length (s.runqueue c)
  pub others : (j : ℕ) → j ≢ c → u.runqueue j ≡ s.runqueue j
  pub queue : Grew share cur (s.runqueue c) (u.runqueue c)
  pub less : p.0 ≤ n
  pub tight :
      n ≡ length vs → occurrences cur vs ≡ 0 → (p.0 ≡ length p.1) × (occurrences cur p.1 ≡ 0)
  pub full : (p.0 ≡ 0) ⊎ (share ≤ length (u.runqueue c))
  pub numcpus : u.numcpus ≡ s.numcpus

module _ (c t : ℕ) (s : Cpus) where
  extended : (send c t s).runqueue c ≡ s.runqueue c ++ t ∷ []
  extended = rw (==_refl c) refl

  longer : length ((send c t s).runqueue c) ≡ suc (length (s.runqueue c))
  longer = rw extended (omega (arith, length-append (s.runqueue c) (t ∷ [])))

  more_threads :
      (x : ℕ)
      → occurrences x ((send c t s).runqueue c)
        ≡ occurrences x (s.runqueue c) + occurrences x (t ∷ [])
  more_threads x = rw extended (occurrences-append x (s.runqueue c) (t ∷ []))

module _ (share cur c : ℕ) where
  stopped :
      (n : ℕ) (vs : List ℕ) (s : Cpus)
      → n ≤ length vs
      → (n ≡ 0) ⊎ (share ≤ length (s.runqueue c))
      → Filled share cur c n vs s (n, vs) s
  stopped n vs s h full = record {
    left = h;
    threads = λ t. refl;
    lengths = refl;
    others = λ j ne. refl;
    queue = Grew-refl share cur _;
    less = omega arith;
    tight = λ e none'. (e, none');
    full = full;
    numcpus = refl;
  }

  module _ (n t : ℕ) (ts : List ℕ) (s : Cpus) {p : ℕ × List ℕ} {u : Cpus} where
    -- curthread goes to the end of the victims
    skipped :
        (t == cur) ≡ true
        → Filled share cur c n (ts ++ t ∷ []) s p u
        → Filled share cur c (suc n) (t ∷ ts) s p u
    skipped e h = record {
      left = h.left;
      threads = λ x. h.threads x ∙ omega (arith, occurrences-append x ts (t ∷ []));
      lengths = h.lengths ∙ omega (arith, length-append ts (t ∷ []));
      others = h.others;
      queue = h.queue;
      less = omega (arith, h.less);
      tight = λ all none'. absurd (ground arith);
      full = h.full;
      numcpus = h.numcpus;
    }

    -- another thread goes to the end of the cpu's queue
    sent :
        (t == cur) ≡ false
        → ltb (length (s.runqueue c)) share ≡ true
        → Filled share cur c n ts (send c t s) p u
        → Filled share cur c (suc n) (t ∷ ts) s p u
    sent ne small h = record {
      left = h.left;
      threads = λ x. h.threads x ∙ omega (arith, more_threads c t s x);
      lengths = h.lengths ∙ omega (arith, longer c t s);
      others =
          λ j away. let away' : (c == j) ≡ false = ground arith in h.others j away ∙ rw away' refl;
      queue = record {
        current = h.queue.current ∙ more_threads c t s cur ∙ rw ne (omega arith);
        grown = omega (arith, h.queue.grown, longer c t s);
        limit = elim (h.queue.limit) [ inl e ↦ inr (ground (arith, longer c t s)) | inr e ↦ inr e ];
      };
      less = omega (arith, h.less);
      tight = λ all none'. h.tight (omega arith) (ground arith);
      full = h.full;
      numcpus = h.numcpus;
    }

  -- The loop ends without a fault.
  pub fill-Filled :
      (n : ℕ) (vs : List ℕ) (s : Cpus)
      → n ≤ length vs
      → Ensures (Filled share cur c n vs s) (λ _ _. ⊥) (fill share cur c n vs s)
  unfolding fill
  fill-Filled zero vs s h = returns (stopped zero vs s h (inl refl))
  fill-Filled (suc n) [] s h = absurd (omega arith)
  fill-Filled (suc n) (t ∷ ts) s h = elim (Bool-cases (ltb (length (s.runqueue c)) share)) [
    | inl small ↦ elim (Bool-cases (t == cur)) [
      | inl e ↦
          rw (small, e)
            (mono (fill-Filled n (ts ++ t ∷ []) s (omega (arith, length-append ts (t ∷ []))))
              (λ p u f. skipped n t ts s e f) (λ _ _ b. b))
      | inr ne ↦
          rw (small, ne)
            (mono (fill-Filled n ts (send c t s) (omega arith)) (λ p u f. sent n t ts s ne small f)
              (λ _ _ b. b))
    ]
    | inr big ↦ rw big (returns (stopped (suc n) (t ∷ ts) s h (inr (ground arith))))
  ]
