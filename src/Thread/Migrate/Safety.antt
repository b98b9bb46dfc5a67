-- ===== src/Thread/Migrate/Safety.antt =====
-- What thread_consider_migration as a whole does to the run queues of all cpus.
use os161_testbed.Common.{
  ℕ, ◌+◌, ◌-◌, ◌*◌, ◌^◌, ◌<◌, ◌≤◌, ◌≡◌, ◌≢◌, refl, ◌∙◌, ap, subst, true, false, List, [], ◌++◌, ltb,
  ◌==◌, arith, length, length-append, inl, inr, Bool-cases, ==_refl, ℕ_discrete,
}
use os161_testbed.Common.Run.{done, Ensures, returns, bind, and_then}
use os161_testbed.Thread.Migrate.{
  Cpus, consider_migration, one_share, sweep, set_queue, put_back, migrate,
}
use os161_testbed.Thread.Migrate.Sums.{
  occurrences, occurrences-append, sum, sum_mono, sum-change, sum-const,
}
use os161_testbed.Thread.Migrate.Fill.{Grew, Grew-refl}
use os161_testbed.Thread.Migrate.Sweep.{queued, waiting, Swept, sweep-Swept}
use os161_testbed.Thread.Migrate.Take.{Taken, take_victims-Taken, counts-own, one_share-Mean}

-- From `s` to `u`, with a share of `share`, run on cpu `self` by thread `cur`.
pub record Migrated (cur self share : ℕ) (s u : Cpus) : Type 0 where
  pub threads : (t : ℕ) → queued s.numcpus t u ≡ queued s.numcpus t s
  pub queues : (j : ℕ) → j ≢ self → Grew share cur (s.runqueue j) (u.runqueue j)
  pub numcpus : u.numcpus ≡ s.numcpus

own_queue : (self : ℕ) (q : List ℕ) (s : Cpus) → (set_queue self q s).runqueue self ≡ q
own_queue self q s = rw (==_refl self) refl

other_queue :
    (self : ℕ) (q : List ℕ) (s : Cpus) (j : ℕ)
    → j ≢ self
    → (set_queue self q s).runqueue j ≡ s.runqueue j
other_queue self q s j ne = let ne' : (self == j) ≡ false = ground arith in rw ne' refl

sum-set_queue :
    (self n : ℕ) (q : List ℕ) (s : Cpus) (g : List ℕ → ℕ)
    → self < n
    → sum n (λ j. g ((set_queue self q s).runqueue j)) + g (s.runqueue self)
      ≡ sum n (λ j. g (s.runqueue j)) + g q
sum-set_queue self n q s g lt =
    let change =
      sum-change n self (λ j. g ((set_queue self q s).runqueue j)) (λ j. g (s.runqueue j)) lt
        (λ j ne. ap g (other_queue self q s j ne)) in
    change ∙ ap (λ x. sum n (λ j. g (s.runqueue j)) + g x) (own_queue self q s)

-- The cpus after the victims that are left are back on the own queue.
abbrev final : (self : ℕ) → List ℕ → Cpus → Cpus
final self vs' u = set_queue self (u.runqueue self ++ vs') u

module _ {cur self share n : ℕ} (s : Cpus) {u : Cpus} {vs' : List ℕ} (lt : self < s.numcpus)
    (k : Taken n (s.runqueue self) [])
    (w : Swept share cur self s.numcpus 0 n k.victims' (set_queue self k.queue' s) vs' u) where
  kept : u.runqueue self ≡ k.queue'
  kept = w.own ∙ own_queue self k.queue' s

  -- what a measure of lists, additive on `++`, has on the two parts of the own queue
  parts :
      (g : List ℕ → ℕ)
      → g [] ≡ 0
      → ((xs ys : List ℕ) → g (xs ++ ys) ≡ g xs + g ys)
      → g k.queue' + g k.victims' ≡ g (s.runqueue self)
  parts g z add = omega (arith, z, ap g k.whole, add k.queue' k.victims', add (s.runqueue self) [])

  conserved :
      (g : List ℕ → ℕ)
      → g [] ≡ 0
      → ((xs ys : List ℕ) → g (xs ++ ys) ≡ g xs + g ys)
      → g vs' + sum s.numcpus (λ j. g (u.runqueue j))
        ≡ g k.victims' + sum s.numcpus (λ j. g ((set_queue self k.queue' s).runqueue j))
      → sum s.numcpus (λ j. g ((final self vs' u).runqueue j))
        ≡ sum s.numcpus (λ j. g (s.runqueue j))
  conserved g z add h =
      let first = sum-set_queue self s.numcpus k.queue' s g lt in
      let last = sum-set_queue self s.numcpus (u.runqueue self ++ vs') u g lt in
      let joined = add (u.runqueue self) vs' in omega (arith, h, first, last, joined, parts g z add)

  final-Migrated : Migrated cur self share s (final self vs' u)
  final-Migrated = record {
    threads = λ t. conserved (occurrences t) refl (occurrences-append t) (w.threads t);
    queues = λ j ne. rw (other_queue self (u.runqueue self ++ vs') u j ne) (
        subst (λ q. Grew share cur q (u.runqueue j)) (other_queue self k.queue' s j ne)
          (w.queues j ne));
    numcpus = w.numcpus;
  }

  final-level :
      occurrences cur (s.runqueue self) ≡ 0
      → n + share ≡ length (s.runqueue self)
      → waiting s.numcpus s ≤ share * s.numcpus
      → length ((final self vs' u).runqueue self) ≡ share
  final-level none' size mean =
      let cut = parts length refl length-append in
      let few = parts (occurrences cur) refl (occurrences-append cur) in
      let tight = w.tight (omega (arith, cut, k.lengths)) (omega (arith, few)) in
      let all_sent : length vs' ≡ 0 = elim (w.full) [
        | inl z ↦ omega (arith, tight.0)
        | inr much ↦
            let each =
              sum_mono s.numcpus (λ _. share) (λ j. length (u.runqueue j))
                (λ j lt'. elim (ℕ_discrete j self) [
                  | yes e ↦ rw (e, kept) (omega (arith, k.lengths))
                  | no ne ↦ much j (omega arith) lt' ne
                ]) in
            let first = sum-set_queue self s.numcpus k.queue' s length lt in
            let flat : s.numcpus * share ≡ share * s.numcpus = grind arith in
            omega (arith, each, sum-const s.numcpus share, flat, first, w.lengths, k.lengths, cut)
      ] in
      own_length all_sent size
    where
      own_length :
          length vs' ≡ 0
          → n + share ≡ length (s.runqueue self)
          → length ((final self vs' u).runqueue self) ≡ share
      own_length z size' =
          rw (own_queue self (u.runqueue self ++ vs') u)
            (omega (arith, length-append (u.runqueue self) vs', ap length kept, k.lengths))

module _ (cur self : ℕ) (s : Cpus) (lt : self < s.numcpus) where
  small_share :
      ltb (length (s.runqueue self)) (one_share self s) ≡ true
      → consider_migration cur self s ≡ done tt s
  unfolding consider_migration
  small_share h =
      let some' : (s.numcpus == 0) ≡ false = ground arith in
      rw (some', counts-own self s.numcpus s lt, h) refl

  abbrev spare : ℕ
  spare = length (s.runqueue self) - one_share self s

  cut_off : Taken spare (s.runqueue self) []
  cut_off = take_victims-Taken spare (s.runqueue self) [] (omega arith)

  -- Above the share, the call is a sweep with the spare threads.
  sweeps :
      ltb (length (s.runqueue self)) (one_share self s) ≡ false
      → consider_migration cur self s
        ≡ and_then
            (sweep
              (one_share self s)
              cur
              self
              s.numcpus
              0
              spare
              cut_off.victims'
              (set_queue self cut_off.queue' s))
            (put_back self)
  unfolding consider_migration migrate
  sweeps h =
      let some' : (s.numcpus == 0) ≡ false = ground arith in
      rw (some', counts-own self s.numcpus s lt, h) (rw (cut_off.taken) refl)

  swept :
      Ensures
        (Swept
          (one_share self s)
          cur
          self
          s.numcpus
          0
          spare
          cut_off.victims'
          (set_queue self cut_off.queue' s))
        (λ _ _. ⊥)
        (sweep
          (one_share self s)
          cur
          self
          s.numcpus
          0
          spare
          cut_off.victims'
          (set_queue self cut_off.queue' s))
  swept =
      let cut = parts-length in
      sweep-Swept (one_share self s) cur self s.numcpus s.numcpus 0 spare cut_off.victims'
        (set_queue self cut_off.queue' s) (omega arith) (omega (arith, cut, cut_off.lengths))
    where
      parts-length : length cut_off.queue' + length cut_off.victims' ≡ length (s.runqueue self)
      parts-length = omega (
        arith,
        ap length cut_off.whole,
        length-append cut_off.queue' cut_off.victims',
        length-append (s.runqueue self) [],
      )

  -- The call ends without a fault, whatever the queues hold. No thread is lost or doubled. The queues of
  -- the other cpus only grow, never past the share by this, and never by the current thread.
  pub consider_migration-Migrated :
      Ensures
        (λ _ u. Migrated cur self (one_share self s) s u)
        (λ _ _. ⊥)
        (consider_migration cur self s)
  unfolding put_back
  consider_migration-Migrated =
      elim (Bool-cases (ltb (length (s.runqueue self)) (one_share self s))) [
        | inl h ↦ rw (small_share h) (
            returns
              (record { threads = λ t. refl; queues = λ j ne. Grew-refl _ cur _; numcpus = refl }))
        | inr h ↦
            rw (sweeps h)
              (bind swept (λ vs' u w. returns (final-Migrated s lt cut_off w)) (λ _ _ b. b))
      ]

  -- The other cpus stand still during the call. Where the counts do not wrap, the share is the mean,
  -- rounded up; a cpu that had at least its share, and on whose run queue its current thread is not, is left
  -- with exactly the share. (A current thread on the queue, or a cpu that gets threads between the loops,
  -- may leave more.)
  pub consider_migration-level :
      waiting s.numcpus s + s.numcpus ≤ 2 ^ 32
      → occurrences cur (s.runqueue self) ≡ 0
      → one_share self s ≤ length (s.runqueue self)
      → Ensures
          (λ _ u.
            (length (u.runqueue self) ≡ one_share self s)
            × (waiting s.numcpus s ≤ one_share self s * s.numcpus)
            × (one_share self s * s.numcpus < waiting s.numcpus s + s.numcpus))
          (λ _ _. ⊥)
          (consider_migration cur self s)
  unfolding put_back
  consider_migration-level small none' over =
      let mean = one_share-Mean self s (omega arith) small in
      let over' : ltb (length (s.runqueue self)) (one_share self s) ≡ false = ground arith in
      rw (sweeps over') (
        bind swept
          (λ vs' u w.
            returns (final-level s lt cut_off w none' (omega arith) mean.0, mean.0, mean.1))
          (λ _ _ b. b))
