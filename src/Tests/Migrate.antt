-- ===== src/Tests/Migrate.antt =====
-- Two cpus, the first with five threads and the second idle with none.
use os161_testbed.Common.{
  ℕ, ◌+◌, ◌*◌, ◌<◌, ◌≤◌, ◌≡◌, refl, arith, List, [], ◌∷◌, false, ◌==◌, if◌then◌else◌, length,
}
use os161_testbed.Common.Run.{Run, done, Ensures}
use os161_testbed.Thread.Migrate.{
  Cpus, consider_migration, one_share, counts, sweep, fill, take_victims, migrate, put_back,
}
use os161_testbed.Thread.Migrate.Sweep.{waiting}
use os161_testbed.Thread.Migrate.Safety.{
  Migrated, consider_migration-Migrated, consider_migration-level,
}

abbrev busy : Cpus
busy = record {
  numcpus = 2;
  runqueue = λ c. if c == 0 then 1 ∷ 2 ∷ 3 ∷ 4 ∷ 5 ∷ [] else [];
  isidle = λ c. c == 1;
  unidle = λ _. false;
  t_cpu = λ _. 0;
}

queues_of : Run Cpus (Unit {0}) → List (List ℕ)
queues_of (done _ s) = s.runqueue 0 ∷ s.runqueue 1 ∷ []
queues_of _ = []

-- Half of the threads move, but not thread 5, which is the current one.
consider_migration_run :
    queues_of (consider_migration 5 0 busy) ≡ (1 ∷ 2 ∷ 3 ∷ 5 ∷ []) ∷ (4 ∷ []) ∷ []
unfolding queues_of consider_migration one_share counts sweep fill take_victims migrate put_back
consider_migration_run = refl

consider_migration-Migrated_example :
    Ensures (λ _ u. Migrated 5 0 (one_share 0 busy) busy u) (λ _ _. ⊥) (consider_migration 5 0 busy)
consider_migration-Migrated_example = consider_migration-Migrated 5 0 busy (omega arith)

consider_migration-level_example :
    Ensures
      (λ _ u.
        (length (u.runqueue 0) ≡ one_share 0 busy)
        × (waiting busy.numcpus busy ≤ one_share 0 busy * busy.numcpus)
        × (one_share 0 busy * busy.numcpus < waiting busy.numcpus busy + busy.numcpus))
      (λ _ _. ⊥)
      (consider_migration 9 0 busy)
unfolding one_share counts
consider_migration-level_example =
    consider_migration-level 9 0 busy (omega arith) (omega arith) refl (omega arith)
