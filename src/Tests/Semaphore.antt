-- ===== src/Tests/Semaphore.antt =====
-- A semaphore of count 0: thread 1 sleeps in P, and a V wakes it.
use os161_testbed.Common.{◌+◌, ◌≡◌, refl, [], ◌∷◌, arith, ◌⊎◌}
use os161_testbed.Common.Run.{Ensures}
use os161_testbed.Thread.Semaphore.{p_round, v, wchan_sleep, wchan_wakeone}
use os161_testbed.Thread.Semaphore.Steps.{World, Reach, start, later, enters, sleeps, wakes}
use os161_testbed.Thread.Semaphore.Invariant.{Inv, Reach-Inv, each_round, each_round-awake}

abbrev woken : World
woken = record {
  sem = record { count = 1; wchan = [] };
  contending = 1 ∷ [];
  passed = 0;
  posted = 1;
}

woken-Reach : Reach 0 woken
unfolding p_round v wchan_sleep wchan_wakeone
woken-Reach =
    later
      (later (later start (enters 1 refl))
        (sleeps [] [] 1 (record { count = 0; wchan = 1 ∷ [] }) refl refl refl))
      (wakes 1 (record { count = 1; wchan = [] }) refl refl)

Reach-Inv_example : Inv 0 woken
Reach-Inv_example = Reach-Inv (omega arith) woken-Reach

each_round-awake_example :
    Ensures
      (λ k u. (k + u.count ≡ woken.sem.count) × ((u.count ≡ 0) ⊎ (u.wchan ≡ [])))
      (λ _ _. ⊥)
      (each_round woken.contending woken.sem)
each_round-awake_example = each_round-awake (omega arith) woken-Reach
