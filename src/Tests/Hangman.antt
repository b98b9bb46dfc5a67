-- ===== src/Tests/Hangman.antt =====
-- Actor 1 holds lockable 5, and actor 2 waits for it; actor 2 holds lockable 6.
use os161_testbed.Common.{◌≡◌, ◌↔◌, ◌⊎◌, refl, none, some, arith, update}
use os161_testbed.Hangman.{State, walk, check, wait, acquire, ok, deadlock}
use os161_testbed.Hangman.Graph.{Reach, last, NoCycle}
use os161_testbed.Hangman.Check.{Exact, check-Exact}
use os161_testbed.Hangman.Safety.{
  Runs, start, then, waits, acquires, Runs-acyclic, wait-deadlock_iff,
}

abbrev idle : State
idle = record { waiting = λ _. none; holding = λ _. none }

idle-NoCycle : NoCycle idle
idle-NoCycle a = last refl

abbrev one_waits : State
one_waits = record idle { waiting = update idle.waiting 1 (some 5) }

abbrev one_holds : State
one_holds = record {
  waiting = update one_waits.waiting 1 none;
  holding = update idle.holding 5 (some 1);
}

abbrev two_waits : State
two_waits = record one_holds { waiting = update one_holds.waiting 2 (some 5) }

two_waits-Runs : Runs idle two_waits
unfolding wait acquire walk
two_waits-Runs =
    then {t = one_holds}
      (then {t = one_waits} (then {t = idle} start (waits 2 1 5 refl)) (acquires 1 5 refl))
      (waits 3 2 5 refl)

Runs-acyclic_example : ¬ (Reach two_waits 2 1)
Runs-acyclic_example = Runs-acyclic 2 1 idle-NoCycle two_waits-Runs refl

-- Actor 1 holds lockable 5: a wait of actor 1 for it is a deadlock.
abbrev held : State
held = record { waiting = λ _. none; holding = update (λ _. none) 5 (some 1) }

held-NoCycle : NoCycle held
held-NoCycle a = last refl

self_deadlock : wait 3 1 5 held ≡ deadlock
unfolding wait walk
self_deadlock = refl

check-Exact_example : Exact held 1 (some 1) (check 3 held 5 1)
unfolding held-NoCycle
check-Exact_example = check-Exact 1 5 3 held-NoCycle (omega arith)

wait-deadlock_iff_example :
    ((wait 3 1 5 held ≡ deadlock) ↔ Reach held 1 1)
    × ((wait 3 1 5 held ≡ deadlock)
        ⊎ (wait 3 1 5 held ≡ ok (record held { waiting = update held.waiting 1 (some 5) })))
unfolding held-NoCycle
wait-deadlock_iff_example = wait-deadlock_iff 3 1 5 held-NoCycle (omega arith) (omega arith) refl
