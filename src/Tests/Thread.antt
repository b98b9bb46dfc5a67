-- ===== src/Tests/Thread.antt =====
-- A list that holds thread 1, and thread 2 on no list; a cpu at level 0 with interrupts on.
use os161_testbed.Common.{ℕ, ◌≡◌, ◌↔◌, refl, true, false, none, some, [], ◌∷◌, arith, update}
use os161_testbed.Common.Run.{Ensures}
use os161_testbed.Thread.Spl.{Cpu, splraise}
use os161_testbed.Thread.Spl.Level.{IsConsistent, Calls, start, acquires, irq-Calls}
use os161_testbed.Thread.List.{Store, addtail, remhead, remtail, remove, insertafter}
use os161_testbed.Thread.List.Holds.{Holds, Detached}
use os161_testbed.Thread.List.Ops.{
  addtail-Holds, Taken, remhead-Taken, remtail-Holds, remove-Holds, insertafter-Holds,
}

abbrev quiet : Cpu
quiet = record { exists = true; irq = true; iplhigh_count = 0; curspl = 0 }

quiet-IsConsistent : IsConsistent 0 quiet
quiet-IsConsistent = record { alive = refl; own = omega arith; count = refl; irq = refl }

abbrev one_spinlock : Cpu
one_spinlock = record { exists = true; irq = false; iplhigh_count = 1; curspl = 0 }

spinlock-Calls : Calls quiet 1 one_spinlock
unfolding splraise
spinlock-Calls = acquires start (omega arith) refl

-- the spinlocks held
abbrev held : ℕ
held = 1

irq-Calls_example : (one_spinlock.irq ≡ true) ↔ ((one_spinlock.curspl ≡ 0) × (held ≡ 0))
irq-Calls_example = irq-Calls held quiet-IsConsistent spinlock-Calls

abbrev listed : Store
listed = record {
  next = update (update (λ _. none) 0 (some 5)) 5 (some 1);
  prev = update (update (λ _. none) 1 (some 5)) 5 (some 0);
  self = update (update (λ _. none) 5 (some 1)) 8 (some 2);
  count = λ _. 1;
}

listed-Holds : Holds 0 (1 ∷ []) listed
listed-Holds = record {
  fwd = (refl, refl);
  bwd = (refl, refl);
  front = refl;
  back = refl;
  selves = (refl, tt);
  distinct = (tt, tt);
  count = refl;
}

two-Detached : Detached 2 listed
two-Detached = record { next = refl; prev = refl; self = refl }

addtail-Holds_example : Ensures (λ _ u. Holds 0 (1 ∷ 2 ∷ []) u) (λ _ _. ⊥) (addtail 0 2 listed)
addtail-Holds_example = addtail-Holds 0 2 (1 ∷ []) listed-Holds two-Detached (omega arith)

remhead-Taken_example : Ensures (Taken 0 (1 ∷ []) listed) (λ _ _. ⊥) (remhead 0 listed)
remhead-Taken_example = remhead-Taken 0 (1 ∷ []) listed-Holds (omega arith)

remtail-Holds_example :
    Ensures (λ r u. (r ≡ some 1) × Detached 1 u × Holds 0 [] u) (λ _ _. ⊥) (remtail 0 listed)
remtail-Holds_example = remtail-Holds 0 1 [] listed-Holds (omega arith)

remove-Holds_example : Ensures (λ _ u. Detached 1 u × Holds 0 [] u) (λ _ _. ⊥) (remove 0 1 listed)
remove-Holds_example = remove-Holds 0 1 [] [] listed-Holds (omega arith)

insertafter-Holds_example :
    Ensures (λ _ u. Holds 0 (1 ∷ 2 ∷ []) u) (λ _ _. ⊥) (insertafter 0 1 2 listed)
insertafter-Holds_example = insertafter-Holds 0 1 2 [] [] listed-Holds two-Detached (omega arith)
