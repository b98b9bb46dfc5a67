-- ===== src/Thread/Semaphore.antt =====
-- The semaphore of os161/kern/thread/synch.c over the wait channels of os161/kern/thread/thread.c. What P
-- and V do from spinlock_acquire to spinlock_release, or to thread_switch, is one step: no other thread
-- that takes the semaphore's spinlock runs meanwhile.
pub mod Steps
pub mod Invariant
use os161_testbed.Common.{
  ℕ, zero, suc, ◌+◌, ◌-◌, ◌%◌, ◌^◌, Bool, true, false, List, [], ◌∷◌, ◌++◌, Option, none, some,
  ◌==◌, ltb, if◌then◌else◌,
}
use os161_testbed.Common.Run.{
  Run, done, fail, panic, fault, stuck, Cmd, ◌>>=◌, ◌>>◌, and_then, kassert,
}

-- struct semaphore, with the threads on its wait channel
pub record Semaphore : Type 0 where
  pub count : ℕ
  pub wchan : List ℕ

-- wchan_sleep up to the switch: threadlist_addtail
unfoldable pub wchan_sleep : (t : ℕ) → Cmd Semaphore (Unit {0})
wchan_sleep t sem = done tt (record sem { wchan = sem.wchan ++ t ∷ [] })

-- wchan_wakeone: the answer is the thread that is made runnable
unfoldable pub wchan_wakeone : Cmd Semaphore (Option ℕ)
wchan_wakeone sem = elim (sem.wchan) [
  | [] ↦ done none sem
  | t ∷ ts ↦ done (some t) (record sem { wchan = ts })
]

-- wchan_wakeall: the threads that are made runnable, in order
unfoldable pub wchan_wakeall : Cmd Semaphore (List ℕ)
wchan_wakeall sem = done sem.wchan (record sem { wchan = [] })

-- A round of the loop of P by thread `t`, from where it holds the spinlock. The answer is whether P
-- returns; otherwise the thread sleeps, and its next round comes after it is made runnable.
unfoldable pub p_round : (t : ℕ) → Cmd Semaphore Bool
p_round t sem =
    if sem.count == 0
    then (do wchan_sleep t; done false) sem
    else (do kassert (ltb 0 sem.count); λ s. done true (record s { count = s.count - 1 })) sem

-- V
unfoldable pub v : Cmd Semaphore (Option ℕ)
v sem =
    let count = (sem.count + 1) % 2 ^ 32 in
    (do kassert (ltb 0 count); wchan_wakeone) (record sem { count = count })
