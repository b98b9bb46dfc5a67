-- ===== src/Hangman.antt =====
-- os161/kern/thread/hangman.c: the deadlock detector. Actors (threads and cpus) and lockables (locks
-- and spinlocks) are numbers; `a_waiting` and `l_holding` are maps from them, with `none` for NULL.
-- Every function runs under hangman_lock, so each is one atomic step; lockable 0 is the lock's own.
-- The walk along the graph takes fuel, and the printing before the panic is left out.
pub mod Graph
pub mod Check
pub mod Safety
use os161_testbed.Common.{
  ℕ, zero, suc, Option, none, some, Bool, true, false, ◌==◌, if◌then◌else◌, update,
}

pub record State : Type 0 where
  -- `a->a_waiting`
  pub waiting : ℕ → Option ℕ
  -- `l->l_holding`
  pub holding : ℕ → Option ℕ

-- `&hangman_lock.splk_hangman`
abbrev pub own_lockable : ℕ
own_lockable = 0

pub data Verdict : Type 0 where
  clear found out_of_fuel : Verdict

-- `while (cur != NULL) ...`
unfoldable pub walk : ℕ → State → (target : ℕ) → Option ℕ → Verdict
walk zero s target cur = out_of_fuel
walk (suc fuel) s target none = clear
walk (suc fuel) s target (some cur) = elim (cur == target) [
  | true ↦ found
  | false ↦ elim (s.waiting cur) [ none ↦ clear | some l ↦ walk fuel s target (s.holding l) ]
]

-- hangman_check(start, target)
abbrev pub check : ℕ → State → (start target : ℕ) → Verdict
check fuel s start target = walk fuel s target (s.holding start)

pub data Result : Type 0 where
  ok : State → Result
  -- panic("Deadlock.\n")
  deadlock : Result
  -- the other panics
  misuse : Result
  -- the walk did not end in the rounds given
  stuck : Result

wait_checked : Verdict → ℕ → ℕ → State → Result
wait_checked clear a l s = ok (record s { waiting = update s.waiting a (some l) })
wait_checked found a l s = deadlock
wait_checked out_of_fuel a l s = stuck

-- hangman_wait(a, l)
unfoldable pub wait : ℕ → (a l : ℕ) → State → Result
unfolding wait_checked
wait fuel a l s =
    if l == own_lockable
    then ok s
    else elim (s.waiting a) [ none ↦ wait_checked (check fuel s l a) a l s | some _ ↦ misuse ]

-- `p == x`, for a pointer that may be NULL
abbrev pub points_to : Option ℕ → ℕ → Bool
points_to none x = false
points_to (some y) x = y == x

-- hangman_acquire(a, l)
unfoldable pub acquire : (a l : ℕ) → State → Result
acquire a l s =
    if l == own_lockable
    then ok s
    else if points_to (s.waiting a) l
    then elim (s.holding l) [
      | none ↦
          ok (record s { holding = update s.holding l (some a); waiting = update s.waiting a none })
      | some _ ↦ misuse
    ]
    else misuse

-- hangman_release(a, l)
unfoldable pub release : (a l : ℕ) → State → Result
release a l s = if l == own_lockable then ok s else elim (s.waiting a) [
  | none ↦
      if points_to (s.holding l) a
      then ok (record s { holding = update s.holding l none })
      else misuse
  | some _ ↦ misuse
]
