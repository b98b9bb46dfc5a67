-- ===== src/Hangman/Safety.antt =====
-- No sequence of calls that hangman lets through closes a cycle of waits.
use os161_testbed.Common.{
  ℕ, suc, ◌<◌, none, some, ◌≡◌, ◌≢◌, ◌↔◌, refl, arith, ◌==◌, Option-cases, Bool-cases, inl, inr,
  false, ==_refl, ◌⊎◌, update,
}
use os161_testbed.Hangman.{
  State, Verdict, clear, found, out_of_fuel, wait, wait_checked, acquire, release, ok, deadlock,
  Result, misuse, stuck, own_lockable, points_to,
}
use os161_testbed.Hangman.Graph.{
  Reach, next, NoCycle, NoCycle-waits, NoCycle-Dropped, Dropped, acyclic,
}
use os161_testbed.Hangman.Check.{Leads, Exact, rounds, check-Exact, walk-clear}

-- What a call makes of a state without a cycle.
abbrev pub Keeps : Result → Type 0
Keeps (ok t) = NoCycle t
Keeps deadlock = Unit
Keeps misuse = Unit
Keeps stuck = ⊥

release-Dropped :
    (s : State) (l b : ℕ) → Dropped s (record s { holding = update s.holding l none }) b
release-Dropped s l b = elim (Option-cases (s.waiting b)) [
  | inl e ↦ inl (rw e)
  | inr (m, e) ↦ elim (Bool-cases (l == m)) [
    | inl p ↦ inl (rw (e, p))
    | inr ne ↦ inr (inl (rw (e, ne)))
  ]
]

acquire-Dropped :
    (s : State) (a l b : ℕ)
    → s.holding l ≡ none
    → Dropped s
        (record s { holding = update s.holding l (some a); waiting = update s.waiting a none })
        b
acquire-Dropped s a l b e = elim (Bool-cases (a == b)) [
  | inl p ↦ inl (rw p)
  | inr ne ↦ elim (Option-cases (s.waiting b)) [
    | inl f ↦ inl (rw (ne, f))
    | inr (m, f) ↦ elim (Bool-cases (l == m)) [
      | inl p ↦ inr (inr (a, rw (ne, f, p), rw (==_refl a)))
      | inr other ↦ inr (inl (rw (ne, f, other)))
    ]
  ]
]

-- hangman_release and hangman_acquire keep the graph free of cycles.
pub release-Keeps : (a l : ℕ) {s : State} → NoCycle s → Keeps (release a l s)
unfolding release
release-Keeps a l {s} h = elim (Bool-cases (l == own_lockable)) [
  | inl own ↦ rw (own, Keeps) h
  | inr other ↦ elim (Option-cases (s.waiting a)) [
    | inl idle ↦ elim (Bool-cases (points_to (s.holding l) a)) [
      | inl mine ↦ rw (other, idle, mine, Keeps) (NoCycle-Dropped (release-Dropped s l) h)
      | inr not_mine ↦ rw (other, idle, not_mine, Keeps) tt
    ]
    | inr (m, busy) ↦ rw (other, busy, Keeps) tt
  ]
]

pub acquire-Keeps : (a l : ℕ) {s : State} → NoCycle s → Keeps (acquire a l s)
unfolding acquire
acquire-Keeps a l {s} h = elim (Bool-cases (l == own_lockable)) [
  | inl own ↦ rw (own, Keeps) h
  | inr other ↦ elim (Bool-cases (points_to (s.waiting a) l)) [
    | inl for_it ↦ elim (Option-cases (s.holding l)) [
      | inl idle ↦
          rw (other, for_it, idle, Keeps) (NoCycle-Dropped (λ b. acquire-Dropped s a l b idle) h)
      | inr (b, held) ↦ rw (other, for_it, held, Keeps) tt
    ]
    | inr not_for_it ↦ rw (other, not_for_it, Keeps) tt
  ]
]

wait_checked-Keeps :
    (s : State) (a l : ℕ) (v : Verdict)
    → s.waiting a ≡ none
    → Exact s a (s.holding l) v
    → NoCycle s
    → Keeps (wait_checked v a l s)
unfolding wait_checked
wait_checked-Keeps s a l clear idle no_way h = NoCycle-waits s a l idle (λ c e. rw e at no_way) h
wait_checked-Keeps s a l found idle way h = tt
wait_checked-Keeps s a l out_of_fuel idle never h = never

pub wait-Keeps :
    (fuel a l : ℕ) {s : State} (h : NoCycle s)
    → rounds h (s.holding l) < suc fuel
    → Keeps (wait fuel a l s)
unfolding wait
wait-Keeps fuel a l {s} h lt = elim (Bool-cases (l == own_lockable)) [
  | inl own ↦ rw (own, Keeps) h
  | inr other ↦ elim (Option-cases (s.waiting a)) [
    | inl idle ↦
        rw (other, idle, Keeps) (wait_checked-Keeps s a l _ idle (check-Exact a l fuel h lt) h)
    | inr (m, busy) ↦ rw (other, busy, Keeps) tt
  ]
]

-- A call that hangman lets through.
pub data Step : State → State → Type 0 where
  waits : {s t : State} (fuel a l : ℕ) → wait fuel a l s ≡ ok t → Step s t
  acquires : {s t : State} (a l : ℕ) → acquire a l s ≡ ok t → Step s t
  releases : {s t : State} (a l : ℕ) → release a l s ≡ ok t → Step s t

pub data Runs (s : State) : State → Type 0 where
  start : Runs s s
  then : {t u : State} → Runs s t → Step t u → Runs s u

Keeps_ok : {r : Result} {t : State} → r ≡ ok t → Keeps r → NoCycle t
Keeps_ok e k = rw e at k

wait_checked-ok :
    (s : State) {t : State} (a l : ℕ) (v : Verdict)
    → s.waiting a ≡ none
    → (v ≡ clear → ¬ (Leads s a (s.holding l)))
    → NoCycle s
    → wait_checked v a l s ≡ ok t
    → NoCycle t
unfolding wait_checked
wait_checked-ok s a l clear idle way h e =
    Keeps_ok e (NoCycle-waits s a l idle (λ c f. rw f at (way refl)) h)
wait_checked-ok s a l found idle way h e = cc
wait_checked-ok s a l out_of_fuel idle way h e = cc

wait-ok : {s t : State} (fuel a l : ℕ) → NoCycle s → wait fuel a l s ≡ ok t → NoCycle t
unfolding wait
wait-ok {s} {t} fuel a l h e = elim (Bool-cases (l == own_lockable)) [
  | inl own ↦ Keeps_ok (rw own at e) h
  | inr other ↦ elim (Option-cases (s.waiting a)) [
    | inl idle ↦
        wait_checked-ok s a l _ idle (walk-clear s a fuel (s.holding l)) h (rw (other, idle) at e)
    | inr (m, busy) ↦ ok_misuse (rw (other, busy) at e)
  ]
]
  where
    ok_misuse : misuse ≡ ok t → NoCycle t
    ok_misuse p = cc

Step-NoCycle : {s t : State} → Step s t → NoCycle s → NoCycle t
Step-NoCycle (waits fuel a l e) h = wait-ok fuel a l h e
Step-NoCycle (acquires a l e) h = Keeps_ok e (acquire-Keeps a l h)
Step-NoCycle (releases a l e) h = Keeps_ok e (release-Keeps a l h)

Runs-NoCycle : {s t : State} → NoCycle s → Runs s t → NoCycle t
Runs-NoCycle h start = h
Runs-NoCycle h (then r st) = Step-NoCycle st (Runs-NoCycle h r)

-- From a state without a cycle of waits, no sequence of calls to hangman_wait, hangman_acquire and
-- hangman_release that all return leads to a state in which some actor waits, over one or more
-- edges, for itself.
pub Runs-acyclic :
    {s t : State} (a c : ℕ) → NoCycle s → Runs s t → next t a ≡ some c → ¬ (Reach t a c)
Runs-acyclic a c h r e = acyclic (Runs-NoCycle h r a) e

module _ (s : State) (a l : ℕ) where
  abbrev Verdicts : Result → Type 0
  Verdicts r =
      ((r ≡ deadlock) ↔ Leads s a (s.holding l))
      × ((r ≡ deadlock) ⊎ (r ≡ ok (record s { waiting = update s.waiting a (some l) })))

  wait_checked-Verdicts :
      (v : Verdict) → Exact s a (s.holding l) v → Verdicts (wait_checked v a l s)
  unfolding wait_checked
  wait_checked-Verdicts clear no_way = ((λ e. cc, λ way. absurd (no_way way)), inr refl)
  wait_checked-Verdicts found way = ((λ e. way, λ w. refl), inl refl)
  wait_checked-Verdicts out_of_fuel never = absurd never

-- In a state without a cycle, and with enough rounds for the chain of waits, hangman_wait of an idle
-- actor for a lockable other than hangman's own panics for a deadlock exactly when the holder of the
-- lockable is the actor or waits for it over some edges, and else returns with the wait recorded.
pub wait-deadlock_iff :
    (fuel a l : ℕ) {s : State} (h : NoCycle s)
    → rounds h (s.holding l) < suc fuel
    → l ≢ own_lockable
    → s.waiting a ≡ none
    → ((wait fuel a l s ≡ deadlock) ↔ Leads s a (s.holding l))
      × ((wait fuel a l s ≡ deadlock)
          ⊎ (wait fuel a l s ≡ ok (record s { waiting = update s.waiting a (some l) })))
unfolding wait
wait-deadlock_iff fuel a l {s} h lt ne idle =
    let other : (l == own_lockable) ≡ false = ground arith in
    rw (other, idle) (wait_checked-Verdicts s a l _ (check-Exact a l fuel h lt))
