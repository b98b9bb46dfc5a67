-- ===== src/Thread/Migrate.antt =====
-- thread_consider_migration of os161/kern/thread/thread.c. A run queue is the list of its threads, which
-- threadlist.c keeps; `self` is curcpu and `cur` is curthread. The other cpus stand still during the call.
pub mod Sums
pub mod Fill
pub mod Sweep
pub mod Take
pub mod Safety
use os161_testbed.Common.{
  ℕ, zero, suc, ◌+◌, ◌-◌, ◌*◌, ◌/◌, ◌%◌, ◌^◌, Bool, true, false, List, [], ◌∷◌, ◌++◌, Option, none,
  some, ltb, ◌==◌, if◌then◌else◌, length, update,
}
use os161_testbed.Common.Run.{Run, done, fail, panic, fault, stuck, Cmd, and_then}

-- allcpus, and what the call reads and changes of each struct cpu and struct thread
pub record Cpus : Type 0 where
  pub numcpus : ℕ
  pub runqueue : ℕ → List ℕ
  pub isidle : ℕ → Bool
  -- IPI_UNIDLE is pending
  pub unidle : ℕ → Bool
  pub t_cpu : ℕ → ℕ

-- my_count and total_count after the cpus below `n`
unfoldable pub counts : (self n : ℕ) → Cpus → ℕ × ℕ
counts self zero s = (0, 0)
counts self (suc n) s =
    let (my_count, total_count) = counts self n s in
    let tl_count = length (s.runqueue n) in
    (if n == self then tl_count else my_count, (total_count + tl_count) % 2 ^ 32)

-- DIVROUNDUP(total_count, numcpus), with numcpus not zero
unfoldable pub one_share : (self : ℕ) → Cpus → ℕ
one_share self s = ((counts self s.numcpus s).1 + s.numcpus + 2 ^ 32 - 1) % 2 ^ 32 / s.numcpus

-- threadlist_remtail
abbrev pub cut_tail : List ℕ → Option (ℕ × List ℕ)
cut_tail [] = none
cut_tail (t ∷ ts) = elim (cut_tail ts) [ none ↦ some (t, []) | some p ↦ some (p.0, t ∷ p.1) ]

-- for (i=0; i<to_send; i++): from the tail of the run queue to the head of `victims`
unfoldable pub take_victims : (to_send : ℕ) → (queue victims : List ℕ) → Option (List ℕ × List ℕ)
take_victims zero queue victims = some (queue, victims)
take_victims (suc n) queue victims = elim (cut_tail queue) [
  | none ↦ none
  | some p ↦ take_victims n p.1 (p.0 ∷ victims)
]

-- t->t_cpu = c, threadlist_addtail, and ipi_send to a cpu that is idle
abbrev pub send : (c t : ℕ) → Cpus → Cpus
send c t s = record s {
  runqueue = update s.runqueue c (s.runqueue c ++ t ∷ []);
  unidle = if s.isidle c then update s.unidle c true else s.unidle;
  t_cpu = update s.t_cpu t c;
}

-- while (c->c_runqueue.tl_count < one_share && to_send > 0); the answer is to_send and the victims
unfoldable pub fill : (share cur c to_send : ℕ) → (victims : List ℕ) → Cmd Cpus (ℕ × List ℕ)
fill share cur c zero victims s = done (0, victims) s
fill share cur c (suc n) [] s =
    if ltb (length (s.runqueue c)) share then fault else done (suc n, []) s
fill share cur c (suc n) (t ∷ ts) s =
    let skipped = fill share cur c n (ts ++ t ∷ []) s in
    let sent = fill share cur c n ts (send c t s) in
    if ltb (length (s.runqueue c)) share
    then if t == cur then skipped else sent
    else done (suc n, t ∷ ts) s

-- for (i=0; i < numcpus && to_send > 0; i++), with the rounds left
unfoldable pub sweep :
    (share cur self rounds i to_send : ℕ) → (victims : List ℕ) → Cmd Cpus (List ℕ)
sweep share cur self zero i to_send victims s = done victims s
sweep share cur self (suc rounds) i to_send victims s =
    let skipped = sweep share cur self rounds (i + 1) to_send victims s in
    let filled =
      and_then (fill share cur i to_send victims s)
        (λ p. sweep share cur self rounds (i + 1) p.0 p.1) in
    if to_send == 0 then done victims s else if i == self then skipped else filled

abbrev pub set_queue : (self : ℕ) → List ℕ → Cpus → Cpus
set_queue self queue s = record s { runqueue = update s.runqueue self queue }

-- the victims that are left go back on the own run queue
unfoldable pub put_back : (self : ℕ) → List ℕ → Cmd Cpus (Unit {0})
put_back self victims s = done tt (set_queue self (s.runqueue self ++ victims) s)

unfoldable pub migrate :
    (share cur self to_send : ℕ) → Option (List ℕ × List ℕ) → Cmd Cpus (Unit {0})
migrate share cur self to_send none s = fault
migrate share cur self to_send (some p) s =
    and_then (sweep share cur self s.numcpus 0 to_send p.1 (set_queue self p.0 s)) (put_back self)

unfoldable pub consider_migration : (cur self : ℕ) → Cmd Cpus (Unit {0})
unfolding put_back migrate
consider_migration cur self s =
    let share = one_share self s in
    let my_count = (counts self s.numcpus s).0 in
    if s.numcpus == 0
    then fault
    else if ltb my_count share
    then done tt s
    else migrate share cur self (my_count - share)
        (take_victims (my_count - share) (s.runqueue self) []) s
