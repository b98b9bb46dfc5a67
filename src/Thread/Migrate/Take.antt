-- ===== src/Thread/Migrate/Take.antt =====
-- The first part of thread_consider_migration: the counts, the share, and the victims.
use os161_testbed.Common.{
  ℕ, zero, suc, ◌+◌, ◌-◌, ◌*◌, ◌%◌, ◌^◌, ◌<◌, ◌≤◌, ◌≡◌, ℕ_discrete, ◌/◌, refl, ◌∙◌, sym, ap, List,
  [], ◌∷◌, ◌++◌, none, some, arith, length, length-append, ◌==◌, ==_refl, false,
}
use mathlib.Core.List.{append_assoc}
use os161_testbed.Thread.Migrate.{Cpus, counts, one_share, cut_tail, take_victims}
use os161_testbed.Thread.Migrate.Sweep.{waiting}

-- The last thread of a queue that is not empty.
record HasTail (queue : List ℕ) : Type 0 where
  last : ℕ
  rest : List ℕ
  taken : cut_tail queue ≡ some (last, rest)
  whole : queue ≡ rest ++ last ∷ []

cut_tail-HasTail : (t : ℕ) (ts : List ℕ) → HasTail (t ∷ ts)
cut_tail-HasTail t [] = record { last = t; rest = []; taken = refl; whole = refl }
cut_tail-HasTail t (x ∷ ts) =
    let h = cut_tail-HasTail x ts in
    record {
      last = h.last;
      rest = t ∷ h.rest;
      taken = rw (h.taken) refl;
      whole = ap (λ r. t ∷ r) (h.whole);
    }

-- The queue loses its last `n` threads, which stand before the victims in their order.
pub record Taken (n : ℕ) (queue victims : List ℕ) : Type 0 where
  pub queue' : List ℕ
  pub victims' : List ℕ
  pub taken : take_victims n queue victims ≡ some (queue', victims')
  pub whole : queue' ++ victims' ≡ queue ++ victims
  pub lengths : length queue' + n ≡ length queue

take_victims-next :
    {p : ℕ × List ℕ} {r : List ℕ × List ℕ} (q : List ℕ) (n : ℕ) (victims : List ℕ)
    → cut_tail q ≡ some p
    → take_victims n p.1 (p.0 ∷ victims) ≡ some r
    → take_victims (suc n) q victims ≡ some r
unfolding take_victims
take_victims-next {p = p} q n victims e f =
    ap (λ o. elim o [ none ↦ none | some x ↦ take_victims n x.1 (x.0 ∷ victims) ]) e ∙ f

pub take_victims-Taken : (n : ℕ) (queue victims : List ℕ) → n ≤ length queue → Taken n queue victims
unfolding take_victims
take_victims-Taken zero queue victims h = record {
  queue' = queue;
  victims' = victims;
  taken = refl;
  whole = refl;
  lengths = omega arith;
}
take_victims-Taken (suc n) [] victims h = absurd (omega arith)
take_victims-Taken (suc n) (t ∷ ts) victims h =
    let last = cut_tail-HasTail t ts in
    let size : length (t ∷ ts) ≡ length last.rest + 1 =
      ap length last.whole ∙ length-append last.rest (last.last ∷ []) in
    let r = take_victims-Taken n last.rest (last.last ∷ victims) (omega (arith, size)) in
    record {
      queue' = r.queue';
      victims' = r.victims';
      taken = take_victims-next (t ∷ ts) n victims last.taken r.taken;
      whole =
          r.whole
          ∙ sym (append_assoc last.rest (last.last ∷ []) victims)
          ∙ ap (λ q. q ++ victims) (sym last.whole);
      lengths = omega (arith, size, r.lengths);
    }

-- the loop that counts
pub counts-own : (self n : ℕ) (s : Cpus) → self < n → (counts self n s).0 ≡ length (s.runqueue self)
unfolding counts
counts-own self zero s lt = absurd (omega arith)
counts-own self (suc n) s lt = elim (ℕ_discrete n self) [
  | yes e ↦ rw (e, ==_refl self) refl
  | no ne ↦
      let ne' : (n == self) ≡ false = ground arith in
      rw ne' (counts-own self n s (omega (arith, ne)))
]

pub counts-all : (self n : ℕ) (s : Cpus) → waiting n s < 2 ^ 32 → (counts self n s).1 ≡ waiting n s
unfolding counts
counts-all self zero s small = refl
counts-all self (suc n) s small = rw (counts-all self n s (omega arith)) (omega arith)

round_up : (a n : ℕ) → 0 < n → (a ≤ (a + n - 1) / n * n) × ((a + n - 1) / n * n < a + n)
round_up a n h = (grind arith, grind arith)

-- The share is the mean number of waiting threads, rounded up.
pub one_share-Mean :
    (self : ℕ) (s : Cpus)
    → 0 < s.numcpus
    → waiting s.numcpus s + s.numcpus ≤ 2 ^ 32
    → (waiting s.numcpus s ≤ one_share self s * s.numcpus)
      × (one_share self s * s.numcpus < waiting s.numcpus s + s.numcpus)
unfolding one_share
one_share-Mean self s some' small =
    let total = waiting s.numcpus s in
    let small' : (total + s.numcpus + 2 ^ 32 - 1) % 2 ^ 32 ≡ total + s.numcpus - 1 = omega arith in
    rw (counts-all self s.numcpus s (omega arith), small') (round_up total s.numcpus some')
