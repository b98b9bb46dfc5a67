-- ===== src/Thread/Spl/Level.antt =====
-- Interrupts are off exactly while the level is raised, by the thread or by a spinlock.
use os161_testbed.Common.{
  ℕ, zero, suc, ◌+◌, ◌^◌, ◌≤◌, ◌<◌, ◌≡◌, refl, sym, subst, ◌∙◌, ◌↔◌, true, false, ◌==◌, arith,
  Bool-cases, inl, inr,
}
use os161_testbed.Common.Run.{done, Ensures, returns, outcome}
use os161_testbed.Thread.Spl.{
  Cpu, set_level, raised, lowered, ipl_none, ipl_high, splraise, spllower, splx,
}

-- With `held` raises by spinlocks outstanding: the count is theirs and the thread's own, and interrupts
-- are on only at count 0.
pub record IsConsistent (held : ℕ) (c : Cpu) : Type 0 where
  pub alive : c.exists ≡ true
  pub own : c.curspl ≤ 1
  pub count : c.iplhigh_count ≡ c.curspl + held
  pub irq : c.irq ≡ (c.iplhigh_count == 0)

pub raised-IsConsistent :
    {c : Cpu} (held : ℕ)
    → IsConsistent held c
    → held + 2 < 2 ^ 32
    → IsConsistent (held + 1) (raised c)
unfolding raised
raised-IsConsistent {c} held ok room = record {
  alive = ok.alive;
  own = ok.own;
  count = omega (arith, ok.own, ok.count);
  irq = grind (arith, ok.own, ok.count, ok.irq);
}

pub lowered-IsConsistent :
    {c : Cpu} (held : ℕ)
    → IsConsistent (held + 1) c
    → held + 2 < 2 ^ 32
    → IsConsistent held (lowered c)
unfolding lowered
lowered-IsConsistent {c} held ok room = record {
  alive = ok.alive;
  own = ok.own;
  count = omega (arith, ok.own, ok.count);
  irq = grind (arith, ok.own, ok.count, ok.irq);
}

raised-curspl : (c : Cpu) → (raised c).curspl ≡ c.curspl
unfolding raised
raised-curspl c = refl

lowered-curspl : (c : Cpu) → (lowered c).curspl ≡ c.curspl
unfolding lowered
lowered-curspl c = refl

pub splraise-eq-done :
    (c : Cpu) → c.exists ≡ true → splraise ipl_none ipl_high c ≡ done tt (raised c)
unfolding splraise
splraise-eq-done c alive = rw alive refl

pub spllower-eq-done :
    (c : Cpu) → c.exists ≡ true → spllower ipl_high ipl_none c ≡ done tt (lowered c)
unfolding spllower
spllower-eq-done c alive = rw alive refl

relevel-IsConsistent :
    {c : Cpu} {held : ℕ} (spl held' : ℕ)
    → IsConsistent held c
    → spl ≤ 1
    → c.curspl + held ≡ spl + held'
    → IsConsistent held' (record c { curspl = spl })
relevel-IsConsistent spl held' ok small same = record {
  alive = ok.alive;
  own = small;
  count = omega (arith, same, ok.count);
  irq = ok.irq;
}

splx_up :
    (c : Cpu)
    → c.exists ≡ true
    → c.curspl ≡ 0
    → splx 1 c ≡ done 0 (record (raised c) { curspl = 1 })
unfolding splx set_level
splx_up c alive low =
    rw (alive, low) (rw (splraise-eq-done (record c { exists = true; curspl = 0 }) refl) refl)

splx_down :
    (c : Cpu)
    → c.exists ≡ true
    → c.curspl ≡ 1
    → splx 0 c ≡ done 1 (lowered (record c { curspl = 0 }))
unfolding splx set_level
splx_down c alive high =
    rw (alive, high) (rw (spllower-eq-done (record c { exists = true; curspl = 0 }) refl) refl)

splx_same : (c : Cpu) (spl : ℕ) → c.exists ≡ true → c.curspl ≡ spl → splx spl c ≡ done spl c
unfolding splx
splx_same c spl alive level = ground arith

-- What splx leaves: the old level is answered, the new one set.
pub record Moved (held : ℕ) (spl : ℕ) (c : Cpu) (old : ℕ) (d : Cpu) : Type 0 where
  pub answer : old ≡ c.curspl
  pub level : d.curspl ≡ spl
  pub consistent : IsConsistent held d

-- splx to level 0 or 1, from a consistent state, answers the old level, sets the new one, and leaves a
-- consistent state.
pub splx-Moved :
    {c : Cpu} (held spl : ℕ)
    → IsConsistent held c
    → spl ≤ 1
    → held + 2 < 2 ^ 32
    → Ensures (Moved held spl c) (λ _ _. ⊥) (splx spl c)
splx-Moved {c} held spl ok hs room = elim (Bool-cases (c.curspl == spl)) [
  | inl same ↦
      let level : c.curspl ≡ spl = ground arith in
      rw (splx_same c spl ok.alive level)
        (returns (record { answer = sym level; level = level; consistent = ok }))
  | inr other ↦ change spl hs other
]
  where
    change :
        (spl : ℕ)
        → spl ≤ 1
        → (c.curspl == spl) ≡ false
        → Ensures (Moved held spl c) (λ _ _. ⊥) (splx spl c)
    change zero hs ne =
        let high : c.curspl ≡ 1 = grind (arith, ok.own, ne) in
        rw (splx_down c ok.alive high) (
          returns (record {
            answer = sym high;
            level = lowered-curspl _;
            consistent =
                lowered-IsConsistent held
                  (relevel-IsConsistent 0 (held + 1) ok (omega arith) (omega (arith, high))) room;
          }))
    change (suc zero) hs ne =
        let low : c.curspl ≡ 0 = grind (arith, ok.own, ne) in
        rw (splx_up c ok.alive low) (
          returns (record {
            answer = sym low;
            level = refl;
            consistent =
                relevel-IsConsistent 1 held (raised-IsConsistent held ok room) (omega arith)
                  (omega (arith, low, raised-curspl c));
          }))
    change (suc (suc n)) hs ne = absurd (omega arith)

-- Calls of one thread: spinlock_acquire and spinlock_release raise and lower, each lower after its
-- raise, and splx sets the thread's own level. The index counts the spinlocks held.
pub data Calls (c : Cpu) : ℕ → Cpu → Type 0 where
  start : Calls c 0 c
  acquires :
      {d e : Cpu} {held : ℕ}
      → Calls c held d
      → held + 2 < 2 ^ 32
      → splraise ipl_none ipl_high d ≡ done tt e
      → Calls c (held + 1) e
  releases :
      {d e : Cpu} (held : ℕ)
      → Calls c (held + 1) d
      → held + 2 < 2 ^ 32
      → spllower ipl_high ipl_none d ≡ done tt e
      → Calls c held e
  levels :
      {d e : Cpu} {held : ℕ} (spl old : ℕ)
      → Calls c held d
      → held + 2 < 2 ^ 32
      → spl ≤ 1
      → splx spl d ≡ done old e
      → Calls c held e

done_state : {A : Type 0} {a b : A} {d e : Cpu} → done a d ≡ done b e → d ≡ e
done_state p = cc

Calls-IsConsistent :
    {c d : Cpu} {held : ℕ} → IsConsistent 0 c → Calls c held d → IsConsistent held d
Calls-IsConsistent ok start = ok
Calls-IsConsistent ok (acquires {d} {held = held} r room e) =
    let h = Calls-IsConsistent ok r in
    subst (IsConsistent (held + 1)) (done_state (sym (splraise-eq-done d h.alive) ∙ e))
      (raised-IsConsistent held h room)
Calls-IsConsistent ok (releases {d} held r room e) =
    let h = Calls-IsConsistent ok r in
    subst (IsConsistent held) (done_state (sym (spllower-eq-done d h.alive) ∙ e))
      (lowered-IsConsistent held h room)
Calls-IsConsistent ok (levels {d} {held = held} spl old r room small e) =
    let h = Calls-IsConsistent ok r in
    Moved.consistent
      (outcome (subst (Ensures (Moved held spl d) (λ _ _. ⊥)) e (splx-Moved held spl h small room)))

-- From level 0 or 1 with no spinlock held, after any calls in which each spinlock release has an
-- acquire before it, interrupts are on exactly when the level is 0 and no spinlock is held.
pub irq-Calls :
    {c d : Cpu} (held : ℕ)
    → IsConsistent 0 c
    → Calls c held d
    → (d.irq ≡ true) ↔ ((d.curspl ≡ 0) × (held ≡ 0))
irq-Calls {c} {d} held ok r =
    let h = Calls-IsConsistent ok r in
    (
      λ on. (grind (arith, h.irq, h.count, on), grind (arith, h.irq, h.count, on)),
      λ p. grind (arith, h.irq, h.count, p.0, p.1),
    )
