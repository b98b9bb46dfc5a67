-- ===== src/Thread/Spl.antt =====
-- os161/kern/thread/spl.c: interrupt levels. A cpu is what the calls read and change of the current
-- thread and of the processor; `exists` is CURCPU_EXISTS().
pub mod Level
use os161_testbed.Common.{ℕ, ◌+◌, ◌-◌, ◌%◌, ◌^◌, Bool, true, false, not, ltb, ◌==◌, if◌then◌else◌}
use os161_testbed.Common.Run.{
  Run, done, fail, panic, fault, stuck, Cmd, ◌>>=◌, ◌>>◌, and_then, kassert,
}

pub record Cpu : Type 0 where
  pub exists : Bool
  -- interrupts are on
  pub irq : Bool
  -- t_iplhigh_count, an int: a negative one would be its two's complement
  pub iplhigh_count : ℕ
  -- t_curspl
  pub curspl : ℕ

abbrev pub ipl_none : ℕ
ipl_none = 0

abbrev pub ipl_high : ℕ
ipl_high = 1

-- the count after a raise, and interrupts off on the first
unfoldable pub raised : Cpu → Cpu
raised c = record c {
  irq = if c.iplhigh_count == 0 then false else c.irq;
  iplhigh_count = (c.iplhigh_count + 1) % 2 ^ 32;
}

-- the count after a lower, and interrupts on again on the last
unfoldable pub lowered : Cpu → Cpu
lowered c =
    let count = (c.iplhigh_count + 2 ^ 32 - 1) % 2 ^ 32 in
    record c { irq = if count == 0 then true else c.irq; iplhigh_count = count }

raise_count : Cmd Cpu (Unit {0})
raise_count c = done tt (if c.exists then raised c else c)

lower_count : Cmd Cpu (Unit {0})
lower_count c = done tt (if c.exists then lowered c else c)

-- splraise(oldspl, newspl)
unfoldable pub splraise : (oldspl newspl : ℕ) → Cmd Cpu (Unit {0})
unfolding raised raise_count
splraise oldspl newspl = do kassert (oldspl == ipl_none); kassert (newspl == ipl_high); raise_count

-- spllower(oldspl, newspl)
unfoldable pub spllower : (oldspl newspl : ℕ) → Cmd Cpu (Unit {0})
unfolding lowered lower_count
spllower oldspl newspl = do kassert (oldspl == ipl_high); kassert (newspl == ipl_none); lower_count

-- cur->t_curspl = spl
unfoldable pub set_level : ℕ → Cmd Cpu (Unit {0})
set_level spl c = done tt (record c { curspl = spl })

-- splx(spl); the answer is the old level
unfoldable pub splx : (spl : ℕ) → Cmd Cpu ℕ
unfolding set_level
splx spl c =
    let old = c.curspl in
    if not (c.exists)
    then done spl c
    else if ltb old spl
    then (do splraise old spl; set_level spl; done old) c
    else if ltb spl old
    then (do set_level spl; spllower old spl; done old) c
    else done spl c
