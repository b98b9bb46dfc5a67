-- ===== src/Sfs/Inode/Table.antt =====
-- The table of the vnodes in memory: when it is well-formed, and the search of sfs_loadvnode in it.
use os161_testbed.Common.{
  ℕ, ◌+◌, ◌%◌, ◌^◌, ◌<◌, ◌≡◌, ◌≢◌, refl, sym, true, false, List, [], ◌∷◌, ◌++◌, Option, none, some,
  ◌==◌, if◌then◌else◌, arith, ◌⊎◌, inl, inr, Bool-cases,
}
use os161_testbed.Common.Run.{done}
use os161_testbed.Sfs.State.{Sfs}
use os161_testbed.Sfs.Balloc.Volume.{IsVolume, in_use}
use os161_testbed.Sfs.Balloc.Free.{bused-eq-done}
use os161_testbed.Sfs.Inode.{Loaded, incref, find_loaded}

-- No vnode of the table has the inode `ino` or the address `addr`.
abbrev pub Away : (ino addr : ℕ) → List Loaded → Type 0
Away ino addr [] = Unit
Away ino addr (l ∷ ls) = (l.sv.ino ≢ ino) × (l.addr ≢ addr) × Away ino addr ls

-- No vnode of the table has the inode `ino`.
abbrev pub NoIno : (ino : ℕ) → List Loaded → Type 0
NoIno ino [] = Unit
NoIno ino (l ∷ ls) = (l.sv.ino ≢ ino) × NoIno ino ls

-- No vnode of the table is at the address `addr`.
abbrev pub NoAddr : (addr : ℕ) → List Loaded → Type 0
NoAddr addr [] = Unit
NoAddr addr (l ∷ ls) = (l.addr ≢ addr) × NoAddr addr ls

-- Each vnode is of a block in use, is held, and is the only one of its inode and at its address.
abbrev pub IsTable : Sfs → List Loaded → Type 0
IsTable s [] = Unit
IsTable s (l ∷ ls) =
    (l.sv.ino < s.nblocks)
    × (in_use s l.sv.ino ≡ true)
    × (0 < l.refcount)
    × Away l.sv.ino l.addr ls
    × IsTable s ls

-- The vnode at `addr` is one of inode `ino`.
abbrev pub Resident : (ino addr : ℕ) → List Loaded → Type 0
Resident ino addr [] = ⊥
Resident ino addr (l ∷ ls) = ((l.sv.ino ≡ ino) × (l.addr ≡ addr)) ⊎ Resident ino addr ls

-- how many references all vnodes have
abbrev pub references : List Loaded → ℕ
references [] = 0
references (l ∷ ls) = l.refcount + references ls

-- what the search finds: the address, and the table with the count raised
unfoldable pub found : (ino : ℕ) → List Loaded → Option (ℕ × List Loaded)
found ino [] = none
found ino (l ∷ ls) =
    let rest : Option (ℕ × List Loaded) = elim (found ino ls) [
      | none ↦ none
      | some p ↦ some (p.0, l ∷ p.1)
    ] in
    if l.sv.ino == ino then some (l.addr, incref l ∷ ls) else rest

-- What the search promises.
abbrev pub Found : Sfs → (ino : ℕ) → List Loaded → Option (ℕ × List Loaded) → Type 0
Found s ino ls none = NoIno ino ls
Found s ino ls (some (a, ls')) =
    IsTable s ls'
    × Resident ino a ls'
    × (references ls' ≡ references ls + 1)
    × ((i b : ℕ) → Away i b ls → Away i b ls')

pub found-Found :
    (s : Sfs) (ino : ℕ) (ls : List Loaded)
    → IsTable s ls
    → references ls + 1 < 2 ^ 32
    → Found s ino ls (found ino ls)
unfolding found
found-Found s ino [] ok small = tt
found-Found s ino (l ∷ ls) ok small = elim (Bool-cases (l.sv.ino == ino)) [
  | inl e ↦
      let raised : (l.refcount + 1) % 2 ^ 32 ≡ l.refcount + 1 = omega arith in
      rw (e, raised)
        (
          (ok.0, ok.1, omega arith, ok.3, ok.4),
          inl (ground arith, refl),
          omega arith,
          λ i b away. away,
        )
  | inr ne ↦ rw ne (next ne (found ino ls) (found-Found s ino ls ok.4 (omega arith)))
]
  where
    next :
        (l.sv.ino == ino) ≡ false
        → (o : Option (ℕ × List Loaded)) → Found s ino ls o
        → Found s ino (l ∷ ls) (elim o [ none ↦ none | some p ↦ some (p.0, l ∷ p.1) ])
    next ne none h = (λ e. ground arith, h)
    next ne (some (a, ls')) (table, there, refs, keys) = (
      (ok.0, ok.1, ok.2, keys l.sv.ino l.addr ok.3, table),
      inr there,
      omega (arith, refs),
      λ i b away. (away.0, away.1, keys i b away.2),
    )

pub found-eq-none : (ino : ℕ) (ls : List Loaded) → NoIno ino ls → found ino ls ≡ none
unfolding found
found-eq-none ino [] away = refl
found-eq-none ino (l ∷ ls) away =
    let ne : (l.sv.ino == ino) ≡ false = ground (arith, away.0) in
    rw (ne, found-eq-none ino ls away.1) refl

-- The search finds the vnode, where the type to force is none or there is nothing to find.
pub find_loaded-eq-done :
    (s : Sfs) (ino forcetype : ℕ) (ls : List Loaded)
    → IsVolume s
    → IsTable s ls
    → (forcetype ≡ 0) ⊎ NoIno ino ls
    → find_loaded ino forcetype ls s ≡ done (found ino ls) s
unfolding found find_loaded
find_loaded-eq-done s ino forcetype [] vol ok may = refl
find_loaded-eq-done s ino forcetype (l ∷ ls) vol ok may =
    rw (bused-eq-done l.sv.ino vol ok.0, ok.1)
      (elim (Bool-cases (l.sv.ino == ino)) [
        | inl e ↦ rw e (elim may [ inl z ↦ rw z refl | inr away ↦ absurd (away.0 (ground arith)) ])
        | inr ne ↦
            rw
              (
                ne,
                find_loaded-eq-done s ino forcetype ls vol ok.4
                    (elim may [ inl z ↦ inl z | inr away ↦ inr away.1 ]),
              )
              refl
      ])

Away-append :
    (l : Loaded) (ino addr : ℕ) (ls : List Loaded)
    → l.sv.ino ≢ ino
    → l.addr ≢ addr
    → Away ino addr ls
    → Away ino addr (ls ++ l ∷ [])
Away-append l ino addr [] ni na away = (ni, na, tt)
Away-append l ino addr (x ∷ ls) ni na away =
    (away.0, away.1, Away-append l ino addr ls ni na away.2)

-- A new vnode goes to the end of the table.
pub IsTable-append :
    (s : Sfs) (ls : List Loaded) (l : Loaded)
    → IsTable s ls
    → l.sv.ino < s.nblocks
    → in_use s l.sv.ino ≡ true
    → 0 < l.refcount
    → NoIno l.sv.ino ls
    → NoAddr l.addr ls
    → IsTable s (ls ++ l ∷ [])
IsTable-append s [] l ok lt on held noino noaddr = (lt, on, held, tt, tt)
IsTable-append s (x ∷ ls) l ok lt on held noino noaddr = (
  ok.0,
  ok.1,
  ok.2,
  Away-append l x.sv.ino x.addr ls (λ e. noino.0 (sym e)) (λ e. noaddr.0 (sym e)) ok.3,
  IsTable-append s ls l ok.4 lt on held noino.1 noaddr.1,
)

pub Resident-append : (ls : List Loaded) (l : Loaded) → Resident l.sv.ino l.addr (ls ++ l ∷ [])
Resident-append [] l = inl (refl, refl)
Resident-append (x ∷ ls) l = inr (Resident-append ls l)

pub references-append :
    (ls : List Loaded) (l : Loaded) → references (ls ++ l ∷ []) ≡ references ls + l.refcount
references-append [] l = omega arith
references-append (x ∷ ls) l = omega (arith, references-append ls l)
