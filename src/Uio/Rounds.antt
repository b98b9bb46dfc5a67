-- ===== src/Uio/Rounds.antt =====
-- The loop of uiomove: each round does its part, and there are enough of them.
use os161_testbed.Common.{
  ℕ, zero, suc, ◌+◌, ◌-◌, ◌*◌, ◌%◌, ◌^◌, ◌≤◌, ◌<◌, ◌≡◌, sym, subst, false, true, List, [], ◌∷◌,
  ◌++◌, ◌==◌, ltb, length, arith, drop, drop_all, lt→ltb, le→not_ltb, length-append, Bool-cases,
  inl, inr,
}
use os161_testbed.Common.Run.{Ensures, returns, bind, mono}
use os161_testbed.Uio.{
  at_iovec, next_iovec, round, advance, guard_copy, iovec_after, Uio, Iovec, Direction, uiomove,
  move, sysspace, rounds,
}
use os161_testbed.Uio.Transfer.{
  ahead, Fresh, FreshTail, Moved, for_buffer, enough, request, length-drop, Moved-nothing,
  Moved-next, Moved-round,
}

move_nothing : (fuel : ℕ) (u : Uio) → 1 ≤ fuel → Ensures (Moved [] u) (λ _ _. ⊥) (move fuel [] u)
unfolding move
move_nothing zero u lt = absurd (omega arith)
move_nothing (suc fuel) u lt = returns (Moved-nothing u)

-- A number of rounds that is enough for any transfer that it could meet.
MoveOk : ℕ → Direction → List ℕ → Type 0
MoveOk fuel d copies =
    (ptr : List ℕ) (spent iov : List Iovec) (offset resid : ℕ)
    → enough ptr iov ≤ fuel
    → FreshTail iov
    → length ptr ≤ resid
    → length ptr ≤ length (ahead iov)
    → resid < 2 ^ 32
    → Ensures (Moved ptr (request spent iov offset resid d copies)) (λ _ _. ⊥)
        (move fuel ptr (request spent iov offset resid d copies))

enough_empty :
    (ptr past : List ℕ) (vs : List Iovec)
    → enough ptr (record { past = past; rest = [] } ∷ vs) ≤ 2 * length vs + 2
enough_empty [] past vs = omega arith
enough_empty (p ∷ ps) past vs = omega arith

enough_le : (ptr : List ℕ) (vs : List Iovec) → enough ptr vs ≤ 2 * length vs + 1
enough_le [] vs = omega arith
enough_le (p ∷ ps) [] = omega arith
enough_le (p ∷ ps) (v ∷ vs) = go v.rest
  where
    go : (rest : List ℕ) → 2 * length vs + for_buffer rest ≤ 2 * suc (length vs) + 1
    go [] = omega arith
    go (r ∷ rs) = omega arith

Fresh-tail : (vs : List Iovec) → Fresh vs → FreshTail vs
Fresh-tail [] h = tt
Fresh-tail (v ∷ vs) h = h.1

next-Moved :
    (fuel : ℕ) (d : Direction) (copies : List ℕ)
    → MoveOk fuel d copies
    → (p : ℕ) (ps past : List ℕ) (spent vs : List Iovec) (offset resid : ℕ)
    → 2 * length vs + 2 ≤ suc fuel
    → Fresh vs
    → suc (length ps) ≤ resid
    → suc (length ps) ≤ length (ahead vs)
    → resid < 2 ^ 32
    → Ensures
        (Moved
          (p ∷ ps)
          (request spent (record { past = past; rest = [] } ∷ vs) offset resid d copies))
        (λ _ _. ⊥)
        (move
          (suc fuel)
          (p ∷ ps)
          (request spent (record { past = past; rest = [] } ∷ vs) offset resid d copies))
unfolding MoveOk move at_iovec next_iovec
next-Moved fuel d copies ih p ps past spent [] offset resid hf fr hr ha small = absurd (omega arith)
next-Moved fuel d copies ih p ps past spent (w ∷ ws) offset resid hf fr hr ha small =
    rw
      (
        lt→ltb 0 (suc (length ps)) (omega arith),
        lt→ltb 0 resid (omega arith),
        le→not_ltb (suc (length ps)) 0 (omega arith),
      )
      (mono
        (ih (p ∷ ps) (spent ++ record { past = past; rest = [] } ∷ []) (w ∷ ws) offset resid
          (omega (arith, enough_le (p ∷ ps) (w ∷ ws))) fr.1 hr ha small)
        (λ out u'. Moved-next (p ∷ ps) spent past (w ∷ ws) offset resid d copies)
        (λ e u' no_error. no_error))

round-Moved :
    (fuel : ℕ) (d : Direction) (copies : List ℕ)
    → MoveOk fuel d copies
    → (p r : ℕ) (ps rs past : List ℕ) (spent vs : List Iovec) (offset resid : ℕ)
    → 2 * length vs + 2 ≤ fuel
    → Fresh vs
    → suc (length ps) ≤ resid
    → suc (length ps) ≤ length ((r ∷ rs) ++ ahead vs)
    → resid < 2 ^ 32
    → Ensures
        (Moved
          (p ∷ ps)
          (request spent (record { past = past; rest = r ∷ rs } ∷ vs) offset resid d copies))
        (λ _ _. ⊥)
        (move
          (suc fuel)
          (p ∷ ps)
          (request spent (record { past = past; rest = r ∷ rs } ∷ vs) offset resid d copies))
unfolding MoveOk move at_iovec round advance guard_copy iovec_after
round-Moved fuel d copies ih p r ps rs past spent vs offset resid hf fr hr ha small =
    let more : ltb 0 (suc (length ps)) ≡ true = ground arith in
    let left : ltb 0 resid ≡ true = lt→ltb 0 resid (omega arith) in
    elim (Bool-cases (ltb (suc (length ps)) (suc (length rs)))) [
      | inl shorter ↦
          let le : length ps ≤ length rs = grind arith in
          let nonzero : (suc (length ps) == 0) ≡ false = ground arith in
          let resid_eq : (resid + 2 ^ 32 - suc (length ps)) % 2 ^ 32 ≡ resid - suc (length ps) =
            omega arith in
          let gone = length-drop (length ps) ps in
          rw (more, left, shorter, nonzero, resid_eq)
            (bind
              (ih (drop (length ps) ps) spent _ (offset + suc (length ps)) (resid - suc (length ps))
                (rw (drop_all (length ps) ps (omega arith)) (omega arith)) fr (omega (arith, gone))
                (omega (arith, gone)) (omega arith))
              (λ out u' m. returns (
                Moved-round spent (record { past = past; rest = r ∷ rs }) vs offset resid
                  (suc (length ps)) copies (p ∷ ps) fr (omega arith) (omega arith) d hr m))
              (λ e u' no_error. no_error))
      | inr longer ↦
          let le : length rs ≤ length ps = grind arith in
          let nonzero : (suc (length rs) == 0) ≡ false = ground arith in
          let resid_eq : (resid + 2 ^ 32 - suc (length rs)) % 2 ^ 32 ≡ resid - suc (length rs) =
            omega arith in
          let gone = length-drop (length rs) ps in
          rw (more, left, longer, nonzero, resid_eq)
            (bind
              (ih (drop (length rs) ps) spent _ (offset + suc (length rs)) (resid - suc (length rs))
                (rw (drop_all (length rs) rs (omega arith))
                  (omega (arith, enough_empty (drop (length rs) ps) _ vs)))
                fr (omega (arith, gone))
                (omega (
                  arith,
                  gone,
                  length-append rs (ahead vs),
                  length-append (drop (length rs) rs) (ahead vs),
                ))
                (omega arith))
              (λ out u' m. returns (
                Moved-round spent (record { past = past; rest = r ∷ rs }) vs offset resid
                  (suc (length rs)) copies (p ∷ ps) fr (omega arith) (omega arith) d (omega arith)
                  m))
              (λ e u' no_error. no_error))
    ]

move-MoveOk : (fuel : ℕ) (d : Direction) (copies : List ℕ) → MoveOk fuel d copies
unfolding MoveOk
move-MoveOk fuel d copies [] spent iov offset resid hf fr hr ha small =
    move_nothing fuel (request spent iov offset resid d copies) hf
move-MoveOk zero d copies (p ∷ ps) spent [] offset resid hf fr hr ha small = absurd (omega arith)
move-MoveOk zero d copies (p ∷ ps) spent (v ∷ vs) offset resid hf fr hr ha small =
    none_left v.rest hf
  where
    none_left : {A : Type 0} (rest : List ℕ) → 2 * length vs + for_buffer rest ≤ 0 → A
    none_left [] h = absurd (omega arith)
    none_left (r ∷ rs) h = absurd (omega arith)
move-MoveOk (suc fuel) d copies (p ∷ ps) spent [] offset resid hf fr hr ha small =
    absurd (omega arith)
move-MoveOk (suc fuel) d copies (p ∷ ps) spent (v ∷ vs) offset resid hf fr hr ha small =
    by_rest (move-MoveOk fuel d copies) v.past v.rest hf ha
  where
    by_rest :
        MoveOk fuel d copies
        → (past rest : List ℕ) → 2 * length vs + for_buffer rest ≤ suc fuel
        → suc (length ps) ≤ length (rest ++ ahead vs)
        → Ensures
            (Moved
              (p ∷ ps)
              (request spent (record { past = past; rest = rest } ∷ vs) offset resid d copies))
            (λ _ _. ⊥)
            (move
              (suc fuel)
              (p ∷ ps)
              (request spent (record { past = past; rest = rest } ∷ vs) offset resid d copies))
    by_rest ih past [] hf ha =
        next-Moved fuel d copies ih p ps past spent vs offset resid hf fr hr ha small
    by_rest ih past (r ∷ rs) hf ha =
        round-Moved fuel d copies ih p r ps rs past spent vs offset resid (omega arith) fr hr ha
          small

-- uiomove between a kernel buffer and kernel iovecs, none but the first of them partly used: if the
-- residue and the iovecs have room for the whole buffer, it returns without error, has moved exactly
-- that many bytes, in order, and has taken them off the residue and put them on the offset.
pub uiomove-Moved :
    (ptr : List ℕ) (u : Uio)
    → u.segflg ≡ sysspace
    → FreshTail u.iov
    → length ptr ≤ u.resid
    → length ptr ≤ length (ahead u.iov)
    → u.resid < 2 ^ 32
    → Ensures (Moved ptr u) (λ _ _. ⊥) (uiomove ptr u)
unfolding uiomove MoveOk
uiomove-Moved ptr u seg fr hr ha small =
    subst (λ w. Ensures (Moved ptr w) (λ _ _. ⊥) (move (rounds w) ptr w)) same
      (move-MoveOk (rounds u) u.rw u.copies ptr u.spent u.iov u.offset u.resid
        (omega (arith, enough_le ptr u.iov)) fr hr ha small)
  where
    same : request u.spent u.iov u.offset u.resid u.rw u.copies ≡ u
    same = λ i. record u { segflg = sym seg i }
