-- ===== src/Tests/Uio.antt =====
-- A write from two kernel buffers of two bytes each, into a kernel buffer of three.
use os161_testbed.Common.{refl, arith, [], ◌∷◌}
use os161_testbed.Common.Run.{Ensures}
use os161_testbed.Uio.{Uio, write, sysspace, uiomove}
use os161_testbed.Uio.Transfer.{Moved}
use os161_testbed.Uio.Rounds.{uiomove-Moved}

abbrev two : Uio
two = record {
  spent = [];
  iov = record { past = []; rest = 1 ∷ 2 ∷ [] } ∷ record { past = []; rest = 3 ∷ 4 ∷ [] } ∷ [];
  offset = 10;
  resid = 4;
  segflg = sysspace;
  rw = write;
  copies = [];
}

uiomove-Moved_example :
    Ensures (Moved (0 ∷ 0 ∷ 0 ∷ []) two) (λ _ _. ⊥) (uiomove (0 ∷ 0 ∷ 0 ∷ []) two)
uiomove-Moved_example =
    uiomove-Moved (0 ∷ 0 ∷ 0 ∷ []) two refl (refl, tt) (omega arith) (omega arith) (omega arith)
