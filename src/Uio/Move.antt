-- ===== src/Uio/Move.antt =====
-- A transfer of a whole kernel buffer.
use os161_testbed.Common.{
  ℕ, ◌+◌, ◌-◌, ◌%◌, ◌^◌, ◌<◌, ◌≡◌, false, List, [], ◌∷◌, ◌==◌, length, arith, take_all, drop_all,
  lt→ltb, le→not_ltb,
}
use mathlib.Core.List.{append-nil}
use os161_testbed.Common.Run.{done}
use os161_testbed.Uio.{Uio, Direction, read, write, uiomove, kinit, sysspace, kernel_after}

-- the uio after its one buffer has gone by
abbrev pub spent_uio : List ℕ → ℕ → Direction → Uio
spent_uio kbuf pos d = record {
  spent = [];
  iov = record { past = kbuf; rest = [] } ∷ [];
  offset = pos;
  resid = 0;
  segflg = sysspace;
  rw = d;
  copies = [];
}

module _ (ptr kbuf : List ℕ) (pos n : ℕ) (dir : Direction) (hp : length ptr ≡ n)
    (hk : length kbuf ≡ n) (pos_n : 0 < n) (small : n < 2 ^ 32) where
  -- a read leaves the kernel's bytes in the iovec, a write the iovec's bytes in the kernel
  abbrev moved : Direction → List ℕ
  moved read = ptr
  moved write = kbuf

  kernel_after_all :
      (d : Direction) → kernel_after d n ptr (record { past = []; rest = kbuf }) ≡ moved d
  unfolding kernel_after
  kernel_after_all read = take_all n ptr (omega arith)
  kernel_after_all write = take_all n kbuf (omega arith)

  pub uiomove-kinit :
      uiomove ptr (kinit kbuf pos dir) ≡ done (moved dir) (spent_uio (moved dir) (pos + n) dir)
  unfolding uiomove
  uiomove-kinit =
      let a = lt→ltb 0 n pos_n in
      let b = le→not_ltb n n (omega arith) in
      let c : (n == 0) ≡ false = ground arith in
      let e : (n + 2 ^ 32 - n) % 2 ^ 32 ≡ 0 = omega arith in
      rw (
        hp,
        hk,
        a,
        b,
        c,
        kernel_after_all dir,
        drop_all n ptr (omega arith),
        drop_all n kbuf (omega arith),
        e,
        append-nil,
      )
