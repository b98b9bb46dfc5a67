-- ===== src/Uio.antt =====
-- os161/kern/lib/uio.c: moving data between a kernel buffer and the buffers that a `struct uio`
-- describes. An iovec is the bytes that its base has passed and the bytes from the base on, so
-- `iov_len` is the length of the latter. The address space check is left out. The codes that
-- copyin and copyout return, in order, are a list in the state; past its end they succeed.
pub mod Move
pub mod Transfer
pub mod Rounds
use os161_testbed.Common.{
  ℕ, zero, suc, ◌+◌, ◌-◌, ◌*◌, ◌%◌, ◌^◌, Bool, true, false, ◌&&◌, List, [], ◌∷◌, ◌++◌, ltb, ◌==◌,
  ◌/=◌, if◌then◌else◌, length, take, drop, replicate,
}
use os161_testbed.Common.Run.{Run, done, fail, panic, stuck, Cmd, ◌>>=◌, ◌>>◌, and_then, kassert}

pub record Iovec : Type 0 where
  pub past : List ℕ
  pub rest : List ℕ

-- enum uio_rw
pub data Direction : Type 0 where
  read write : Direction

-- enum uio_seg; the two user segments are treated alike
pub data Segment : Type 0 where
  userspace sysspace : Segment

pub record Uio : Type 0 where
  -- the iovecs that uio_iov has passed, which the code no longer reads
  pub spent : List Iovec
  pub iov : List Iovec
  pub offset : ℕ
  pub resid : ℕ
  pub segflg : Segment
  pub rw : Direction
  pub copies : List ℕ

-- copyin and copyout
copy : List ℕ → Cmd Uio (Unit {0})
copy [] u = done tt u
copy (c ∷ cs) u =
    let u' : Uio = record u { copies = cs } in if c == 0 then done tt u' else fail c u'

guard_copy : Segment → Cmd Uio (Unit {0})
guard_copy sysspace u = done tt u
guard_copy userspace u = copy u.copies u

-- The `size` bytes that a round puts into the kernel buffer: those it held, on a read.
pub kernel_after : Direction → ℕ → List ℕ → Iovec → List ℕ
kernel_after read size ptr v = take size ptr
kernel_after write size ptr v = take size v.rest

-- A read overwrites the iovec's bytes; either way its base moves past them.
iovec_after : ℕ → List ℕ → Iovec → Iovec
iovec_after size moved v = record { past = v.past ++ moved; rest = drop size v.rest }

-- iov_len, uio_resid and uio_offset after a round; the subtraction is on size_t
advance : ℕ → List ℕ → Iovec → List Iovec → Cmd Uio (Unit {0})
advance size moved v vs u = done tt (record u {
  iov = iovec_after size moved v ∷ vs;
  resid = (u.resid + 2 ^ 32 - size) % 2 ^ 32;
  offset = u.offset + size;
})

-- A round that moves `size` bytes; `again` is the rest of the loop.
round : (List ℕ → Cmd Uio (List ℕ)) → ℕ → List ℕ → Iovec → List Iovec → Cmd Uio (List ℕ)
round again size ptr v vs u =
    let moved = kernel_after u.rw size ptr v in
    (do
      guard_copy u.segflg
      advance size moved v vs
      rest ← again (drop size ptr)
      done (moved ++ rest))
      u

-- A round at an empty iovec
next_iovec : (List ℕ → Cmd Uio (List ℕ)) → List ℕ → Iovec → List Iovec → Cmd Uio (List ℕ)
next_iovec again ptr v [] u = panic
next_iovec again ptr v (w ∷ ws) u =
    again ptr (record u { spent = u.spent ++ (v ∷ []); iov = w ∷ ws })

at_iovec : (List ℕ → Cmd Uio (List ℕ)) → List ℕ → List Iovec → Cmd Uio (List ℕ)
at_iovec again ptr [] u = panic
at_iovec again ptr (v ∷ vs) u =
    let size = if ltb (length ptr) (length v.rest) then length ptr else length v.rest in
    if size == 0 then next_iovec again ptr v vs u else round again size ptr v vs u

-- The loop of uiomove, at the kernel bytes still to move; the answer is what the kernel buffer holds
-- when it returns.
move : ℕ → List ℕ → Cmd Uio (List ℕ)
move zero ptr u = stuck
move (suc fuel) ptr u =
    if ltb 0 (length ptr) && ltb 0 u.resid then at_iovec (move fuel) ptr u.iov u else done ptr u

-- Each round empties an iovec, drops one, or ends the loop.
abbrev pub rounds : Uio → ℕ
rounds u = 2 * length u.iov + 2

-- uiomove(ptr, n, uio), with the `n` bytes at `ptr`
unfoldable pub uiomove : List ℕ → Cmd Uio (List ℕ)
unfolding copy guard_copy kernel_after iovec_after advance round next_iovec at_iovec move
uiomove ptr u = move (rounds u) ptr u

abbrev pub is_read : Direction → Bool
is_read read = true
is_read write = false

-- the loop of uiomovezeros, on rounds of at most 16 bytes
zeros_loop : ℕ → ℕ → Cmd Uio (Unit {0})
zeros_loop zero n = λ _. stuck
zeros_loop (suc fuel) n =
    let amt = if ltb n 16 then n else 16 in
    let rest = zeros_loop fuel (n - amt) in
    if ltb 0 n then uiomove (replicate amt 0) >>= (λ _. rest) else done tt

unfoldable pub uiomovezeros : ℕ → Cmd Uio (Unit {0})
unfolding zeros_loop uiomove
uiomovezeros n u = (do kassert (is_read u.rw); zeros_loop (n + 1) n) u

-- uio_kinit
abbrev pub kinit : List ℕ → ℕ → Direction → Uio
kinit kbuf pos rw = record {
  spent = [];
  iov = record { past = []; rest = kbuf } ∷ [];
  offset = pos;
  resid = length kbuf;
  segflg = sysspace;
  rw = rw;
  copies = [];
}
