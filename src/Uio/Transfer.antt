-- ===== src/Uio/Transfer.antt =====
-- uiomove over any number of kernel buffers.
use os161_testbed.Common.{
  ℕ, zero, suc, ◌+◌, ◌-◌, ◌*◌, ◌≤◌, ◌≡◌, refl, sym, ◌∙◌, ap, List, [], ◌∷◌, ◌++◌, length, arith,
  take, drop,
}
use mathlib.Core.List.{append-nil, append_assoc}
use os161_testbed.Uio.{Uio, Iovec, Direction, read, write, sysspace, kernel_after}

-- the bytes of the buffers that are still to go by, and those that have gone by
abbrev pub ahead : List Iovec → List ℕ
ahead [] = []
ahead (v ∷ vs) = v.rest ++ ahead vs

abbrev pub behind : List Iovec → List ℕ
behind [] = []
behind (v ∷ vs) = v.past ++ behind vs

-- No byte of these buffers has gone by.
abbrev pub Fresh : List Iovec → Type 0
Fresh [] = Unit
Fresh (v ∷ vs) = (v.past ≡ []) × Fresh vs

abbrev pub FreshTail : List Iovec → Type 0
FreshTail [] = Unit
FreshTail (v ∷ vs) = Fresh vs

-- what the kernel buffer holds afterwards
abbrev pub taken : Direction → List ℕ → List Iovec → List ℕ
taken read ptr iov = ptr
taken write ptr iov = take (length ptr) (ahead iov)

pub record Moved (ptr : List ℕ) (u : Uio) (out : List ℕ) (u' : Uio) : Type 0 where
  pub kernel : out ≡ taken u.rw ptr u.iov
  pub rest : ahead u'.iov ≡ drop (length ptr) (ahead u.iov)
  pub gone : behind (u'.spent ++ u'.iov) ≡ behind (u.spent ++ u.iov) ++ out
  pub resid : u'.resid + length ptr ≡ u.resid
  pub offset : u'.offset ≡ u.offset + length ptr

minus_zero : (k : ℕ) → k - 0 ≡ k
minus_zero k = omega arith

minus_suc : (n k : ℕ) → suc n - suc k ≡ n - k
minus_suc n k = omega arith

module _ {A : Type 0} where
  -- `n` bytes are the first `size` of a buffer and the others of what is left.
  take_split :
      (size n : ℕ) (xs ys : List A)
      → size ≤ length xs
      → size ≤ n
      → take n (xs ++ ys) ≡ take size xs ++ take (n - size) (drop size xs ++ ys)
  take_split zero n xs ys hx hn = ap (λ k. take k (xs ++ ys)) (sym (minus_zero n))
  take_split (suc size) zero xs ys hx hn = absurd (omega arith)
  take_split (suc size) (suc n) [] ys hx hn = absurd (omega arith)
  take_split (suc size) (suc n) (x ∷ xs) ys hx hn =
      rw (minus_suc n size) (ap (λ r. x ∷ r) (take_split size n xs ys (omega arith) (omega arith)))

  drop_split :
      (size n : ℕ) (xs ys : List A)
      → size ≤ length xs
      → size ≤ n
      → drop n (xs ++ ys) ≡ drop (n - size) (drop size xs ++ ys)
  drop_split zero n xs ys hx hn = ap (λ k. drop k (xs ++ ys)) (sym (minus_zero n))
  drop_split (suc size) zero xs ys hx hn = absurd (omega arith)
  drop_split (suc size) (suc n) [] ys hx hn = absurd (omega arith)
  drop_split (suc size) (suc n) (x ∷ xs) ys hx hn =
      rw (minus_suc n size) (drop_split size n xs ys (omega arith) (omega arith))

  take-drop : (n : ℕ) (xs : List A) → take n xs ++ drop n xs ≡ xs
  take-drop zero xs = refl
  take-drop (suc n) [] = refl
  take-drop (suc n) (x ∷ xs) = ap (λ r. x ∷ r) (take-drop n xs)

  pub length-drop : (n : ℕ) (xs : List A) → length (drop n xs) ≡ length xs - n
  length-drop zero xs = omega arith
  length-drop (suc n) [] = omega arith
  length-drop (suc n) (x ∷ xs) = length-drop n xs ∙ omega arith

abbrev pub for_buffer : List ℕ → ℕ
for_buffer [] = 2
for_buffer (r ∷ rs) = 3

-- rounds that are enough
abbrev pub enough : List ℕ → List Iovec → ℕ
enough [] iov = 1
enough (p ∷ ps) [] = 1
enough (p ∷ ps) (v ∷ vs) = 2 * length vs + for_buffer v.rest

abbrev pub request : List Iovec → List Iovec → ℕ → ℕ → Direction → List ℕ → Uio
request spent iov offset resid d copies = record {
  spent = spent;
  iov = iov;
  offset = offset;
  resid = resid;
  segflg = sysspace;
  rw = d;
  copies = copies;
}

taken_nothing : (d : Direction) (iov : List Iovec) → [] ≡ taken d [] iov
taken_nothing read iov = refl
taken_nothing write iov = refl

pub Moved-nothing : (u : Uio) → Moved [] u [] u
Moved-nothing u = record {
  kernel = taken_nothing u.rw u.iov;
  rest = refl;
  gone = sym (append-nil _);
  resid = omega arith;
  offset = omega arith;
}

-- Dropping an empty buffer changes nothing that `Moved` sees.
pub Moved-next :
    (ptr : List ℕ) (spent : List Iovec) (past : List ℕ) (vs : List Iovec) (offset resid : ℕ)
    (d : Direction) (copies : List ℕ) {out : List ℕ} {u' : Uio}
    → Moved ptr
        (request (spent ++ (record { past = past; rest = [] } ∷ [])) vs offset resid d copies)
        out
        u'
    → Moved ptr
        (request spent (record { past = past; rest = [] } ∷ vs) offset resid d copies)
        out
        u'
Moved-next ptr spent past vs offset resid d copies {out} m = record {
  kernel = m.kernel ∙ same d;
  rest = m.rest;
  gone =
      m.gone
      ∙ ap (λ r. behind r ++ out) (append_assoc spent (record { past = past; rest = [] } ∷ []) vs);
  resid = m.resid;
  offset = m.offset;
}
  where
    same : (d : Direction) → taken d ptr vs ≡ taken d ptr (record { past = past; rest = [] } ∷ vs)
    same read = refl
    same write = refl

behind-append : (us vs : List Iovec) → behind (us ++ vs) ≡ behind us ++ behind vs
behind-append [] vs = refl
behind-append (u ∷ us) vs =
    ap (λ r. u.past ++ r) (behind-append us vs) ∙ sym (append_assoc u.past (behind us) (behind vs))

Fresh-behind : (vs : List Iovec) → Fresh vs → behind vs ≡ []
Fresh-behind [] h = refl
Fresh-behind (v ∷ vs) h = rw (h.0) (Fresh-behind vs h.1)

behind_round :
    (spent : List Iovec) (v : Iovec) (vs : List Iovec) (rest moved out : List ℕ)
    → Fresh vs
    → behind (spent ++ record { past = v.past ++ moved; rest = rest } ∷ vs) ++ out
      ≡ behind (spent ++ v ∷ vs) ++ (moved ++ out)
behind_round spent v vs rest moved out fresh =
    rw (behind-append, Fresh-behind vs fresh, append-nil)
      (rw (behind-append spent (v ∷ vs), Fresh-behind vs fresh, append-nil)
        (append_assoc (behind spent) (v.past ++ moved) out
          ∙ ap (λ t. behind spent ++ t) (append_assoc v.past moved out)
          ∙ sym (append_assoc (behind spent) v.past (moved ++ out))))

-- A round that moves `size` bytes, and the rounds after it.
module _ (spent : List Iovec) (v : Iovec) (vs : List Iovec) (offset resid size : ℕ)
    (copies ptr : List ℕ) (fresh : Fresh vs) (fits : size ≤ length v.rest)
    (some_left : size ≤ length ptr) where
  abbrev after_round : (d : Direction) → List ℕ → Uio
  after_round d moved =
      request spent (record { past = v.past ++ moved; rest = drop size v.rest } ∷ vs)
        (offset + size) (resid - size) d copies

  pub Moved-round :
      (d : Direction) {out : List ℕ} {u' : Uio}
      → size ≤ resid
      → Moved (drop size ptr) (after_round d (kernel_after d size ptr v)) out u'
      → Moved ptr
          (request spent (v ∷ vs) offset resid d copies)
          (kernel_after d size ptr v ++ out)
          u'
  unfolding kernel_after
  Moved-round d {out} le m = record {
    kernel = kernel _ d m.kernel;
    rest =
        m.rest
        ∙ rw (length-drop size ptr)
            (sym (drop_split size (length ptr) v.rest (ahead vs) fits some_left));
    gone =
        m.gone ∙ behind_round spent v vs (drop size v.rest) (kernel_after d size ptr v) out fresh;
    resid = omega (arith, m.resid, length-drop size ptr);
    offset = omega (arith, m.offset, length-drop size ptr);
  }
    where
      kernel :
          (past : List ℕ) (d : Direction)
          → out ≡ taken d (drop size ptr) (record { past = past; rest = drop size v.rest } ∷ vs)
          → kernel_after d size ptr v ++ out ≡ taken d ptr (v ∷ vs)
      kernel past read e = rw e (take-drop size ptr)
      kernel past write e =
          rw (e, length-drop size ptr)
            (sym (take_split size (length ptr) v.rest (ahead vs) fits some_left))
