-- ===== src/Sfs/Block/Tried.antt =====
-- The codes that the disk answers, and which of them the retries of sfs_rwblock use up.
use os161_testbed.Common.{
  ℕ, zero, suc, ◌+◌, ◌<◌, ◌≤◌, ap, subst, ◌≡◌, ◌≢◌, refl, ◌∙◌, sym, List, [], ◌∷◌, get_or, drop,
  arith, einval, eio,
}
use os161_testbed.Common.Codes.{Errno}

-- The hardware never answers that a sector is invalid: the requests are in range.
abbrev pub NoInval : List Errno → Type 0
NoInval cs = (n : ℕ) → get_or cs n 0 ≢ einval

get_or-drop : (cs : List ℕ) (n : ℕ) → get_or (drop 1 cs) n 0 ≡ get_or cs (suc n) 0
get_or-drop [] n = refl
get_or-drop (c ∷ cs) n = refl

pub NoInval-drop : (cs : List Errno) → NoInval cs → NoInval (drop 1 cs)
NoInval-drop cs h n e = h (suc n) (sym (get_or-drop cs n) ∙ e)

-- Operations that answer the codes `cs`, in their order and 0 past the end, with at most `retries` retries:
-- the first `failed` of them answered EIO and were retried, the next one answered `e`, which is EIO only when
-- no retry was left, and `rest` are the codes that were not used.
pub record Tried (retries : ℕ) (cs : List Errno) (e : Errno) (rest : List Errno) : Type 0 where
  pub failed : ℕ
  pub within : failed ≤ retries
  pub media : (m : ℕ) → m < failed → get_or cs m 0 ≡ eio
  pub last : get_or cs failed 0 ≡ e
  pub spent : e ≡ eio → failed ≡ retries
  pub unused : rest ≡ drop (failed + 1) cs

-- the first operation decides
pub Tried-first :
    (k : ℕ) (cs : List Errno)
    → (get_or cs 0 0 ≡ eio → k ≡ 0)
    → Tried k cs (get_or cs 0 0) (drop 1 cs)
Tried-first k cs last = record {
  failed = 0;
  within = omega arith;
  media = λ m lt. absurd (omega arith);
  last = refl;
  spent = λ e. sym (last e);
  unused = refl;
}

drop-drop_one : (cs : List Errno) (n : ℕ) → drop (n + 1) (drop 1 cs) ≡ drop (n + 1 + 1) cs
drop-drop_one [] n =
    let e : n + 1 ≡ suc n = omega arith in
    let f : n + 1 + 1 ≡ suc (n + 1) = omega arith in rw (f, e) refl
drop-drop_one (c ∷ cs) n = let f : n + 1 + 1 ≡ suc (n + 1) = omega arith in rw f refl

-- the first operation answered EIO and was retried
pub Tried-later :
    (k : ℕ) (cs : List Errno) {e : Errno} {rest : List Errno}
    → get_or cs 0 0 ≡ eio
    → Tried k (drop 1 cs) e rest
    → Tried (suc k) cs e rest
Tried-later k cs first h = record {
  failed = suc h.failed;
  within = omega (arith, h.within);
  media = each;
  last = sym (get_or-drop cs h.failed) ∙ h.last;
  spent = λ e. ap suc (h.spent e);
  unused =
      h.unused
      ∙ drop-drop_one cs h.failed
      ∙ (let f : h.failed + 1 + 1 ≡ suc h.failed + 1 = omega arith in ap (λ n. drop n cs) f);
}
  where
    each : (m : ℕ) → m < suc h.failed → get_or cs m 0 ≡ eio
    each zero lt = first
    each (suc m) lt = sym (get_or-drop cs m) ∙ h.media m (omega arith)

NoInval-drops : (n : ℕ) (cs : List Errno) → NoInval cs → NoInval (drop n cs)
NoInval-drops zero cs h = h
NoInval-drops (suc n) [] h = h
NoInval-drops (suc n) (c ∷ cs) h = NoInval-drops n cs (λ m. h (suc m))

pub Tried-NoInval :
    {k : ℕ} {cs : List Errno} {e : Errno} {rest : List Errno}
    → Tried k cs e rest
    → NoInval cs
    → NoInval rest
Tried-NoInval {cs} h valid = subst NoInval (sym h.unused) (NoInval-drops (h.failed + 1) cs valid)
