-- ===== src/Sfs/Inode/Parts.antt =====
-- One vnode of the table of vnodes, and the others.
use os161_testbed.Common.{
  ℕ, ◌<◌, ◌≡◌, ◌≢◌, refl, sym, true, false, List, [], ◌∷◌, ◌++◌, some, ◌==◌, arith, ==_refl,
}
use os161_testbed.Sfs.State.{Sfs}
use os161_testbed.Sfs.Balloc.Volume.{in_use}
use os161_testbed.Sfs.Inode.{Loaded, find_addr, change, remove_addr}
use os161_testbed.Sfs.Inode.Table.{IsTable, Away, NoIno, NoAddr}

module _ (l : Loaded) (vs : List Loaded) where
  pub find_addr-eq-some :
      (us : List Loaded) → NoAddr l.addr us → find_addr l.addr (us ++ l ∷ vs) ≡ some l
  unfolding find_addr
  find_addr-eq-some [] away = rw (==_refl l.addr) refl
  find_addr-eq-some (u ∷ us) away =
      let ne : (u.addr == l.addr) ≡ false = ground (arith, away.0) in
      rw (ne, find_addr-eq-some us away.1) refl

  pub change-eq :
      (g : Loaded → Loaded) (us : List Loaded)
      → NoAddr l.addr us
      → change l.addr g (us ++ l ∷ vs) ≡ us ++ g l ∷ vs
  change-eq g [] away = rw (==_refl l.addr) refl
  change-eq g (u ∷ us) away =
      let ne : (u.addr == l.addr) ≡ false = ground (arith, away.0) in
      rw (ne, change-eq g us away.1) refl

  pub remove_addr-eq-some :
      (us : List Loaded) → NoAddr l.addr us → remove_addr l.addr (us ++ l ∷ vs) ≡ some (us ++ vs)
  unfolding remove_addr
  remove_addr-eq-some [] away = rw (==_refl l.addr) refl
  remove_addr-eq-some (u ∷ us) away =
      let ne : (u.addr == l.addr) ≡ false = ground (arith, away.0) in
      rw (ne, remove_addr-eq-some us away.1) refl

  Away-out : (i a : ℕ) (us : List Loaded) → Away i a (us ++ l ∷ vs) → Away i a (us ++ vs)
  Away-out i a [] away = away.2
  Away-out i a (u ∷ us) away = (away.0, away.1, Away-out i a us away.2)

  Away-NoIno : (i a : ℕ) (us : List Loaded) → Away i a us → NoIno i us
  Away-NoIno i a [] away = tt
  Away-NoIno i a (u ∷ us) away = (away.0, Away-NoIno i a us away.2)

  -- what a table says of one of its vnodes, and of the others
  pub record Parts (s : Sfs) (us : List Loaded) : Type 0 where
    pub range : l.sv.ino < s.nblocks
    pub used : in_use s l.sv.ino ≡ true
    pub held : 0 < l.refcount
    pub before : NoAddr l.addr us
    pub others : IsTable s (us ++ vs)
    pub noino : NoIno l.sv.ino (us ++ vs)

  Away-here : (i a : ℕ) (us : List Loaded) → Away i a (us ++ l ∷ vs) → (l.sv.ino ≢ i) × (l.addr ≢ a)
  Away-here i a [] away = (away.0, away.1)
  Away-here i a (u ∷ us) away = Away-here i a us away.2

  pub IsTable-Parts : (s : Sfs) (us : List Loaded) → IsTable s (us ++ l ∷ vs) → Parts s us
  IsTable-Parts s [] ok = record {
    range = ok.0;
    used = ok.1;
    held = ok.2;
    before = tt;
    others = ok.4;
    noino = Away-NoIno l.sv.ino l.addr vs ok.3;
  }
  IsTable-Parts s (u ∷ us) ok =
      let h = IsTable-Parts s us ok.4 in
      let here = Away-here u.sv.ino u.addr us ok.3 in
      record {
        range = h.range;
        used = h.used;
        held = h.held;
        before = (λ e. here.1 (sym e), h.before);
        others = (ok.0, ok.1, ok.2, Away-out u.sv.ino u.addr us ok.3, h.others);
        noino = (λ e. here.0 (sym e), h.noino);
      }

  Away-count :
      (n i a : ℕ) (us : List Loaded)
      → Away i a (us ++ l ∷ vs)
      → Away i a (us ++ record l { refcount = n } ∷ vs)
  Away-count n i a [] away = away
  Away-count n i a (u ∷ us) away = (away.0, away.1, Away-count n i a us away.2)

  pub IsTable-count :
      (s : Sfs) (n : ℕ) (us : List Loaded)
      → 0 < n
      → IsTable s (us ++ l ∷ vs)
      → IsTable s (us ++ record l { refcount = n } ∷ vs)
  IsTable-count s n [] h ok = (ok.0, ok.1, h, ok.3, ok.4)
  IsTable-count s n (u ∷ us) h ok =
      (ok.0, ok.1, ok.2, Away-count n u.sv.ino u.addr us ok.3, IsTable-count s n us h ok.4)

  pub IsTable-volume :
      (s t : Sfs) (ls : List Loaded)
      → t.freemap ≡ s.freemap
      → t.nblocks ≡ s.nblocks
      → IsTable s ls
      → IsTable t ls
  IsTable-volume s t [] map blocks ok = tt
  IsTable-volume s t (x ∷ ls) map blocks ok =
      (omega (arith, ok.0, blocks), rw map ok.1, ok.2, ok.3, IsTable-volume s t ls map blocks ok.4)
