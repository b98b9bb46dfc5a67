-- ===== src/Sfs/Bmap/Extend.antt =====
-- What sfs_bmap does when it has to allocate one of the direct blocks of a file.
use os161_testbed.Common.{
  ℕ, ◌<◌, ◌≡◌, ◌≢◌, refl, sym, ap, ◌∙◌, true, false, ◌||◌, ltb, ◌==◌, ◌⊎◌, get_or, set, arith,
  lt→ltb, Bool-cases, inl, inr, ℕ_discrete, length-set, get_or-set_self, get_or-set_ne,
}
use os161_testbed.Common.Codes.{Errno}
use os161_testbed.Common.Run.{Ensures, returns, bind, and_then}
use os161_testbed.Bitmap.Wf.{bit}
use os161_testbed.Sfs.State.{Sfs, File, lift_fs, lift_fs-Ensures, eq_of_parts}
use os161_testbed.Sfs.Balloc.{balloc}
use os161_testbed.Sfs.Balloc.Volume.{in_use, Allocated, Unallocated, balloc-Allocated}
use os161_testbed.Sfs.Bmap.{bmap, hand_back, direct_block, store_direct}
use os161_testbed.Sfs.Bmap.Lookup.{IsFile, Mapped, block_of, hand_back-eq-done, load_direct-eq-done}

-- A block that was free is block `n` of the file; the others are where they were, and none is at it.
pub record Extended (f : File) (n b : ℕ) (t : File) : Type 0 where
  pub was_none : block_of f n ≡ 0
  pub was_free : in_use f.fs b ≡ false
  pub marks : (j : ℕ) → in_use t.fs j ≡ (b == j || in_use f.fs j)
  pub mapped : block_of t n ≡ b
  pub others : (m : ℕ) → m ≢ n → block_of t m ≡ block_of f m
  pub apart : (m : ℕ) → m ≢ n → block_of f m ≢ b
  pub dirty : t.sv.dirty ≡ true
  pub file : IsFile t

-- The file and the free map are as they were.
pub record NotExtended (f : File) (e : Errno) (t : File) : Type 0 where
  pub error : e ≢ 0
  pub inode : t.sv ≡ f.sv
  pub marks : (j : ℕ) → in_use t.fs j ≡ in_use f.fs j
  pub blocks : (m : ℕ) → block_of t m ≡ block_of f m
  pub file : IsFile t

abbrev pub Got : File → ℕ → ℕ → File → Type 0
Got f n b t = (b ≢ 0) × (((b ≡ block_of f n) × (t ≡ f)) ⊎ Extended f n b t)

-- A volume in which the same blocks, and perhaps more, are in use.
Mapped-grown :
    (s t : Sfs) (b : ℕ)
    → t.nblocks ≡ s.nblocks
    → ((j : ℕ) → in_use s j ≡ true → in_use t j ≡ true)
    → Mapped s b
    → Mapped t b
Mapped-grown s t b blocks grows (inl z) = inl z
Mapped-grown s t b blocks grows (inr (lt, on)) = inr (omega (arith, lt, blocks), grows b on)

-- A free block is no block that a file may hold, but none.
Mapped-apart : (s : Sfs) (b c : ℕ) → in_use s b ≡ false → b ≢ 0 → Mapped s c → c ≢ b
Mapped-apart s b c free ne (inl z) e = ne (sym e ∙ z)
Mapped-apart s b c free ne (inr (lt, on)) e =
    absurd (false≢true (sym free ∙ ap (in_use s) (sym e) ∙ on))
  where
    false≢true : false ≢ true
    false≢true e = absurd cc

block_of-Mapped : {f : File} → IsFile f → (m : ℕ) → Mapped f.fs (block_of f m)
block_of-Mapped {f} ok m = elim (Bool-cases (ltb m 15)) [
  | inl e ↦ rw e (ok.direct m)
  | inr e ↦ elim (Bool-cases (f.sv.i.indirect == 0)) [
    | inl z ↦ rw (e, z) (inl refl)
    | inr ne ↦ rw (e, ne) (ok.entry _ (ground arith))
  ]
]

-- the file once `b` is its block `n`
abbrev extended : File → (n b : ℕ) → Sfs → File
extended f n b s = record {
  fs = s;
  sv = record (f.sv) { i = record (f.sv.i) { direct = set f.sv.i.direct n b }; dirty = true };
}

module _ {f : File} (ok : IsFile f) (n : ℕ) (lt : n < 15) {b : ℕ} {s : Sfs}
    (new : Allocated f.fs b s) where
  grows : (j : ℕ) → in_use f.fs j ≡ true → in_use s j ≡ true
  grows j on = new.marks j ∙ ground arith

  in_use_now : in_use s b ≡ true
  in_use_now = new.marks b ∙ ground arith

  new-Mapped : Mapped s b
  new-Mapped = inr (omega (arith, new.range, new.blocks), in_use_now)

  apart_all : (c : ℕ) → Mapped f.fs c → c ≢ b
  apart_all c = Mapped-apart f.fs b c new.was_free new.nonzero

  same_indirect : s.device.sectors f.sv.i.indirect ≡ f.fs.device.sectors f.sv.i.indirect
  same_indirect = new.others f.sv.i.indirect (λ e. apart_all f.sv.i.indirect ok.indirect (sym e))

  direct_now : (m : ℕ) → Mapped s (get_or (set f.sv.i.direct n b) m 0)
  direct_now m = elim (ℕ_discrete n m) [
    | yes e ↦ rw (sym e, get_or-set_self f.sv.i.direct n b 0 (omega (arith, ok.directs))) new-Mapped
    | no ne ↦
        rw (get_or-set_ne f.sv.i.direct n m b 0 ne)
          (Mapped-grown f.fs s _ new.blocks grows (ok.direct m))
  ]

  extended-IsFile : IsFile (extended f n b s)
  extended-IsFile = record {
    volume = new.volume;
    directs = length-set f.sv.i.direct n b ∙ ok.directs;
    direct = direct_now;
    indirect = Mapped-grown f.fs s f.sv.i.indirect new.blocks grows ok.indirect;
    entry = λ j ne. rw same_indirect (Mapped-grown f.fs s _ new.blocks grows (ok.entry j ne));
  }

  other_blocks : (m : ℕ) → m ≢ n → block_of (extended f n b s) m ≡ block_of f m
  other_blocks m ne = rw (get_or-set_ne f.sv.i.direct n m b 0 (λ e. ne (sym e)), same_indirect) refl

  extended-Extended : block_of f n ≡ 0 → Extended f n b (extended f n b s)
  extended-Extended none' = record {
    was_none = none';
    was_free = new.was_free;
    marks = new.marks;
    mapped = rw (lt→ltb n 15 lt) (get_or-set_self f.sv.i.direct n b 0 (omega (arith, ok.directs)));
    others = other_blocks;
    apart = λ m ne. apart_all (block_of f m) (block_of-Mapped ok m);
    dirty = refl;
    file = extended-IsFile;
  }

module _ {f : File} (ok : IsFile f) (n : ℕ) (lt : n < 15) where
  not_extended :
      (e : Errno) (s : Sfs) → Unallocated f.fs e s → NotExtended f e (record { fs = s; sv = f.sv })
  not_extended e s bad =
      let same : (j : ℕ) → in_use s j ≡ in_use f.fs j = λ j. ap (λ m. bit m j) bad.map in
      let grown : (c : ℕ) → Mapped f.fs c → Mapped s c =
        λ c. Mapped-grown f.fs s c bad.blocks (λ j on. same j ∙ on) in
      record {
        error = bad.error;
        inode = refl;
        marks = same;
        blocks = λ m. rw bad.sectors refl;
        file = record {
          volume = bad.volume;
          directs = ok.directs;
          direct = λ m. grown _ (ok.direct m);
          indirect = grown _ ok.indirect;
          entry = λ j ne. rw bad.sectors (grown _ (ok.entry j ne));
        };
      }

  direct_of : block_of f n ≡ get_or f.sv.i.direct n 0
  direct_of = rw (lt→ltb n 15 lt) refl

  allocates :
      (get_or f.sv.i.direct n 0 == 0) ≡ true
      → Ensures (Got f n) (NotExtended f) (
          and_then
            (lift_fs f.sv (balloc f.fs))
            (λ b t. and_then (store_direct n b t) (λ _. hand_back b)))
  unfolding store_direct
  allocates z =
      bind (lift_fs-Ensures f.sv (balloc-Allocated ok.volume))
        (λ b t (new, sv). rw (eq_of_parts {f = record { fs = t.fs; sv = f.sv }} refl sv) (
          rw (hand_back-eq-done {f = extended f n b t.fs} b new.volume (new-Mapped ok n lt new)) (
            returns (new.nonzero, inr (extended-Extended ok n lt new (direct_of ∙ ground arith))))))
        (λ e t (bad, sv).
          rw (eq_of_parts {f = record { fs = t.fs; sv = f.sv }} refl sv) (not_extended e t.fs bad))

  direct_block-Got : Ensures (Got f n) (NotExtended f) (direct_block n true f)
  unfolding direct_block
  direct_block-Got =
      rw (load_direct-eq-done {f = f} n (omega (arith, ok.directs)))
        (elim (Bool-cases (get_or f.sv.i.direct n 0 == 0)) [
          | inl z ↦ rw z (allocates z)
          | inr ne ↦ rw ne (
              rw (hand_back-eq-done {f = f} _ ok.volume (ok.direct n))
                (returns (λ e. ground arith, inl (sym direct_of, refl))))
        ])

  -- sfs_bmap with allocation of one of the first 15 blocks, in a well-formed file: it answers the block
  -- that the file has there and changes nothing, or, where there was none, a block that was free, which
  -- is the only one newly in use, is now that block of the file and is no other block of it; all other
  -- blocks of the file stay. A failure changes neither the file nor what is in use. The file stays
  -- well-formed. The call never panics.
  pub bmap-Got : Ensures (Got f n) (NotExtended f) (bmap n true f)
  unfolding bmap
  bmap-Got = rw (lt→ltb n 15 lt) direct_block-Got
