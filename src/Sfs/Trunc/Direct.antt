-- ===== src/Sfs/Trunc/Direct.antt =====
-- What sfs_itrunc does to a file that has no indirect block.
use os161_testbed.Common.{
  ℕ, zero, suc, ◌+◌, ◌%◌, ◌^◌, ◌<◌, ◌≤◌, ◌≡◌, ◌≢◌, refl, sym, ap, subst, ◌∙◌, true, false, ◌&&◌,
  leb, ltb, ◌==◌, ◌/=◌, length, get_or, set, arith, Bool-cases, inl, inr, ℕ_discrete, length-set,
  get_or-set_self, get_or-set_ne, get_or-past,
}
use os161_testbed.Common.Run.{done, Ensures, returns, bind, mono}
use os161_testbed.Sfs.State.{Sfs, File, lift_fs-Ensures, eq_of_parts}
use os161_testbed.Sfs.Balloc.Volume.{IsVolume, in_use}
use os161_testbed.Sfs.Balloc.Free.{Freed, bfree-Freed}
use os161_testbed.Sfs.Bmap.{store_direct, load_indirect}
use os161_testbed.Sfs.Bmap.Lookup.{Mapped, load_direct-eq-done, and_false}
use os161_testbed.Sfs.Trunc.{itrunc, trunc_direct, trunc_indirect, blocklen, set_size}

-- direct block `m` of a file
abbrev pub direct_of : File → ℕ → ℕ
direct_of f m = get_or f.sv.i.direct m 0

-- The direct blocks are in use, and no two are the same block.
pub record IsDirect (f : File) : Type 0 where
  pub volume : IsVolume f.fs
  pub directs : length f.sv.i.direct ≡ 15
  pub direct : (m : ℕ) → Mapped f.fs (direct_of f m)
  pub distinct : (m n : ℕ) → m ≢ n → direct_of f m ≢ 0 → direct_of f m ≢ direct_of f n

-- The direct blocks from `i` on that are not below `limit` are gone and free; no other changes.
pub record Trimmed (limit i : ℕ) (f t : File) : Type 0 where
  pub gone : (m : ℕ) → i ≤ m → limit ≤ m → direct_of t m ≡ 0
  pub low : (m : ℕ) → m < i → direct_of t m ≡ direct_of f m
  pub below : (m : ℕ) → m < limit → direct_of t m ≡ direct_of f m
  pub freed : (m : ℕ) → i ≤ m → limit ≤ m → direct_of f m ≢ 0 → in_use t.fs (direct_of f m) ≡ false
  pub kept :
      (j : ℕ) → ((m : ℕ) → i ≤ m → limit ≤ m → direct_of f m ≢ j) → in_use t.fs j ≡ in_use f.fs j
  pub device : t.fs.device ≡ f.fs.device
  pub blocks : t.fs.nblocks ≡ f.fs.nblocks
  pub indirect : t.sv.i.indirect ≡ f.sv.i.indirect
  pub ino : t.sv.ino ≡ f.sv.ino
  pub kind : t.sv.i.kind ≡ f.sv.i.kind
  pub linkcount : t.sv.i.linkcount ≡ f.sv.i.linkcount
  pub waste : t.sv.i.waste ≡ f.sv.i.waste
  pub file : IsDirect t

-- the file with its direct block `i` taken out
abbrev without : File → ℕ → Sfs → File
without f i s = record {
  fs = s;
  sv = record (f.sv) { i = record (f.sv.i) { direct = set f.sv.i.direct i 0 }; dirty = true };
}

module _ {f : File} (ok : IsDirect f) (i : ℕ) (lt : i < 15) {s : Sfs} (there : direct_of f i ≢ 0)
    (free : Freed f.fs (direct_of f i) s) where
  without_self : direct_of (without f i s) i ≡ 0
  without_self = get_or-set_self f.sv.i.direct i 0 0 (omega (arith, ok.directs))

  without_other : (m : ℕ) → i ≢ m → direct_of (without f i s) m ≡ direct_of f m
  without_other m ne = get_or-set_ne f.sv.i.direct i m 0 0 ne

  still : (j : ℕ) → direct_of f i ≢ j → in_use s j ≡ in_use f.fs j
  still j ne = let ne' : (direct_of f i == j) ≡ false = ground arith in free.marks j ∙ rw ne' refl

  without-Mapped : (m : ℕ) → Mapped s (direct_of (without f i s) m)
  without-Mapped m = elim (ℕ_discrete i m) [
    | yes e ↦ inl (ap (direct_of (without f i s)) (sym e) ∙ without_self)
    | no ne ↦ rw (without_other m ne) (elim (ok.direct m) [
      | inl z ↦ inl z
      | inr (small, on) ↦
          inr (
            omega (arith, small, free.blocks),
            still (direct_of f m) (ok.distinct i m ne there) ∙ on,
          )
    ])
  ]

  without-distinct :
      (m n : ℕ)
      → m ≢ n
      → direct_of (without f i s) m ≢ 0
      → direct_of (without f i s) m ≢ direct_of (without f i s) n
  without-distinct m n ne nz e = elim (ℕ_discrete i m) [
    | yes e' ↦ nz (ap (direct_of (without f i s)) (sym e') ∙ without_self)
    | no ni ↦ elim (ℕ_discrete i n) [
      | yes e' ↦ nz (e ∙ ap (direct_of (without f i s)) (sym e') ∙ without_self)
      | no nj ↦
          ok.distinct m n ne (λ z. nz (without_other m ni ∙ z))
            (sym (without_other m ni) ∙ e ∙ without_other n nj)
    ]
  ]

  without-IsDirect : IsDirect (without f i s)
  without-IsDirect = record {
    volume = free.volume;
    directs = length-set f.sv.i.direct i 0 ∙ ok.directs;
    direct = without-Mapped;
    distinct = without-distinct;
  }

  first_freed :
      {t : File} (limit : ℕ)
      → Trimmed limit (i + 1) (without f i s) t
      → in_use t.fs (direct_of f i) ≡ false
  first_freed limit h =
      h.kept (direct_of f i) (λ m ge over e.
        ok.distinct i m (λ x. omega arith) there (sym e ∙ without_other m (λ x. omega arith)))
      ∙ free.marks (direct_of f i)
      ∙ ground arith

  -- the rest of the loop
  without-Trimmed :
      {t : File} (limit : ℕ)
      → limit ≤ i
      → Trimmed limit (i + 1) (without f i s) t
      → Trimmed limit i f t
  without-Trimmed {t} limit ge h = record {
    gone = λ m ge' over. elim (ℕ_discrete i m) [
      | yes e ↦ ap (direct_of t) (sym e) ∙ h.low i (omega arith) ∙ without_self
      | no ne ↦ h.gone m (omega (arith, ne)) over
    ];
    low = λ m less. h.low m (omega arith) ∙ without_other m (λ e. omega arith);
    below = λ m less. h.below m less ∙ without_other m (λ e. omega arith);
    freed = λ m ge' over nz. elim (ℕ_discrete i m) [
      | yes e ↦ ap (λ x. in_use t.fs (direct_of f x)) (sym e) ∙ first_freed limit h
      | no ne ↦
          ap (in_use t.fs) (sym (without_other m ne))
          ∙ h.freed m (omega (arith, ne)) over (λ z. nz (sym (without_other m ne) ∙ z))
    ];
    kept = λ j out.
        h.kept j
          (λ m ge' over e. out m (omega arith) over (sym (without_other m (λ x. omega arith)) ∙ e))
        ∙ still j (out i (omega arith) ge);
    device = h.device ∙ free.device;
    blocks = h.blocks ∙ free.blocks;
    indirect = h.indirect;
    ino = h.ino;
    kind = h.kind;
    linkcount = h.linkcount;
    waste = h.waste;
    file = h.file;
  }

-- a block that stays, since it is below the limit or there is none
skipped :
    {f t : File} (limit i : ℕ)
    → (limit ≤ i → direct_of f i ≡ 0)
    → Trimmed limit (i + 1) f t
    → Trimmed limit i f t
skipped {f} {t} limit i empty h = record {
  gone = λ m ge over. elim (ℕ_discrete i m) [
    | yes e ↦ ap (direct_of t) (sym e) ∙ h.low i (omega arith) ∙ empty (omega arith)
    | no ne ↦ h.gone m (omega (arith, ne)) over
  ];
  low = λ m less. h.low m (omega arith);
  below = h.below;
  freed = λ m ge over nz. elim (ℕ_discrete i m) [
    | yes e ↦ absurd (nz (ap (direct_of f) (sym e) ∙ empty (omega arith)))
    | no ne ↦ h.freed m (omega (arith, ne)) over nz
  ];
  kept = λ j out. h.kept j (λ m ge over. out m (omega arith) over);
  device = h.device;
  blocks = h.blocks;
  indirect = h.indirect;
  ino = h.ino;
  kind = h.kind;
  linkcount = h.linkcount;
  waste = h.waste;
  file = h.file;
}

finished : {f : File} (limit : ℕ) → IsDirect f → Trimmed limit 15 f f
finished {f} limit ok = record {
  gone = λ m ge over. get_or-past f.sv.i.direct m 0 (omega (arith, ok.directs));
  low = λ m less. refl;
  below = λ m less. refl;
  freed = λ m ge over nz. absurd (nz (get_or-past f.sv.i.direct m 0 (omega (arith, ok.directs))));
  kept = λ j out. refl;
  device = refl;
  blocks = refl;
  indirect = refl;
  ino = refl;
  kind = refl;
  linkcount = refl;
  waste = refl;
  file = ok;
}

used :
    {f : File}
    → IsDirect f
    → (i : ℕ) → direct_of f i ≢ 0
    → (direct_of f i < f.fs.nblocks) × (in_use f.fs (direct_of f i) ≡ true)
used ok i there = elim (ok.direct i) [ inl z ↦ absurd (there z) | inr on ↦ on ]

trunc_direct-Trimmed :
    {f : File} (limit n i : ℕ)
    → i + n ≡ 15
    → IsDirect f
    → Ensures (λ _ t. Trimmed limit i f t) (λ _ _. ⊥) (trunc_direct limit n i f)
unfolding trunc_direct store_direct
trunc_direct-Trimmed {f} limit zero i sum ok =
    returns (subst (λ x. Trimmed limit x f f) (omega arith) (finished limit ok))
trunc_direct-Trimmed {f} limit (suc n) i sum ok =
    rw (load_direct-eq-done {f = f} i (omega (arith, ok.directs)))
      (elim (Bool-cases (leb limit i && get_or f.sv.i.direct i 0 /= 0)) [
        | inl cut ↦
            rw cut
              let there : direct_of f i ≢ 0 = λ z. ground arith in
                let over : limit ≤ i = ground arith in
                let (small, on) = used ok i there in
                bind (lift_fs-Ensures f.sv (bfree-Freed (direct_of f i) ok.volume small there on))
                  (λ _ t (free, sv).
                    rw (eq_of_parts {f = record { fs = t.fs; sv = f.sv }} refl sv) (
                      mono
                        (trunc_direct-Trimmed limit n (i + 1) (omega arith)
                          (without-IsDirect ok i (omega arith) there free))
                        (λ _ u h. without-Trimmed ok i (omega arith) there free limit over h)
                        (λ _ _ bad. bad)))
                  (λ _ _ (bad, sv). bad)
        | inr stay ↦ rw stay (
            mono (trunc_direct-Trimmed limit n (i + 1) (omega arith) ok)
              (λ _ t h. skipped limit i (λ over. ground arith) h) (λ _ _ bad. bad))
      ])

-- A file cut at the first block past `len` bytes, as sfs_itrunc counts the blocks.
pub record CutAt (f : File) (len : ℕ) (t : File) : Type 0 where
  pub size : t.sv.i.size ≡ len % 2 ^ 32
  pub dirty : t.sv.dirty ≡ true
  pub trimmed : Trimmed (blocklen len) 0 f t

trunc_indirect-none : (limit b : ℕ) (t : File) → b ≡ 0 → trunc_indirect limit b t ≡ done tt t
unfolding trunc_indirect
trunc_indirect-none limit b t e = rw (e, and_false (ltb limit 142)) refl

-- The new size changes no block.
sized :
    {f t : File} (limit len : ℕ)
    → Trimmed limit 0 f t
    → Trimmed limit 0 f (record t {
      sv = record (t.sv) { i = record (t.sv.i) { size = len % 2 ^ 32 }; dirty = true };
    })
sized limit len h = record {
  gone = h.gone;
  low = h.low;
  below = h.below;
  freed = h.freed;
  kept = h.kept;
  device = h.device;
  blocks = h.blocks;
  indirect = h.indirect;
  ino = h.ino;
  kind = h.kind;
  linkcount = h.linkcount;
  waste = h.waste;
  file = record {
    volume = h.file.volume;
    directs = h.file.directs;
    direct = h.file.direct;
    distinct = h.file.distinct;
  };
}

-- The blocks are cut where sfs_itrunc counts.
pub itrunc-CutAt :
    {f : File} (len : ℕ)
    → IsDirect f
    → f.sv.i.indirect ≡ 0
    → Ensures (λ _ t. CutAt f len t) (λ _ _. ⊥) (itrunc len f)
unfolding itrunc set_size load_indirect
itrunc-CutAt {f} len ok alone =
    bind (trunc_direct-Trimmed (blocklen len) 15 0 (omega arith) ok)
      (λ _ t h.
        let none' : t.sv.i.indirect ≡ 0 = h.indirect ∙ alone in
        rw (trunc_indirect-none (blocklen len) t.sv.i.indirect t none')
          (returns (record { size = refl; dirty = refl; trimmed = sized (blocklen len) len h })))
      (λ _ _ bad. bad)
