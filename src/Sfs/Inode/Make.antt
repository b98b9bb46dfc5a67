-- ===== src/Sfs/Inode/Make.antt =====
-- What sfs_makeobj does: a block for a new inode, and a vnode for it.
use os161_testbed.Common.{
  ℕ, ◌+◌, ◌^◌, ◌<◌, ◌≡◌, ◌≢◌, refl, sym, ap, ◌∙◌, Bool, true, false, not, ◌&&◌, ◌||◌, List, [], ◌∷◌,
  ◌++◌, Option, none, some, ◌==◌, arith, inl, inr, ==_refl, ℕ_discrete,
}
use os161_testbed.Common.Codes.{Errno}
use os161_testbed.Common.Run.{Run, fail, Ensures, returns, fails, and_then}
use os161_testbed.Bitmap.Wf.{bit}
use os161_testbed.Lhd.Block.{code}
use os161_testbed.Sfs.State.{Sfs, Dinode, zero_block, get_word-zero_block}
use os161_testbed.Sfs.Block.Retry.{with_codes}
use os161_testbed.Sfs.Balloc.Volume.{in_use, Allocated, Unallocated, balloc-Allocated}
use os161_testbed.Sfs.Balloc.Free.{Freed, bfree-Freed}
use os161_testbed.Sfs.Inode.{Loaded, Pool, makeobj, undo_make, on_pool, loadvnode}
use os161_testbed.Sfs.Inode.Layout.{inode_of_bytes}
use os161_testbed.Sfs.Inode.Table.{IsTable, NoIno, references, found-eq-none}
use os161_testbed.Sfs.Inode.Load.{
  IsPool, Fresh, FileType, Held, NotHeld, created, new_vnode, loadvnode-Held, IsVolume-codes,
}

-- the inode of a block of zeros
abbrev pub empty_inode : Dinode
empty_inode = inode_of_bytes zero_block

-- A block that was free is the only one newly in use, and its vnode is the last of the table.
pub record Made (p : Pool) (kind addr : ℕ) (q : Pool) : Type 0 where
  pub ino : ℕ
  pub was_free : in_use p.fs ino ≡ false
  pub marks : (j : ℕ) → in_use q.fs j ≡ (ino == j || in_use p.fs j)
  pub table : q.vnodes ≡ p.vnodes ++ new_vnode addr ino kind empty_inode ∷ []
  pub pool : IsPool q

-- No block is lost, and the table is as it was.
pub record NotMade (p : Pool) (e : Errno) (q : Pool) : Type 0 where
  pub error : e ≢ 0
  pub marks : (j : ℕ) → in_use q.fs j ≡ in_use p.fs j
  pub table : q.vnodes ≡ p.vnodes
  pub pool : IsPool q

pub IsTable-grown :
    (s t : Sfs) (ls : List Loaded)
    → t.nblocks ≡ s.nblocks
    → ((j : ℕ) → in_use s j ≡ true → in_use t j ≡ true)
    → IsTable s ls
    → IsTable t ls
IsTable-grown s t [] blocks grows ok = tt
IsTable-grown s t (l ∷ ls) blocks grows ok = (
  omega (arith, ok.0, blocks),
  grows l.sv.ino ok.1,
  ok.2,
  ok.3,
  IsTable-grown s t ls blocks grows ok.4,
)

free-NoIno : (s : Sfs) (b : ℕ) (ls : List Loaded) → in_use s b ≡ false → IsTable s ls → NoIno b ls
free-NoIno s b [] free ok = tt
free-NoIno s b (l ∷ ls) free ok = (
  λ e. absurd (false≢true (sym free ∙ ap (in_use s) (sym e) ∙ ok.1)),
  free-NoIno s b ls free ok.4,
)
  where
    false≢true : false ≢ true
    false≢true e = absurd cc

empty_inode-kind : empty_inode.kind ≡ 0
empty_inode-kind = rw (get_word-zero_block 1) refl

module _ {p : Pool} (ok : IsPool p) (kind b : ℕ) {t : Sfs} (new : Allocated p.fs b t) where
  abbrev with_block : Pool
  with_block = record { fs = t; vnodes = p.vnodes }

  with_block-IsPool : IsPool with_block
  with_block-IsPool = record {
    volume = new.volume;
    table = IsTable-grown p.fs t p.vnodes new.blocks (λ j on. new.marks j ∙ ground arith) ok.table;
  }

  noino : NoIno b p.vnodes
  noino = free-NoIno p.fs b p.vnodes new.was_free ok.table

  unmark_mark : (j : ℕ) → (not (b == j) && (b == j || in_use p.fs j)) ≡ in_use p.fs j
  unmark_mark j = elim (ℕ_discrete b j) [
    | yes e ↦ rw (sym e, ==_refl b, new.was_free) refl
    | no ne ↦ let ne' : (b == j) ≡ false = ground arith in rw ne' refl
  ]

  in_use_now : in_use t b ≡ true
  in_use_now = new.marks b ∙ ground arith

  loads :
      (sv : Option ℕ) (room : Bool)
      → code p.fs.device ≡ 0
      → FileType kind
      → references p.vnodes + 1 < 2 ^ 32
      → Fresh sv p.vnodes
      → Ensures (Held with_block b kind) (NotHeld with_block) (loadvnode sv room b kind with_block)
  loads sv room written typed small fresh =
      loadvnode-Held {p = with_block} with_block-IsPool b kind sv room
        (omega (arith, new.range, new.blocks)) in_use_now small fresh
        (created typed
          (ap (λ bytes. (inode_of_bytes bytes).kind) (new.cleared written) ∙ empty_inode-kind)
          noino)

  made :
      (addr : ℕ) (q : Pool)
      → code p.fs.device ≡ 0
      → Held with_block b kind addr q
      → Made p kind addr q
  made addr q written h =
      let (cs, same, valid) = h.volume in
      record {
        ino = b;
        was_free = new.was_free;
        marks = λ j. ap (λ fs. in_use fs j) same ∙ new.marks j;
        table = elim h.table [
          | inl e ↦ absurd (none≢some (sym (found-eq-none b p.vnodes noino) ∙ e))
          | inr (away, e) ↦
              e
              ∙ ap (λ bytes. p.vnodes ++ new_vnode addr b kind (inode_of_bytes bytes) ∷ [])
                  (new.cleared written)
        ];
        pool = h.pool;
      }
    where
      none≢some : {x : ℕ × List Loaded} → none ≢ some x
      none≢some e = absurd cc

  unmade :
      (e : Errno) (q : Pool)
      → NotHeld with_block e q
      → Ensures (Made p kind) (NotMade p) (undo_make b (fail e q))
  unfolding undo_make on_pool
  unmade e q h =
      let (cs, same, valid) = h.volume in
      rw same (
        freed (
          bfree-Freed b (IsVolume-codes cs new.volume valid) (omega (arith, new.range, new.blocks))
            new.nonzero in_use_now))
    where
      freed :
          {cs : List Errno} {r : Run Sfs (Unit {0})}
          → Ensures (λ _ u. Freed (with_codes t cs) b u) (λ _ _. ⊥) r
          → Ensures (Made p kind) (NotMade p) (and_then (on_pool q.vnodes r) (λ _. fail e))
      freed (returns {s = u} f) =
          let back : (j : ℕ) → in_use u j ≡ in_use p.fs j =
            λ j. f.marks j ∙ ap (λ x. not (b == j) && x) (new.marks j) ∙ unmark_mark j in
          fails (record {
            error = h.error;
            marks = back;
            table = h.table;
            pool = record {
              volume = f.volume;
              table = rw h.table (
                  IsTable-grown p.fs u p.vnodes (f.blocks ∙ new.blocks) (λ j on. back j ∙ on)
                    ok.table);
            };
          })
      freed (fails bad) = absurd bad

-- sfs_makeobj of a file or a directory, in a well-formed pool, where the write of zeros to the new block
-- succeeds at once: either a block that was free is the only one newly in use, and a vnode for it, of
-- the type asked for, with no links and no blocks, is the last of the table; or the call fails, no
-- block is newly in use and the table is as it was. The pool stays well-formed. The call never panics.
pub makeobj-Made :
    {p : Pool} (kind : ℕ) (sv : Option ℕ) (room : Bool)
    → IsPool p
    → code p.fs.device ≡ 0
    → FileType kind
    → references p.vnodes + 1 < 2 ^ 32
    → Fresh sv p.vnodes
    → Ensures (Made p kind) (NotMade p) (makeobj sv room kind p)
unfolding makeobj on_pool
makeobj-Made {p} kind sv room ok written typed small fresh =
    from_balloc (balloc-Allocated ok.volume)
  where
    from_load :
        (b : ℕ) (t : Sfs)
        → Allocated p.fs b t
        → {r : Run Pool ℕ}
        → Ensures
            (Held (record { fs = t; vnodes = p.vnodes }) b kind)
            (NotHeld (record { fs = t; vnodes = p.vnodes }))
            r
        → Ensures (Made p kind) (NotMade p) (undo_make b r)
    from_load b t new (returns h) = returns (made ok kind b new _ _ written h)
    from_load b t new (fails h) = unmade ok kind b new _ _ h

    from_balloc :
        {r : Run Sfs ℕ}
        → Ensures (Allocated p.fs) (Unallocated p.fs) r
        → Ensures
            (Made p kind)
            (NotMade p)
            (and_then (on_pool p.vnodes r) (λ ino q. undo_make ino (loadvnode sv room ino kind q)))
    from_balloc (returns {a = b} {s = t} new) =
        from_load b t new (loads ok kind b new sv room written typed small fresh)
    from_balloc (fails {s = t} bad) = fails (record {
      error = bad.error;
      marks = λ j. ap (λ m. bit m j) bad.map;
      table = refl;
      pool = record {
        volume = bad.volume;
        table =
            IsTable-grown p.fs t p.vnodes bad.blocks (λ j on. ap (λ m. bit m j) bad.map ∙ on)
              ok.table;
      };
    })
