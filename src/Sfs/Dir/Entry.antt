-- ===== src/Sfs/Dir/Entry.antt =====
-- The bytes of a directory entry, and the comparison of names in sfs_dir_findname.
use os161_testbed.Common.{
  ℕ, zero, suc, ◌-◌, ◌^◌, ◌<◌, ◌≤◌, ◌≡◌, ◌≢◌, refl, true, false, ◌==◌, List, [], ◌∷◌, ◌++◌, length,
  replicate, set, arith, length-append, length-replicate, Bool-cases, inl, inr, some, ap, ◌∙◌, sym,
}
use os161_testbed.Common.Run.{Run, done}
use os161_testbed.Sfs.State.{File}
use os161_testbed.Sfs.Dir.{
  namelen, entrylen, noino, c_string, streq, padded, bytes_of_entry, entry_of_bytes, new_entry,
  look, Search,
}

-- A C string does not contain its terminator.
abbrev pub NoNul : List ℕ → Type 0
NoNul [] = Unit
NoNul (c ∷ cs) = (c ≢ 0) × NoNul cs

c_string-zeros : (k p : ℕ) → c_string (set (replicate k 0) p 0) ≡ []
c_string-zeros zero p = refl
c_string-zeros (suc k) zero = refl
c_string-zeros (suc k) (suc p) = refl

c_string-terminated :
    (name : List ℕ) (k p : ℕ)
    → NoNul name
    → length name ≤ p
    → c_string (set (name ++ replicate k 0) p 0) ≡ name
c_string-terminated [] k p ok short = c_string-zeros k p
c_string-terminated (c ∷ cs) k zero ok short = absurd (omega arith)
c_string-terminated (c ∷ cs) k (suc p) ok short =
    let nonzero : (c == 0) ≡ false = ground arith in
    rw (nonzero, c_string-terminated cs k p ok.1 (omega arith)) refl

streq-eq : (a b : List ℕ) → streq a b ≡ true → a ≡ b
streq-eq [] [] e = refl
streq-eq [] (d ∷ ds) e = absurd (ground arith)
streq-eq (c ∷ cs) [] e = absurd (ground arith)
streq-eq (c ∷ cs) (d ∷ ds) e =
    let head : c ≡ d = ground arith in
    let tail : streq cs ds ≡ true = ground arith in rw (head, streq-eq cs ds tail) refl

streq_refl : (a : List ℕ) → streq a a ≡ true
streq_refl [] = refl
streq_refl (c ∷ cs) = let h = streq_refl cs in ground arith

-- the bytes of the entry that sfs_dir_link writes
abbrev pub written : (name : List ℕ) (ino : ℕ) → List ℕ
written name ino = bytes_of_entry (new_entry name ino)

length-written :
    (name : List ℕ) (ino : ℕ) → length name < namelen → length (written name ino) ≡ entrylen
length-written name ino short = omega (
  arith,
  length-append name (replicate (namelen - length name) 0),
  length-replicate {A = ℕ} (namelen - length name) 0,
)

-- What the loop of sfs_dir_findname, at the entry in `slot`, does with what it has found: the entry is the
-- one that is looked for, or it is passed over.
pub data Found (name other : List ℕ) (ino slot : ℕ) (r : Search) (f : File)
    : Run File Search → Type 0 where
  hit :
      other ≡ name
      → Found name other ino slot r f
          (done (record r { found = true; slot = some slot; ino = some ino }) f)
  miss : other ≢ name → Found name other ino slot r f (done r f)

-- sfs_dir_link sets up an entry of 64 bytes for a name of at most 59 bytes without NUL and an inode number
-- that is not 0. Where the loop of sfs_dir_findname, which has not found its name so far, reads these bytes
-- in a slot, it takes the slot and that inode number if it looks for this name, and passes over the entry
-- if it looks for any other.
pub look-Found :
    (name other : List ℕ) (ino slot : ℕ) (r : Search) (f : File)
    → NoNul name
    → length name < namelen
    → ino ≢ noino
    → ino < 2 ^ 32
    → r.found ≡ false
    → (length (written name ino) ≡ entrylen)
      × Found name other ino slot r f (look other slot (entry_of_bytes (written name ino)) r f)
unfolding look
look-Found name other ino slot r f ok short there small fresh =
    (length-written name ino short, loop)
  where
    read_ino : (entry_of_bytes (written name ino)).ino ≡ ino
    read_ino = omega arith

    read_back : c_string (set (padded name) 59 0) ≡ name
    read_back = c_string-terminated name (namelen - length name) 59 ok (omega arith)

    used : (ino == noino) ≡ false
    used = ground arith

    loop : Found name other ino slot r f (look other slot (entry_of_bytes (written name ino)) r f)
    loop = elim (Bool-cases (streq name other)) [
      | inl e ↦ rw (read_ino, used, read_back, e, fresh) (hit (sym (streq-eq name other e)))
      | inr ne ↦
          rw (read_ino, used, read_back, ne)
            (miss (λ e. ground (arith, ap (λ o. streq name o) e ∙ streq_refl name, ne)))
    ]
