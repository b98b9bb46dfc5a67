-- ===== src/Sfs/Dir.antt =====
-- os161/kern/fs/sfs/sfs_dir.c: directories. A slot is 64 bytes of the directory's file: an inode number
-- and a name of 60 bytes. A name that a caller gives is the bytes of a C string, without its NUL.
pub mod Entry
use os161_testbed.Common.{
  ℕ, zero, suc, ◌+◌, ◌-◌, ◌*◌, ◌/◌, ◌%◌, Bool, true, false, not, ◌&&◌, List, [], ◌∷◌, ◌++◌, ltb,
  ◌==◌, ◌/=◌, if◌then◌else◌, drop, set, replicate, length, Option, none, some, enametoolong, enoent,
  eexist,
}
use os161_testbed.Common.Words.{get_word, set_word}
use os161_testbed.Common.Run.{done, fail, panic, Cmd, ◌>>=◌, ◌>>◌, kassert}
use os161_testbed.Uio.{read, write}
use os161_testbed.Sfs.State.{File}
use os161_testbed.Sfs.Io.{metaio}

abbrev pub namelen : ℕ
namelen = 60

-- sizeof(struct sfs_direntry)
abbrev pub entrylen : ℕ
entrylen = 64

abbrev pub type_dir : ℕ
type_dir = 2

-- SFS_NOINO
abbrev pub noino : ℕ
noino = 0

-- struct sfs_direntry
pub record Direntry : Type 0 where
  pub ino : ℕ
  pub name : List ℕ

abbrev pub entry_of_bytes : List ℕ → Direntry
entry_of_bytes bytes = record { ino = get_word bytes 0; name = drop 4 bytes }

abbrev pub bytes_of_entry : Direntry → List ℕ
bytes_of_entry sd = set_word (replicate 4 0) 0 sd.ino ++ sd.name

-- the string at the start of a buffer that holds its NUL
abbrev pub c_string : List ℕ → List ℕ
c_string [] = []
c_string (c ∷ cs) = let rest = c_string cs in if c == 0 then [] else c ∷ rest

-- !strcmp(a, b)
abbrev pub streq : List ℕ → List ℕ → Bool
streq [] [] = true
streq [] (d ∷ ds) = false
streq (c ∷ cs) [] = false
streq (c ∷ cs) (d ∷ ds) = (c == d) && streq cs ds

-- sfs_readdir
unfoldable pub readdir : (slot : ℕ) → Cmd File Direntry
readdir slot = do
  bytes ← metaio (slot * entrylen) (replicate entrylen 0) read
  done (entry_of_bytes bytes)

-- sfs_writedir
unfoldable pub writedir : (slot : ℕ) → Direntry → Cmd File (Unit {0})
writedir slot sd = do _ ← metaio (slot * entrylen) (bytes_of_entry sd) write; done tt

-- sfs_dir_nentries
unfoldable pub nentries : Cmd File ℕ
nentries f =
    (do
      kassert (f.sv.i.kind == type_dir)
      if f.sv.i.size % entrylen /= 0 then (λ _. panic) else done (f.sv.i.size / entrylen))
      f

-- `found`, and what is stored through the pointers
pub record Search : Type 0 where
  pub found : Bool
  pub ino : Option ℕ
  pub slot : Option ℕ
  pub emptyslot : Option ℕ

-- the body of the loop, at the entry read from slot `i`
pub look : List ℕ → ℕ → Direntry → Search → Cmd File Search
look name i tsd r =
    if tsd.ino == noino
    then done (record r { emptyslot = some i })
    else if streq (c_string (set tsd.name (namelen - 1) 0)) name
    then (do
      kassert (not (r.found))
      done (record r { found = true; slot = some i; ino = some tsd.ino }))
    else done r

-- for (i=0; i<nentries; i++), with the rounds left
search_loop : List ℕ → ℕ → ℕ → Search → Cmd File Search
search_loop name zero i r = done r
search_loop name (suc n) i r = do
  tsd ← readdir i
  r' ← look name i tsd r
  search_loop name n (i + 1) r'

-- sfs_dir_findname up to its last line, with every pointer given
unfoldable pub search : List ℕ → Cmd File Search
unfolding look search_loop
search name = do
  n ← nentries
  search_loop name n 0 (record { found = false; ino = none; slot = none; emptyslot = none })

-- return found ? 0 : ENOENT
unfoldable pub findname : List ℕ → Cmd File Search
findname name = do r ← search name; if r.found then done r else fail enoent

-- the slot for a new entry
slot_for : Search → Cmd File ℕ
slot_for r = elim (r.emptyslot) [ none ↦ nentries | some i ↦ done i ]

-- bzero and strcpy into sfd_name
abbrev pub padded : List ℕ → List ℕ
padded name = name ++ replicate (namelen - length name) 0

-- the entry that sfs_dir_link sets up
abbrev pub new_entry : (name : List ℕ) (ino : ℕ) → Direntry
new_entry name ino = record { ino = ino; name = padded name }

-- sfs_dir_link; the answer is `*slot`
unfoldable pub link : List ℕ → ℕ → Cmd File ℕ
unfolding slot_for
link name ino = do
  r ← search name
  if r.found
      then fail eexist
      else if ltb namelen (length name + 1)
      then fail enametoolong
      else (do slot ← slot_for r; writedir slot (new_entry name ino); done slot)

-- sfs_dir_unlink
unfoldable pub unlink : (slot : ℕ) → Cmd File (Unit {0})
unlink slot = writedir slot (record { ino = noino; name = replicate namelen 0 })
