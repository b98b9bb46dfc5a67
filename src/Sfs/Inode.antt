-- ===== src/Sfs/Inode.antt =====
-- os161/kern/fs/sfs/sfs_inode.c, with the reference counts of os161/kern/vfs/vnode.c: inodes in memory. A
-- vnode is in memory exactly while it is in sfs_vnodes, and is known by its address. What kmalloc returns
-- for a vnode, and whether vnodearray_add has room, are arguments.
pub mod Layout
pub mod Table
pub mod Load
pub mod Sync
pub mod Parts
pub mod Reclaim
pub mod Make
pub mod Erase
pub mod Lookonce
use os161_testbed.Common.{
  ℕ, ◌+◌, ◌-◌, ◌%◌, ◌^◌, Bool, true, false, not, ◌||◌, List, [], ◌∷◌, ◌++◌, Option, none, some, ltb,
  ◌==◌, ◌/=◌, if◌then◌else◌, enomem, ebusy, einval,
}
use os161_testbed.Common.Run.{
  Run, done, fail, panic, fault, stuck, Cmd, ◌>>=◌, ◌>>◌, and_then, kassert,
}
use os161_testbed.Sfs.State.{Sfs, Dinode, Vnode, File, on_fs}
use os161_testbed.Sfs.Block.{readblock, writeblock}
use os161_testbed.Sfs.Balloc.{balloc, bfree, bused}
use os161_testbed.Sfs.Trunc.{itrunc}
use os161_testbed.Sfs.Dir.{type_dir}
use os161_testbed.Sfs.Inode.Layout.{bytes_of_inode, inode_of_bytes}

-- a struct sfs_vnode at its address, with vn_refcount
pub record Loaded : Type 0 where
  pub addr : ℕ
  pub sv : Vnode
  pub refcount : ℕ

-- a mounted volume with sfs_vnodes
pub record Pool : Type 0 where
  pub fs : Sfs
  pub vnodes : List Loaded

abbrev pub type_inval : ℕ
type_inval = 0

abbrev pub type_file : ℕ
type_file = 1

-- SFS_ROOTDIR_INO
abbrev pub rootdir_ino : ℕ
rootdir_ino = 1

pub clean : Cmd File (Unit {0})
clean f = done tt (record f { sv = record (f.sv) { dirty = false } })

-- sfs_sync_inode
unfoldable pub sync_inode : Cmd File (Unit {0})
unfolding clean
sync_inode f =
    if f.sv.dirty
    then (do on_fs (writeblock f.sv.ino (bytes_of_inode f.sv.i)); clean) f
    else done tt f

-- vnode_incref
abbrev pub incref : Loaded → Loaded
incref l = record l { refcount = (l.refcount + 1) % 2 ^ 32 }

-- the linear search of sfs_loadvnode: the vnode's address and the table with its count raised
pub find_loaded : (ino forcetype : ℕ) → List Loaded → Cmd Sfs (Option (ℕ × List Loaded))
find_loaded ino forcetype [] = done none
find_loaded ino forcetype (l ∷ ls) = do
  used ← bused l.sv.ino
  if not used
      then (λ _. panic)
      else if l.sv.ino == ino
      then (do kassert (forcetype == type_inval); done (some (l.addr, incref l ∷ ls)))
      else (do
        r ← find_loaded ino forcetype ls
        done (elim r [ none ↦ none | some p ↦ some (p.0, l ∷ p.1) ]))

-- the choice of the function table by sfi_type
pub check_type : Dinode → Cmd Sfs (Unit {0})
check_type i = if i.kind == type_file || i.kind == type_dir then done tt else λ _. panic

-- sv_i and sv_dirty after the inode's block has been read
pub force_type : (forcetype : ℕ) → Dinode → Cmd Sfs (Dinode × Bool)
force_type forcetype i =
    if forcetype /= type_inval
    then (do kassert (i.kind == type_inval); done (record i { kind = forcetype % 2 ^ 16 }, true))
    else done (i, false)

-- from the kmalloc on, up to vnode_init
pub read_vnode : (sv : Option ℕ) → (ino forcetype : ℕ) → Cmd Sfs Loaded
read_vnode none ino forcetype = fail enomem
read_vnode (some addr) ino forcetype = do
  used ← bused ino
  if used
      then (do
        bytes ← readblock ino
        p ← force_type forcetype (inode_of_bytes bytes)
        check_type p.0
        done
            (record { addr = addr; sv = record { i = p.0; ino = ino; dirty = p.1 }; refcount = 1 }))
      else (λ _. panic)

pub on_pool : {A : Type 0} → List Loaded → Run Sfs A → Run Pool A
on_pool vnodes (done a s) = done a (record { fs = s; vnodes = vnodes })
on_pool vnodes (fail e s) = fail e (record { fs = s; vnodes = vnodes })
on_pool vnodes panic = panic
on_pool vnodes fault = fault
on_pool vnodes stuck = stuck

-- vnodearray_add
pub add_vnode : (room : Bool) → Loaded → Cmd Pool ℕ
add_vnode room l p =
    if room then done l.addr (record p { vnodes = p.vnodes ++ l ∷ [] }) else fail enomem p

-- the end of the search: the vnode that it found, or a new one
pub load_or_found :
    (sv : Option ℕ) → (room : Bool) → (ino forcetype : ℕ) → Option (ℕ × List Loaded) → Cmd Pool ℕ
load_or_found sv room ino forcetype (some r) p = done r.0 (record p { vnodes = r.1 })
load_or_found sv room ino forcetype none p =
    and_then (on_pool p.vnodes (read_vnode sv ino forcetype p.fs)) (add_vnode room)

-- sfs_loadvnode; the answer is the address of the vnode
unfoldable pub loadvnode : (sv : Option ℕ) → (room : Bool) → (ino forcetype : ℕ) → Cmd Pool ℕ
unfolding on_pool add_vnode load_or_found find_loaded check_type force_type read_vnode
loadvnode sv room ino forcetype p =
    and_then (on_pool p.vnodes (find_loaded ino forcetype p.vnodes p.fs))
      (load_or_found sv room ino forcetype)

-- if (result) sfs_bfree(sfs, ino)
pub undo_make : (ino : ℕ) → Run Pool ℕ → Run Pool ℕ
undo_make ino (done a p) = done a p
undo_make ino (fail e p) = and_then (on_pool p.vnodes (bfree ino p.fs)) (λ _. fail e)
undo_make ino panic = panic
undo_make ino fault = fault
undo_make ino stuck = stuck

-- sfs_makeobj
unfoldable pub makeobj : (sv : Option ℕ) → (room : Bool) → (kind : ℕ) → Cmd Pool ℕ
unfolding undo_make on_pool
makeobj sv room kind p =
    and_then (on_pool p.vnodes (balloc p.fs))
      (λ ino p'. undo_make ino (loadvnode sv room ino kind p'))

pub find_addr : (addr : ℕ) → List Loaded → Option Loaded
find_addr addr [] = none
find_addr addr (l ∷ ls) = if l.addr == addr then some l else find_addr addr ls

-- a change to the vnode at `addr`
abbrev pub change : (addr : ℕ) → (Loaded → Loaded) → List Loaded → List Loaded
change addr g [] = []
change addr g (l ∷ ls) = if l.addr == addr then g l ∷ ls else l ∷ change addr g ls

abbrev pub set_sv : Vnode → Loaded → Loaded
set_sv sv l = record l { sv = sv }

pub keep_sv : {A : Type 0} → (addr : ℕ) → List Loaded → Run File A → Run Pool A
keep_sv addr vnodes (done a f) =
    done a (record { fs = f.fs; vnodes = change addr (set_sv f.sv) vnodes })
keep_sv addr vnodes (fail e f) =
    fail e (record { fs = f.fs; vnodes = change addr (set_sv f.sv) vnodes })
keep_sv addr vnodes panic = panic
keep_sv addr vnodes fault = fault
keep_sv addr vnodes stuck = stuck

-- the vnode at `addr`, through its pointer
pub deref_vnode : (addr : ℕ) → Cmd Pool Loaded
deref_vnode addr p = elim (find_addr addr p.vnodes) [ none ↦ fault | some l ↦ done l p ]

pub on_vnode : {A : Type 0} → (addr : ℕ) → Cmd File A → Cmd Pool A
on_vnode addr m = do
  l ← deref_vnode addr
  λ p. keep_sv addr p.vnodes (m (record { fs = p.fs; sv = l.sv }))

-- the loop that looks for the vnode, and vnodearray_remove
pub remove_addr : (addr : ℕ) → List Loaded → Option (List Loaded)
remove_addr addr [] = none
remove_addr addr (l ∷ ls) =
    let rest : Option (List Loaded) = elim (remove_addr addr ls) [
      | none ↦ none
      | some ls' ↦ some (l ∷ ls')
    ] in
    if l.addr == addr then some ls else rest

pub remove_vnode : (addr : ℕ) → Cmd Pool (Unit {0})
remove_vnode addr p = elim (remove_addr addr p.vnodes) [
  | none ↦ panic
  | some vnodes ↦ done tt (record p { vnodes = vnodes })
]

-- the reference that VOP_DECREF gave is consumed
pub drop_reference : (addr : ℕ) → Cmd Pool (Unit {0})
drop_reference addr p =
    done tt
      (record p { vnodes = change addr (λ l. record l { refcount = l.refcount - 1 }) p.vnodes })

pub free_inode : (ino : ℕ) → Cmd Pool (Unit {0})
free_inode ino p = on_pool p.vnodes (bfree ino p.fs)

-- the last reference is gone: erase a file without links, write the inode, drop the vnode
pub discard_vnode : (addr : ℕ) → Cmd Pool (Unit {0})
discard_vnode addr = do
  l ← deref_vnode addr
  if l.sv.i.linkcount == 0 then on_vnode addr (itrunc 0) else done tt
  on_vnode addr sync_inode
  l' ← deref_vnode addr
  if l'.sv.i.linkcount == 0 then free_inode l'.sv.ino else done tt
  remove_vnode addr

-- sfs_reclaim
unfoldable pub reclaim : (addr : ℕ) → Cmd Pool (Unit {0})
unfolding find_addr keep_sv deref_vnode on_vnode remove_addr remove_vnode drop_reference free_inode
    on_pool discard_vnode
reclaim addr = do
  l ← deref_vnode addr
  if l.refcount /= 1
      then (do kassert (ltb 1 l.refcount); drop_reference addr; fail ebusy)
      else discard_vnode addr

-- vnode_decref: an error of sfs_reclaim is reported on the console only
unfoldable pub decref : (addr : ℕ) → Cmd Pool (Unit {0})
unfolding deref_vnode find_addr drop_reference
decref addr = do
  l ← deref_vnode addr
  kassert (ltb 0 l.refcount)
  if ltb 1 l.refcount then drop_reference addr else report (reclaim addr)
  where
    report : Cmd Pool (Unit {0}) → Cmd Pool (Unit {0})
    report m p = ignore (m p)
      where
        ignore : Run Pool (Unit {0}) → Run Pool (Unit {0})
        ignore (fail e p) = done tt p
        ignore r = r

-- sfs_getroot
unfoldable pub getroot : (sv : Option ℕ) → (room : Bool) → Cmd Pool ℕ
unfolding deref_vnode find_addr
getroot sv room = do
  addr ← loadvnode sv room rootdir_ino type_inval
  l ← deref_vnode addr
  if l.sv.i.kind /= type_dir then fail einval else done addr
