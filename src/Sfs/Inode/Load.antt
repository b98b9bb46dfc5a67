-- ===== src/Sfs/Inode/Load.antt =====
-- What sfs_loadvnode does to the table of vnodes and to the volume.
use os161_testbed.Common.{
  ℕ, ◌+◌, ◌^◌, ◌<◌, ◌≡◌, ◌≢◌, refl, Bool, true, false, List, [], ◌∷◌, ◌++◌, Option, none, some,
  ◌==◌, if◌then◌else◌, ◌/=◌, arith, ◌⊎◌, inl, inr,
}
use os161_testbed.Common.Codes.{Errno}
use os161_testbed.Common.Run.{Run, done, Ensures, returns, fails, bind, and_then}
use os161_testbed.Sfs.State.{Sfs, Dinode}
use os161_testbed.Sfs.Block.Retry.{with_codes, readblock-Reads}
use os161_testbed.Sfs.Block.Tried.{NoInval}
use os161_testbed.Sfs.Balloc.Volume.{IsVolume, in_use, IsVolume-grown, IsDisk-codes}
use os161_testbed.Sfs.Balloc.Free.{bused-eq-done}
use os161_testbed.Sfs.Inode.{
  Loaded, Pool, loadvnode, read_vnode, force_type, check_type, on_pool, add_vnode, load_or_found,
}
use os161_testbed.Sfs.Inode.Layout.{inode_of_bytes}
use os161_testbed.Sfs.Inode.Table.{
  IsTable, NoIno, NoAddr, Resident, references, found, Found, found-Found, find_loaded-eq-done,
  IsTable-append, Resident-append, references-append,
}

-- A well-formed volume with a well-formed table.
pub record IsPool (p : Pool) : Type 0 where
  pub volume : IsVolume p.fs
  pub table : IsTable p.fs p.vnodes

-- the inode in block `ino` of the disk
abbrev pub on_disk : Sfs → (ino : ℕ) → Dinode
on_disk s ino = inode_of_bytes (s.device.sectors ino)

abbrev pub FileType : ℕ → Type 0
FileType kind = (kind ≡ 1) ⊎ (kind ≡ 2)

-- When inode `ino` may be asked for with `forcetype`: it is in memory, or of a good type on disk, or
-- new, and then its type is given.
pub data Loadable (p : Pool) (ino forcetype : ℕ) : Type 0 where
  in_memory :
      (r : ℕ × List Loaded) → forcetype ≡ 0 → found ino p.vnodes ≡ some r → Loadable p ino forcetype
  stored : forcetype ≡ 0 → FileType (on_disk p.fs ino).kind → Loadable p ino forcetype
  created :
      FileType forcetype
      → (on_disk p.fs ino).kind ≡ 0
      → NoIno ino p.vnodes
      → Loadable p ino forcetype

-- the address that kmalloc gives is of no vnode
abbrev pub Fresh : Option ℕ → List Loaded → Type 0
Fresh none ls = Unit
Fresh (some addr) ls = NoAddr addr ls

abbrev pub SameButCodes : Sfs → Sfs → Type 0
SameButCodes s t = (cs : List Errno) × (t ≡ with_codes s cs) × NoInval cs

-- the vnode made from the inode `i` on disk
abbrev pub new_vnode : (addr ino forcetype : ℕ) → Dinode → Loaded
new_vnode addr ino forcetype i = record {
  addr = addr;
  sv = record {
    i = if forcetype == 0 then i else record i { kind = forcetype };
    ino = ino;
    dirty = forcetype /= 0;
  };
  refcount = 1;
}

-- The vnode at `addr` is held for the caller: the one in memory with one more reference, or a new one
-- with the inode on disk.
pub record Held (p : Pool) (ino forcetype addr : ℕ) (q : Pool) : Type 0 where
  pub pool : IsPool q
  pub there : Resident ino addr q.vnodes
  pub references : references q.vnodes ≡ references p.vnodes + 1
  pub table :
      (found ino p.vnodes ≡ some (addr, q.vnodes))
      ⊎ (NoIno ino p.vnodes
          × (q.vnodes ≡ p.vnodes ++ new_vnode addr ino forcetype (on_disk p.fs ino) ∷ []))
  pub volume : SameButCodes p.fs q.fs

pub record NotHeld (p : Pool) (e : Errno) (q : Pool) : Type 0 where
  pub error : e ≢ 0
  pub table : q.vnodes ≡ p.vnodes
  pub volume : SameButCodes p.fs q.fs

pub IsVolume-codes :
    {s : Sfs} (cs : List Errno) → IsVolume s → NoInval cs → IsVolume (with_codes s cs)
IsVolume-codes cs ok valid =
    IsVolume-grown ok _ ok.map refl refl (λ j on. on) (IsDisk-codes ok cs) refl valid

-- The type of an inode that is not in memory, and the type to force.
abbrev Typed : ℕ → ℕ → Type 0
Typed forcetype kind = ((forcetype ≡ 0) × FileType kind) ⊎ (FileType forcetype × (kind ≡ 0))

-- What reading a new vnode promises.
abbrev ReadVnode : Sfs → (addr ino forcetype : ℕ) → Dinode → Loaded → Sfs → Type 0
ReadVnode s addr ino forcetype i l t = (l ≡ new_vnode addr ino forcetype i) × SameButCodes s t

abbrev NotRead : Sfs → Errno → Sfs → Type 0
NotRead s e t = (e ≢ 0) × SameButCodes s t

module _ (s : Sfs) (addr ino forcetype : ℕ) where
  typed :
      (i : Dinode) (cs : List Errno)
      → NoInval cs
      → Typed forcetype i.kind
      → Ensures (ReadVnode s addr ino forcetype i) (NotRead s) (
          and_then (force_type forcetype i (with_codes s cs)) (λ p t.
            and_then (check_type p.0 t) (λ _. done (record {
              addr = addr;
              sv = record { i = p.0; ino = ino; dirty = p.1 };
              refcount = 1;
            }))))
  unfolding force_type check_type
  typed i cs valid (inl (z, inl k)) = rw (z, k) (returns (refl, (cs, refl, valid)))
  typed i cs valid (inl (z, inr k)) = rw (z, k) (returns (refl, (cs, refl, valid)))
  typed i cs valid (inr (inl f, z)) = rw (f, z) (returns (refl, (cs, refl, valid)))
  typed i cs valid (inr (inr f, z)) = rw (f, z) (returns (refl, (cs, refl, valid)))

  read_vnode-ReadVnode :
      IsVolume s
      → ino < s.nblocks
      → in_use s ino ≡ true
      → Typed forcetype (on_disk s ino).kind
      → Ensures
          (ReadVnode s addr ino forcetype (on_disk s ino))
          (NotRead s)
          (read_vnode (some addr) ino forcetype s)
  unfolding read_vnode
  read_vnode-ReadVnode vol lt on ok =
      rw (bused-eq-done ino vol lt, on)
        (bind (readblock-Reads s ino vol.disk (omega (arith, vol.fits)) vol.valid)
          (λ bytes t (same, (cs, e, valid)). rw (same, e) (typed (on_disk s ino) cs valid ok))
          (λ e t bad. bad))

module _ {p : Pool} (ok : IsPool p) (ino forcetype : ℕ) where
  may_search : Loadable p ino forcetype → (forcetype ≡ 0) ⊎ NoIno ino p.vnodes
  may_search (in_memory r z e) = inl z
  may_search (stored z k) = inl z
  may_search (created f k away) = inr away

  may_read :
      found ino p.vnodes ≡ none → Loadable p ino forcetype → Typed forcetype (on_disk p.fs ino).kind
  may_read e (in_memory r z e') = absurd cc
  may_read e (stored z k) = inl (z, k)
  may_read e (created f k away) = inr (f, k)

  searched : references p.vnodes + 1 < 2 ^ 32 → Found p.fs ino p.vnodes (found ino p.vnodes)
  searched small = found-Found p.fs ino p.vnodes ok.table small

  -- the vnode that was in memory
  found-Held :
      {addr : ℕ} {ls : List Loaded}
      → found ino p.vnodes ≡ some (addr, ls)
      → Found p.fs ino p.vnodes (some (addr, ls))
      → Held p ino forcetype addr (record p { vnodes = ls })
  found-Held e (table, there, refs, keys) = record {
    pool = record { volume = ok.volume; table = table };
    there = there;
    references = refs;
    table = inl e;
    volume = (p.fs.device.codes, refl, ok.volume.valid);
  }

  -- a vnode that has been read
  added :
      {addr : ℕ} {l : Loaded} {t : Sfs} (room : Bool)
      → ino < p.fs.nblocks
      → in_use p.fs ino ≡ true
      → NoIno ino p.vnodes
      → NoAddr addr p.vnodes
      → ReadVnode p.fs addr ino forcetype (on_disk p.fs ino) l t
      → Ensures
          (Held p ino forcetype)
          (NotHeld p)
          (add_vnode room l (record { fs = t; vnodes = p.vnodes }))
  unfolding add_vnode
  added {addr} true lt on noino noaddr (e, (cs, f, valid)) =
      let l = new_vnode addr ino forcetype (on_disk p.fs ino) in
      rw (e, f)
        (returns (record {
          pool = record {
            volume = IsVolume-codes cs ok.volume valid;
            table = IsTable-append p.fs p.vnodes l ok.table lt on (omega arith) noino noaddr;
          };
          there = Resident-append p.vnodes l;
          references = references-append p.vnodes l;
          table = inr (noino, refl);
          volume = (cs, refl, valid);
        }))
  added false lt on noino noaddr (e, (cs, f, valid)) =
      fails (record { error = omega arith; table = refl; volume = (cs, f, valid) })

  then_added :
      {addr : ℕ} {r : Run Sfs Loaded} (room : Bool)
      → ino < p.fs.nblocks
      → in_use p.fs ino ≡ true
      → NoIno ino p.vnodes
      → NoAddr addr p.vnodes
      → Ensures (ReadVnode p.fs addr ino forcetype (on_disk p.fs ino)) (NotRead p.fs) r
      → Ensures (Held p ino forcetype) (NotHeld p) (and_then (on_pool p.vnodes r) (add_vnode room))
  unfolding on_pool
  then_added room lt on noino noaddr (returns new) = added room lt on noino noaddr new
  then_added room lt on noino noaddr (fails (ne, same)) =
      fails (record { error = ne; table = refl; volume = same })

  -- sfs_loadvnode, of an inode whose block is in use and that may be asked for so: it never panics and
  -- keeps the table well-formed, so that each inode has one vnode. It holds the vnode in memory once
  -- more, or adds one with the inode on disk, of the type to force if there is one. A failure leaves the
  -- table as it was. On the volume nothing but the disk's result codes changes.
  pub loadvnode-Held :
      (sv : Option ℕ) (room : Bool)
      → ino < p.fs.nblocks
      → in_use p.fs ino ≡ true
      → references p.vnodes + 1 < 2 ^ 32
      → Fresh sv p.vnodes
      → Loadable p ino forcetype
      → Ensures (Held p ino forcetype) (NotHeld p) (loadvnode sv room ino forcetype p)
  unfolding loadvnode on_pool load_or_found
  loadvnode-Held sv room lt on small fresh may =
      rw (find_loaded-eq-done p.fs ino forcetype p.vnodes ok.volume ok.table (may_search may))
        (go (found ino p.vnodes) refl (searched small) sv fresh)
    where
      go :
          (o : Option (ℕ × List Loaded))
          → found ino p.vnodes ≡ o
          → Found p.fs ino p.vnodes o
          → (sv : Option ℕ) → Fresh sv p.vnodes
          → Ensures (Held p ino forcetype) (NotHeld p) (load_or_found sv room ino forcetype o p)
      go (some (addr, ls)) e h sv fresh = returns (found-Held e h)
      go none e h none fresh = fails (record {
        error = omega arith;
        table = refl;
        volume = (p.fs.device.codes, refl, ok.volume.valid);
      })
      go none e h (some addr) fresh =
          then_added room lt on h fresh
            (read_vnode-ReadVnode p.fs addr ino forcetype ok.volume lt on (may_read e may))
