-- ===== src/Sfs/Inode/Sync.antt =====
-- What sfs_sync_inode does to the volume.
use os161_testbed.Common.{
  ℕ, ◌<◌, ◌≡◌, ◌≢◌, refl, ap, Bool, true, false, ◌==◌, if◌then◌else◌, arith, update, Bool-cases,
  ==_refl, inl, inr, eio,
}
use os161_testbed.Common.Codes.{Errno}
use os161_testbed.Common.Run.{and_then, done, fail, Ensures, returns, fails}
use os161_testbed.Lhd.Block.{code, left}
use os161_testbed.Sfs.State.{Sfs, Vnode, File, lift_fs}
use os161_testbed.Sfs.Block.{writeblock}
use os161_testbed.Sfs.Block.Retry.{with_codes, writeblock_lem}
use os161_testbed.Sfs.Block.Tried.{NoInval-drop}
use os161_testbed.Sfs.Balloc.Volume.{IsVolume, IsVolume-grown, IsDisk-update}
use os161_testbed.Sfs.Inode.{sync_inode, clean}
use os161_testbed.Sfs.Inode.Layout.{
  IsInode, bytes_of_inode, length-bytes_of_inode, inode_of_bytes-bytes_of_inode,
}
use os161_testbed.Sfs.Inode.Load.{on_disk, IsVolume-codes, SameButCodes}

-- The inode is clean, and on disk if it was dirty and the write succeeds at once; after a media error its
-- block has its old contents.
pub record Synced (f t : File) : Type 0 where
  pub clean : t.sv ≡ record f.sv { dirty = false }
  pub stored : f.sv.dirty ≡ true → code f.fs.device ≡ 0 → on_disk t.fs f.sv.ino ≡ f.sv.i
  pub stale :
      f.sv.dirty ≡ true
      → code f.fs.device ≢ 0
      → (code f.fs.device ≡ eio) × (t.fs.device.sectors f.sv.ino ≡ f.fs.device.sectors f.sv.ino)
  pub others : (b : ℕ) → f.sv.ino ≢ b → t.fs.device.sectors b ≡ f.fs.device.sectors b
  pub freemap : t.fs.freemap ≡ f.fs.freemap
  pub blocks : t.fs.nblocks ≡ f.fs.nblocks
  pub volume : IsVolume t.fs

pub record NotSynced (f : File) (e : Errno) (t : File) : Type 0 where
  pub error : e ≢ 0
  pub kept : t.sv ≡ f.sv
  pub volume : SameButCodes f.fs t.fs

if_true : {A : Type 0} {b : Bool} (x y : A) → b ≡ true → (if b then x else y) ≡ x
if_true x y e = ap (λ b. if b then x else y) e

if_false : {A : Type 0} {b : Bool} (x y : A) → b ≡ false → (if b then x else y) ≡ y
if_false x y e = ap (λ b. if b then x else y) e

abbrev clean_sv : File → Vnode
clean_sv f = record (f.sv) { dirty = false }

-- the volume after a write that succeeds at once
abbrev stored_fs : File → Sfs
stored_fs f = record (f.fs) {
  device = record (f.fs.device) {
    sectors = update f.fs.device.sectors f.sv.ino (bytes_of_inode f.sv.i);
    codes = left f.fs.device;
  };
}

module _ {f : File} (vol : IsVolume f.fs) (ok : IsInode f.sv.i) (lt : f.sv.ino < f.fs.nblocks) where
  stored-Synced : code f.fs.device ≡ 0 → Synced f (record { fs = stored_fs f; sv = clean_sv f })
  stored-Synced good = record {
    clean = refl;
    stored = λ d c. rw (==_refl f.sv.ino) (inode_of_bytes-bytes_of_inode f.sv.i ok);
    stale = λ d c. absurd (c good);
    others = λ b ne. let ne' : (f.sv.ino == b) ≡ false = ground arith in rw ne' refl;
    freemap = refl;
    blocks = refl;
    volume =
        IsVolume-grown vol (stored_fs f) vol.map refl refl (λ j on. on)
          (IsDisk-update vol f.sv.ino (bytes_of_inode f.sv.i) (left f.fs.device)
            (length-bytes_of_inode f.sv.i ok))
          refl (NoInval-drop f.fs.device.codes vol.valid);
  }

  -- a write that the disk failed and that is taken for a success
  lost-Synced :
      (code f.fs.device == 0) ≡ false
      → (code f.fs.device == eio) ≡ true
      → Synced f (record { fs = with_codes f.fs (left f.fs.device); sv = clean_sv f })
  lost-Synced ne media = record {
    clean = refl;
    stored = λ d c. absurd (ground arith);
    stale = λ d c. (ground arith, refl);
    others = λ b away. refl;
    freemap = refl;
    blocks = refl;
    volume = IsVolume-codes (left f.fs.device) vol (NoInval-drop f.fs.device.codes vol.valid);
  }

  clean-Synced : f.sv.dirty ≡ false → Synced f f
  clean-Synced c = record {
    clean = λ i. record { i = f.sv.i; ino = f.sv.ino; dirty = c i };
    stored = λ d e. absurd cc;
    stale = λ d e. absurd cc;
    others = λ b away. refl;
    freemap = refl;
    blocks = refl;
    volume = vol;
  }

  sync_dirty :
      f.sv.dirty ≡ true
      → sync_inode f
        ≡ and_then (lift_fs f.sv (writeblock f.sv.ino (bytes_of_inode f.sv.i) f.fs)) (λ _. clean)
  unfolding sync_inode
  sync_dirty e = if_true _ _ e

  sync_clean : f.sv.dirty ≡ false → sync_inode f ≡ done tt f
  unfolding sync_inode
  sync_clean e = if_false _ _ e

  -- sfs_sync_inode of an inode whose fields fit their places, on a well-formed volume: the inode is clean
  -- afterwards, and on the disk if it was dirty and the write succeeds at once; nothing else on the disk
  -- changes. A failure leaves the inode and the disk's contents as they were. The call never panics.
  pub sync_inode-Synced : Ensures (λ _ t. Synced f t) (NotSynced f) (sync_inode f)
  unfolding sync_inode lift_fs clean
  sync_inode-Synced = elim (Bool-cases f.sv.dirty) [
    | inr tidy ↦ rw (sync_clean tidy) (returns (clean-Synced tidy))
    | inl dirty ↦
        rw (sync_dirty dirty, write)
          (elim (Bool-cases (code f.fs.device == 0)) [
            | inl e ↦ rw e (returns (stored-Synced (ground arith)))
            | inr e ↦ elim (Bool-cases (code f.fs.device == eio)) [
              | inl g ↦ rw (e, g) (returns (lost-Synced e g))
              | inr g ↦
                  rw (e, g)
                    (fails (record {
                      error = λ z. ground arith;
                      kept = refl;
                      volume = (left f.fs.device, refl, NoInval-drop f.fs.device.codes vol.valid);
                    }))
            ]
          ])
  ]
    where
      write : writeblock f.sv.ino (bytes_of_inode f.sv.i) f.fs ≡ (
          if code f.fs.device == 0
          then done tt (stored_fs f)
          else if code f.fs.device == eio
          then done tt (with_codes f.fs (left f.fs.device))
          else fail (code f.fs.device) (with_codes f.fs (left f.fs.device)))
      write =
          writeblock_lem f.fs f.sv.ino (bytes_of_inode f.sv.i) vol.disk (omega (arith, vol.fits))
            (length-bytes_of_inode f.sv.i ok) (vol.valid 0)
