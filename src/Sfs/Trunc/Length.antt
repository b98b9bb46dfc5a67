-- ===== src/Sfs/Trunc/Length.antt =====
-- What sfs_itrunc does to a file that has no indirect block, by the bytes of the file.
use os161_testbed.Common.{ℕ, ◌+◌, ◌*◌, ◌%◌, ◌^◌, ◌<◌, ◌≤◌, ◌≡◌, ◌≢◌, ◌↔◌, true, false, arith}
use os161_testbed.Common.Run.{Ensures, mono}
use os161_testbed.Sfs.State.{File}
use os161_testbed.Sfs.Balloc.Volume.{in_use}
use os161_testbed.Sfs.Trunc.{itrunc, blocklen}
use os161_testbed.Sfs.Trunc.Direct.{IsDirect, direct_of, itrunc-CutAt}

-- A file cut to, or grown to, `len` bytes, where block `m` has the bytes from `m * 512` on.
pub record Cut (f : File) (len : ℕ) (t : File) : Type 0 where
  pub size : t.sv.i.size ≡ len % 2 ^ 32
  pub dirty : t.sv.dirty ≡ true
  pub gone : (m : ℕ) → len ≤ m * 512 → direct_of t m ≡ 0
  pub stays : (m : ℕ) → m * 512 < len → direct_of t m ≡ direct_of f m
  pub freed : (m : ℕ) → len ≤ m * 512 → direct_of f m ≢ 0 → in_use t.fs (direct_of f m) ≡ false
  pub kept : (j : ℕ) → ((m : ℕ) → len ≤ m * 512 → direct_of f m ≢ j) → in_use t.fs j ≡ in_use f.fs j
  pub device : t.fs.device ≡ f.fs.device
  pub blocks : t.fs.nblocks ≡ f.fs.nblocks
  pub indirect : t.sv.i.indirect ≡ f.sv.i.indirect
  pub file : IsDirect t

-- The count of blocks does not wrap, and block `m` is past it where all its bytes are past the length.
past-blocklen : (len m : ℕ) → len + 511 < 2 ^ 41 → (blocklen len ≤ m) ↔ (len ≤ m * 512)
past-blocklen len m small = ((λ h. omega arith), (λ h. omega arith))

-- sfs_itrunc of a file without an indirect block, whose direct blocks are in use and of which no two are
-- the same block, to a length below 2^41 - 511: it succeeds, the size is the new one cut to 32 bits, the
-- blocks that hold a byte below the new length stay, the others are gone and no longer in use, no other
-- block is freed, and the disk is not touched. The direct blocks stay in use and no two are the same.
pub itrunc-Cut :
    {f : File} (len : ℕ)
    → len + 511 < 2 ^ 41
    → IsDirect f
    → f.sv.i.indirect ≡ 0
    → Ensures (λ _ t. Cut f len t) (λ _ _. ⊥) (itrunc len f)
itrunc-Cut {f} len small ok alone =
    mono (itrunc-CutAt len ok alone)
      (λ _ t cut.
        let h = cut.trimmed in
        record {
          size = cut.size;
          dirty = cut.dirty;
          gone = λ m over. h.gone m (omega arith) ((past-blocklen len m small).1 over);
          stays = λ m less. h.below m (omega (arith, small, (past-blocklen len m small).0));
          freed = λ m over nz. h.freed m (omega arith) ((past-blocklen len m small).1 over) nz;
          kept = λ j out. h.kept j (λ m ge over. out m ((past-blocklen len m small).0 over));
          device = h.device;
          blocks = h.blocks;
          indirect = h.indirect;
          file = h.file;
        })
      (λ _ _ bad. bad)
