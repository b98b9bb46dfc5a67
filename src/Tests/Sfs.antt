-- ===== src/Tests/Sfs.antt =====
-- A volume of eight blocks with the superblock and block 1 in use, on a disk of eight sectors.
use os161_testbed.Common.{
  ℕ, zero, suc, ◌<◌, ◌≡◌, ◌≢◌, refl, inl, inr, true, false, [], ◌∷◌, arith, get_or, eio, replicate,
  get_or-replicate,
}
use os161_testbed.Common.Bits.{test}
use os161_testbed.Common.Run.{done, Ensures}
use os161_testbed.Bitmap.Wf.{bit}
use os161_testbed.Lhd.{Disk}
use os161_testbed.Lhd.Block.{IsDisk}
use os161_testbed.Sfs.State.{Sfs, File, zero_block, length-zero_block}
use os161_testbed.Sfs.Block.{readblock, writeblock}
use os161_testbed.Sfs.Block.Retry.{
  with_codes, writeblock_lem, readblock_lem, ReadExactly, FailedExactly,
}
use os161_testbed.Sfs.Block.Tried.{NoInval}
use os161_testbed.Sfs.Balloc.{balloc, bfree}
use os161_testbed.Sfs.Balloc.Volume.{IsVolume, Allocated, Unallocated, balloc-Allocated}
use os161_testbed.Sfs.Balloc.Free.{Freed, bfree-Freed}
use os161_testbed.Sfs.Bmap.{bmap}
use os161_testbed.Sfs.Bmap.Extend.{Got, NotExtended, bmap-Got}
use os161_testbed.Sfs.Trunc.{itrunc}
use os161_testbed.Sfs.Trunc.Direct.{IsDirect, direct_of}
use os161_testbed.Sfs.Trunc.Length.{Cut, itrunc-Cut}
use os161_testbed.Sfs.Bmap.Lookup.{IsFile, Mapped, Looked, NotLooked, bmap-lookup}

abbrev pub disk : Disk
disk = record { sectors = λ _. zero_block; size = 8; codes = eio ∷ [] }

abbrev pub volume : Sfs
volume = record {
  nblocks = 8;
  freemap = record { nbits = 8; v = 3 ∷ [] };
  freemapdirty = false;
  device = disk;
}

disk-IsDisk : IsDisk disk
disk-IsDisk = record { long = λ n. length-zero_block; small = omega arith }

codes-NoInval : NoInval (eio ∷ [])
codes-NoInval zero e = absurd (omega arith)
codes-NoInval (suc n) e = absurd (omega arith)

pub volume-IsVolume : IsVolume volume
unfolding bit test
volume-IsVolume = record {
  map = record {
    small = omega arith;
    sized = refl;
    bytes = volume_bytes;
    over = λ i lo hi. absurd (omega arith);
  };
  covers = omega arith;
  past = λ b lo hi. absurd (omega arith);
  super = refl;
  disk = disk-IsDisk;
  fits = omega arith;
  valid = codes-NoInval;
}
  where
    volume_bytes : (k : ℕ) → get_or (3 ∷ []) k 0 < 256
    volume_bytes zero = omega arith
    volume_bytes (suc k) = omega arith

-- A file with block 1 as its first block and no other.
abbrev file : File
file = record {
  fs = volume;
  sv = record {
    i = record {
      size = 512;
      kind = 1;
      linkcount = 1;
      direct = 1 ∷ replicate 14 0;
      indirect = 0;
      waste = replicate 440 0;
    };
    ino = 1;
    dirty = false;
  };
}

file-IsFile : IsFile file
unfolding bit test
file-IsFile = record {
  volume = volume-IsVolume;
  directs = refl;
  direct = file_direct;
  indirect = inl refl;
  entry = λ j ne. absurd (ne refl);
}
  where
    file_direct : (n : ℕ) → Mapped volume (get_or (1 ∷ replicate 14 0) n 0)
    file_direct zero = inr (omega arith, refl)
    file_direct (suc n) = inl (get_or-replicate {A = ℕ} 14 n 0)

writeblock_lem_example : writeblock 3 zero_block volume ≡ done tt (with_codes volume [])
writeblock_lem_example =
    writeblock_lem volume 3 zero_block disk-IsDisk (omega arith) length-zero_block (omega arith)

readblock_lem_example : Ensures (ReadExactly volume 3) (FailedExactly volume) (readblock 3 volume)
readblock_lem_example = readblock_lem volume 3 disk-IsDisk (omega arith) codes-NoInval

balloc-Allocated_example : Ensures (Allocated volume) (Unallocated volume) (balloc volume)
balloc-Allocated_example = balloc-Allocated volume-IsVolume

bfree-Freed_example : Ensures (λ _ t. Freed volume 1 t) (λ _ _. ⊥) (bfree 1 volume)
unfolding bit test
bfree-Freed_example = bfree-Freed 1 volume-IsVolume (omega arith) (omega arith) refl

bmap-lookup_example : Ensures (Looked file 20) (NotLooked file 20) (bmap 20 false file)
bmap-lookup_example = bmap-lookup 20 file-IsFile

bmap-Got_example : Ensures (Got file 3) (NotExtended file) (bmap 3 true file)
bmap-Got_example = bmap-Got file-IsFile 3 (omega arith)

file-IsDirect : IsDirect file
file-IsDirect = record {
  volume = volume-IsVolume;
  directs = refl;
  direct = IsFile.direct file-IsFile;
  distinct = apart;
}
  where
    apart : (m n : ℕ) → m ≢ n → direct_of file m ≢ 0 → direct_of file m ≢ direct_of file n
    apart zero zero ne nz e = ne refl
    apart zero (suc n) ne nz e = omega (arith, e, get_or-replicate {A = ℕ} 14 n 0)
    apart (suc m) n ne nz e = nz (get_or-replicate {A = ℕ} 14 m 0)

itrunc-Cut_example : Ensures (λ _ t. Cut file 0 t) (λ _ _. ⊥) (itrunc 0 file)
itrunc-Cut_example = itrunc-Cut 0 (omega arith) file-IsDirect refl
