-- ===== src/Sfs/State.antt =====
-- struct sfs_fs, struct sfs_vnode and the on-disk inode of os161/kern/include/sfs.h and
-- os161/kern/include/kern/sfs.h, as far as the modelled code reads them.
use os161_testbed.Common.{ℕ, ◌≡◌, refl, List, Bool, replicate, length, length-replicate}
use os161_testbed.Common.Words.{get_word, get_word-replicate}
use os161_testbed.Common.Run.{Run, done, fail, panic, fault, stuck, Cmd, Ensures, returns, fails}
use os161_testbed.Common.Codes.{Errno}
use os161_testbed.Bitmap.{Bitmap}
use os161_testbed.Lhd.{Disk}

abbrev pub blocksize : ℕ
blocksize = 512

abbrev pub ndirect : ℕ
ndirect = 15

abbrev pub nindirect : ℕ
nindirect = 1

abbrev pub dbperidb : ℕ
dbperidb = 128

-- a block of zeros: the `zeros` of sfs_clearblock, and a buffer after bzero
unfoldable pub zero_block : List ℕ
zero_block = replicate blocksize 0

pub length-zero_block : length zero_block ≡ 512
unfolding zero_block
length-zero_block = length-replicate {A = ℕ} 512 0

pub get_word-zero_block : (j : ℕ) → get_word zero_block j ≡ 0
unfolding zero_block
get_word-zero_block j = get_word-replicate 512 j

-- struct sfs_fs
pub record Sfs : Type 0 where
  -- sfs_sb.sb_nblocks
  pub nblocks : ℕ
  pub freemap : Bitmap
  pub freemapdirty : Bool
  -- sfs_device, an lhd disk
  pub device : Disk

-- struct sfs_dinode
pub record Dinode : Type 0 where
  pub size : ℕ
  pub kind : ℕ
  pub linkcount : ℕ
  pub direct : List ℕ
  pub indirect : ℕ
  -- sfi_waste, as bytes
  pub waste : List ℕ

-- struct sfs_vnode
pub record Vnode : Type 0 where
  pub i : Dinode
  pub ino : ℕ
  pub dirty : Bool

-- a volume and the file that an operation works on
pub record File : Type 0 where
  pub fs : Sfs
  pub sv : Vnode

-- An operation on the volume, run on behalf of a file.
unfoldable pub lift_fs : {A : Type 0} → Vnode → Run Sfs A → Run File A
lift_fs sv (done a s) = done a (record { fs = s; sv = sv })
lift_fs sv (fail e s) = fail e (record { fs = s; sv = sv })
lift_fs sv panic = panic
lift_fs sv fault = fault
lift_fs sv stuck = stuck

abbrev pub on_fs : {A : Type 0} → Cmd Sfs A → Cmd File A
on_fs m f = lift_fs f.sv (m f.fs)

pub lift_fs-Ensures :
    {A : Type 0} {P : A → Sfs → Type 0} {Q : Errno → Sfs → Type 0} {r : Run Sfs A} (sv : Vnode)
    → Ensures P Q r
    → Ensures (λ a t. P a t.fs × (t.sv ≡ sv)) (λ e t. Q e t.fs × (t.sv ≡ sv)) (lift_fs sv r)
unfolding lift_fs
lift_fs-Ensures sv (returns p) = returns (p, refl)
lift_fs-Ensures sv (fails q) = fails (q, refl)

pub eq_of_parts : {f t : File} → t.fs ≡ f.fs → t.sv ≡ f.sv → t ≡ f
eq_of_parts p q = λ i. record { fs = p i; sv = q i }
