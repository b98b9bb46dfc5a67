-- ===== src/Common/Codes.antt =====
-- The errno values of os161/kern/include/kern/errno.h that the modelled code returns.
use Prim.Native.Nat.{ℕ}

abbrev pub Errno : Type 0
Errno = ℕ

abbrev pub enomem : Errno
enomem = 3

abbrev pub einval : Errno
einval = 8

abbrev pub enametoolong : Errno
enametoolong = 7

abbrev pub enoent : Errno
enoent = 19

abbrev pub eexist : Errno
eexist = 22

abbrev pub eio : Errno
eio = 32

abbrev pub ebusy : Errno
ebusy = 27

abbrev pub enospc : Errno
enospc = 36

abbrev pub efbig : Errno
efbig = 38
