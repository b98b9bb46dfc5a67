-- ===== src/Sfs/Inode/Lookonce.antt =====
-- sfs_lookonce of os161/kern/fs/sfs/sfs_dir.c: a name of a directory, and the vnode that it stands for.
use os161_testbed.Common.{ℕ, Bool, List, Option, none, some, ◌==◌, if◌then◌else◌}
use os161_testbed.Common.Run.{done, panic, fault, Cmd, ◌>>=◌}
use os161_testbed.Sfs.Dir.{findname}
use os161_testbed.Sfs.Inode.{Pool, deref_vnode, find_addr, keep_sv, on_vnode, loadvnode, type_inval}

-- the variable `ino` after the search: unset, it may not be read
pub name_ino : Option ℕ → Cmd Pool ℕ
name_ino none p = fault
name_ino (some ino) p = done ino p

-- sfs_lookonce in the directory at `dir`; the answer is `*ret` and `*slot`
unfoldable pub lookonce :
    (dir : ℕ) → List ℕ → (sv : Option ℕ) → (room : Bool) → Cmd Pool (ℕ × Option ℕ)
unfolding deref_vnode find_addr keep_sv on_vnode name_ino
lookonce dir name sv room = do
  r ← on_vnode dir (findname name)
  ino ← name_ino r.ino
  ret ← loadvnode sv room ino type_inval
  l ← deref_vnode ret
  if l.sv.i.linkcount == 0 then (λ _. panic) else done (ret, r.slot)
