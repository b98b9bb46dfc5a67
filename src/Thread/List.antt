-- ===== src/Thread/List.antt =====
-- os161/kern/thread/threadlist.c: doubly linked lists of threads. A node is at an address: list `tl`
-- has its head and its tail node, and thread `t` has its t_listnode, whose addresses are 3 tl, 3 tl + 1
-- and 3 t + 2. NULL is `none`; reading through it is a `fault`. The DEBUGASSERTs, which lib.h defines
-- away, are left out.
pub mod Chain
pub mod Steps
pub mod Holds
pub mod Ops
use os161_testbed.Common.{
  ℕ, ◌+◌, ◌-◌, ◌*◌, ◌%◌, ◌^◌, Bool, true, false, Option, none, some, ◌==◌, if◌then◌else◌, update,
}
use os161_testbed.Common.Run.{
  Run, done, fail, panic, fault, stuck, Cmd, ◌>>=◌, ◌>>◌, and_then, kassert,
}

-- the nodes and the lists' counts
pub record Store : Type 0 where
  -- tln_next and tln_prev
  pub next : ℕ → Option ℕ
  pub prev : ℕ → Option ℕ
  -- tln_self
  pub self : ℕ → Option ℕ
  -- tl_count
  pub count : ℕ → ℕ

-- &tl->tl_head, &tl->tl_tail, &t->t_listnode
abbrev pub head_node : ℕ → ℕ
head_node tl = 3 * tl

abbrev pub tail_node : ℕ → ℕ
tail_node tl = 3 * tl + 1

abbrev pub listnode : ℕ → ℕ
listnode t = 3 * t + 2

abbrev pub get_next : ℕ → Cmd Store (Option ℕ)
get_next n s = done (s.next n) s

abbrev pub get_prev : ℕ → Cmd Store (Option ℕ)
get_prev n s = done (s.prev n) s

abbrev pub get_self : ℕ → Cmd Store (Option ℕ)
get_self n s = done (s.self n) s

abbrev pub set_next : ℕ → Option ℕ → Cmd Store (Unit {0})
set_next n p s = done tt (record s { next = update s.next n p })

abbrev pub set_prev : ℕ → Option ℕ → Cmd Store (Unit {0})
set_prev n p s = done tt (record s { prev = update s.prev n p })

abbrev pub set_self : ℕ → Option ℕ → Cmd Store (Unit {0})
set_self n p s = done tt (record s { self = update s.self n p })

abbrev pub set_count : ℕ → ℕ → Cmd Store (Unit {0})
set_count tl c s = done tt (record s { count = update s.count tl c })

-- the target of a pointer
abbrev pub deref : Option ℕ → Cmd Store ℕ
deref none s = fault
deref (some n) s = done n s

abbrev is_null : Option ℕ → Bool
is_null none = true
is_null (some n) = false

-- threadlistnode_init(&t->t_listnode, t)
unfoldable pub node_init : (t : ℕ) → Cmd Store (Unit {0})
node_init t = do
  set_next (listnode t) none
  set_prev (listnode t) none
  set_self (listnode t) (some t)

-- threadlistnode_cleanup
unfoldable pub node_cleanup : (n : ℕ) → Cmd Store (Unit {0})
node_cleanup n s =
    (do
      kassert (is_null (s.next n))
      kassert (is_null (s.prev n))
      if is_null (s.self n) then (λ _. panic) else done tt)
      s

-- threadlist_init
unfoldable pub init : (tl : ℕ) → Cmd Store (Unit {0})
init tl = do
  set_next (head_node tl) (some (tail_node tl))
  set_prev (head_node tl) none
  set_next (tail_node tl) none
  set_prev (tail_node tl) (some (head_node tl))
  set_self (head_node tl) none
  set_self (tail_node tl) none
  set_count tl 0

-- threadlist_isempty
unfoldable pub isempty : (tl : ℕ) → Cmd Store Bool
isempty tl s = done (s.count tl == 0) s

-- threadlist_cleanup
unfoldable pub cleanup : (tl : ℕ) → Cmd Store (Unit {0})
cleanup tl s = (do empty ← isempty tl; kassert empty; kassert (s.count tl == 0)) s

-- threadlist_insertafternode
unfoldable pub insertafternode : (onlist t : ℕ) → Cmd Store (Unit {0})
insertafternode onlist t =
    let addee = listnode t in
    do
      set_prev addee (some onlist)
      following ← get_next onlist
      set_next addee following
      before ← get_prev addee
      x ← deref before
      set_next x (some addee)
      after ← get_next addee
      y ← deref after
      set_prev y (some addee)

-- threadlist_insertbeforenode
unfoldable pub insertbeforenode : (t onlist : ℕ) → Cmd Store (Unit {0})
insertbeforenode t onlist =
    let addee = listnode t in
    do
      preceding ← get_prev onlist
      set_prev addee preceding
      set_next addee (some onlist)
      before ← get_prev addee
      x ← deref before
      set_next x (some addee)
      after ← get_next addee
      y ← deref after
      set_prev y (some addee)

-- threadlist_removenode
unfoldable pub removenode : (n : ℕ) → Cmd Store (Unit {0})
removenode n = do
  before ← get_prev n
  x ← deref before
  following ← get_next n
  set_next x following
  after ← get_next n
  y ← deref after
  preceding ← get_prev n
  set_prev y preceding
  set_prev n none
  set_next n none

-- tl->tl_count++ and tl->tl_count--, on `unsigned`
abbrev pub count_up : (tl : ℕ) → Cmd Store (Unit {0})
count_up tl s = set_count tl ((s.count tl + 1) % 2 ^ 32) s

abbrev pub count_down : (tl : ℕ) → Cmd Store (Unit {0})
count_down tl s = set_count tl ((s.count tl + 2 ^ 32 - 1) % 2 ^ 32) s

-- threadlist_addhead
unfoldable pub addhead : (tl t : ℕ) → Cmd Store (Unit {0})
addhead tl t = do insertafternode (head_node tl) t; count_up tl

-- threadlist_addtail
unfoldable pub addtail : (tl t : ℕ) → Cmd Store (Unit {0})
addtail tl t = do insertbeforenode t (tail_node tl); count_up tl

-- the rest of threadlist_remhead and threadlist_remtail at a node of the list
unfoldable pub take_node : (tl n : ℕ) → Cmd Store (Option ℕ)
take_node tl n = do removenode n; count_down tl; get_self n

-- threadlist_remhead
unfoldable pub remhead : (tl : ℕ) → Cmd Store (Option ℕ)
remhead tl = do
  first ← get_next (head_node tl)
  n ← deref first
  following ← get_next n
  if is_null following then done none else take_node tl n

-- threadlist_remtail
unfoldable pub remtail : (tl : ℕ) → Cmd Store (Option ℕ)
remtail tl = do
  last ← get_prev (tail_node tl)
  n ← deref last
  preceding ← get_prev n
  if is_null preceding then done none else take_node tl n

-- threadlist_insertafter
unfoldable pub insertafter : (tl onlist addee : ℕ) → Cmd Store (Unit {0})
insertafter tl onlist addee = do insertafternode (listnode onlist) addee; count_up tl

-- threadlist_insertbefore
unfoldable pub insertbefore : (tl addee onlist : ℕ) → Cmd Store (Unit {0})
insertbefore tl addee onlist = do insertbeforenode addee (listnode onlist); count_up tl

-- threadlist_remove
unfoldable pub remove : (tl t : ℕ) → Cmd Store (Unit {0})
remove tl t = do removenode (listnode t); count_down tl
