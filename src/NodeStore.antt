-- ===== src/NodeStore.antt =====
-- The machine under linked_list.c: the list's lock and head, the nodes that live in the pool of the
-- memory manager, and the primitive accesses to them.
use threadsafe_memory_manage.Prelude.{ℕ, zero, suc, Option, none, some, ◌==◌, if◌then◌else◌}
use threadsafe_memory_manage.Word.{Ptr, null}
use threadsafe_memory_manage.Run.{
  Run, ok, fault, deadlock, exited, out_of_fuel, Cmd, pure, ◌>>=◌, ◌>>◌, modify,
}
use threadsafe_memory_manage.Machine.{Manager, Fresh}
use threadsafe_memory_manage.Manager.{mem_alloc, mem_free, mem_deinit}

-- `struct Node`, without its mutex, which no function touches
pub record Node : Type 0 where
  pub value : ℕ
  pub next : Ptr

-- A read-write lock; `shared n` is held by `n + 1` readers.
pub data RwLock : Type 0 where
  gone idle exclusive : RwLock
  shared : ℕ → RwLock

-- `list_lock`, the list's head (`*head`), the manager, and the live nodes by address.
pub record Program : Type 0 where
  pub list_lock : RwLock
  pub head : Ptr
  pub manager : Manager
  pub nodes : Ptr → Option Node

-- What an allocation of a node gets from outside: a descriptor, and indeterminate contents.
pub record FreshNode : Type 0 where
  pub descriptor : Fresh
  pub junk : Node

unfoldable pub write_node : (Ptr → Option Node) → Ptr → Option Node → Ptr → Option Node
write_node h p c a = if a == p then c else h a

abbrev pub put_node : Ptr → Option Node → Program → Program
put_node p c s = record s { nodes = write_node s.nodes p c }

-- A call of the memory manager.
abbrev pub lift : {A : Type 0} → Program → Run Manager A → Run Program A
lift s (ok a m) = ok a (record s { manager = m })
lift s fault = fault
lift s deadlock = deadlock
lift s exited = exited
lift s out_of_fuel = out_of_fuel

-- `*p`: undefined at NULL and at an address where no node lives
unfoldable pub load_node : Ptr → Cmd Program Node
load_node p s = if p == null then fault else elim (s.nodes p) [ none ↦ fault | some n ↦ ok n s ]

-- `p->data = v`, `p->next = q`
unfoldable pub set_value : Ptr → ℕ → Cmd Program (Unit {0})
set_value p v = do n ← load_node p; modify (put_node p (some (record n { value = v })))

unfoldable pub set_next : Ptr → Ptr → Cmd Program (Unit {0})
set_next p q = do n ← load_node p; modify (put_node p (some (record n { next = q })))

-- `*head = p`
abbrev pub set_head : Ptr → Cmd Program (Unit {0})
set_head p = modify (λ s. record s { head = p })

-- `mem_alloc (sizeof (Node))`: the new node has indeterminate contents
unfoldable pub alloc_node : ℕ → FreshNode → Cmd Program Ptr
alloc_node node_size f = do
  p ← (λ s. lift s (mem_alloc f.descriptor node_size s.manager))
  if p == null then pure null else modify (put_node p (some f.junk)) >> pure p

-- `mem_free (p)` of a node
unfoldable pub free_node : Ptr → Cmd Program (Unit {0})
free_node p = do load_node p; (λ s. lift s (mem_free p s.manager)); modify (put_node p none)

-- `mem_deinit ()`: the nodes that are left go with the pool
unfoldable pub deinit_pool : Cmd Program (Unit {0})
deinit_pool = do (λ s. lift s (mem_deinit s.manager)); modify (λ s. record s { nodes = λ _. none })

-- `pthread_rwlock_rdlock`, `_wrlock`, `_unlock` and `_destroy` of `list_lock`
unfoldable pub rdlock : Cmd Program (Unit {0})
rdlock s = elim s.list_lock [
  | gone ↦ fault
  | idle ↦ ok tt (record s { list_lock = shared zero })
  | shared n ↦ ok tt (record s { list_lock = shared (suc n) })
  | exclusive ↦ deadlock
]

unfoldable pub wrlock : Cmd Program (Unit {0})
wrlock s = elim s.list_lock [
  | gone ↦ fault
  | idle ↦ ok tt (record s { list_lock = exclusive })
  | shared n ↦ deadlock
  | exclusive ↦ deadlock
]

unfoldable pub rwunlock : Cmd Program (Unit {0})
rwunlock s = elim s.list_lock [
  | gone ↦ fault
  | idle ↦ fault
  | shared zero ↦ ok tt (record s { list_lock = idle })
  | shared (suc n) ↦ ok tt (record s { list_lock = shared n })
  | exclusive ↦ ok tt (record s { list_lock = idle })
]

unfoldable pub rwlock_destroy : Cmd Program (Unit {0})
rwlock_destroy s = elim s.list_lock [
  | gone ↦ fault
  | idle ↦ ok tt (record s { list_lock = gone })
  | shared n ↦ fault
  | exclusive ↦ fault
]
