-- ===== src/Machine.antt =====
-- The machine under memory_manager.c: the manager's globals, the block descriptors of
-- memory_manager.h on the C heap, and the C library calls that the manager makes on them.
pub mod Points
use threadsafe_memory_manage.Prelude.{
  ℕ, ◌+◌, ◌-◌, Bool, ◌&&◌, Option, none, some, ltb, leb, ◌==◌, if◌then◌else◌,
}
use threadsafe_memory_manage.Word.{Ptr, null}
use threadsafe_memory_manage.Run.{ok, fault, deadlock, Cmd, pure, and_then, ◌>>=◌, ◌>>◌, modify}

-- `struct MemoryBlock`
pub record MemoryBlock : Type 0 where
  pub start : Ptr
  pub end : Ptr
  pub next : Ptr

-- A default mutex: it does not exist before `pthread_mutex_init` and after `pthread_mutex_destroy`.
pub data Mutex : Type 0 where
  absent unlocked locked : Mutex

-- The four globals, with what they point at: the descriptors that `malloc` gave out and `free` has
-- not taken back, whether the pool itself is allocated, and the bytes of memory.
pub record Manager : Type 0 where
  pub memory : Ptr
  pub memory_head : Ptr
  pub memory_size : ℕ
  pub lock : Mutex
  pub blocks : Ptr → Option MemoryBlock
  pub pool : Bool
  pub bytes : Ptr → ℕ

-- What `malloc (sizeof (MemoryBlock))` returns: an address, and indeterminate contents there.
pub record Fresh : Type 0 where
  pub at : Ptr
  pub junk : MemoryBlock

unfoldable pub write :
    (Ptr → Option MemoryBlock) → Ptr → Option MemoryBlock → Ptr → Option MemoryBlock
write h p c a = if a == p then c else h a

abbrev pub put : Ptr → Option MemoryBlock → Manager → Manager
put p c s = record s { blocks = write s.blocks p c }

-- `*p`: undefined at NULL and at an address that holds no live descriptor
unfoldable pub load : Ptr → Cmd Manager MemoryBlock
load p s = if p == null then fault else elim (s.blocks p) [ none ↦ fault | some b ↦ ok b s ]

-- `p->start = v`, `p->end = v`, `p->next = v`
unfoldable pub set_start : Ptr → Ptr → Cmd Manager (Unit {0})
set_start p v = do b ← load p; modify (put p (some (record b { start = v })))

unfoldable pub set_end : Ptr → Ptr → Cmd Manager (Unit {0})
set_end p v = do b ← load p; modify (put p (some (record b { end = v })))

unfoldable pub set_next : Ptr → Ptr → Cmd Manager (Unit {0})
set_next p v = do b ← load p; modify (put p (some (record b { next = v })))

abbrev pub set_head : Ptr → Cmd Manager (Unit {0})
set_head p = modify (λ s. record s { memory_head = p })

-- `malloc (sizeof (MemoryBlock))` and `free (p)` of a descriptor
unfoldable pub malloc_block : Fresh → Cmd Manager Ptr
malloc_block f s = if f.at == null then ok null s else ok f.at (put f.at (some f.junk) s)

unfoldable pub free_block : Ptr → Cmd Manager (Unit {0})
free_block p = load p >> modify (put p none)

-- `pthread_mutex_lock` and `pthread_mutex_unlock` of `lock`
unfoldable pub mutex_lock : Cmd Manager (Unit {0})
mutex_lock s = elim s.lock [
  | absent ↦ fault
  | unlocked ↦ ok tt (record s { lock = locked })
  | locked ↦ deadlock
]

unfoldable pub mutex_unlock : Cmd Manager (Unit {0})
mutex_unlock s = elim s.lock [
  | absent ↦ fault
  | unlocked ↦ fault
  | locked ↦ ok tt (record s { lock = unlocked })
]

-- `pthread_mutex_destroy`: undefined while the mutex is locked
unfoldable pub mutex_destroy : Cmd Manager (Unit {0})
mutex_destroy s = elim s.lock [
  | absent ↦ fault
  | unlocked ↦ ok tt (record s { lock = absent })
  | locked ↦ fault
]

-- `memcpy (dst, src, n)`: undefined if the two regions overlap
abbrev pub overlaps : Ptr → Ptr → ℕ → Bool
overlaps dst src n = ltb dst (src + n) && ltb src (dst + n)

abbrev pub copied : (Ptr → ℕ) → Ptr → Ptr → ℕ → Ptr → ℕ
copied bytes dst src n a = if leb dst a && ltb a (dst + n) then bytes (src + (a - dst)) else bytes a

unfoldable pub memcpy : Ptr → Ptr → ℕ → Cmd Manager (Unit {0})
memcpy dst src n s =
    if overlaps dst src n then fault else ok tt (record s { bytes = copied s.bytes dst src n })
