-- ===== src/Threads.antt =====
-- Any number of threads that call mem_alloc, mem_free and mem_resize of memory_manager.c at once. A
-- call touches the globals only while it has the mutex, so a step is what it does before it has the
-- mutex, or all that it does with it.
pub mod Sequential
pub mod InOrder
pub mod Safety
mod Tests
use threadsafe_memory_manage.Prelude.{
  ℕ, ◌≡◌, Bool, true, false, not, ◌&&◌, Option, none, some, List, [], ◌∷◌, ◌==◌, if◌then◌else◌,
}
use threadsafe_memory_manage.Word.{Ptr, null}
use threadsafe_memory_manage.Run.{ok, Cmd, pure, and_then, ◌>>=◌, ◌>>◌}
use threadsafe_memory_manage.Machine.{Manager, Fresh, mutex_lock, mutex_unlock}
use threadsafe_memory_manage.Manager.{
  mem_alloc_no_lock, mem_alloc, mem_free_no_lock, mem_free, find_block, resize_found, mem_resize,
}

-- A call with its arguments, and what the C heap gives it.
pub data Call : Type 0 where
  alloc : Fresh → ℕ → Call
  release : Ptr → Call
  resize : Fresh → Ptr → ℕ → Call

-- The function that is called; `mem_free` returns nothing, which stands as NULL here.
unfoldable pub call : Call → Cmd Manager Ptr
call (alloc f size) = mem_alloc f size
call (release block) = mem_free block >> pure null
call (resize f block size) = mem_resize f block size

-- `mem_resize (NULL, 0)` returns at once.
abbrev pub needs_lock : Call → Bool
needs_lock (alloc f size) = true
needs_lock (release block) = true
needs_lock (resize f block size) = not (size == 0 && block == null)

-- What a call does from `pthread_mutex_lock` on.
unfoldable pub locked_part : Call → Cmd Manager Ptr
locked_part (alloc f size) = do p ← mem_alloc_no_lock f size; mutex_unlock; pure p
locked_part (release block) = do mem_free_no_lock block; mutex_unlock; pure null
locked_part (resize f block size) =
    if size == 0
    then (do mem_free_no_lock block; mutex_unlock; pure null)
    else if block == null
    then (do p ← mem_alloc_no_lock f size; mutex_unlock; pure p)
    else do
      (previous, at) ← find_block block
      if at == null then mutex_unlock >> pure null else resize_found f block size previous at

-- A call that has returned.
pub record Event : Type 0 where
  pub thread : ℕ
  pub call : Call
  pub result : Ptr

-- The globals, the call that each thread is in while it has the mutex, and the calls that have
-- returned, the last one first.
pub record System : Type 0 where
  pub manager : Manager
  pub inside : ℕ → Option Call
  pub history : List Event

abbrev pub update : (ℕ → Option Call) → ℕ → Option Call → ℕ → Option Call
update f i c j = if j == i then c else f j

abbrev pub event : ℕ → Call → Ptr → Event
event i c p = record { thread = i; call = c; result = p }

-- What the C heap gives is not a live descriptor.
abbrev pub IsNew : Call → Manager → Type 0
IsNew (alloc f size) m = m.blocks f.at ≡ none
IsNew (release block) m = Unit
IsNew (resize f block size) m = m.blocks f.at ≡ none

-- A step of one thread: it takes the mutex, goes through the locked part, or returns at once.
pub data Step (s : System) : System → Type 0 where
  enter :
      (i : ℕ) (c : Call) (m : Manager)
      → s.inside i ≡ none
      → needs_lock c ≡ true
      → mutex_lock s.manager ≡ ok tt m
      → Step s (record s { manager = m; inside = update s.inside i (some c) })
  leave :
      (i : ℕ) (c : Call) (p : Ptr) (m : Manager)
      → s.inside i ≡ some c
      → IsNew c s.manager
      → locked_part c s.manager ≡ ok p m
      → Step s (record s {
        manager = m;
        inside = update s.inside i none;
        history = event i c p ∷ s.history;
      })
  pass :
      (i : ℕ) (c : Call)
      → s.inside i ≡ none
      → needs_lock c ≡ false
      → Step s (record s { history = event i c null ∷ s.history })

-- From globals with the lock free, and no call made yet.
pub data Reach (m : Manager) : System → Type 0 where
  begin : Reach m (record { manager = m; inside = λ _. none; history = [] })
  next : {s t : System} → Reach m s → Step s t → Reach m t
