-- ===== src/Manager.antt =====
-- memory_manager.c, function by function. A `while` loop runs on fuel and is given
-- `memory_size + 1` rounds; where C calls `malloc`, its result is an argument.
pub mod Chain
pub mod FirstFit
pub mod Insert
pub mod Valid
pub mod Alloc
pub mod Find
pub mod Unlink
pub mod Free
pub mod Locked
pub mod Reconnect
pub mod Relocate
pub mod Relocation
pub mod Resize
pub mod Lifetime
pub mod Owners
pub mod Placement
pub mod Rounds
pub mod Moves
pub mod Defects
pub mod Starts
mod Tests
use threadsafe_memory_manage.Prelude.{
  ℕ, zero, suc, Bool, true, false, ◌||◌, ltb, leb, ◌==◌, if◌then◌else◌,
}
use threadsafe_memory_manage.Word.{Ptr, null, ptr_add, ptr_sub}
use threadsafe_memory_manage.Run.{
  Run, ok, fault, deadlock, out_of_fuel, Cmd, pure, and_then, ◌>>=◌, ◌>>◌, get, modify,
}
use threadsafe_memory_manage.Machine.{
  MemoryBlock, Mutex, absent, unlocked, locked, Manager, Fresh, load, set_start, set_end, set_next,
  set_head, malloc_block, free_block, mutex_lock, mutex_unlock, mutex_destroy, memcpy, put,
}

-- `pool` is what `malloc (size)` returns
unfoldable pub mem_init : Ptr → ℕ → Cmd Manager (Unit {0})
mem_init pool size s = ok tt (record s {
  memory = pool;
  pool = (if pool == null then false else true);
  memory_head = null;
  memory_size = size;
  lock = unlocked;
})

-- `!memory_head || memory_head->start - memory >= size`
unfoldable pub fits_first : ℕ → Cmd Manager Bool
fits_first size = do
  s ← get
  if s.memory_head == null
      then pure true
      else do b ← load s.memory_head; pure (leb size (ptr_sub b.start s.memory))

-- The three assignments to the fields of `new_block`, which both ways to insert make.
unfoldable pub fill : Ptr → Ptr → Ptr → Ptr → Cmd Manager (Unit {0})
fill new_block start end next = do
  set_start new_block start
  set_end new_block end
  set_next new_block next

unfoldable pub insert_first : Ptr → ℕ → Cmd Manager Ptr
insert_first new_block size = do
  s ← get
  fill new_block s.memory (ptr_add s.memory size) s.memory_head
  set_head new_block
  pure s.memory

-- `free_size` of one round: up to the next block, or up to the end of the pool
unfoldable pub free_size : MemoryBlock → Cmd Manager ℕ
free_size current = do
  s ← get
  if current.next == null
      then pure (ptr_sub (ptr_add s.memory s.memory_size) current.end)
      else do n ← load current.next; pure (ptr_sub n.start current.end)

unfoldable pub insert_after : Ptr → Ptr → MemoryBlock → ℕ → Cmd Manager Ptr
insert_after new_block at current size = do
  fill new_block current.end (ptr_add current.end size) current.next
  set_next at new_block
  b ← load new_block
  pure b.start

-- The `while (current)` of the general insert, and what follows it.
unfoldable pub insert_loop : ℕ → Ptr → ℕ → Ptr → Cmd Manager Ptr
insert_loop zero new_block size at = λ _. out_of_fuel
insert_loop (suc k) new_block size at = if at == null then free_block new_block >> pure null else do
  current ← load at
  room ← free_size current
  if leb size room
      then insert_after new_block at current size
      else insert_loop k new_block size current.next

-- What `mem_alloc_no_lock` does once `size` has passed its checks.
unfoldable pub insert_block : Ptr → ℕ → Cmd Manager Ptr
insert_block new_block size = do
  s ← get
  first ← fits_first size
  if first
      then insert_first new_block size
      else insert_loop (suc s.memory_size) new_block size s.memory_head

unfoldable pub mem_alloc_no_lock : Fresh → ℕ → Cmd Manager Ptr
mem_alloc_no_lock fresh size = do
  s ← get
  if s.memory == null || ltb s.memory_size size
      then pure null
      else if size == 0
      then pure s.memory
      else do
        new_block ← malloc_block fresh
        if new_block == null then pure null else insert_block new_block size

unfoldable pub mem_alloc : Fresh → ℕ → Cmd Manager Ptr
mem_alloc fresh size = do
  mutex_lock
  allocated ← mem_alloc_no_lock fresh size
  mutex_unlock
  pure allocated

-- `while (current && current->start != block)`: the block that starts at `block`, or NULL, behind
-- the one before it, or NULL.
unfoldable pub find_loop : ℕ → Ptr → Ptr → Ptr → Cmd Manager (Ptr × Ptr)
find_loop zero block previous at = λ _. out_of_fuel
find_loop (suc k) block previous at = if at == null then pure (previous, at) else do
  current ← load at
  if current.start == block then pure (previous, at) else find_loop k block at current.next

unfoldable pub find_block : Ptr → Cmd Manager (Ptr × Ptr)
find_block block = do s ← get; find_loop (suc s.memory_size) block null s.memory_head

-- `if (previous) previous->next = p; else memory_head = p;`
unfoldable pub connect : Ptr → Ptr → Cmd Manager (Unit {0})
connect previous p = if previous == null then set_head p else set_next previous p

unfoldable pub mem_free_no_lock : Ptr → Cmd Manager (Unit {0})
mem_free_no_lock block = if block == null then pure tt else do
  (previous, at) ← find_block block
  if at == null then pure tt else do current ← load at; connect previous current.next; free_block at

unfoldable pub mem_free : Ptr → Cmd Manager (Unit {0})
mem_free block = do mutex_lock; mem_free_no_lock block; mutex_unlock

-- What `mem_resize` does once the new block is there.
unfoldable pub resize_move : Ptr → ℕ → Ptr → ℕ → Ptr → Cmd Manager Ptr
resize_move block size at current_size new_block = do
  free_block at
  let new_size = if leb size current_size then size else current_size
  if new_block == block then pure tt else memcpy new_block block new_size
  mutex_unlock
  pure new_block

-- What `mem_resize` does once the block is found: disconnect it, allocate, and reconnect it if that
-- failed.
unfoldable pub resize_found : Fresh → Ptr → ℕ → Ptr → Ptr → Cmd Manager Ptr
resize_found fresh block size previous at = do
  current ← load at
  let current_size = ptr_sub current.end current.start
  connect previous current.next
  new_block ← mem_alloc_no_lock fresh size
  if new_block == null
      then (do connect previous at; mutex_unlock; pure null)
      else resize_move block size at current_size new_block

unfoldable pub mem_resize : Fresh → Ptr → ℕ → Cmd Manager Ptr
mem_resize fresh block size =
    if size == 0
    then (if block == null then pure tt else mem_free block) >> pure null
    else if block == null
    then mem_alloc fresh size
    else do
      mutex_lock
      (previous, at) ← find_block block
      if at == null then mutex_unlock >> pure null else resize_found fresh block size previous at

-- `while (memory_head)`
unfoldable pub free_loop : ℕ → Cmd Manager (Unit {0})
free_loop zero = λ _. out_of_fuel
free_loop (suc k) = do
  s ← get
  if s.memory_head == null
      then pure tt
      else do temp ← load s.memory_head; set_head temp.next; free_block s.memory_head; free_loop k

-- `free (memory)`: nothing at NULL, undefined if the pool has been given back
unfoldable pub free_pool : Cmd Manager (Unit {0})
free_pool s =
    if s.memory == null
    then ok tt s
    else if s.pool
    then ok tt (record s { pool = false })
    else fault

unfoldable pub mem_deinit : Cmd Manager (Unit {0})
mem_deinit = do
  mutex_lock
  free_pool
  s ← get
  free_loop (suc s.memory_size)
  modify (λ s. record s { memory_size = 0 })
  mutex_unlock
  mutex_destroy
