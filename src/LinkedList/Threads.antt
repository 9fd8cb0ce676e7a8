-- ===== src/LinkedList/Threads.antt =====
-- Any number of threads that call list_insert, list_insert_after, list_insert_before, list_delete,
-- list_search, list_count_nodes and list_display of linked_list.c at once. A writer does all that it does under the lock in one step; a
-- reader, which shares the lock with other readers, takes a step for each round of its loop.
pub mod Locks
pub mod Rounds
pub mod Standing
pub mod Writers
pub mod Returning
pub mod Steps
pub mod Safety
mod Tests
use threadsafe_memory_manage.Prelude.{
  ℕ, suc, ◌+◌, ◌-◌, ◌^◌, ◌<◌, ◌≡◌, ◌≢◌, Bool, true, false, Option, none, some, List, [], ◌∷◌, ◌++◌,
  ◌==◌, ◌||◌, if◌then◌else◌,
}
use threadsafe_memory_manage.Word.{Ptr, null}
use threadsafe_memory_manage.Run.{Run, ok, fault, Cmd, pure, and_then, ◌>>=◌, ◌>>◌}
use threadsafe_memory_manage.NodeStore.{
  Node, Program, FreshNode, load_node, alloc_node, rdlock, wrlock, rwunlock,
}
use threadsafe_memory_manage.LinkedList.{Token, opening, number, comma, closing}
use threadsafe_memory_manage.LinkedList.Insert.{insert_locked}
use threadsafe_memory_manage.LinkedList.InsertAfter.{after_locked}
use threadsafe_memory_manage.LinkedList.BeforeLocked.{before_locked}
use threadsafe_memory_manage.LinkedList.Race.{delete_locked}

-- `list_insert_after` or `list_insert_before`
pub data Side : Type 0 where
  behind ahead : Side

-- The test of a call before its lock: `!prev_node`, or `*head == NULL || !next_node`.
abbrev pub refuses : Side → Ptr → Program → Bool
refuses behind prev_node s = prev_node == null
refuses ahead next_node s = s.head == null || next_node == null

-- What a writer is to do under the lock: append its new node, delete a value, or put a value next to a
-- node.
pub data Writing : Type 0 where
  appending : ℕ → Ptr → Writing
  erasing : ℕ → Writing
  placing : Side → Ptr → ℕ → Writing

unfoldable pub write_locked : ℕ → FreshNode → Writing → Cmd Program (Unit {0})
write_locked node_size fresh (appending value new_node) = insert_locked new_node value
write_locked node_size fresh (erasing value) = delete_locked value
write_locked node_size fresh (placing behind prev_node value) =
    after_locked node_size fresh prev_node value
write_locked node_size fresh (placing ahead next_node value) =
    before_locked node_size fresh next_node value

-- The writers that allocate under the lock.
abbrev pub allocates : Writing → Bool
allocates (appending value new_node) = false
allocates (erasing value) = false
allocates (placing side at value) = true

-- The address of the node that a writer allocates under the lock, NULL if there is none.
unfoldable pub new_node : ℕ → FreshNode → Writing → Cmd Program Ptr
new_node node_size fresh (appending value p) = pure null
new_node node_size fresh (erasing value) = pure null
new_node node_size fresh (placing side at value) = alloc_node node_size fresh

pub data Query : Type 0 where
  search : ℕ → Query
  count : Query
  display : Query

-- The locals of the loop of a reader: what it looks for, has counted or has printed, and `current`.
pub data Reading : Type 0 where
  searching : ℕ → Ptr → Reading
  counting : ℕ → Ptr → Reading
  displaying : List Token → Ptr → Reading

pub data Answer : Type 0 where
  found : Ptr → Answer
  counted : ℕ → Answer
  printed : List Token → Answer

-- A reader as it enters its loop.
abbrev pub start_reading : Query → Ptr → Reading
start_reading (search value) head = searching value head
start_reading count head = counting 0 head
start_reading display head = displaying (opening ∷ []) head

abbrev pub query : Reading → Query
query (searching value current) = search value
query (counting n current) = count
query (displaying out current) = display

pub data Progress : Type 0 where
  going : Reading → Progress
  done : Answer → Progress

-- One round of the loop of `list_search`, `list_count_nodes` and `list_display`: its test, and its
-- body. With an empty list, `list_count_nodes` returns 0 before its loop, which is what the test does.
unfoldable pub read_round : Reading → Cmd Program Progress
read_round (searching value current) = if current == null then pure (done (found null)) else do
  n ← load_node current
  if n.value == value then pure (done (found current)) else pure (going (searching value n.next))
read_round (counting m current) =
    if current == null
    then pure (done (counted m))
    else if m == 2 ^ 31 - 1
    then (λ _. fault)
    else do n ← load_node current; pure (going (counting (m + 1) n.next))
read_round (displaying out current) =
    if current == null then pure (done (printed (out ++ closing ∷ []))) else do
      n ← load_node current
      pure (
          going (
            displaying (out ++ number n.value ∷ (if n.next == null then [] else comma ∷ []))
              n.next))

-- Where a thread stands: in no call, before the write lock, with it, or with the read lock.
pub data Phase : Type 0 where
  outside : Phase
  waiting writing : Writing → Phase
  reading : Reading → Phase

-- A call that has returned, with its thread; `refused` is an insertion for which there is no block.
-- `placed` tells where the new node is to go, its value, and its address, NULL if there is none.
pub data Event : Type 0 where
  inserted : ℕ → ℕ → Ptr → Event
  refused : ℕ → ℕ → Event
  deleted : ℕ → ℕ → Event
  placed : ℕ → Side → Ptr → ℕ → Ptr → Event
  answered : ℕ → Query → Answer → Event

abbrev pub written : ℕ → Writing → Ptr → Event
written i (appending value p) q = inserted i value p
written i (erasing value) q = deleted i value
written i (placing side at value) q = placed i side at value q

-- The program, where each thread stands, and the calls that have returned, the last one first. A
-- writer counts as returned once it gives the lock back.
pub record System : Type 0 where
  pub program : Program
  pub phase : ℕ → Phase
  pub history : List Event

abbrev pub update : (ℕ → Phase) → ℕ → Phase → ℕ → Phase
update f i p j = if j == i then p else f j

-- One step of one of `threads` threads.
pub data Step (threads node_size : ℕ) (s : System) : System → Type 0 where
  -- `list_insert` up to its lock. The C heap gives no descriptor that is in use.
  refuse :
      (i value : ℕ) (f : FreshNode) (t : Program)
      → i < threads
      → s.phase i ≡ outside
      → s.program.manager.blocks f.descriptor.at ≡ none
      → alloc_node node_size f s.program ≡ ok null t
      → Step threads node_size s (record s { program = t; history = refused i value ∷ s.history })
  allocate :
      (i value : ℕ) (f : FreshNode) (p : Ptr) (t : Program)
      → i < threads
      → s.phase i ≡ outside
      → s.program.manager.blocks f.descriptor.at ≡ none
      → alloc_node node_size f s.program ≡ ok p t
      → p ≢ null
      → Step threads node_size s
          (record s { program = t; phase = update s.phase i (waiting (appending value p)) })
  -- `list_delete` up to its lock.
  find_empty :
      (i value : ℕ)
      → i < threads
      → s.phase i ≡ outside
      → s.program.head ≡ null
      → Step threads node_size s (record s { history = deleted i value ∷ s.history })
  test :
      (i value : ℕ)
      → i < threads
      → s.phase i ≡ outside
      → s.program.head ≢ null
      → Step threads node_size s (record s { phase = update s.phase i (waiting (erasing value)) })
  -- `list_insert_after` and `list_insert_before` up to their lock.
  decline :
      (i : ℕ) (side : Side) (at : Ptr) (value : ℕ)
      → i < threads
      → s.phase i ≡ outside
      → refuses side at s.program ≡ true
      → Step threads node_size s (record s { history = placed i side at value null ∷ s.history })
  aim :
      (i : ℕ) (side : Side) (at : Ptr) (value : ℕ)
      → i < threads
      → s.phase i ≡ outside
      → refuses side at s.program ≡ false
      → Step threads node_size s
          (record s { phase = update s.phase i (waiting (placing side at value)) })
  lock_write :
      (i : ℕ) (w : Writing) (t : Program)
      → i < threads
      → s.phase i ≡ waiting w
      → wrlock s.program ≡ ok tt t
      → Step threads node_size s (record s { program = t; phase = update s.phase i (writing w) })
  unlock_write :
      (i : ℕ) (w : Writing) (f : FreshNode) (p : Ptr) (u t : Program)
      → i < threads
      → s.phase i ≡ writing w
      → (allocates w ≡ true → s.program.manager.blocks f.descriptor.at ≡ none)
      → new_node node_size f w s.program ≡ ok p u
      → write_locked node_size f w s.program ≡ ok tt t
      → Step threads node_size s (record {
        program = t;
        phase = update s.phase i outside;
        history = written i w p ∷ s.history;
      })
  lock_read :
      (i : ℕ) (q : Query) (t : Program)
      → i < threads
      → s.phase i ≡ outside
      → rdlock s.program ≡ ok tt t
      → Step threads node_size s (record s {
        program = t;
        phase = update s.phase i (reading (start_reading q s.program.head));
      })
  look :
      (i : ℕ) (r r' : Reading)
      → i < threads
      → s.phase i ≡ reading r
      → read_round r s.program ≡ ok (going r') s.program
      → Step threads node_size s (record s { phase = update s.phase i (reading r') })
  unlock_read :
      (i : ℕ) (r : Reading) (a : Answer) (t : Program)
      → i < threads
      → s.phase i ≡ reading r
      → read_round r s.program ≡ ok (done a) s.program
      → rwunlock s.program ≡ ok tt t
      → Step threads node_size s (record {
        program = t;
        phase = update s.phase i outside;
        history = answered i (query r) a ∷ s.history;
      })

abbrev pub start : Program → System
start p = record { program = p; phase = λ _. outside; history = [] }

-- From a program in which no thread is in a call.
pub data Reach (threads node_size : ℕ) (p : Program) : System → Type 0 where
  begin : Reach threads node_size p (start p)
  next :
      {s t : System}
      → Reach threads node_size p s
      → Step threads node_size s t
      → Reach threads node_size p t
