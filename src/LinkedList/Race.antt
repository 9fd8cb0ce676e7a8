-- ===== src/LinkedList/Race.antt =====
-- Any number of threads that call list_delete of linked_list.c at once. The function looks at `*head`
-- before it takes the lock of the list, so that another thread may come in between.
pub mod Locked
pub mod Standing
pub mod Safety
mod Tests
use threadsafe_memory_manage.Prelude.{ℕ, ◌≡◌, Bool, true, false, List, [], ◌∷◌, ◌==◌, if◌then◌else◌}
use threadsafe_memory_manage.Word.{null}
use threadsafe_memory_manage.Run.{ok, Cmd, pure, get, and_then, ◌>>=◌, ◌>>◌}
use threadsafe_memory_manage.NodeStore.{Program, load_node, set_head, free_node, wrlock, rwunlock}
use threadsafe_memory_manage.LinkedList.{rounds, delete_loop}

-- What `list_delete` does from `pthread_rwlock_wrlock` on.
unfoldable pub delete_locked : ℕ → Cmd Program (Unit {0})
delete_locked value = do
  s ← get
  first ← load_node s.head
  if first.value == value
      then set_head first.next >> free_node s.head
      else delete_loop (rounds s) value s.head
  rwunlock

-- Where a thread stands: in no call, between the test of `*head` and the lock, or with the lock.
pub data Phase : Type 0 where
  outside : Phase
  waiting inside : ℕ → Phase

-- The program, where each thread stands, and the values of the calls that have returned from under
-- the lock, the last one first.
pub record Deleters : Type 0 where
  pub program : Program
  pub phase : ℕ → Phase
  pub deleted : List ℕ

abbrev pub update : (ℕ → Phase) → ℕ → Phase → ℕ → Phase
update f i p j = if j == i then p else f j

-- One step of one thread in `list_delete`.
pub data Step (s : Deleters) : Deleters → Type 0 where
  find_empty : (i : ℕ) → s.phase i ≡ outside → s.program.head ≡ null → Step s s
  test :
      (i value : ℕ)
      → s.phase i ≡ outside
      → (s.program.head == null) ≡ false
      → Step s (record s { phase = update s.phase i (waiting value) })
  enter :
      (i value : ℕ) (p : Program)
      → s.phase i ≡ waiting value
      → wrlock s.program ≡ ok tt p
      → Step s (record s { program = p; phase = update s.phase i (inside value) })
  leave :
      (i value : ℕ) (p : Program)
      → s.phase i ≡ inside value
      → delete_locked value s.program ≡ ok tt p
      → Step s
          (record { program = p; phase = update s.phase i outside; deleted = value ∷ s.deleted })

abbrev pub start : Program → Deleters
start p = record { program = p; phase = λ _. outside; deleted = [] }

-- From a program in which no thread is in a call.
pub data Reach (p : Program) : Deleters → Type 0 where
  begin : Reach p (start p)
  next : {s t : Deleters} → Reach p s → Step s t → Reach p t
