-- ===== src/LinkedList.antt =====
-- linked_list.c, function by function. A loop runs on `memory_size + 1` rounds of fuel. `node_size` is
-- `sizeof (Node)`, and `fresh` is what an allocation gets from outside.
pub mod Nodes
pub mod Valid
pub mod Read
pub mod Range
pub mod Link
pub mod Grow
pub mod Place
pub mod Insert
pub mod InsertAfter
pub mod AfterLocked
pub mod BeforeLoop
pub mod BeforeLocked
pub mod InsertBefore
pub mod Free
pub mod Erase
pub mod Delete
pub mod Lifetime
pub mod Race
pub mod Threads
mod Tests
use threadsafe_memory_manage.Prelude.{
  ℕ, zero, suc, ◌+◌, ◌^◌, ◌-◌, Bool, true, false, ◌||◌, ◌&&◌, not, List, [], ◌∷◌, ltb, ◌==◌,
  if◌then◌else◌,
}
use threadsafe_memory_manage.Word.{Ptr, null}
use threadsafe_memory_manage.Run.{
  Run, ok, fault, out_of_fuel, Cmd, pure, and_then, ◌>>=◌, ◌>>◌, get, modify,
}
use threadsafe_memory_manage.Manager.{mem_init}
use threadsafe_memory_manage.NodeStore.{
  deinit_pool, Node, idle, Program, FreshNode, lift, load_node, set_value, set_next, set_head,
  alloc_node, free_node, rdlock, wrlock, rwunlock, rwlock_destroy,
}

abbrev pub rounds : Program → ℕ
rounds s = suc s.manager.memory_size

-- `pool` is what `malloc (size)` returns
unfoldable pub list_init : Ptr → ℕ → Cmd Program (Unit {0})
list_init pool size = do
  (λ s. lift s (mem_init pool size s.manager))
  set_head null
  modify (λ s. record s { list_lock = idle })

-- `while (current->next != NULL) current = current->next; current->next = new_node;`
unfoldable pub append_loop : ℕ → Ptr → Ptr → Cmd Program (Unit {0})
append_loop zero new_node current = λ _. out_of_fuel
append_loop (suc k) new_node current = do
  n ← load_node current
  if n.next == null then set_next current new_node else append_loop k new_node n.next

unfoldable pub list_insert : ℕ → FreshNode → ℕ → Cmd Program (Unit {0})
list_insert node_size fresh value = do
  new_node ← alloc_node node_size fresh
  if new_node == null then pure tt else do
    wrlock
    s ← get
    if s.head == null then set_head new_node else append_loop (rounds s) new_node s.head
    set_value new_node value
    set_next new_node null
    rwunlock

unfoldable pub list_insert_after : ℕ → FreshNode → Ptr → ℕ → Cmd Program (Unit {0})
list_insert_after node_size fresh prev_node value = if prev_node == null then pure tt else do
  wrlock
  prev ← load_node prev_node
  new_node ← alloc_node node_size fresh
  if new_node == null then rwunlock else do
    set_value new_node value
    set_next prev_node new_node
    set_next new_node prev.next
    rwunlock

-- `while (current && current->next != next_node) current = current->next;` and the link that follows
unfoldable pub before_loop : ℕ → Ptr → Ptr → Ptr → Cmd Program (Unit {0})
before_loop zero new_node next_node current = λ _. out_of_fuel
before_loop (suc k) new_node next_node current = if current == null then pure tt else do
  n ← load_node current
  if n.next == next_node then set_next current new_node else before_loop k new_node next_node n.next

unfoldable pub list_insert_before : ℕ → FreshNode → Ptr → ℕ → Cmd Program (Unit {0})
list_insert_before node_size fresh next_node value = do
  s ← get
  if s.head == null || next_node == null then pure tt else do
    wrlock
    new_node ← alloc_node node_size fresh
    if new_node == null then rwunlock else do
      set_value new_node value
      set_next new_node next_node
      t ← get
      if next_node == t.head
          then set_head new_node
          else before_loop (rounds t) new_node next_node t.head
      rwunlock

-- `while (current->next)`, up to the node to delete
unfoldable pub delete_loop : ℕ → ℕ → Ptr → Cmd Program (Unit {0})
delete_loop zero value current = λ _. out_of_fuel
delete_loop (suc k) value current = do
  n ← load_node current
  if n.next == null then pure tt else do
    temp ← load_node n.next
    if temp.value == value
        then set_next current temp.next >> free_node n.next
        else delete_loop k value n.next

unfoldable pub list_delete : ℕ → Cmd Program (Unit {0})
list_delete value = do
  s ← get
  if s.head == null then pure tt else do
    wrlock
    t ← get
    first ← load_node t.head
    if first.value == value
        then set_head first.next >> free_node t.head
        else delete_loop (rounds t) value t.head
    rwunlock

unfoldable pub search_loop : ℕ → ℕ → Ptr → Cmd Program Ptr
search_loop zero value current = λ _. out_of_fuel
search_loop (suc k) value current = if current == null then pure null else do
  n ← load_node current
  if n.value == value then pure current else search_loop k value n.next

unfoldable pub list_search : ℕ → Cmd Program Ptr
list_search value = do
  rdlock
  s ← get
  found ← search_loop (rounds s) value s.head
  rwunlock
  pure found

-- What `printf` is called with: "[", a number, ", ", "]".
pub data Token : Type 0 where
  opening : Token
  number : ℕ → Token
  comma : Token
  closing : Token

unfoldable pub display_loop : ℕ → Ptr → Ptr → Cmd Program (List Token)
display_loop zero start_node end_node = λ _. out_of_fuel
display_loop (suc k) start_node end_node =
    if start_node == null || start_node == end_node then pure (closing ∷ []) else do
      n ← load_node start_node
      rest ← display_loop k n.next end_node
      pure (number n.value ∷ (if n.next == null || n.next == end_node then rest else comma ∷ rest))

unfoldable pub list_display_range : Ptr → Ptr → Cmd Program (List Token)
list_display_range start_node end_node = do
  rdlock
  s ← get
  let first = if start_node == null then s.head else start_node
  end ← (if end_node == null then pure null else (do n ← load_node end_node; pure n.next))
  out ← display_loop (rounds s) first end
  rwunlock
  pure (opening ∷ out)

unfoldable pub list_display : Cmd Program (List Token)
list_display = list_display_range null null

-- `count++` of an `int`: undefined past the largest
unfoldable pub count_loop : ℕ → ℕ → Ptr → Cmd Program ℕ
count_loop zero count current = λ _. out_of_fuel
count_loop (suc k) count current =
    if current == null
    then pure count
    else if count == 2 ^ 31 - 1
    then (λ _. fault)
    else do n ← load_node current; count_loop k (count + 1) n.next

unfoldable pub list_count_nodes : Cmd Program ℕ
list_count_nodes = do
  rdlock
  s ← get
  if s.head == null
      then rwunlock >> pure 0
      else do count ← count_loop (rounds s) 0 s.head; rwunlock; pure count

unfoldable pub cleanup_loop : ℕ → Ptr → Cmd Program (Unit {0})
cleanup_loop zero current = λ _. out_of_fuel
cleanup_loop (suc k) current =
    if current == null
    then pure tt
    else do n ← load_node current; free_node current; cleanup_loop k n.next

unfoldable pub list_cleanup : Cmd Program (Unit {0})
list_cleanup = do
  wrlock
  s ← get
  cleanup_loop (rounds s) s.head
  set_head null
  deinit_pool
  rwunlock
  rwlock_destroy
