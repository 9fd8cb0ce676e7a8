-- ===== src/LinkedList/Threads/Tests.antt =====
-- The theorems on threads at a list of one node, which one thread searches while another waits to
-- delete from it.
use threadsafe_memory_manage.Prelude.{◌≡◌, refl, true, none, some, List, [], ◌∷◌, arith}
use threadsafe_memory_manage.Word.{null}
use threadsafe_memory_manage.Machine.{unlocked, write}
use threadsafe_memory_manage.Manager.Chain
use threadsafe_memory_manage.Manager.Chain.{Cell, cell}
use threadsafe_memory_manage.Manager.Starts.{starts}
use threadsafe_memory_manage.NodeStore.{
  idle, shared, Program, FreshNode, write_node, load_node, rdlock, rwunlock,
}
use threadsafe_memory_manage.LinkedList.Nodes.{node, Item, item}
use threadsafe_memory_manage.LinkedList.Nodes
use threadsafe_memory_manage.LinkedList.Valid.{IsList}
use threadsafe_memory_manage.LinkedList.Threads.{
  behind, erasing, searching, found, outside, waiting, reading, answered, System, update,
  read_round, Reach, begin, next, lock_read, test, look, unlock_read,
}
use threadsafe_memory_manage.LinkedList.Threads
use threadsafe_memory_manage.LinkedList.Threads.Safety.{
  Serial, Advances, SomeoneAdvances, Reach-Serial, inside-Advances, Reach-SomeoneAdvances,
}

-- The list 7, in a pool of 100 bytes.
abbrev seven : Program
seven = record {
  list_lock = idle;
  head = 1000;
  manager = record {
    memory = 1000;
    memory_head = 10;
    memory_size = 100;
    lock = unlocked;
    blocks = write (λ _. none) 10 (some (record { start = 1000; end = 1016; next = null }));
    pool = true;
    bytes = λ a. a;
  };
  nodes = write_node (λ _. none) 1000 (some (node 7 null));
}

abbrev just_seven : List Item
just_seven = item 1000 7 ∷ []

abbrev one_cell : List Cell
one_cell = cell 10 1000 1016 ∷ []

seven-IsList : IsList seven just_seven one_cell
unfolding write write_node starts
seven-IsList = record {
  stores = record {
    chain = Nodes.link refl (record { ne_null = omega arith; holds = refl }) refl Nodes.nil;
    blocks = record {
      chain = Chain.link refl (record { ne_null = omega arith; holds = refl }) refl Chain.nil;
      packed = omega arith;
      owned = λ a o. ground arith;
      nonnull = omega arith;
      small = omega arith;
      live = refl;
    };
    free_mutex = refl;
    backed = λ a out. ground (arith, out);
  };
  free_lock = refl;
}

-- The thread 0 has the lock to read, and the thread 1 waits for it.
abbrev searched : System
searched = record {
  program = record seven { list_lock = shared 0 };
  phase = update (update (λ _. outside) 0 (reading (searching 7 1000))) 1 (waiting (erasing 7));
  history = [];
}

searched-Reach : Reach 2 16 seven searched
unfolding rdlock
searched-Reach =
    next (next begin (lock_read 0 (Threads.Query.search 7) _ (omega arith) refl refl))
      (test 1 7 (omega arith) refl (omega arith))

-- The thread 0 has returned.
abbrev found_it : System
found_it = record {
  program = seven;
  phase = update searched.phase 0 outside;
  history = answered 0 (Threads.Query.search 7) (found 1000) ∷ [];
}

found_it-Reach : Reach 2 16 seven found_it
unfolding read_round load_node write_node rwunlock
found_it-Reach =
    next searched-Reach
      (unlock_read 0 (searching 7 1000) (found 1000) _ (omega arith) refl refl refl)

Reach-Serial_example : Serial just_seven found_it
Reach-Serial_example = Reach-Serial seven-IsList (omega arith) found_it-Reach

-- A descriptor that is not in use, for a new node.
abbrev fresh_node : FreshNode
fresh_node = record {
  descriptor = record { at = 20; junk = record { start = 0; end = 0; next = null } };
  junk = node 0 null;
}

fresh-unused : searched.program.manager.blocks 20 ≡ none
unfolding write
fresh-unused = refl

inside-Advances_example : Advances 2 16 searched 0
inside-Advances_example =
    inside-Advances seven-IsList (omega arith) searched-Reach fresh_node fresh-unused 0
      (omega arith) (omega arith)

Reach-SomeoneAdvances_example : SomeoneAdvances 2 16 searched
Reach-SomeoneAdvances_example =
    Reach-SomeoneAdvances seven-IsList (omega arith) searched-Reach fresh_node fresh-unused 1
      (omega arith) (λ e. cc (e))
