-- ===== src/LinkedList/Race/Tests.antt =====
-- The theorems on threads in list_delete at a list of one node, which two threads want to delete.
use threadsafe_memory_manage.Prelude.{◌≡◌, refl, true, none, some, List, [], ◌∷◌, arith}
use threadsafe_memory_manage.Word.{null}
use threadsafe_memory_manage.Run.{fault}
use threadsafe_memory_manage.Machine.{unlocked, write}
use threadsafe_memory_manage.Manager.Chain
use threadsafe_memory_manage.Manager.Chain.{Cell, cell}
use threadsafe_memory_manage.Manager.Starts.{starts}
use threadsafe_memory_manage.NodeStore.{idle, exclusive, Program, write_node, wrlock}
use threadsafe_memory_manage.LinkedList.Nodes.{node, Item, item}
use threadsafe_memory_manage.LinkedList.Nodes
use threadsafe_memory_manage.LinkedList.Valid.{IsList}
use threadsafe_memory_manage.LinkedList.Race.{
  delete_locked, outside, waiting, inside, Deleters, update, test, enter, Reach, begin, next,
}
use threadsafe_memory_manage.LinkedList.Race.Safety.{list_delete-fault}

-- The list 7, in a pool of 100 bytes.
abbrev seven : Program
seven = record {
  list_lock = idle;
  head = 1000;
  manager = record {
    memory = 1000;
    memory_head = 10;
    memory_size = 100;
    lock = unlocked;
    blocks = write (λ _. none) 10 (some (record { start = 1000; end = 1016; next = null }));
    pool = true;
    bytes = λ a. a;
  };
  nodes = write_node (λ _. none) 1000 (some (node 7 null));
}

abbrev just_seven : List Item
just_seven = item 1000 7 ∷ []

abbrev one_cell : List Cell
one_cell = cell 10 1000 1016 ∷ []

seven-IsList : IsList seven just_seven one_cell
unfolding write write_node starts
seven-IsList = record {
  stores = record {
    chain = Nodes.link refl (record { ne_null = omega arith; holds = refl }) refl Nodes.nil;
    blocks = record {
      chain = Chain.link refl (record { ne_null = omega arith; holds = refl }) refl Chain.nil;
      packed = omega arith;
      owned = λ a o. ground arith;
      nonnull = omega arith;
      small = omega arith;
      live = refl;
    };
    free_mutex = refl;
    backed = λ a out. ground (arith, out);
  };
  free_lock = refl;
}

-- The thread 0 has the lock, and the thread 1 waits.
abbrev one_waits : Deleters
one_waits = record {
  program = record seven { list_lock = exclusive };
  phase = update (update (update (λ _. outside) 0 (waiting 7)) 1 (waiting 7)) 0 (inside 7);
  deleted = [];
}

one_waits-Reach : Reach seven one_waits
unfolding wrlock
one_waits-Reach =
    next (next (next begin (test 0 7 refl refl)) (test 1 7 refl refl)) (enter 0 7 _ refl refl)

list_delete-fault_example :
    (s : Deleters) × Reach seven s × (s.phase 1 ≡ inside 7) × (delete_locked 7 s.program ≡ fault)
list_delete-fault_example = list_delete-fault 7 seven (item 1000 7) one_cell seven-IsList refl
