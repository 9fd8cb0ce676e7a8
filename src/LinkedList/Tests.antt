-- ===== src/LinkedList/Tests.antt =====
-- The theorems on linked_list.c at a list of two nodes, in a pool of 100 bytes.
use threadsafe_memory_manage.Prelude.{
  ◌≡◌, refl, true, false, Option, none, some, List, [], ◌∷◌, arith,
}
use threadsafe_memory_manage.Word.{Ptr, null}
use threadsafe_memory_manage.Run.{ok}
use threadsafe_memory_manage.Run.Returns.{Returns}
use threadsafe_memory_manage.Machine.{absent, MemoryBlock, unlocked, Manager, write}
use threadsafe_memory_manage.Manager.Chain.{Cell, cell}
use threadsafe_memory_manage.Manager.Chain
use threadsafe_memory_manage.Manager.Valid.{IsValid}
use threadsafe_memory_manage.Manager.Starts.{starts}
use threadsafe_memory_manage.NodeStore.{gone, idle, Program, FreshNode, write_node}
use threadsafe_memory_manage.LinkedList.{
  list_display, opening, number, comma, closing, list_insert, list_insert_after, list_search,
  list_count_nodes,
}
use threadsafe_memory_manage.LinkedList.Range.{list_display_range-commas}
use threadsafe_memory_manage.LinkedList.{list_display_range}
use threadsafe_memory_manage.LinkedList.Nodes.{node, Item, item}
use threadsafe_memory_manage.LinkedList.Nodes
use threadsafe_memory_manage.LinkedList.Valid.{IsList}
use threadsafe_memory_manage.LinkedList.Read.{
  find_value, commas, list_search-find_value, list_count_nodes-length, list_display-commas,
}
use threadsafe_memory_manage.LinkedList.Insert.{Grew, list_insert-Grew}
use threadsafe_memory_manage.LinkedList.InsertBefore.{
  list_insert_before-Grew, list_insert_before-Grew_absent,
}
use threadsafe_memory_manage.LinkedList.{list_insert_before}
use threadsafe_memory_manage.LinkedList.{list_delete, list_init, list_cleanup}
use threadsafe_memory_manage.LinkedList.Delete.{Deleted, list_delete-Deleted}
use threadsafe_memory_manage.LinkedList.Lifetime.{Ended, list_init-IsList, list_cleanup-Ended}
use threadsafe_memory_manage.LinkedList.InsertAfter.{list_insert_after-Grew}

abbrev region : Ptr → Ptr → Ptr → Option MemoryBlock
region p q next = some (record { start = p; end = q; next = next })

-- Bytes 1000 to 1099, of which 1000 to 1015 and 1030 to 1045 are the blocks of two nodes.
abbrev pool_of_two : Manager
pool_of_two = record {
  memory = 1000;
  memory_head = 10;
  memory_size = 100;
  lock = unlocked;
  blocks = write (write (λ _. none) 10 (region 1000 1016 20)) 20 (region 1030 1046 null);
  pool = true;
  bytes = λ a. a;
}

abbrev cells_of_two : List Cell
cells_of_two = cell 10 1000 1016 ∷ cell 20 1030 1046 ∷ []

-- The list 7, 8; the second node is the lower one.
abbrev seven_eight : Program
seven_eight = record {
  list_lock = idle;
  head = 1030;
  manager = pool_of_two;
  nodes = write_node (write_node (λ _. none) 1030 (some (node 7 1000))) 1000 (some (node 8 null));
}

abbrev items : List Item
items = item 1030 7 ∷ item 1000 8 ∷ []

abbrev fresh_node : FreshNode
fresh_node = record {
  descriptor = record { at = 30; junk = record { start = 7; end = 8; next = 9 } };
  junk = node 5 6;
}

pool_of_two-IsValid : IsValid pool_of_two cells_of_two
unfolding write
pool_of_two-IsValid = record {
  chain =
      Chain.link refl (record { ne_null = omega arith; holds = refl }) refl
        (Chain.link refl (record { ne_null = omega arith; holds = refl }) refl Chain.nil);
  packed = omega arith;
  owned = λ a o. ground arith;
  nonnull = omega arith;
  small = omega arith;
  live = refl;
}

seven_eight-IsList : IsList seven_eight items cells_of_two
unfolding write_node starts
seven_eight-IsList = record {
  stores = record {
    chain =
        Nodes.link refl (record { ne_null = omega arith; holds = refl }) refl
          (Nodes.link refl (record { ne_null = omega arith; holds = refl }) refl Nodes.nil);
    blocks = pool_of_two-IsValid;
    free_mutex = refl;
    backed = λ a e. ground arith;
  };
  free_lock = refl;
}

fresh-unused : pool_of_two.blocks 30 ≡ none
unfolding write
fresh-unused = refl

list_insert-Grew_example :
    Returns
      (λ _ t.
        Grew 16 fresh_node seven_eight items cells_of_two
          (λ p. item 1030 7 ∷ item 1000 8 ∷ item p 9 ∷ [])
          t)
      (list_insert 16 fresh_node 9 seven_eight)
list_insert-Grew_example =
    list_insert-Grew 16 fresh_node 9 seven_eight items cells_of_two seven_eight-IsList fresh-unused
      (omega arith)

list_insert_after-Grew_example :
    Returns
      (λ _ t.
        Grew 16 fresh_node seven_eight items cells_of_two
          (λ p. item 1030 7 ∷ item p 9 ∷ item 1000 8 ∷ [])
          t)
      (list_insert_after 16 fresh_node 1030 9 seven_eight)
list_insert_after-Grew_example =
    list_insert_after-Grew 16 fresh_node 9 seven_eight [] (item 1030 7) (item 1000 8 ∷ [])
      cells_of_two seven_eight-IsList fresh-unused (omega arith)

list_search-find_value_example : list_search 8 seven_eight ≡ ok 1000 seven_eight
unfolding find_value
list_search-find_value_example =
    list_search-find_value seven_eight items cells_of_two seven_eight-IsList 8

list_count_nodes-length_example : list_count_nodes seven_eight ≡ ok 2 seven_eight
list_count_nodes-length_example =
    list_count_nodes-length seven_eight items cells_of_two seven_eight-IsList (omega arith)

list_display-commas_example :
    list_display seven_eight ≡ ok (opening ∷ number 7 ∷ comma ∷ number 8 ∷ closing ∷ []) seven_eight
unfolding commas
list_display-commas_example = list_display-commas seven_eight items cells_of_two seven_eight-IsList

list_delete-Deleted_example :
    Returns (λ _ t. Deleted 8 items cells_of_two seven_eight t) (list_delete 8 seven_eight)
list_delete-Deleted_example =
    list_delete-Deleted 8 seven_eight cells_of_two items seven_eight-IsList

list_cleanup-Ended_example : Returns (λ _ t. Ended t) (list_cleanup seven_eight)
list_cleanup-Ended_example = list_cleanup-Ended seven_eight items cells_of_two seven_eight-IsList

-- Before `list_init`: all zero.
abbrev blank_list : Program
blank_list = record {
  list_lock = gone;
  head = null;
  manager = record pool_of_two {
    memory = null;
    memory_head = null;
    memory_size = 0;
    lock = absent;
    blocks = λ _. none;
    pool = false;
  };
  nodes = λ _. none;
}

list_init-IsList_example : Returns (λ _ t. IsList t [] []) (list_init 1000 100 blank_list)
list_init-IsList_example =
    list_init-IsList 1000 100 blank_list (omega arith) (omega arith) (λ a. refl) (λ a. refl)

list_insert_before-Grew_example :
    Returns
      (λ _ t.
        Grew 16 fresh_node seven_eight items cells_of_two
          (λ p. item 1030 7 ∷ item p 9 ∷ item 1000 8 ∷ [])
          t)
      (list_insert_before 16 fresh_node 1000 9 seven_eight)
list_insert_before-Grew_example =
    list_insert_before-Grew 16 fresh_node 9 1000 seven_eight cells_of_two (item 1030 7 ∷ [])
      (item 1000 8) [] seven_eight-IsList refl fresh-unused (omega arith)

list_insert_before-Grew_absent_example :
    Returns
      (λ _ t. Grew 16 fresh_node seven_eight items cells_of_two (λ p. items) t)
      (list_insert_before 16 fresh_node 1060 9 seven_eight)
list_insert_before-Grew_absent_example =
    list_insert_before-Grew_absent 16 fresh_node 9 1060 seven_eight cells_of_two (item 1030 7)
      (item 1000 8 ∷ []) seven_eight-IsList refl (omega arith) fresh-unused (omega arith)

list_display_range-commas_example :
    list_display_range 1030 1000 seven_eight
    ≡ ok (opening ∷ number 7 ∷ comma ∷ number 8 ∷ closing ∷ []) seven_eight
unfolding commas
list_display_range-commas_example =
    list_display_range-commas seven_eight [] (item 1030 7) (item 1000 8 ∷ []) [] cells_of_two
      seven_eight-IsList
