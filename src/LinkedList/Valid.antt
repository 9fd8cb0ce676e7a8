-- ===== src/LinkedList/Valid.antt =====
-- Well-formed lists: every node lives in a block of the memory manager, and the locks are free.
use threadsafe_memory_manage.Prelude.{
  ◌<◌, ◌≤◌, ◌≡◌, ◌∙◌, true, false, Option, none, some, List, [], ◌∷◌, arith, Bool-cases, inl, inr,
  length,
}
use threadsafe_memory_manage.Word.{Ptr, null}
use threadsafe_memory_manage.Machine.{unlocked}
use threadsafe_memory_manage.Manager.Chain.{Cell}
use threadsafe_memory_manage.Manager.FirstFit.{Packed-length}
use threadsafe_memory_manage.Manager.Valid.{limit, IsValid}
use threadsafe_memory_manage.Manager.Free.{release}
use threadsafe_memory_manage.Manager.Starts.{starts, starts-release_ne, length-release}
use threadsafe_memory_manage.NodeStore.{Node, idle, Program}
use threadsafe_memory_manage.LinkedList.{rounds}
use threadsafe_memory_manage.LinkedList.Nodes.{Item, ◌∈◌, Seg, nil, link, live, ne_of_has}

-- The nodes of `s`, wherever its locks stand: the list holds `xs`, and the manager's regions are
-- `ys`, in which every live node has a block that starts at it.
pub record Stores (s : Program) (xs : List Item) (ys : List Cell) : Type 0 where
  pub chain : Seg s.nodes null s.head xs
  pub blocks : IsValid s.manager ys
  pub free_mutex : s.manager.lock ≡ unlocked
  pub backed : (a : Ptr) → starts a ys ≡ false → s.nodes a ≡ none

-- The same, with the lock of the list free.
pub record IsList (s : Program) (xs : List Item) (ys : List Cell) : Type 0 where
  pub stores : Stores s xs ys
  pub free_lock : s.list_lock ≡ idle

-- A live node has a block.
pub starts-live :
    (s : Program) (xs : List Item) (ys : List Cell) (v : Stores s xs ys) (a : Ptr) {n : Node}
    → s.nodes a ≡ some n
    → starts a ys ≡ true
starts-live s xs ys v a e = elim (Bool-cases (starts a ys)) [
  | inl t ↦ t
  | inr f ↦ cc (e, v.backed a f)
]

-- Distinct nodes have distinct blocks, so there are no more nodes than blocks.
length-le_blocks :
    {h : Ptr → Option Node} {stop p : Ptr} (xs : List Item) (ys : List Cell)
    → Seg h stop p xs
    → ((a : Ptr) → a ∈ xs → starts a ys ≡ true)
    → length xs ≤ length ys
length-le_blocks [] ys nil inside = omega arith
length-le_blocks (c ∷ xs) ys (link {p} e n out r) inside = omega (
  arith,
  length-release p ys (inside p (ground arith)),
  length-le_blocks xs (release p ys) r
      λ a i. starts-release_ne p a ys (ne_of_has a p xs i out) ∙ inside a (ground arith),
)

-- The rounds of a loop suffice for the whole list.
pub length-lt_rounds :
    (s : Program) (xs : List Item) (ys : List Cell) → Stores s xs ys → length xs < rounds s
length-lt_rounds s xs ys v = omega (
  arith,
  length-le_blocks xs ys v.chain λ a i. starts-live s xs ys v a (live a v.chain i).1,
  Packed-length s.manager.memory (limit s.manager) ys v.blocks.packed,
)
