-- ===== src/LinkedList/Grow.antt =====
-- The allocation of a node, and the parts of a well-formed list that the insertions rebuild.
use threadsafe_memory_manage.Prelude.{
  ℕ, ◌<◌, ◌≡◌, ◌≢◌, ◌⊎◌, inl, inr, refl, sym, ap, subst, ◌∙◌, true, false, Option, none, some, List,
  [], ◌∷◌, arith, ◌==◌, if◌then◌else◌, Bool-cases, ==→eq, eq→==, ne→==,
}
use threadsafe_memory_manage.Word.{Ptr, null}
use threadsafe_memory_manage.Run.{Run, ok, pure, modify, ◌>>◌}
use threadsafe_memory_manage.Run.Returns
use threadsafe_memory_manage.Run.Returns.{Returns, returns}
use threadsafe_memory_manage.Machine.{Manager}
use threadsafe_memory_manage.Manager.Chain.{Cell}
use threadsafe_memory_manage.Manager.FirstFit.{NoRoom}
use threadsafe_memory_manage.Manager.Valid.{limit, IsValid, Kept}
use threadsafe_memory_manage.Manager.Starts.{starts, New, Offered, mem_alloc-Offered}
use threadsafe_memory_manage.NodeStore.{
  Node, RwLock, idle, exclusive, Program, FreshNode, write_node, put_node, lift, alloc_node, wrlock,
  rwunlock,
}
use threadsafe_memory_manage.LinkedList.Nodes.{
  node, live, HasNode, Item, ◌∉◌, Seg, frame-write, not-has_of_none,
}
use threadsafe_memory_manage.LinkedList.Link.{last, last-has, joined}
use threadsafe_memory_manage.LinkedList.Valid.{Stores, IsList, starts-live}

-- A manager's result, seen from the list.
pub lift-Returns :
    {A : Type 0} {P : A → Manager → Type 0} (s : Program) {r : Run Manager A}
    → Returns P r
    → Returns (λ a t. (m : Manager) × P a m × (t ≡ record s { manager = m })) (lift s r)
lift-Returns s (returns {s = m} p) = returns (m, p, refl)

-- A new node `p`, with indeterminate contents, in a block of its own.
pub record NewNode (s : Program) (xs : List Item) (ys : List Cell) (junk : Node) (p : Ptr)
    (t : Program) : Type 0 where
  pub regions : List Cell
  pub new : New ys p regions
  pub stores : Stores t xs regions
  pub holds : HasNode t.nodes p junk
  pub out : p ∉ xs
  pub lock : t.list_lock ≡ s.list_lock
  pub head : t.head ≡ s.head
  pub same : (a : Ptr) → a ≢ p → t.nodes a ≡ s.nodes a

-- Why there is no new node: no descriptor, or no place in the pool.
abbrev pub NoBlock : ℕ → FreshNode → Program → List Cell → Type 0
NoBlock node_size f s ys = NoRoom f.descriptor.at node_size s.manager.memory (limit s.manager) ys

abbrev pub Allocated : ℕ → FreshNode → Program → List Item → List Cell → Ptr → Program → Type 0
Allocated node_size f s xs ys p t =
    ((p ≡ null)
      × Stores t xs ys
      × (t.list_lock ≡ s.list_lock)
      × (t.nodes ≡ s.nodes)
      × NoBlock node_size f s ys)
    ⊎ NewNode s xs ys f.junk p t

after_alloc :
    (node_size : ℕ) (f : FreshNode) (s : Program) (xs : List Item) (ys : List Cell)
    → Stores s xs ys
    → (m : Manager) (zs : List Cell) (p : Ptr) → IsValid m zs
    → Kept s.manager m
    → Offered f.descriptor.at node_size s.manager.memory (limit s.manager) ys p zs
    → Returns (Allocated node_size f s xs ys) (
        (if p == null then pure null else modify (put_node p (some f.junk)) >> pure p)
          (record s { manager = m }))
unfolding write_node
after_alloc node_size f s xs ys v m zs p w kept (inl (e, same, why)) = rw (eq→== p null e) (
    returns (
      inl (
        refl,
        record {
          chain = v.chain;
          blocks = subst (IsValid m) same w;
          free_mutex = kept.lock ∙ v.free_mutex;
          backed = v.backed;
        },
        refl,
        refl,
        why,
      )))
after_alloc node_size f s xs ys v m zs p w kept (inr new) =
    let unused : s.nodes p ≡ none = v.backed p new.unused in
    let out = not-has_of_none p v.chain unused in
    rw (ne→== p null new.given) (
      returns (
        inr (record {
          regions = zs;
          new = new;
          stores = record {
            chain = frame-write p (some f.junk) v.chain out;
            blocks = w;
            free_mutex = kept.lock ∙ v.free_mutex;
            backed = λ a h. ground (arith, new.begun a, v.backed a);
          };
          holds = record { ne_null = new.given; holds = ground arith };
          out = out;
          lock = refl;
          head = refl;
          same = λ a ne. ground arith;
        })))

pub alloc_node-Allocated :
    (node_size : ℕ) (f : FreshNode) (s : Program) (xs : List Item) (ys : List Cell)
    → Stores s xs ys
    → s.manager.blocks f.descriptor.at ≡ none
    → 0 < node_size
    → Returns (Allocated node_size f s xs ys) (alloc_node node_size f s)
unfolding alloc_node
alloc_node-Allocated node_size f s xs ys v free pos =
    Returns.bind
      (lift-Returns s
        (mem_alloc-Offered s.manager ys f.descriptor node_size v.blocks v.free_mutex free pos))
      λ p t (m, (zs, w, kept, offered), e).
        subst
          (λ u.
            Returns (Allocated node_size f s xs ys)
              ((if p == null then pure null else modify (put_node p (some f.junk)) >> pure p) u))
          (sym e) (after_alloc node_size f s xs ys v m zs p w kept offered)

-- The write lock.
abbrev pub with_write_lock : Program → Program
with_write_lock s = record s { list_lock = exclusive }

pub wrlock-ok : (s : Program) → s.list_lock ≡ idle → wrlock s ≡ ok tt (with_write_lock s)
unfolding wrlock
wrlock-ok s e = rw (e, wrlock)

pub rwunlock-ok :
    (s : Program) → s.list_lock ≡ exclusive → rwunlock s ≡ ok tt (record s { list_lock = idle })
unfolding rwunlock
rwunlock-ok s e = rw (e, rwunlock)

-- The lock of the list is no part of its nodes.
pub Stores-lock :
    (s : Program) (l : RwLock) {xs : List Item} {ys : List Cell}
    → Stores s xs ys
    → Stores (record s { list_lock = l }) xs ys
Stores-lock s l v = record {
  chain = v.chain;
  blocks = v.blocks;
  free_mutex = v.free_mutex;
  backed = v.backed;
}

-- A write to a node with a block leaves all live nodes with a block.
pub backed-write :
    (h : Ptr → Option Node) (ys : List Cell) (p : Ptr) (c : Option Node)
    → ((a : Ptr) → starts a ys ≡ false → h a ≡ none)
    → starts p ys ≡ true
    → (a : Ptr) → starts a ys ≡ false
    → write_node h p c a ≡ none
unfolding write_node
backed-write h ys p c backed st a e = elim (Bool-cases (a == p)) [
  | inl here ↦ cc (ap (λ q. starts q ys) (==→eq a p here), st, e)
  | inr there ↦ rw there (backed a e)
]

pub joined-backed :
    (s : Program) (xs : List Item) (zs : List Cell) (q : Ptr) {stop : Ptr} (pre : List Item)
    → Stores s xs zs
    → Seg s.nodes stop s.head pre
    → (a : Ptr) → starts a zs ≡ false
    → (joined pre q s).nodes a ≡ none
joined-backed s xs zs q [] v front = v.backed
joined-backed s xs zs q (c ∷ pre) v front =
    let there = live (last c pre).at front (last-has c pre) in
    backed-write s.nodes zs (last c pre).at (some (node (last c pre).value q)) v.backed
      (starts-live s xs zs v (last c pre).at there.1)

-- The list `zs` in the place of `xs`, and all nodes but those of `xs` and `p` as they were.
pub record Linked (s : Program) (xs zs : List Item) (ys : List Cell) (p : Ptr) (t : Program)
    : Type 0 where
  pub list : IsList t zs ys
  pub same : (a : Ptr) → a ∉ xs → a ≢ p → t.nodes a ≡ s.nodes a
