-- ===== src/LinkedList/InsertBefore.antt =====
-- `list_insert_before` puts a node in front of a node of the list.
use threadsafe_memory_manage.Prelude.{
  ℕ, ◌<◌, ◌≡◌, ◌≢◌, inl, inr, refl, sym, subst, Option, none, List, [], ◌∷◌, ◌++◌, ◌==◌,
  if◌then◌else◌, eq→==, ne→==,
}
use threadsafe_memory_manage.Word.{Ptr, null}
use threadsafe_memory_manage.Run.{Cmd, ◌>>◌}
use threadsafe_memory_manage.Run.Returns
use threadsafe_memory_manage.Run.Returns.{Returns, returns}
use threadsafe_memory_manage.Manager.Chain.{Cell}
use threadsafe_memory_manage.NodeStore.{
  Node, idle, exclusive, Program, FreshNode, set_value, set_next, rwunlock,
}
use threadsafe_memory_manage.LinkedList.{list_insert_before}
use threadsafe_memory_manage.LinkedList.Nodes.{Item, item, ◌∉◌, Seg, link}
use threadsafe_memory_manage.LinkedList.Valid.{IsList}
use threadsafe_memory_manage.LinkedList.Link.{placed}
use threadsafe_memory_manage.LinkedList.Grow.{
  NoBlock, Allocated, NewNode, alloc_node-Allocated, with_write_lock, wrlock-ok, rwunlock-ok,
  Stores-lock,
}
use threadsafe_memory_manage.LinkedList.Insert.{Grew}
use threadsafe_memory_manage.LinkedList.BeforeLoop.{link_now}
use threadsafe_memory_manage.LinkedList.BeforeLocked.{link_new-here, link_new-away}

head_not_null :
    {h : Ptr → Option Node} {stop p : Ptr} (pre : List Item) (d : Item) (post : List Item)
    → Seg h stop p (pre ++ d ∷ post)
    → p ≢ null
head_not_null [] d post (link e n o r) = n.ne_null
head_not_null (c ∷ pre) d post (link e n o r) = n.ne_null

module _ (node_size : ℕ) (f : FreshNode) (value : ℕ) (q : Ptr) (s : Program) (ys : List Cell) where
  -- `list_insert_before` behind its allocation.
  abbrev place_before : Ptr → Cmd Program (Unit {0})
  place_before p =
      if p == null
      then rwunlock
      else set_value p value >> (set_next p q >> (link_now p q >> rwunlock))

  -- Up to the allocation, and the way out where it fails.
  list_insert_before-place_before :
      (xs : List Item) (goal : Program → Type 0)
      → IsList s xs ys
      → s.head ≢ null
      → q ≢ null
      → s.manager.blocks f.descriptor.at ≡ none
      → 0 < node_size
      → ((t : Program) → IsList t xs ys → t.nodes ≡ s.nodes → NoBlock node_size f s ys → goal t)
      → ((p : Ptr) (t : Program)
          → NewNode (with_write_lock s) xs ys f.junk p t
          → Returns
              (λ _ u. goal u)
              ((set_value p value >> (set_next p q >> (link_now p q >> rwunlock))) t))
      → Returns (λ _ t. goal t) (list_insert_before node_size f q value s)
  unfolding list_insert_before
  list_insert_before-place_before xs goal v some_node ne free pos failed placed_at =
      rw (ne→== s.head null some_node, ne→== q null ne, wrlock-ok s v.free_lock)
        (Returns.bind
          (alloc_node-Allocated node_size f (with_write_lock s) xs ys
            (Stores-lock s exclusive v.stores) free pos)
          λ p t a. after p t a)
    where
      after :
          (p : Ptr) (t : Program)
          → Allocated node_size f (with_write_lock s) xs ys p t
          → Returns (λ _ u. goal u) (place_before p t)
      after p t (inl (e, stores, lock, same, why)) =
          rw (eq→== p null e, rwunlock-ok t lock)
            (returns (
              failed (record t { list_lock = idle })
                (record { stores = Stores-lock t idle stores; free_lock = refl }) same why))
      after p t (inr n) = rw (ne→== p null n.new.given) (placed_at p t n)

  -- On a well-formed list, `list_insert_before` at a node of the list either leaves the list and all
  -- nodes as they are, which it does only if no descriptor could be had or no place in the pool is
  -- free for a node, or puts a node with the value right before that node, in a block of its own; the
  -- locks are free again.
  pub list_insert_before-Grew :
      (pre : List Item) (d : Item) (post : List Item)
      → IsList s (pre ++ d ∷ post) ys
      → q ≡ d.at
      → s.manager.blocks f.descriptor.at ≡ none
      → 0 < node_size
      → Returns
          (λ _ t. Grew node_size f s (pre ++ d ∷ post) ys (λ p. pre ++ item p value ∷ d ∷ post) t)
          (list_insert_before node_size f q value s)
  list_insert_before-Grew pre d post v e free pos =
      let l = placed pre d post v.stores.chain in
      list_insert_before-place_before (pre ++ d ∷ post)
        (Grew node_size f s (pre ++ d ∷ post) ys (λ p. pre ++ item p value ∷ d ∷ post)) v
        (head_not_null pre d post v.stores.chain) (subst (λ a. a ≢ null) (sym e) l.at.ne_null) free
        pos (λ t w same why. inl (w, same, why))
        λ p t n.
          Returns.mono (link_new-here f value q (with_write_lock s) ys refl pre d post e p t n)
            λ _ u k. inr (record { at = p; regions = n.regions; new = n.new; list = k.list })

  -- On a well-formed list that is not empty, `list_insert_before` at an address where no node of the
  -- list lives leaves the same nodes in the list. Unless no descriptor could be had or no place in the
  -- pool is free for a node, one more block is allocated, where none began before, though no node
  -- comes into the list. The locks are free again.
  pub list_insert_before-Grew_absent :
      (c : Item) (xs : List Item)
      → IsList s (c ∷ xs) ys
      → q ∉ (c ∷ xs)
      → q ≢ null
      → s.manager.blocks f.descriptor.at ≡ none
      → 0 < node_size
      → Returns
          (λ _ t. Grew node_size f s (c ∷ xs) ys (λ p. c ∷ xs) t)
          (list_insert_before node_size f q value s)
  list_insert_before-Grew_absent c xs v out ne free pos =
      list_insert_before-place_before (c ∷ xs) (Grew node_size f s (c ∷ xs) ys (λ p. c ∷ xs)) v
        (head_not_null [] c xs v.stores.chain) ne free pos (λ t w same why. inl (w, same, why))
        λ p t n.
          Returns.mono (link_new-away f value q (with_write_lock s) ys refl (c ∷ xs) out ne p t n)
            λ _ u k. inr (record { at = p; regions = n.regions; new = n.new; list = k.list })
