-- ===== src/LinkedList/InsertAfter.antt =====
-- `list_insert_after` puts a node behind a node of the list.
use threadsafe_memory_manage.Prelude.{
  ℕ, ◌<◌, ◌≡◌, ◌≢◌, inl, inr, refl, sym, subst, ◌∙◌, true, none, some, List, ◌∷◌, ◌++◌, arith, ◌==◌,
  if◌then◌else◌, eq→==, ne→==,
}
use threadsafe_memory_manage.Word.{Ptr, null}
use threadsafe_memory_manage.Run.{Run, Cmd, ◌>>=◌, ◌>>◌}
use threadsafe_memory_manage.Run.Returns
use threadsafe_memory_manage.Run.Returns.{Returns, returns}
use threadsafe_memory_manage.Manager.Chain.{Cell}
use threadsafe_memory_manage.Manager.Starts.{starts}
use threadsafe_memory_manage.NodeStore.{
  Node, idle, exclusive, Program, FreshNode, put_node, set_value, set_next, rwunlock, load_node,
  alloc_node, write_node,
}
use threadsafe_memory_manage.LinkedList.{list_insert_after}
use threadsafe_memory_manage.LinkedList.Nodes.{
  node, HasNode, HasNode-write, HasNode-write_ne, not_null, load_node-ok, set_value-ok, set_next-ok,
  Item, item, ◌∈◌, ◌∉◌, ne_of_has, has-append, Seg, link, frame, frame-write, Seg-append,
}
use threadsafe_memory_manage.LinkedList.Valid.{IsList, starts-live}
use threadsafe_memory_manage.LinkedList.Link.{Placed, placed}
use threadsafe_memory_manage.LinkedList.Grow.{
  Linked, Allocated, NewNode, alloc_node-Allocated, with_write_lock, wrlock-ok, rwunlock-ok,
  Stores-lock, backed-write,
}
use threadsafe_memory_manage.LinkedList.Insert.{Grew}

module _ (node_size : ℕ) (f : FreshNode) (value : ℕ) (s : Program) (pre : List Item) (c : Item)
    (post : List Item) (ys : List Cell) where
  abbrev whole : List Item
  whole = pre ++ c ∷ post

  abbrev grown : Ptr → List Item
  grown p = pre ++ c ∷ item p value ∷ post

  -- `list_insert_after` behind its allocation, when `next` is what followed the node.
  abbrev place_after : Ptr → Ptr → Program → Run Program (Unit {0})
  place_after next new =
      set_value new value >> (set_next c.at new >> (set_next new next >> rwunlock))

  pub place_after-Linked :
      s.list_lock ≡ exclusive
      → (next : Ptr) → HasNode s.nodes c.at (node c.value next)
      → Seg s.nodes c.at s.head pre
      → Seg s.nodes null next post
      → c.at ∉ post
      → ((a : Ptr) → a ∈ pre → a ∉ (c ∷ post))
      → (p : Ptr) (t : Program) (n : NewNode s whole ys f.junk p t)
      → Returns (λ _ u. Linked t whole (grown p) n.regions p u) (place_after next p t)
  unfolding write_node
  place_after-Linked ready next at front back cout apart p t n =
      let own : starts p n.regions ≡ true = n.new.begun p ∙ rw (eq→== p p refl) in
      let own_at : starts c.at n.regions ≡ true =
        starts-live t whole n.regions n.stores c.at (n.same c.at cne ∙ at.holds) in
      let f0 : Seg t.nodes c.at t.head pre =
        subst (λ q. Seg t.nodes c.at q pre) (sym n.head)
          (frame front (λ a i. n.same a (ne_of_has a p pre i pout.0))) in
      let k0 = frame back (λ a i. n.same a (ne_of_has a p post i ptail)) in
      let b1 : Node = node value f.junk.next in
      let t1 = put_node p (some b1) t in
      let n1 : HasNode t1.nodes p b1 = HasNode-write b1 n.holds in
      let at1 : HasNode t1.nodes c.at (node c.value next) =
        HasNode-write_ne (some b1)
          (record { ne_null = at.ne_null; holds = n.same c.at cne ∙ at.holds })
          (λ e. cne (sym e)) in
      let t2 = put_node c.at (some (node c.value p)) t1 in
      let n2 : HasNode t2.nodes p b1 = HasNode-write_ne (some (node c.value p)) n1 cne in
      let at2 : HasNode t2.nodes c.at (node c.value p) = HasNode-write (node c.value p) at1 in
      let t3 = put_node p (some (node value next)) t2 in
      let c2 = some (node c.value p) in
      let n3 = some (node value next) in
      rw
        (
          set_value-ok t n.holds value,
          set_next-ok t1 at1 p,
          set_next-ok t2 n2 next,
          rwunlock-ok t3 (n.lock ∙ ready),
        )
        (returns (record {
          list = record {
            stores = record {
              chain =
                  Seg-append
                    (frame-write p n3
                      (frame-write c.at c2 (frame-write p (some b1) f0 pout.0) cfront) pout.0)
                    (link refl (HasNode-write_ne n3 at2 (λ e. cne (sym e)))
                      (ground (arith, cne, cout))
                      (link refl (HasNode-write (node value next) n2) ptail (
                        frame-write p n3
                          (frame-write c.at c2 (frame-write p (some b1) k0 ptail) cout) ptail)))
                    λ a i. ground (arith, apart a i, ne_of_has a p pre i pout.0);
              blocks = n.stores.blocks;
              free_mutex = n.stores.free_mutex;
              backed =
                  backed-write t2.nodes n.regions p (some (node value next))
                    (backed-write t1.nodes n.regions c.at (some (node c.value p))
                      (backed-write t.nodes n.regions p (some b1) n.stores.backed own) own_at)
                    own;
            };
            free_lock = refl;
          };
          same = λ a away ne. ground (arith, ne, has-append a pre (c ∷ post), away);
        }))
    where
      pout : (p ∉ pre) × (p ∉ (c ∷ post))
      pout = (
        ground (arith, has-append p pre (c ∷ post), n.out),
        ground (arith, has-append p pre (c ∷ post), n.out),
      )

      cne : c.at ≢ p
      cne e = ground (arith, pout.1, e)

      cfront : c.at ∉ pre
      cfront = ground (arith, apart c.at)

      ptail : p ∉ post
      ptail = ground (arith, pout.1)

-- `list_insert_after` from the lock on.
unfoldable pub after_locked : ℕ → FreshNode → Ptr → ℕ → Cmd Program (Unit {0})
after_locked node_size fresh prev_node value = do
  prev ← load_node prev_node
  new_node ← alloc_node node_size fresh
  if new_node == null then rwunlock else do
    set_value new_node value
    set_next prev_node new_node
    set_next new_node prev.next
    rwunlock

module _ (node_size : ℕ) (f : FreshNode) (value : ℕ) (s : Program) (pre : List Item) (c : Item)
    (post : List Item) (ys : List Cell) where
  -- On a well-formed list, `list_insert_after` at a node of the list either leaves the list and all
  -- nodes as they are, which it does only if no descriptor could be had or no place in the pool is
  -- free for a node, or puts a node with the value right behind that node, in a block of its own; the
  -- locks are free again.
  pub list_insert_after-Grew :
      IsList s (pre ++ c ∷ post) ys
      → s.manager.blocks f.descriptor.at ≡ none
      → 0 < node_size
      → Returns
          (λ _ t. Grew node_size f s (pre ++ c ∷ post) ys (λ p. pre ++ c ∷ item p value ∷ post) t)
          (list_insert_after node_size f c.at value s)
  unfolding list_insert_after after_locked
  list_insert_after-Grew v free pos =
      let l = placed pre c post v.stores.chain in
      rw (not_null l.at, wrlock-ok s v.free_lock, load_node-ok (with_write_lock s) l.at)
        (Returns.bind
          (alloc_node-Allocated node_size f (with_write_lock s) (pre ++ c ∷ post) ys
            (Stores-lock s exclusive v.stores) free pos)
          λ p t a. after l p t a)
    where
      after :
          (l : Placed s.nodes s.head pre c post) (p : Ptr) (t : Program)
          → Allocated node_size f (with_write_lock s) (pre ++ c ∷ post) ys p t
          → Returns
              (λ _ u.
                Grew node_size f s (pre ++ c ∷ post) ys (λ p. pre ++ c ∷ item p value ∷ post) u)
              ((if p == null
                  then rwunlock
                  else place_after node_size f value (with_write_lock s) pre c post ys l.next p)
                t)
      after l p t (inl (e, stores, lock, same, why)) =
          rw (eq→== p null e, rwunlock-ok t lock)
            (returns
              (inl (record { stores = Stores-lock t idle stores; free_lock = refl }, same, why)))
      after l p t (inr n) = rw (ne→== p null n.new.given) (
          Returns.mono
            (place_after-Linked node_size f value (with_write_lock s) pre c post ys refl l.next l.at
              l.front l.back l.out l.apart p t n)
            λ _ u linked.
              inr (record { at = p; regions = n.regions; new = n.new; list = linked.list }))
