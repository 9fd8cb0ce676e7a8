-- ===== src/LinkedList/AfterLocked.antt =====
-- What `list_insert_after` does under the lock, at any live node.
use threadsafe_memory_manage.Prelude.{
  ℕ, ◌≡◌, ◌≢◌, refl, sym, ap, subst, ◌∙◌, true, some, List, ◌∷◌, ◌++◌, arith, ◌==◌, if◌then◌else◌,
  inl, inr, eq→==, ne→==, ==→eq,
}
use threadsafe_memory_manage.Word.{Ptr, null}
use threadsafe_memory_manage.Run.{ok, Cmd, ◌>>◌}
use threadsafe_memory_manage.Run.Returns
use threadsafe_memory_manage.Run.Returns.{Returns, returns}
use threadsafe_memory_manage.Manager.Chain.{Cell}
use threadsafe_memory_manage.Manager.Starts.{starts}
use threadsafe_memory_manage.NodeStore.{
  Node, exclusive, Program, FreshNode, put_node, set_value, set_next, rwunlock, alloc_node,
}
use threadsafe_memory_manage.LinkedList.Nodes.{
  node, HasNode, HasNode-write, HasNode-write_ne, load_node-ok, set_value-ok, set_next-ok, Item,
  item, ◌∉◌, has-append, frame-write,
}
use threadsafe_memory_manage.LinkedList.Valid.{Stores, starts-live}
use threadsafe_memory_manage.LinkedList.Link.{placed}
use threadsafe_memory_manage.LinkedList.Grow.{Allocated, NewNode, rwunlock-ok, backed-write}
use threadsafe_memory_manage.LinkedList.InsertAfter.{after_locked, place_after-Linked}
use threadsafe_memory_manage.LinkedList.Place.{
  put_behind, put_behind-away, put_behind-here, Here, away, here, split_at_node, Loose-write,
  Loose-alloc, Placement, Linked-Placement, unplaced,
}

module _ (node_size : ℕ) (f : FreshNode) (value : ℕ) (q : Ptr) (s : Program) (ys : List Cell)
    (m : Node) (live_node : HasNode s.nodes q m) (held : s.list_lock ≡ exclusive) where
  -- The locked part behind its allocation.
  abbrev link_after : Ptr → Cmd Program (Unit {0})
  link_after p = set_value p value >> (set_next q p >> (set_next p m.next >> rwunlock))

  -- A node outside the list leads to the new node: the list stays, and the new node is lost.
  link_after-away :
      (xs : List Item)
      → Stores s xs ys
      → q ∉ xs
      → (p : Ptr) (t : Program) → NewNode s xs ys f.junk p t
      → Returns (λ _ u. Placement s xs xs u) (link_after p t)
  link_after-away xs v out p t n =
      let own : starts p n.regions ≡ true = n.new.begun p ∙ rw (eq→== p p refl) in
      let ne : q ≢ p = λ e. cc (live_node.holds, v.backed p n.new.unused, ap s.nodes e) in
      let at : HasNode t.nodes q m = record {
        ne_null = live_node.ne_null;
        holds = n.same q ne ∙ live_node.holds;
      } in
      let own_at : starts q n.regions ≡ true = starts-live t xs n.regions n.stores q at.holds in
      let b1 = node value f.junk.next in
      let b2 = node m.value p in
      let b3 = node value m.next in
      let t1 = put_node p (some b1) t in
      let n1 : HasNode t1.nodes p b1 = HasNode-write b1 n.holds in
      let at1 : HasNode t1.nodes q m = HasNode-write_ne (some b1) at (λ e. ne (sym e)) in
      let t2 = put_node q (some b2) t1 in
      let n2 : HasNode t2.nodes p b1 = HasNode-write_ne (some b2) n1 ne in
      let t3 = put_node p (some b3) t2 in
      rw
        (
          set_value-ok t n.holds value,
          set_next-ok t1 at1 p,
          set_next-ok t2 n2 m.next,
          rwunlock-ok t3 (n.lock ∙ held),
        )
        (returns (record {
          cells = n.regions;
          list = record {
            stores = record {
              chain =
                  frame-write p (some b3)
                    (frame-write q (some b2) (frame-write p (some b1) n.stores.chain n.out) out)
                    n.out;
              blocks = n.stores.blocks;
              free_mutex = n.stores.free_mutex;
              backed =
                  backed-write t2.nodes n.regions p (some b3)
                    (backed-write t1.nodes n.regions q (some b2)
                      (backed-write t.nodes n.regions p (some b1) n.stores.backed own) own_at)
                    own;
            };
            free_lock = refl;
          };
          aside = λ a l. Loose-write p b3 (Loose-write q b2 (Loose-write p b1 (Loose-alloc v n l)));
        }))

  link_after-here :
      (pre : List Item) (d : Item) (post : List Item)
      → Stores s (pre ++ d ∷ post) ys
      → d.at ≡ q
      → (p : Ptr) (t : Program) → NewNode s (pre ++ d ∷ post) ys f.junk p t
      → Returns
          (λ _ u. Placement s (pre ++ d ∷ post) (pre ++ d ∷ item p value ∷ post) u)
          (link_after p t)
  link_after-here pre d post v e p t n =
      let l = placed pre d post v.chain in
      let same : node d.value l.next ≡ m = cc (l.at.holds, live_node.holds, ap s.nodes e) in
      subst
        (λ b.
          Returns (λ _ u. Placement s (pre ++ d ∷ post) (pre ++ d ∷ item p value ∷ post) u)
            ((set_value p value >> (set_next b p >> (set_next p m.next >> rwunlock))) t))
        e
        (subst
          (λ k.
            Returns (λ _ u. Placement s (pre ++ d ∷ post) (pre ++ d ∷ item p value ∷ post) u)
              ((set_value p value >> (set_next d.at p >> (set_next p k.next >> rwunlock))) t))
          same
          (Returns.mono
            (place_after-Linked node_size f value s pre d post ys held l.next l.at l.front l.back
              l.out l.apart p t n)
            λ _ u k. Linked-Placement v n k λ a out ne. ground (
              arith,
              ne,
              out,
              has-append a pre (d ∷ post),
              has-append a pre (d ∷ item p value ∷ post),
            )))

  -- The list with a new node behind the node at `q`, or the same list.
  abbrev pub placed_after : List Item → Ptr → List Item
  placed_after xs p = if p == null then xs else put_behind q (item p value) xs

  link_after-Placement :
      {xs : List Item}
      → Stores s xs ys
      → Here q xs
      → (p : Ptr) (t : Program) → NewNode s xs ys f.junk p t
      → Returns (λ _ u. Placement s xs (put_behind q (item p value) xs) u) (link_after p t)
  link_after-Placement v (away {xs} out) p t n =
      subst (λ zs. Returns (λ _ u. Placement s xs zs u) (link_after p t))
        (sym (put_behind-away q (item p value) xs out)) (link_after-away xs v out p t n)
  link_after-Placement v (here pre d post hit out) p t n =
      subst (λ zs. Returns (λ _ u. Placement s (pre ++ d ∷ post) zs u) (link_after p t))
        (sym (put_behind-here q (item p value) pre d post hit out))
        (link_after-here pre d post v (==→eq d.at q hit) p t n)

  pub after_locked-Placement :
      (xs : List Item)
      → Stores s xs ys
      → (p : Ptr) (t : Program) → alloc_node node_size f s ≡ ok p t
      → Allocated node_size f s xs ys p t
      → Returns (λ _ u. Placement s xs (placed_after xs p) u) (after_locked node_size f q value s)
  unfolding after_locked
  after_locked-Placement xs v p t e a = rw (load_node-ok s live_node, e) (by a)
    where
      by :
          Allocated node_size f s xs ys p t
          → Returns
              (λ _ u. Placement s xs (placed_after xs p) u)
              ((if p == null then rwunlock else link_after p) t)
      by (inl (z, stores, lock, same, why)) =
          rw (eq→== p null z, rwunlock-ok t (lock ∙ held)) (returns (unplaced stores same))
      by (inr n) = rw (ne→== p null n.new.given) (link_after-Placement v (split_at_node q xs) p t n)
