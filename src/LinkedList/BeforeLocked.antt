-- ===== src/LinkedList/BeforeLocked.antt =====
-- What `list_insert_before` does under the lock, with any pointer but NULL.
use threadsafe_memory_manage.Prelude.{
  ℕ, ◌<◌, ◌≡◌, ◌≢◌, inl, inr, refl, sym, subst, ◌∙◌, true, some, List, [], ◌∷◌, ◌++◌, arith, ◌==◌,
  if◌then◌else◌, eq→==, ne→==, ==→eq, length,
}
use threadsafe_memory_manage.Word.{Ptr, null}
use threadsafe_memory_manage.Run.{ok, Cmd, get, ◌>>=◌, ◌>>◌}
use threadsafe_memory_manage.Run.Returns
use threadsafe_memory_manage.Run.Returns.{Returns, returns}
use threadsafe_memory_manage.Manager.Chain.{Cell}
use threadsafe_memory_manage.Manager.Starts.{starts}
use threadsafe_memory_manage.NodeStore.{
  Node, idle, exclusive, Program, FreshNode, put_node, set_value, set_next, set_head, rwunlock,
  alloc_node, write_node,
}
use threadsafe_memory_manage.LinkedList.{rounds, before_loop}
use threadsafe_memory_manage.LinkedList.Nodes.{
  node, HasNode, HasNode-write, set_value-ok, set_next-ok, Item, item, ◌∉◌, has-append, Seg, link,
  frame, frame-write,
}
use threadsafe_memory_manage.LinkedList.Valid.{Stores, length-lt_rounds}
use threadsafe_memory_manage.LinkedList.Link.{
  joined, joined-front, joined-outside, joined-manager, joined-lock, placed, Seg-insert,
}
use threadsafe_memory_manage.LinkedList.Grow.{
  Linked, Allocated, NewNode, rwunlock-ok, Stores-lock, backed-write, joined-backed,
}
use threadsafe_memory_manage.LinkedList.Place.{
  put_before, put_before-away, put_before-here, Here, away, here, split_at_node, Placement,
  Linked-Placement, unplaced,
}
use threadsafe_memory_manage.LinkedList.BeforeLoop.{
  link_now, link_before-joined, link_before-absent,
}

-- The new node holds the value and leads to `q`.
abbrev filled : Ptr → ℕ → Node → Ptr → Program → Program
filled p value junk q t =
    put_node p (some (node value q)) (put_node p (some (node value junk.next)) t)

module _ {s t : Program} {xs : List Item} {ys : List Cell} {junk : Node} {p : Ptr}
    (n : NewNode s xs ys junk p t) (value : ℕ) (q : Ptr) where
  then-filled :
      (k : Cmd Program (Unit {0}))
      → (set_value p value >> (set_next p q >> k)) t ≡ k (filled p value junk q t)
  then-filled k =
      rw
        (
          set_value-ok t n.holds value,
          set_next-ok (put_node p (some (node value junk.next)) t)
              (HasNode-write (node value junk.next) n.holds) q,
        )
        refl

  filled-node : HasNode (filled p value junk q t).nodes p (node value q)
  filled-node = HasNode-write (node value q) (HasNode-write (node value junk.next) n.holds)

  own : starts p n.regions ≡ true
  own = n.new.begun p ∙ rw (eq→== p p refl)

  filled-frame :
      {stop a : Ptr} {zs : List Item}
      → Seg t.nodes stop a zs
      → p ∉ zs
      → Seg (filled p value junk q t).nodes stop a zs
  filled-frame r out =
      frame-write p (some (node value q)) (frame-write p (some (node value junk.next)) r out) out

  -- Filling the new node keeps the list.
  filled-Stores : Stores (filled p value junk q t) xs n.regions
  filled-Stores = record {
    chain = filled-frame n.stores.chain n.out;
    blocks = n.stores.blocks;
    free_mutex = n.stores.free_mutex;
    backed =
        backed-write (put_node p (some (node value junk.next)) t).nodes n.regions p
          (some (node value q))
          (backed-write t.nodes n.regions p (some (node value junk.next)) n.stores.backed own) own;
  }

-- A node that leads to `d`, linked in front of it.
joined-Stores :
    (s : Program) (pre : List Item) (d : Item) (post : List Item) (ys : List Cell) (p : Ptr)
    (value : ℕ)
    → Stores s (pre ++ d ∷ post) ys
    → HasNode s.nodes p (node value d.at)
    → p ∉ (pre ++ d ∷ post)
    → Stores (joined pre p s) (pre ++ item p value ∷ d ∷ post) ys
joined-Stores s pre d post ys p value v n out =
    let l = placed pre d post v.chain in
    let pout : p ∉ pre = ground (arith, has-append p pre (d ∷ post)) in
    record {
      chain =
          Seg-insert pre (d ∷ post) (joined-front s p pre l.front)
            (record { ne_null = n.ne_null; holds = joined-outside s p pre p pout ∙ n.holds })
            (frame (link refl l.at l.out l.back)
              λ a i. joined-outside s p pre a (ground (arith, l.apart a)))
            l.apart out;
      blocks = rw (joined-manager s p pre) v.blocks;
      free_mutex = rw (joined-manager s p pre) v.free_mutex;
      backed = joined-backed s (pre ++ d ∷ post) ys p pre v l.front;
    }

length-front : (xs : List Item) (d : Item) (ys : List Item) → length xs < length (xs ++ d ∷ ys)
length-front [] d ys = omega arith
length-front (x ∷ xs) d ys = omega (arith, length-front xs d ys)

-- `list_insert_before` from the lock on.
unfoldable pub before_locked : ℕ → FreshNode → Ptr → ℕ → Cmd Program (Unit {0})
before_locked node_size fresh next_node value = do
  new_node ← alloc_node node_size fresh
  if new_node == null then rwunlock else do
    set_value new_node value
    set_next new_node next_node
    t ← get
    if next_node == t.head
        then set_head new_node
        else before_loop (rounds t) new_node next_node t.head
    rwunlock

module _ (f : FreshNode) (value : ℕ) (q : Ptr) (s : Program) (ys : List Cell)
    (held : s.list_lock ≡ exclusive) where
  -- The locked part behind its allocation.
  abbrev pub link_new : Ptr → Cmd Program (Unit {0})
  link_new p = set_value p value >> (set_next p q >> (link_now p q >> rwunlock))

  pub link_new-here :
      (pre : List Item) (d : Item) (post : List Item)
      → q ≡ d.at
      → (p : Ptr) (t : Program) (n : NewNode s (pre ++ d ∷ post) ys f.junk p t)
      → Returns
          (λ _ u. Linked t (pre ++ d ∷ post) (pre ++ item p value ∷ d ∷ post) n.regions p u)
          (link_new p t)
  unfolding write_node
  link_new-here pre d post e p t n =
      let g = filled p value f.junk q t in
      let w = filled-Stores n value q in
      let m = placed pre d post w.chain in
      let j = joined pre p g in
      rw
        (
          then-filled n value q (link_now p q >> rwunlock),
          link_before-joined (rounds g) g p q g.head pre
              (subst (λ a. Seg g.nodes a g.head pre) (sym e) m.front)
              (subst (λ a. a ∉ pre) (sym e) (ground (arith, m.apart d.at)))
              (omega
                (arith, length-front pre d post, length-lt_rounds g (pre ++ d ∷ post) n.regions w)),
          rwunlock-ok j (joined-lock g p pre ∙ n.lock ∙ held),
        )
        (returns (record {
          list = record {
            stores = Stores-lock j idle (
                joined-Stores g pre d post n.regions p value w
                  (subst (λ a. HasNode g.nodes p (node value a)) e (filled-node n value q)) n.out);
            free_lock = refl;
          };
          same = λ a away ne.
              joined-outside g p pre a (ground (arith, has-append a pre (d ∷ post), away))
              ∙ ground (arith, ne);
        }))

  pub link_new-away :
      (xs : List Item)
      → q ∉ xs
      → q ≢ null
      → (p : Ptr) (t : Program) (n : NewNode s xs ys f.junk p t)
      → Returns (λ _ u. Linked t xs xs n.regions p u) (link_new p t)
  unfolding write_node
  link_new-away xs out ne p t n =
      let g = filled p value f.junk q t in
      let w = filled-Stores n value q in
      rw
        (
          then-filled n value q (link_now p q >> rwunlock),
          link_before-absent (rounds g) g p q g.head xs w.chain out ne
              (length-lt_rounds g xs n.regions w),
          rwunlock-ok g (n.lock ∙ held),
        )
        (returns (record {
          list = record { stores = Stores-lock g idle w; free_lock = refl };
          same = λ a away ne. ground (arith, ne);
        }))

  -- The list with a new node before the node at `q`, or the same list.
  abbrev pub placed_before : List Item → Ptr → List Item
  placed_before xs p = if p == null then xs else put_before q (item p value) xs

  link_new-Placement :
      {xs : List Item}
      → Stores s xs ys
      → q ≢ null
      → Here q xs
      → (p : Ptr) (t : Program) → NewNode s xs ys f.junk p t
      → Returns (λ _ u. Placement s xs (put_before q (item p value) xs) u) (link_new p t)
  link_new-Placement v ne (away {xs} out) p t n =
      subst (λ zs. Returns (λ _ u. Placement s xs zs u) (link_new p t))
        (sym (put_before-away q (item p value) xs out))
        (Returns.mono (link_new-away xs out ne p t n) λ _ u k. Linked-Placement v n k λ a o ne. o)
  link_new-Placement v ne (here pre d post hit out) p t n =
      subst (λ zs. Returns (λ _ u. Placement s (pre ++ d ∷ post) zs u) (link_new p t))
        (sym (put_before-here q (item p value) pre d post hit out))
        (Returns.mono (link_new-here pre d post (sym (==→eq d.at q hit)) p t n) λ _ u k.
          Linked-Placement v n k λ a o ne.
            ground (
              arith,
              ne,
              o,
              has-append a pre (d ∷ post),
              has-append a pre (item p value ∷ d ∷ post),
            ))

  pub before_locked-Placement :
      (node_size : ℕ) (xs : List Item)
      → Stores s xs ys
      → q ≢ null
      → (p : Ptr) (t : Program) → alloc_node node_size f s ≡ ok p t
      → Allocated node_size f s xs ys p t
      → Returns (λ _ u. Placement s xs (placed_before xs p) u) (before_locked node_size f q value s)
  unfolding before_locked
  before_locked-Placement node_size xs v ne p t e a = rw e (by a)
    where
      by :
          Allocated node_size f s xs ys p t
          → Returns
              (λ _ u. Placement s xs (placed_before xs p) u)
              ((if p == null then rwunlock else link_new p) t)
      by (inl (z, stores, lock, same, why)) =
          rw (eq→== p null z, rwunlock-ok t (lock ∙ held)) (returns (unplaced stores same))
      by (inr n) =
          rw (ne→== p null n.new.given) (link_new-Placement v ne (split_at_node q xs) p t n)
