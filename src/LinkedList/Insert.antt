-- ===== src/LinkedList/Insert.antt =====
-- `list_insert` appends.
use threadsafe_memory_manage.Prelude.{
  ℕ, zero, suc, ◌<◌, ◌≡◌, ◌⊎◌, inl, inr, refl, ap, ◌∙◌, none, some, List, [], ◌∷◌, ◌++◌, arith,
  ◌==◌, if◌then◌else◌, eq→==, ne→==, length,
}
use threadsafe_memory_manage.Word.{Ptr, null}
use threadsafe_memory_manage.Run.{Cmd, Run, ok, pure, get, ◌>>=◌, ◌>>◌}
use threadsafe_memory_manage.Run.Returns
use threadsafe_memory_manage.Run.Returns.{Returns, returns}
use threadsafe_memory_manage.Manager.Chain.{Cell}
use threadsafe_memory_manage.Manager.Starts.{New}
use threadsafe_memory_manage.NodeStore.{
  Node, idle, exclusive, wrlock, Program, FreshNode, put_node, write_node, set_head, set_value,
  set_next, rwunlock,
}
use threadsafe_memory_manage.LinkedList.{rounds, append_loop, list_insert}
use threadsafe_memory_manage.LinkedList.Nodes.{
  node, null_of_nil, HasNode, HasNode-write, not_null, load_node-ok, set_value-ok, set_next-ok,
  Item, item, ◌∉◌, has-append, Seg, nil, link, frame-write,
}
use threadsafe_memory_manage.LinkedList.Valid.{Stores, IsList, length-lt_rounds, starts-live}
use threadsafe_memory_manage.LinkedList.Link.{
  last, joined, joined-front, joined-outside, joined-lock, joined-manager, Seg-insert, Seg-uncons,
}
use threadsafe_memory_manage.LinkedList.Grow.{
  NoBlock, Linked, Allocated, NewNode, alloc_node-Allocated, with_write_lock, wrlock-ok,
  rwunlock-ok, Stores-lock, backed-write, joined-backed,
}

-- The loop changes one `next`: that of the last node.
append_loop-last :
    (k : ℕ) (s : Program) (new : Ptr) {p : Ptr} (c : Item) (xs : List Item)
    → Seg s.nodes null p (c ∷ xs)
    → length xs < k
    → append_loop k new p s ≡ ok tt (put_node (last c xs).at (some (node (last c xs).value new)) s)
unfolding append_loop
append_loop-last zero s new c xs r fuel = absurd (omega arith)
append_loop-last (suc k) s new c [] (link {p} e n out nil) fuel =
    rw (load_node-ok s n, set_next-ok s n new)
      (ap (λ a. ok tt (put_node a (some (node c.value new)) s)) e)
append_loop-last (suc k) s new c (d ∷ xs) (link {p} {q} e n out (link e2 m out2 r)) fuel =
    rw (load_node-ok s n, not_null m)
      (append_loop-last k s new d xs (link e2 m out2 r) (omega arith))

-- A block for the new node `p`, in the list `zs p`.
pub record Added (ys : List Cell) (zs : Ptr → List Item) (t : Program) : Type 0 where
  pub at : Ptr
  pub regions : List Cell
  pub new : New ys at regions
  pub list : IsList t (zs at) regions

-- A call leaves the list and its nodes, for want of a block, or leaves `zs p` with a block for `p`.
abbrev pub Grew :
    ℕ → FreshNode → Program → List Item → List Cell → (Ptr → List Item) → Program → Type 0
Grew node_size f s xs ys zs t =
    (IsList t xs ys × (t.nodes ≡ s.nodes) × NoBlock node_size f s ys) ⊎ Added ys zs t

link_last :
    (t : Program) (new : Ptr) (xs : List Item) (zs : List Cell)
    → Stores t xs zs
    → (if t.head == null then set_head new else append_loop (rounds t) new t.head) t
      ≡ ok tt (joined xs new t)
link_last t new [] zs v = rw (eq→== t.head null (null_of_nil v.chain))
link_last t new (c ∷ xs) zs v =
    let (next, e, n, out, r) = Seg-uncons v.chain in
    rw (not_null n) (
      append_loop-last (rounds t) t new c xs v.chain
        (omega (arith, length-lt_rounds t (c ∷ xs) zs v)))

-- `list_insert` from the lock on.
unfoldable pub insert_locked : Ptr → ℕ → Cmd Program (Unit {0})
insert_locked new value = do
  s ← get
  if s.head == null then set_head new else append_loop (rounds s) new s.head
  set_value new value
  set_next new null
  rwunlock

-- The node `p` at the end of the list, and all other nodes outside the list as they were.
abbrev pub Appended : Program → List Item → List Cell → Ptr → ℕ → Program → Type 0
Appended s xs ys p value t = Linked s xs (xs ++ item p value ∷ []) ys p t

-- A live node outside the list becomes its last node.
pub insert_locked-Appended :
    (s : Program) (xs : List Item) (ys : List Cell) (p : Ptr) (value : ℕ) (n : Node)
    → Stores s xs ys
    → s.list_lock ≡ exclusive
    → HasNode s.nodes p n
    → p ∉ xs
    → Returns (λ _ t. Appended s xs ys p value t) (insert_locked p value s)
unfolding insert_locked write_node
insert_locked-Appended s xs ys p value n v held live_node out =
    let own = starts-live s xs ys v p live_node.holds in
    let j = joined xs p s in
    let jn : HasNode j.nodes p n = record {
      ne_null = live_node.ne_null;
      holds = joined-outside s p xs p out ∙ live_node.holds;
    } in
    let b1 : Node = node value n.next in
    let j1 = put_node p (some b1) j in
    let jn1 : HasNode j1.nodes p b1 = HasNode-write b1 jn in
    let j2 = put_node p (some (node value null)) j1 in
    rw
      (
        link_last s p xs ys v,
        set_value-ok j jn value,
        set_next-ok j1 jn1 null,
        rwunlock-ok j2 (joined-lock s p xs ∙ held),
      )
      (returns (record {
        list = record {
          stores = record {
            chain =
                Seg-insert xs []
                  (frame-write p (some (node value null))
                    (frame-write p (some b1) (joined-front s p xs v.chain) out) out)
                  (HasNode-write (node value null) jn1) nil (λ a i. refl)
                  (ground (arith, has-append p xs [], out));
            blocks = rw (joined-manager s p xs) v.blocks;
            free_mutex = rw (joined-manager s p xs) v.free_mutex;
            backed =
                backed-write j1.nodes ys p (some (node value null))
                  (backed-write j.nodes ys p (some b1) (joined-backed s xs ys p xs v v.chain) own)
                  own;
          };
          free_lock = refl;
        };
        same = λ a away ne. ground (arith, ne, joined-outside s p xs a away);
      }))

module _ (node_size : ℕ) (f : FreshNode) (value : ℕ) (s : Program) (xs : List Item)
    (ys : List Cell) where
  abbrev appended : Ptr → List Item
  appended p = xs ++ item p value ∷ []

  -- `list_insert` behind its allocation.
  abbrev place_last : Ptr → Program → Run Program (Unit {0})
  place_last new = wrlock >> insert_locked new value

  place_last-Added :
      s.list_lock ≡ idle
      → (p : Ptr) (t : Program) → NewNode s xs ys f.junk p t
      → Returns (λ _ u. Grew node_size f s xs ys appended u) (place_last p t)
  place_last-Added ready p t n =
      let t1 = with_write_lock t in
      rw (wrlock-ok t (n.lock ∙ ready)) (
        Returns.mono
          (insert_locked-Appended t1 xs n.regions p value f.junk (Stores-lock t exclusive n.stores)
            refl n.holds n.out)
          λ u w a. inr (record { at = p; regions = n.regions; new = n.new; list = a.list }))

  -- On a well-formed list, `list_insert` either leaves the list and all nodes as they are, which it
  -- does only if no descriptor could be had or no place in the pool is free for a node, or appends one
  -- node with the value, in a block of its own; the locks are free again.
  pub list_insert-Grew :
      IsList s xs ys
      → s.manager.blocks f.descriptor.at ≡ none
      → 0 < node_size
      → Returns (λ _ t. Grew node_size f s xs ys appended t) (list_insert node_size f value s)
  unfolding list_insert insert_locked
  list_insert-Grew v free pos =
      Returns.bind (alloc_node-Allocated node_size f s xs ys v.stores free pos) λ p t a. after p t a
    where
      after :
          (p : Ptr) (t : Program)
          → Allocated node_size f s xs ys p t
          → Returns
              (λ _ u. Grew node_size f s xs ys appended u)
              ((if p == null then pure tt else place_last p) t)
      after p t (inl (e, w, l, same, why)) =
          rw (eq→== p null e)
            (returns (inl (record { stores = w; free_lock = l ∙ v.free_lock }, same, why)))
      after p t (inr n) = rw (ne→== p null n.new.given) (place_last-Added v.free_lock p t n)
