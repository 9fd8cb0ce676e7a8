-- ===== src/LinkedList/Delete.antt =====
-- `list_delete` drops the first node with a value.
use threadsafe_memory_manage.Prelude.{
  ℕ, zero, suc, ◌<◌, ◌≤◌, ◌≡◌, refl, sym, ap, subst, ◌∙◌, true, false, some, List, [], ◌∷◌, ◌++◌,
  arith, ◌==◌, eq→==, length,
}
use threadsafe_memory_manage.Word.{Ptr, null}
use threadsafe_memory_manage.Run.{ok, ◌>>◌}
use threadsafe_memory_manage.Run.Returns
use threadsafe_memory_manage.Run.Returns.{Returns, returns}
use threadsafe_memory_manage.Manager.Chain.{Cell}
use threadsafe_memory_manage.Manager.Free.{release}
use threadsafe_memory_manage.NodeStore.{idle, exclusive, Program, put_node, free_node, rwunlock}
use threadsafe_memory_manage.LinkedList.{rounds, delete_loop, list_delete}
use threadsafe_memory_manage.LinkedList.Nodes.{
  node, HasNode, not_null, load_node-ok, set_next-ok, Item, ◌∉◌, has-append, null_of_nil, Seg, nil,
  link,
}
use threadsafe_memory_manage.LinkedList.Link.{
  joined-outside, joined-manager, Placed, placed, joined, Seg-uncons,
}
use threadsafe_memory_manage.LinkedList.Valid.{IsList, starts-live, length-lt_rounds}
use threadsafe_memory_manage.LinkedList.Grow.{with_write_lock, wrlock-ok, rwunlock-ok, Stores-lock}
use threadsafe_memory_manage.LinkedList.Read.{find_value}
use threadsafe_memory_manage.Manager.Starts.{starts}
use threadsafe_memory_manage.LinkedList.Free.{free_node-Freed, Freed-Stores, Freed-same}
use threadsafe_memory_manage.LinkedList.Erase.{
  erase, contains, Search, absent, found, missed, split_at_value, erase-append, find_value-append,
  find_value-absent,
}

-- Without the value behind its first node, the loop does nothing.
delete_loop-absent :
    (k x : ℕ) (s : Program) {p : Ptr} (c : Item) (xs : List Item)
    → Seg s.nodes null p (c ∷ xs)
    → contains x xs ≡ false
    → length xs < k
    → delete_loop k x p s ≡ ok tt s
unfolding delete_loop
delete_loop-absent zero x s c xs r out fuel = absurd (omega arith)
delete_loop-absent (suc k) x s c [] (link {p} e n o nil) out fuel = rw (load_node-ok s n) refl
delete_loop-absent (suc k) x s c (d ∷ xs) (link {p} e n o (link {q} e2 m o2 r)) out fuel =
    rw (load_node-ok s n, not_null m, load_node-ok s m, missed x d _ out)
      (delete_loop-absent k x s d xs (link e2 m o2 r) (ground arith) (omega arith))

-- With it, the loop unlinks and frees the node.
delete_loop-found :
    (k x : ℕ) (s : Program) {p : Ptr} (c : Item) (pre : List Item) (d : Item) (post : List Item)
    (next : Ptr)
    → Seg s.nodes d.at p (c ∷ pre)
    → HasNode s.nodes d.at (node d.value next)
    → contains x pre ≡ false
    → (d.value == x) ≡ true
    → length pre < k
    → delete_loop k x p s ≡ free_node d.at (joined (c ∷ pre) next s)
unfolding delete_loop
delete_loop-found zero x s c pre d post next r at out hit fuel = absurd (omega arith)
delete_loop-found (suc k) x s c [] d post next (link {p} e n o nil) at out hit fuel =
    rw (load_node-ok s n, not_null at, load_node-ok s at, hit, set_next-ok s n next)
      (ap (λ a. free_node d.at (put_node a (some (node c.value next)) s)) e)
delete_loop-found (suc k) x s c (b ∷ pre) d post next (link {p} e n o (link {q} e2 m o2 r)) at out
      hit fuel =
    rw (load_node-ok s n, not_null m, load_node-ok s m, missed x b _ out)
      (delete_loop-found k x s b pre d post next (link e2 m o2 r) at (ground arith) hit
        (omega arith))

length-front : (xs ys : List Item) → length xs ≤ length (xs ++ ys)
length-front [] ys = omega arith
length-front (x ∷ xs) ys = omega (arith, length-front xs ys)

-- Either no node has the value and nothing changes, or the first node that has it is gone, and its
-- block, which it had, is released; a node outside the list stays as it is.
pub data Deleted (x : ℕ) (xs : List Item) (ys : List Cell) (s t : Program) : Type 0 where
  kept : find_value x xs ≡ null → t ≡ s → Deleted x xs ys s t
  dropped :
      (a : Ptr)
      → find_value x xs ≡ a
      → starts a ys ≡ true
      → IsList t (erase x xs) (release a ys)
      → ((b : Ptr) → b ∉ xs → t.nodes b ≡ s.nodes b)
      → Deleted x xs ys s t

module _ (x : ℕ) (s : Program) (ys : List Cell) where
  list_delete-absent :
      (xs : List Item) → IsList s xs ys → contains x xs ≡ false → list_delete x s ≡ ok tt s
  unfolding list_delete
  list_delete-absent [] v out = rw (eq→== s.head null (null_of_nil v.stores.chain)) refl
  list_delete-absent (c ∷ xs) v out =
      let w = with_write_lock s in
      let (next, e, n, o, r) = Seg-uncons v.stores.chain in
      rw
        (
          not_null n,
          wrlock-ok s v.free_lock,
          load_node-ok w n,
          missed x c xs out,
          delete_loop-absent (rounds s) x w c xs v.stores.chain (ground arith)
              (omega (arith, length-lt_rounds s (c ∷ xs) ys v.stores)),
          rwunlock-ok w refl,
        )
        (ap (λ l. ok tt (record s { list_lock = l })) (sym v.free_lock))

  -- Up to the unlinking of the node.
  list_delete-found :
      (pre : List Item) (d : Item) (post : List Item)
      → IsList s (pre ++ d ∷ post) ys
      → contains x pre ≡ false
      → (d.value == x) ≡ true
      → (l : Placed s.nodes s.head pre d post)
      → list_delete x s ≡ (free_node d.at >> rwunlock) (joined pre l.next (with_write_lock s))
  unfolding list_delete
  list_delete-found [] d post v out hit l =
      let w = with_write_lock s in
      let e = null_of_nil l.front in
      let at : HasNode s.nodes s.head (node d.value l.next) =
        subst (λ q. HasNode s.nodes q (node d.value l.next)) (sym e) l.at in
      rw (not_null at, wrlock-ok s v.free_lock, load_node-ok w at, hit)
        (ap (λ a. (free_node a >> rwunlock) (record w { head = l.next })) e)
  list_delete-found (c ∷ pre) d post v out hit l =
      let w = with_write_lock s in
      let (next, e, n, o, r) = Seg-uncons l.front in
      rw
        (
          not_null n,
          wrlock-ok s v.free_lock,
          load_node-ok w n,
          missed x c pre out,
          delete_loop-found (rounds s) x w c pre d post l.next l.front l.at (ground arith) hit (
              omega (
                arith,
                length-front (c ∷ pre) (d ∷ post),
                length-lt_rounds s (c ∷ pre ++ d ∷ post) ys v.stores,
              )),
        )
        refl

  delete_by :
      {xs : List Item}
      → Search x xs
      → IsList s xs ys
      → Returns (λ _ t. Deleted x xs ys s t) (list_delete x s)
  delete_by (absent {xs} out) v =
      rw (list_delete-absent xs v out) (returns (kept (find_value-absent x xs out) refl))
  delete_by (found pre d post out hit) v =
      let w = with_write_lock s in
      let l = placed pre d post v.stores.chain in
      let j = joined pre l.next w in
      let dout : d.at ∉ pre = ground (arith, l.apart d.at) in
      let there : HasNode j.nodes d.at (node d.value l.next) = record {
        ne_null = l.at.ne_null;
        holds = joined-outside w l.next pre d.at dout ∙ l.at.holds;
      } in
      rw (list_delete-found pre d post v out hit l) (
        Returns.bind
          (free_node-Freed j d.at ys there (rw (joined-manager w l.next pre) v.stores.blocks)
            (rw (joined-manager w l.next pre) v.stores.free_mutex))
          λ u t f.
            let (stores, lock) =
              Freed-Stores w pre post d ys (pre ++ d ∷ post) l.next
                (Stores-lock s exclusive v.stores) l.front l.back dout l.out
                (λ a i. ground (arith, l.apart a i)) t f in
            rw (rwunlock-ok t lock) (
              returns (
                dropped d.at (find_value-append x pre d post out hit)
                  (starts-live s (pre ++ d ∷ post) ys v.stores d.at l.at.holds)
                  (rw (erase-append x pre d post out hit)
                    (record { stores = Stores-lock t idle stores; free_lock = refl }))
                  λ b away.
                    Freed-same w pre d.at ys l.next t f b
                      (ground (arith, away, has-append b pre (d ∷ post)))
                      (λ e. ground (arith, away, has-append b pre (d ∷ post), e)))))

  -- On a well-formed list, `list_delete` drops the first node with the value and releases its block,
  -- and leaves the nodes outside the list, or changes nothing where no node has the value; the locks
  -- are free again.
  pub list_delete-Deleted :
      (xs : List Item) → IsList s xs ys → Returns (λ _ t. Deleted x xs ys s t) (list_delete x s)
  list_delete-Deleted xs v = delete_by (split_at_value x xs) v
