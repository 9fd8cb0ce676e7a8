-- ===== src/LinkedList/Race/Locked.antt =====
-- list_delete with its lock, and what is left of the list.
use threadsafe_memory_manage.Prelude.{ℕ, Option, ◌≡◌, refl, sym, ap, subst, ◌∙◌, false, List, ◌==◌}
use threadsafe_memory_manage.Word.{Ptr, null}
use threadsafe_memory_manage.Run.{fault}
use threadsafe_memory_manage.Run.Returns
use threadsafe_memory_manage.Run.Returns.{Returns, returns}
use threadsafe_memory_manage.Manager.Chain.{Cell}
use threadsafe_memory_manage.NodeStore.{idle, Program, Node, load_node}
use threadsafe_memory_manage.LinkedList.{list_delete}
use threadsafe_memory_manage.LinkedList.Nodes.{Item, Seg, ◌∉◌}
use threadsafe_memory_manage.LinkedList.Link.{placed}
use threadsafe_memory_manage.LinkedList.Valid.{IsList}
use threadsafe_memory_manage.LinkedList.Grow.{with_write_lock, wrlock-ok}
use threadsafe_memory_manage.LinkedList.Read.{find_value}
use threadsafe_memory_manage.LinkedList.Erase.{
  erase, Search, absent, found, split_at_value, erase-absent, find_value-append,
}
use threadsafe_memory_manage.LinkedList.Delete.{Deleted, kept, dropped, list_delete-Deleted}
use threadsafe_memory_manage.LinkedList.Race.{delete_locked}

-- Behind its lock, `list_delete` is its locked part.
list_delete-delete_locked :
    (value : ℕ) (s : Program)
    → s.list_lock ≡ idle
    → (s.head == null) ≡ false
    → list_delete value s ≡ delete_locked value (with_write_lock s)
unfolding list_delete delete_locked
list_delete-delete_locked value s free some_node = rw (some_node, wrlock-ok s free) refl

-- It loads the first node without another look at `*head`.
pub delete_locked-fault : (value : ℕ) (s : Program) → s.head ≡ null → delete_locked value s ≡ fault
unfolding delete_locked load_node
delete_locked-fault value s none_left = rw none_left refl

-- Where the search finds nothing, there is nothing to erase.
erase-unseen :
    (x : ℕ) {h : Ptr → Option Node} {p : Ptr} {xs : List Item}
    → Search x xs
    → Seg h null p xs
    → find_value x xs ≡ null
    → erase x xs ≡ xs
erase-unseen x (absent {xs} out) chain none_found = erase-absent x xs out
erase-unseen x (found pre d post out hit) chain none_found = absurd (
    (placed pre d post chain).at.ne_null
      (sym (find_value-append x pre d post out hit) ∙ none_found))

-- The list without the first node of a value, and the nodes outside the list as they were.
abbrev pub Erased : ℕ → List Item → Program → Program → Type 0
Erased x xs s t =
    (zs : List Cell) × IsList t (erase x xs) zs × ((a : Ptr) → a ∉ xs → t.nodes a ≡ s.nodes a)

list_delete-Erased :
    (x : ℕ) (s : Program) (xs : List Item) (ys : List Cell)
    → IsList s xs ys
    → Returns (λ _ t. Erased x xs s t) (list_delete x s)
list_delete-Erased x s xs ys v = Returns.mono (list_delete-Deleted x s ys xs v) λ u t d. by d
  where
    by : {t : Program} → Deleted x xs ys s t → Erased x xs s t
    by {t} (kept none_found e) = (
      ys,
      rw (erase-unseen x (split_at_value x xs) v.stores.chain none_found)
          (subst (λ t. IsList t xs ys) (sym e) v),
      λ a out. ap (λ u. u.nodes a) e,
    )
    by (dropped a e b w same) = (_, w, same)

-- At a list with a first node, the locked part returns with the list without the value.
pub delete_locked-Erased :
    (x : ℕ) (s : Program) (xs : List Item) (ys : List Cell)
    → IsList s xs ys
    → (s.head == null) ≡ false
    → Returns (λ _ t. Erased x xs s t) (delete_locked x (with_write_lock s))
delete_locked-Erased x s xs ys v some_node =
    subst (Returns (λ _ t. Erased x xs s t)) (list_delete-delete_locked x s v.free_lock some_node)
      (list_delete-Erased x s xs ys v)

pub delete_locked-erase :
    (x : ℕ) (s : Program) (xs : List Item) (ys : List Cell)
    → IsList s xs ys
    → (s.head == null) ≡ false
    → Returns
        (λ _ t. (zs : List Cell) × IsList t (erase x xs) zs)
        (delete_locked x (with_write_lock s))
delete_locked-erase x s xs ys v some_node =
    Returns.mono (delete_locked-Erased x s xs ys v some_node) λ u t (zs, w, same). (zs, w)
