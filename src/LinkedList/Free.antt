-- ===== src/LinkedList/Free.antt =====
-- A node that leaves the list, and whose block goes back to the memory manager.
use threadsafe_memory_manage.Prelude.{
  ◌≡◌, ◌≢◌, refl, sym, ap, subst, ◌∙◌, none, List, ◌++◌, arith, ◌==◌, Bool-cases, inl, inr, ==→ne,
}
use threadsafe_memory_manage.Word.{Ptr, null}
use threadsafe_memory_manage.Run.Returns
use threadsafe_memory_manage.Run.Returns.{Returns, returns}
use threadsafe_memory_manage.Machine.{Manager, unlocked}
use threadsafe_memory_manage.Manager.Chain.{Cell}
use threadsafe_memory_manage.Manager.Valid.{IsValid, Kept}
use threadsafe_memory_manage.Manager.Free.{release}
use threadsafe_memory_manage.Manager.Locked.{mem_free-release}
use threadsafe_memory_manage.Manager.Starts.{starts-release_ne}
use threadsafe_memory_manage.NodeStore.{Node, Program, write_node, put_node, free_node}
use threadsafe_memory_manage.LinkedList.Nodes.{
  HasNode, load_node-ok, Item, ◌∈◌, ◌∉◌, Seg, frame, frame-write, Seg-append,
}
use threadsafe_memory_manage.LinkedList.Link.{
  joined, joined-front, joined-outside, joined-manager, joined-lock,
}
use threadsafe_memory_manage.LinkedList.Valid.{Stores}
use threadsafe_memory_manage.LinkedList.Grow.{lift-Returns, joined-backed}

-- The state of a list once the node `p` is dead and its block released.
abbrev pub Freed : Ptr → List Cell → Program → Program → Type 0
Freed p ys s t =
    (m : Manager) × IsValid m (release p ys)
    × Kept s.manager m
    × (t ≡ put_node p none (record s { manager = m }))

pub free_node-Freed :
    (s : Program) (p : Ptr) {n : Node} (ys : List Cell)
    → HasNode s.nodes p n
    → IsValid s.manager ys
    → s.manager.lock ≡ unlocked
    → Returns (λ _ t. Freed p ys s t) (free_node p s)
unfolding free_node
free_node-Freed s p ys n v idle = rw (load_node-ok s n) (
    Returns.bind (lift-Returns s (mem_free-release s.manager v idle p))
      λ u t (m, (w, kept), e). returns (m, w, kept, ap (put_node p none) e))

-- A node between two parts of a list, unlinked and freed.
pub Freed-Stores :
    (s : Program) (pre post : List Item) (d : Item) (ys : List Cell) (xs : List Item) (next : Ptr)
    → Stores s xs ys
    → Seg s.nodes d.at s.head pre
    → Seg s.nodes null next post
    → d.at ∉ pre
    → d.at ∉ post
    → ((a : Ptr) → a ∈ pre → a ∉ post)
    → (t : Program) → Freed d.at ys (joined pre next s) t
    → Stores t (pre ++ post) (release d.at ys) × (t.list_lock ≡ s.list_lock)
unfolding write_node
Freed-Stores s pre post d ys xs next v front back out1 out2 apart t (m, w, kept, e) =
    let j = joined pre next s in
    let backed = joined-backed s xs ys next pre v front in
    subst (λ t. Stores t (pre ++ post) (release d.at ys) × (t.list_lock ≡ s.list_lock)) (sym e)
      (
        record {
          chain =
              Seg-append (frame-write d.at none (joined-front s next pre front) out1)
                (frame-write d.at none
                  (frame back λ a i. joined-outside s next pre a (ground (arith, apart a))) out2)
                apart;
          blocks = w;
          free_mutex = kept.lock ∙ ap (λ m. m.lock) (joined-manager s next pre) ∙ v.free_mutex;
          backed = λ a h. elim (Bool-cases (a == d.at)) [
            | inl here ↦ rw here refl
            | inr there ↦
                rw there (backed a (sym (starts-release_ne d.at a ys (==→ne a d.at there)) ∙ h))
          ];
        },
        joined-lock s next pre,
      )

-- No node changes but the last one before it and the node itself.
pub Freed-same :
    (s : Program) (pre : List Item) (p : Ptr) (ys : List Cell) (next : Ptr) (t : Program)
    → Freed p ys (joined pre next s) t
    → (a : Ptr) → a ∉ pre
    → a ≢ p
    → t.nodes a ≡ s.nodes a
unfolding write_node
Freed-same s pre p ys next t (m, w, kept, e) a out ne =
    ap (λ u. u.nodes a) e ∙ ground (arith, ne, joined-outside s next pre a out)
