-- ===== src/LinkedList/Lifetime.antt =====
-- `list_init` and `list_cleanup`: the life of a list.
use threadsafe_memory_manage.Prelude.{
  ℕ, zero, suc, ◌+◌, ◌^◌, ◌<◌, ◌≡◌, ◌≢◌, refl, sym, ap, subst, ◌∙◌, none, List, [], ◌∷◌, arith,
  length,
}
use threadsafe_memory_manage.Word.{Ptr, null}
use threadsafe_memory_manage.Run.{Cmd, modify, ◌>>◌}
use threadsafe_memory_manage.Run.Returns
use threadsafe_memory_manage.Run.Returns.{Returns, returns}
use threadsafe_memory_manage.Machine.{Manager, unlocked}
use threadsafe_memory_manage.Manager.Chain.{Cell}
use threadsafe_memory_manage.Manager.Valid.{IsValid}
use threadsafe_memory_manage.Manager.Free.{release}
use threadsafe_memory_manage.Manager.Lifetime.{Deinited, mem_init-IsValid, mem_deinit-Deinited}
use threadsafe_memory_manage.NodeStore.{
  set_head, rwunlock, gone, idle, exclusive, Program, put_node, rwlock_destroy, deinit_pool,
}
use threadsafe_memory_manage.LinkedList.{rounds, list_init, cleanup_loop, list_cleanup}
use threadsafe_memory_manage.LinkedList.Nodes.{
  not_null, load_node-ok, Item, Seg, nil, link, frame-write,
}
use threadsafe_memory_manage.LinkedList.Valid.{IsList, length-lt_rounds}
use threadsafe_memory_manage.LinkedList.Grow.{lift-Returns, with_write_lock, wrlock-ok, rwunlock-ok}
use threadsafe_memory_manage.LinkedList.Free.{free_node-Freed}

-- What the loop of `list_cleanup` keeps: a manager that works, and the lock.
abbrev Usable : Program → Program → Type 0
Usable s t =
    (ys : List Cell) × IsValid t.manager ys
    × (t.manager.lock ≡ unlocked)
    × (t.list_lock ≡ s.list_lock)

cleanup_loop-Usable :
    (k : ℕ) (s : Program) {p : Ptr} (xs : List Item) (ys : List Cell)
    → Seg s.nodes null p xs
    → IsValid s.manager ys
    → s.manager.lock ≡ unlocked
    → length xs < k
    → Returns (λ _ t. Usable s t) (cleanup_loop k p s)
unfolding cleanup_loop
cleanup_loop-Usable zero s xs ys r v free fuel = absurd (omega arith)
cleanup_loop-Usable (suc k) s [] ys nil v free fuel = returns (ys, v, free, refl)
cleanup_loop-Usable (suc k) s (c ∷ xs) ys (link {p} {q} e n out r) v free fuel =
    rw (not_null n, load_node-ok s n)
      (Returns.bind (free_node-Freed s p ys n v free) λ u t (m, w, kept, d).
        subst (λ t. Returns (λ _ t'. Usable s t') (cleanup_loop k q t)) (sym d)
          (cleanup_loop-Usable k (put_node p none (record s { manager = m })) xs (release p ys)
            (frame-write p none r out) w (kept.lock ∙ free) (omega arith)))

-- The end of a list: no node, no block and no pool is left, and both locks are destroyed.
pub record Ended (t : Program) : Type 0 where
  pub head : t.head ≡ null
  pub nodes : (a : Ptr) → t.nodes a ≡ none
  pub lock : t.list_lock ≡ gone
  pub manager : Deinited t.manager

deinit_pool-Deinited :
    (s : Program) (ys : List Cell)
    → IsValid s.manager ys
    → s.manager.lock ≡ unlocked
    → Returns
        (λ _ t. (m : Manager) × Deinited m × (t ≡ record s { manager = m; nodes = λ _. none }))
        (deinit_pool s)
unfolding deinit_pool
deinit_pool-Deinited s ys v free =
    Returns.bind (lift-Returns s (mem_deinit-Deinited s.manager ys v free))
      λ u t (m, (d, e), l). returns (m, d, ap {A = Program} (λ t. record t { nodes = λ _. none }) l)

-- The rest of `list_cleanup`, behind its loop.
abbrev end_list : Cmd Program (Unit {0})
end_list = deinit_pool >> (rwunlock >> rwlock_destroy)

end_list-Ended :
    (s : Program) (ys : List Cell)
    → s.head ≡ null
    → IsValid s.manager ys
    → s.manager.lock ≡ unlocked
    → s.list_lock ≡ exclusive
    → Returns (λ _ t. Ended t) (end_list s)
unfolding rwlock_destroy
end_list-Ended s ys empty v free lock =
    Returns.bind (deinit_pool-Deinited s ys v free) λ u t (m, d, e).
      subst (λ t. Returns (λ _ t'. Ended t') ((rwunlock >> rwlock_destroy) t)) (sym e)
        (rw (rwunlock-ok (record s { manager = m; nodes = λ _. none }) lock)
          (returns (record { head = empty; nodes = λ a. refl; lock = refl; manager = d })))

-- On a well-formed list, `list_cleanup` returns without a fault; then no node, no block of the
-- manager and no pool is left, the list is empty, and both locks are destroyed.
pub list_cleanup-Ended :
    (s : Program) (xs : List Item) (ys : List Cell)
    → IsList s xs ys
    → Returns (λ _ t. Ended t) (list_cleanup s)
unfolding list_cleanup
list_cleanup-Ended s xs ys v =
    let w = with_write_lock s in
    rw (wrlock-ok s v.free_lock) (
      Returns.bind
        (cleanup_loop-Usable (rounds s) w xs ys v.stores.chain v.stores.blocks v.stores.free_mutex
          (length-lt_rounds s xs ys v.stores))
        λ u t (zs, x, free, lock). end_list-Ended (record t { head = null }) zs refl x free lock)

-- With a pool from `malloc`, no live descriptor and no live node, `list_init` leaves a well-formed
-- empty list with both locks free.
pub list_init-IsList :
    (pool : Ptr) (size : ℕ) (s : Program)
    → pool ≢ null
    → pool + size < 2 ^ 64
    → ((a : Ptr) → s.manager.blocks a ≡ none)
    → ((a : Ptr) → s.nodes a ≡ none)
    → Returns (λ _ t. IsList t [] []) (list_init pool size s)
unfolding list_init
list_init-IsList pool size s ne small unused empty =
    Returns.bind (lift-Returns s (mem_init-IsValid pool size s.manager ne small unused))
      λ u t (m, (v, free, _, _), e).
        subst
          (λ t.
            Returns (λ _ t'. IsList t' [] [])
              ((set_head null >> modify (λ s. record s { list_lock = idle })) t))
          (sym e)
          (returns (record {
            stores = record { chain = nil; blocks = v; free_mutex = free; backed = λ a h. empty a };
            free_lock = refl;
          }))
