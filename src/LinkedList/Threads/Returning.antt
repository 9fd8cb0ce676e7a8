-- ===== src/LinkedList/Threads/Returning.antt =====
-- How the locked part of a writer goes on.
use threadsafe_memory_manage.Prelude.{
  ℕ, ◌<◌, ◌≡◌, ◌≢◌, refl, sym, ap, subst, false, Option, none, some, ◌⊎◌, if◌then◌else◌, List, ◌==◌,
  Bool-cases, inl, inr,
}
use threadsafe_memory_manage.Word.{Ptr, null}
use threadsafe_memory_manage.Run.{ok, fault}
use threadsafe_memory_manage.Run.Returns
use threadsafe_memory_manage.Run.Returns.{Returns, returns}
use threadsafe_memory_manage.NodeStore.{Node, FreshNode, load_node, alloc_node, idle, Program}
use threadsafe_memory_manage.LinkedList.Nodes.{Item, item}
use threadsafe_memory_manage.LinkedList.Grow.{alloc_node-Allocated, Stores-lock}
use threadsafe_memory_manage.LinkedList.Insert.{Appended, insert_locked, insert_locked-Appended}
use threadsafe_memory_manage.LinkedList.Race.{delete_locked}
use threadsafe_memory_manage.LinkedList.Race.Locked.{Erased, delete_locked-Erased}
use threadsafe_memory_manage.LinkedList.InsertAfter.{after_locked}
use threadsafe_memory_manage.LinkedList.AfterLocked.{after_locked-Placement}
use threadsafe_memory_manage.LinkedList.BeforeLocked.{before_locked-Placement}
use threadsafe_memory_manage.LinkedList.Place.{Placement}
use threadsafe_memory_manage.LinkedList.Threads.{
  Side, behind, ahead, placing, appending, erasing, writing, System, write_locked,
}
use threadsafe_memory_manage.LinkedList.Threads.Standing.{target, put, own_node, Standing}
use threadsafe_memory_manage.LinkedList.Threads.Writers.{writer_alone}

after_locked-fault :
    (node_size : ℕ) (f : FreshNode) (q : Ptr) (value : ℕ) (s : Program)
    → s.nodes q ≡ none
    → after_locked node_size f q value s ≡ fault
unfolding after_locked load_node
after_locked-fault node_size f q value s dead = elim (Bool-cases (q == null)) [
  | inl none_given ↦ rw none_given refl
  | inr given ↦ rw (given, dead) refl
]

module _ {n : ℕ} {xs : List Item} (s : System) (o : Standing n xs s) (i : ℕ) (below : i < n) where
  pub append-Returns :
      (value : ℕ) (p : Ptr)
      → s.phase i ≡ writing (appending value p)
      → Returns
          (λ _ t. Appended s.program o.items o.cells p value t)
          (insert_locked p value s.program)
  append-Returns value p at =
      let l = o.loose i p below (ap own_node at) in
      insert_locked-Appended s.program o.items o.cells p value l.contents o.stores
        (writer_alone s o i below (appending value p) at) l.live_node l.out

  pub erase-Returns :
      (value : ℕ)
      → s.phase i ≡ writing (erasing value)
      → (s.program.head == null) ≡ false
      → Returns (λ _ t. Erased value o.items s.program t) (delete_locked value s.program)
  erase-Returns value at some_node =
      let base : Program = record s.program { list_lock = idle } in
      let alone = writer_alone s o i below (erasing value) at in
      subst
        (λ l.
          Returns (λ _ t. Erased value o.items s.program t)
            (delete_locked value (record s.program { list_lock = l })))
        (sym alone)
        (delete_locked-Erased value base o.items o.cells
          (record { stores = Stores-lock s.program idle o.stores; free_lock = refl }) some_node)

  abbrev pub Placed : ℕ → FreshNode → Side → Ptr → ℕ → Ptr → Type 0
  Placed node_size f side q value p =
      Returns
        (λ _ t.
          Placement s.program o.items
            (if p == null then o.items else put side q (item p value) o.items) t)
        (write_locked node_size f (placing side q value) s.program)

  -- The node behind which a new one is to go may have been deleted.
  abbrev pub Stale : ℕ → Side → Ptr → ℕ → Type 0
  Stale node_size side q value =
      (side ≡ behind)
      × (s.program.nodes q ≡ none)
      × ((f : FreshNode) → write_locked node_size f (placing side q value) s.program ≡ fault)

  pub place-cases :
      (node_size : ℕ) (side : Side) (q : Ptr) (value : ℕ)
      → s.phase i ≡ writing (placing side q value)
      → Stale node_size side q value
        ⊎ ((f : FreshNode) (p : Ptr) (u : Program)
            → 0 < node_size
            → s.program.manager.blocks f.descriptor.at ≡ none
            → alloc_node node_size f s.program ≡ ok p u
            → Placed node_size f side q value p)
  unfolding write_locked
  place-cases node_size behind q value at = by (s.program.nodes q) refl
    where
      given : q ≢ null
      given = o.aimed i q below (ap target at)

      by :
          (c : Option Node)
          → s.program.nodes q ≡ c
          → Stale node_size behind q value
            ⊎ ((f : FreshNode) (p : Ptr) (u : Program)
                → 0 < node_size
                → s.program.manager.blocks f.descriptor.at ≡ none
                → alloc_node node_size f s.program ≡ ok p u
                → Placed node_size f behind q value p)
      by none dead = inl (refl, dead, λ f. after_locked-fault node_size f q value s.program dead)
      by (some m) e = inr λ f p u pos unused alloc.
          after_locked-Placement node_size f value q s.program o.cells m
            (record { ne_null = given; holds = e })
            (writer_alone s o i below (placing behind q value) at) o.items o.stores p u alloc
            (Returns.of_ok
              (alloc_node-Allocated node_size f s.program o.items o.cells o.stores unused pos)
              alloc)
  place-cases node_size ahead q value at = inr λ f p u pos unused alloc.
      before_locked-Placement f value q s.program o.cells
        (writer_alone s o i below (placing ahead q value) at) node_size o.items o.stores
        (o.aimed i q below (ap target at)) p u alloc
        (Returns.of_ok
          (alloc_node-Allocated node_size f s.program o.items o.cells o.stores unused pos) alloc)
