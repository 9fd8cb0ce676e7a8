-- ===== src/LinkedList/Threads/Writers.antt =====
-- The steps of list_insert and list_delete.
use threadsafe_memory_manage.Prelude.{
  ℕ, ◌<◌, ◌≡◌, ◌≢◌, refl, sym, ap, subst, ◌∙◌, Option, none, some, List, [], ◌∷◌, ◌++◌, arith, inr,
  ◌==◌, if◌then◌else◌,
}
use threadsafe_memory_manage.Word.{Ptr, null}
use threadsafe_memory_manage.Manager.Chain.{Cell}
use threadsafe_memory_manage.NodeStore.{exclusive, Node, Program, FreshNode}
use threadsafe_memory_manage.LinkedList.Nodes.{
  Item, item, ◌∉◌, frame, not-has_of_none, ne_of_has, has-append,
}
use threadsafe_memory_manage.LinkedList.Valid.{IsList}
use threadsafe_memory_manage.LinkedList.Grow.{NewNode}
use threadsafe_memory_manage.LinkedList.Insert.{Appended}
use threadsafe_memory_manage.LinkedList.Erase.{erase}
use threadsafe_memory_manage.LinkedList.Race.Locked.{Erased}
use threadsafe_memory_manage.LinkedList.Place.{Loose, Loose-alloc, Placement}
use threadsafe_memory_manage.LinkedList.Threads.{
  Side, placing, placed, Writing, appending, erasing, Reading, outside, waiting, writing, Event,
  inserted, deleted, System,
}
use threadsafe_memory_manage.LinkedList.Threads.Locks.{
  readers_of, writers_of, reads, writes, writes-le, exclusive_of_writer,
}
use threadsafe_memory_manage.LinkedList.Threads.Rounds.{Reads}
use threadsafe_memory_manage.LinkedList.Threads.Standing.{
  own_node, Standing, Moved, put, placement, Replays, insertion, deletion,
}

-- A node at an address that was unused disturbs nobody.
module _ {g h : Ptr → Option Node} {xs : List Item} (p : Ptr) (unused : h p ≡ none)
    (same : (a : Ptr) → a ≢ p → g a ≡ h a) where
  pub Reads-new : {r : Reading} → Reads h xs r → Reads g xs r
  Reads-new v = record {
    rest = v.rest;
    chain = frame v.chain λ a i. same a (ne_of_has a p v.rest i (not-has_of_none p v.chain unused));
    way = v.way;
  }

not-has_erase : (x : ℕ) (a : Ptr) (xs : List Item) → a ∉ xs → a ∉ erase x xs
unfolding erase
not-has_erase x a [] out = refl
not-has_erase x a (c ∷ xs) out = ground (arith, not-has_erase x a xs)

module _ {n : ℕ} {xs : List Item} (s : System) (o : Standing n xs s) (i : ℕ) (below : i < n) where
  pub allocate-Moved :
      (value : ℕ) (f : FreshNode) (p : Ptr) (t : Program)
      → s.phase i ≡ outside
      → NewNode s.program o.items o.cells f.junk p t
      → Moved n xs s o i (waiting (appending value p)) t s.history o.items
  allocate-Moved value f p t at a =
      let unused : s.program.nodes p ≡ none = o.stores.backed p a.new.unused in
      record {
        cells = a.regions;
        stores = a.stores;
        replay = o.replay;
        still_made = λ e. o.made (sym a.lock ∙ e);
        readers_counted = omega (arith, ap readers_of a.lock, ap reads at);
        writers_counted = omega (arith, ap writers_of a.lock, ap writes at);
        own = λ b e.
            let pb : p ≡ b = cc (e) in
            subst (Loose t.nodes o.items) pb
              (record { contents = f.junk; live_node = a.holds; out = a.out });
        new = λ b e. let bp : b ≡ p = cc (e) in inr (ap s.program.nodes bp ∙ unused);
        others = λ b ne l. Loose-alloc o.stores a l;
        aims = λ q e. cc e;
        reads_on = λ r e. cc e;
        others_read = λ r pos v. Reads-new p unused a.same v;
      }

  -- Whoever writes has the lock for itself.
  pub writer_alone : (w : Writing) → s.phase i ≡ writing w → s.program.list_lock ≡ exclusive
  writer_alone w at =
      exclusive_of_writer s.program.list_lock
        (omega (arith, writes-le o.held i below, ap writes at))

  -- A writer that is done: its node, if it had one, is in the list.
  written-Moved :
      (w : Writing) (t : Program) (e : Event) (zs : List Item) (ws : List Cell)
      → s.phase i ≡ writing w
      → IsList t zs ws
      → Replays xs (e ∷ s.history) zs
      → ((a : Ptr)
          → own_node (s.phase i) ≢ some a
          → Loose s.program.nodes o.items a
          → Loose t.nodes zs a)
      → Moved n xs s o i outside t (e ∷ s.history) zs
  written-Moved w t e zs ws at v replay others =
      let alone = writer_alone w at in
      record {
        cells = ws;
        stores = v.stores;
        replay = replay;
        still_made = λ e. cc (v.free_lock, e);
        readers_counted =
            omega (arith, ap readers_of v.free_lock, ap readers_of alone, ap reads at);
        writers_counted =
            omega (arith, ap writers_of v.free_lock, ap writers_of alone, ap writes at);
        own = λ b e. cc e;
        new = λ b e. cc e;
        others = others;
        aims = λ q e. cc e;
        reads_on = λ r e. cc e;
        others_read = λ r pos v. absurd (omega (arith, pos, ap readers_of alone));
      }

  pub append-Moved :
      (value : ℕ) (p : Ptr) (t : Program)
      → s.phase i ≡ writing (appending value p)
      → Appended s.program o.items o.cells p value t
      → Moved n xs s o i outside t (inserted i value p ∷ s.history) (o.items ++ item p value ∷ [])
  append-Moved value p t at a =
      written-Moved (appending value p) t (inserted i value p) _ o.cells at a.list
        (insertion i value p o.replay)
        λ b ne l.
          let other : b ≢ p = λ e. ne (ap own_node at ∙ ap some (sym e)) in
          record {
            contents = l.contents;
            live_node = record {
              ne_null = l.live_node.ne_null;
              holds = a.same b l.out other ∙ l.live_node.holds;
            };
            out = ground (arith, has-append b o.items (item p value ∷ []), l.out, other);
          }

  pub erase-Moved :
      (value : ℕ) (t : Program)
      → s.phase i ≡ writing (erasing value)
      → Erased value o.items s.program t
      → Moved n xs s o i outside t (deleted i value ∷ s.history) (erase value o.items)
  erase-Moved value t at (ws, v, same) =
      written-Moved (erasing value) t (deleted i value) _ ws at v (deletion i value o.replay)
        λ b ne l. record {
          contents = l.contents;
          live_node = record {
            ne_null = l.live_node.ne_null;
            holds = same b l.out ∙ l.live_node.holds;
          };
          out = not-has_erase value b o.items l.out;
        }

  -- A node placed next to another, or no node.
  pub place-Moved :
      (side : Side) (q : Ptr) (value : ℕ) (p : Ptr) (t : Program)
      → s.phase i ≡ writing (placing side q value)
      → Placement s.program o.items
          (if p == null then o.items else put side q (item p value) o.items)
          t
      → Moved n xs s o i outside t
          (placed i side q value p ∷ s.history)
          (if p == null then o.items else put side q (item p value) o.items)
  place-Moved side q value p t at a =
      written-Moved (placing side q value) t (placed i side q value p) _ a.cells at a.list
        (placement i side q value p o.replay) λ b ne l. a.aside b l
