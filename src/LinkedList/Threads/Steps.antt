-- ===== src/LinkedList/Threads/Steps.antt =====
-- Every step of a thread keeps what holds of the list.
use threadsafe_memory_manage.Prelude.{
  ℕ, ◌+◌, ◌<◌, ◌≡◌, ◌≢◌, refl, sym, ap, subst, ◌∙◌, false, some, List, [], ◌∷◌, arith, ◌==◌,
  Bool-cases, inl, inr, ==→eq,
}
use threadsafe_memory_manage.Word.{Ptr, null}
use threadsafe_memory_manage.Run.Returns
use threadsafe_memory_manage.Run.Returns.{Returns, returns}
use threadsafe_memory_manage.Manager.Chain.{Cell}
use threadsafe_memory_manage.NodeStore.{gone, RwLock, exclusive, Program}
use threadsafe_memory_manage.LinkedList.Nodes.{Item, nil_of_null}
use threadsafe_memory_manage.LinkedList.Valid.{IsList}
use threadsafe_memory_manage.LinkedList.Grow.{Allocated, alloc_node-Allocated, Stores-lock}
use threadsafe_memory_manage.LinkedList.Erase.{erase}
use threadsafe_memory_manage.LinkedList.Race.Locked.{delete_locked-fault}
use threadsafe_memory_manage.LinkedList.Threads.{
  Side, behind, ahead, placing, refuses, new_node, decline, aim, Writing, appending, erasing,
  Reading, Phase, outside, waiting, writing, reading, Event, deleted, System, update, write_locked,
  start_reading, query, Step, refuse, allocate, find_empty, test, lock_write, unlock_write,
  lock_read, look, unlock_read, Reach, begin, next,
}
use threadsafe_memory_manage.LinkedList.Threads.Locks.{
  Held, readers_of, writers_of, reads, writes, reads-le, wrlock-ok_idle, rdlock-ok_lock,
  rwunlock-ok_lock,
}
use threadsafe_memory_manage.LinkedList.Threads.Rounds.{
  Reads, start-Reads, goes_on, ends_with, read_round-Rounded,
}
use threadsafe_memory_manage.LinkedList.Threads.Standing.{
  target, placement, own_node, Standing, Moved, Moved-Standing, Replays, refusal, deletion, reply,
  start-Standing,
}
use threadsafe_memory_manage.LinkedList.Place.{Loose}
use threadsafe_memory_manage.LinkedList.Threads.Returning.{
  append-Returns, erase-Returns, place-cases,
}
use threadsafe_memory_manage.LinkedList.Threads.Writers.{
  allocate-Moved, append-Moved, erase-Moved, place-Moved,
}

module _ {n : ℕ} {xs : List Item} (s : System) (o : Standing n xs s) (i : ℕ) (below : i < n) where
  -- A step that changes the lock, and where the thread stands.
  lock-Moved :
      (l : RwLock) (p : Phase) (h : List Event)
      → l ≢ gone
      → readers_of l + reads (s.phase i) ≡ readers_of s.program.list_lock + reads p
      → writers_of l + writes (s.phase i) ≡ writers_of s.program.list_lock + writes p
      → ((a : Ptr) → own_node p ≡ some a → own_node (s.phase i) ≡ some a)
      → ((q : Ptr) → target p ≡ some q → q ≢ null)
      → ((r : Reading) → p ≡ reading r → Reads s.program.nodes o.items r)
      → Replays xs h o.items
      → Moved n xs s o i p (record s.program { list_lock = l }) h o.items
  lock-Moved l p h made r w own aims reads_on replay = record {
    cells = o.cells;
    stores = Stores-lock s.program l o.stores;
    replay = replay;
    still_made = made;
    readers_counted = r;
    writers_counted = w;
    own = λ a e. o.loose i a below (own a e);
    new = λ a e. inl (own a e);
    others = λ a ne v. v;
    aims = aims;
    reads_on = reads_on;
    others_read = λ r pos v. v;
  }

erase-nil : (x : ℕ) (xs : List Item) → xs ≡ [] → erase x xs ≡ xs
unfolding erase
erase-nil x [] e = refl
erase-nil x (c ∷ xs) e = cc

own_node-waiting : (w : Writing) → own_node (waiting w) ≡ own_node (writing w)
own_node-waiting (appending value p) = refl
own_node-waiting (erasing value) = refl
own_node-waiting (placing side q value) = refl

given_of_taken : (side : Side) (q : Ptr) (s : Program) → refuses side q s ≡ false → q ≢ null
given_of_taken behind q s e = ground arith
given_of_taken ahead q s e = ground arith

module _ {n node_size : ℕ} {xs : List Item} (pos : 0 < node_size) where
  Step-Standing : {s t : System} → Standing n xs s → Step n node_size s t → Standing n xs t
  unfolding write_locked new_node
  Step-Standing {s} o (refuse i value f t below at new e) = by (
      Returns.of_ok (alloc_node-Allocated node_size f s.program o.items o.cells o.stores new pos) e)
    where
      by :
          Allocated node_size f s.program o.items o.cells null t
          → Standing n xs (record s { program = t; history = Event.refused i value ∷ s.history })
      by (inl (z, v, lock, same, why)) = record {
        items = o.items;
        cells = o.cells;
        stores = v;
        replay = refusal i value o.replay;
        made = λ e. o.made (sym lock ∙ e);
        held = subst (λ l. Held n l s.phase) (sym lock) o.held;
        loose = λ j p h e. subst (λ g. Loose g o.items p) (sym same) (o.loose j p h e);
        apart = o.apart;
        aimed = o.aimed;
        readers = λ j r h e. subst (λ g. Reads g o.items r) (sym same) (o.readers j r h e);
      }
      by (inr a) = absurd (a.new.given refl)
  Step-Standing {s} o (allocate i value f p t below at new e given) = by (
      Returns.of_ok (alloc_node-Allocated node_size f s.program o.items o.cells o.stores new pos) e)
    where
      by :
          Allocated node_size f s.program o.items o.cells p t
          → Standing n xs
              (record s { program = t; phase = update s.phase i (waiting (appending value p)) })
      by (inl (z, v, lock, same, why)) = absurd (given z)
      by (inr a) = Moved-Standing o below (allocate-Moved s o i below value f p t at a)
  Step-Standing {s} o (find_empty i value below at empty) = record {
    items = o.items;
    cells = o.cells;
    stores = o.stores;
    replay =
        subst (Replays xs (deleted i value ∷ s.history))
          (erase-nil value o.items (nil_of_null o.stores.chain empty)) (deletion i value o.replay);
    held = o.held;
    made = o.made;
    loose = o.loose;
    apart = o.apart;
    aimed = o.aimed;
    readers = o.readers;
  }
  Step-Standing {s} o (test i value below at some_node) = Moved-Standing o below (
      lock-Moved s o i below s.program.list_lock (waiting (erasing value)) s.history o.made
        (omega (arith, ap reads at)) (omega (arith, ap writes at)) (λ a e. cc e) (λ q e. cc e)
        (λ r e. cc e) o.replay)
  Step-Standing {s} o (decline i side q value below at refused_call) = record {
    items = o.items;
    cells = o.cells;
    stores = o.stores;
    replay = placement i side q value null o.replay;
    held = o.held;
    made = o.made;
    loose = o.loose;
    apart = o.apart;
    aimed = o.aimed;
    readers = o.readers;
  }
  Step-Standing {s} o (aim i side q value below at taken) = Moved-Standing o below (
      lock-Moved s o i below s.program.list_lock (waiting (placing side q value)) s.history o.made
        (omega (arith, ap reads at)) (omega (arith, ap writes at)) (λ a e. cc e)
        (λ k e.
          let same : q ≡ k = cc (e) in
          subst (λ b. b ≢ null) same (given_of_taken side q s.program taken))
        (λ r e. cc e) o.replay)
  Step-Standing {s} o (lock_write i w t below at e) =
      let (free, d) = wrlock-ok_idle s.program e in
      subst (λ t. Standing n xs (record s { program = t; phase = update s.phase i (writing w) }))
        (sym d)
        (Moved-Standing o below (
          lock-Moved s o i below exclusive (writing w) s.history (λ x. cc)
            (omega (arith, ap reads at, ap readers_of free))
            (omega (arith, ap writes at, ap writers_of free))
            (λ a e. ap own_node at ∙ own_node-waiting w ∙ e)
            (λ q e. o.aimed i q below (ap target at ∙ e)) (λ r e. cc e) o.replay))
  Step-Standing {s} o (unlock_write i (appending value p) f q u t below at unused new e) =
      Moved-Standing o below (
        append-Moved s o i below value p t at
          (Returns.of_ok (append-Returns s o i below value p at) e))
  Step-Standing {s} o (unlock_write i (erasing value) f q u t below at unused new e) =
      elim (Bool-cases (s.program.head == null)) [
        | inl empty ↦ cc (e, delete_locked-fault value s.program (==→eq s.program.head null empty))
        | inr some_node ↦ Moved-Standing o below (
            erase-Moved s o i below value t at
              (Returns.of_ok (erase-Returns s o i below value at some_node) e))
      ]
  Step-Standing {s} o (unlock_write i (placing side q value) f p u t below at unused new e) =
      elim (place-cases s o i below node_size side q value at) [
        | inl (is_behind, dead, fails) ↦ cc (e, fails f)
        | inr go ↦ Moved-Standing o below (
            place-Moved s o i below side q value p t at
              (Returns.of_ok (go f p u pos (unused refl) new) e))
      ]
  Step-Standing {s} o (lock_read i q t below at e) =
      let (l, d, r, w) = rdlock-ok_lock s.program e in
      subst
        (λ t. Standing n xs (record s {
          program = t;
          phase = update s.phase i (reading (start_reading q s.program.head));
        }))
        (sym d)
        (Moved-Standing o below (
          lock-Moved s o i below l (reading (start_reading q s.program.head)) s.history
            (λ x. absurd (omega (arith, r, ap readers_of x))) (omega (arith, ap reads at, r))
            (omega (arith, ap writes at, w)) (λ a e. cc e) (λ q e. cc e)
            (λ k e.
              let was : start_reading q s.program.head ≡ k = cc (e) in
              subst (Reads s.program.nodes o.items) was
                (start-Reads q s.program o.items o.cells o.stores))
            o.replay))
  Step-Standing {s} o (look i r r' below at e) =
      let v = goes_on (read_round-Rounded s.program o.items r (o.readers i r below at)) e in
      Moved-Standing o below (
        lock-Moved s o i below s.program.list_lock (reading r') s.history o.made
          (omega (arith, ap reads at)) (omega (arith, ap writes at)) (λ a e. cc e) (λ q e. cc e)
          (λ k e. let was : r' ≡ k = cc (e) in subst (Reads s.program.nodes o.items) was v)
          o.replay)
  Step-Standing {s} o (unlock_read i r a t below at e u) =
      let v = ends_with (read_round-Rounded s.program o.items r (o.readers i r below at)) e in
      let (l, some_lock, d, rs, ws) =
        rwunlock-ok_lock s.program u (omega (arith, reads-le o.held i below, ap reads at)) in
      subst
        (λ t. Standing n xs (record {
          program = t;
          phase = update s.phase i outside;
          history = Event.answered i (query r) a ∷ s.history;
        }))
        (sym d)
        (Moved-Standing o below (
          lock-Moved s o i below l outside (Event.answered i (query r) a ∷ s.history) some_lock
            (omega (arith, ap reads at, rs)) (omega (arith, ap writes at, ws)) (λ a e. cc e)
            (λ q e. cc e) (λ r e. cc e) (reply i (query r) a o.replay v)))

  pub Reach-Standing :
      {p : Program} {ys : List Cell} {s : System}
      → IsList p xs ys
      → Reach n node_size p s
      → Standing n xs s
  Reach-Standing {p} {ys} v begin = start-Standing n p xs ys v
  Reach-Standing v (next r st) = Step-Standing (Reach-Standing v r) st
