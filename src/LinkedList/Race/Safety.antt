-- ===== src/LinkedList/Race/Safety.antt =====
-- What threads in list_delete can rely on, and where one of them dereferences NULL.
use threadsafe_memory_manage.Prelude.{
  ℕ, ◌≡◌, ◌≢◌, refl, sym, subst, true, false, List, [], ◌∷◌, ◌==◌,
}
use threadsafe_memory_manage.Word.{null}
use threadsafe_memory_manage.Run.{Run, fault}
use threadsafe_memory_manage.Run.Returns.{Returns, returns}
use threadsafe_memory_manage.Manager.Chain.{Cell}
use threadsafe_memory_manage.NodeStore.{idle, Program}
use threadsafe_memory_manage.LinkedList.Nodes.{Item, null_of_nil, not_null}
use threadsafe_memory_manage.LinkedList.Link.{Seg-uncons}
use threadsafe_memory_manage.LinkedList.Valid.{IsList}
use threadsafe_memory_manage.LinkedList.Grow.{with_write_lock, wrlock-ok, Stores-lock}
use threadsafe_memory_manage.LinkedList.Erase.{erase}
use threadsafe_memory_manage.LinkedList.Race.{
  delete_locked, outside, waiting, inside, Deleters, update, test, enter, leave, Reach, begin, next,
}
use threadsafe_memory_manage.LinkedList.Race.Locked.{delete_locked-fault, delete_locked-erase}
use threadsafe_memory_manage.LinkedList.Race.Standing.{
  erase_all, Holding, nobody, somebody, Standing, Reach-Standing, not_inside,
}

-- How a call of a thread that has the lock goes on.
pub data Outcome (x : ℕ) (xs : List Item) (s : Program) : Type 0 where
  crashes : xs ≡ [] → delete_locked x s ≡ fault → Outcome x xs s
  erases :
      xs ≢ []
      → Returns (λ _ t. (zs : List Cell) × IsList t (erase x xs) zs) (delete_locked x s)
      → Outcome x xs s

locked-Outcome :
    (x : ℕ) (xs : List Item) (base : Program) (ys : List Cell)
    → IsList base xs ys
    → Outcome x xs (with_write_lock base)
locked-Outcome x [] base ys v =
    crashes refl (delete_locked-fault x (with_write_lock base) (null_of_nil v.stores.chain))
locked-Outcome x (c ∷ xs) base ys v =
    let (q, e, n, o, r) = Seg-uncons v.stores.chain in
    erases (λ e. cc e) (delete_locked-erase x base (c ∷ xs) ys v (not_null n))

module _ {p : Program} {xs : List Item} {ys : List Cell} (v : IsList p xs ys) where
  -- From a well-formed list, however the steps of any number of threads that call `list_delete`
  -- interleave, the list is well formed (but for its lock, which a thread may have), and holds what
  -- is left of it once the first node of each value is gone, in the order in which the threads
  -- had the lock.
  pub Reach-erase_all :
      {s : Deleters}
      → Reach p s
      → (zs : List Cell) × IsList
          (record s.program { list_lock = idle })
          (erase_all s.deleted xs)
          zs
  Reach-erase_all {s} r = by (Reach-Standing v r).holding
    where
      o : Standing xs s
      o = Reach-Standing v r

      unlocked_base : IsList (record o.base { list_lock = idle }) (erase_all s.deleted xs) o.cells
      unlocked_base = record { stores = Stores-lock o.base idle o.valid.stores; free_lock = refl }

      by :
          Holding s o.base
          → (zs : List Cell) × IsList
              (record s.program { list_lock = idle })
              (erase_all s.deleted xs)
              zs
      by (nobody here alone) = (
        o.cells,
        subst (λ q. IsList (record q { list_lock = idle }) (erase_all s.deleted xs) o.cells)
            (sym here) unlocked_base,
      )
      by (somebody k y kt here others) = (
        o.cells,
        subst (λ q. IsList (record q { list_lock = idle }) (erase_all s.deleted xs) o.cells)
            (sym here) unlocked_base,
      )

  -- In every such state, a thread that has the lock returns and leaves a well-formed list without the
  -- first node of its value, unless the list has become empty since its test of `*head`: then, and
  -- only then, it dereferences NULL.
  pub inside-Outcome :
      {s : Deleters}
      → Reach p s
      → (i x : ℕ) → s.phase i ≡ inside x
      → Outcome x (erase_all s.deleted xs) s.program
  inside-Outcome {s} r i x at = by (Reach-Standing v r).holding
    where
      o : Standing xs s
      o = Reach-Standing v r

      by : Holding s o.base → Outcome x (erase_all s.deleted xs) s.program
      by (nobody here alone) = absurd (not_inside at (alone i))
      by (somebody k y kt here others) =
          subst (Outcome x (erase_all s.deleted xs)) (sym here)
            (locked-Outcome x (erase_all s.deleted xs) o.base o.cells o.valid)

-- A thread that has tested and waits, while another has the lock.
abbrev waiting_for : ℕ → Program → Deleters
waiting_for x p = record {
  program = with_write_lock p;
  phase = update (update (update (λ _. outside) 0 (waiting x)) 1 (waiting x)) 0 (inside x);
  deleted = [];
}

waiting_for-Reach :
    (x : ℕ) (p : Program)
    → p.list_lock ≡ idle
    → (p.head == null) ≡ false
    → Reach p (waiting_for x p)
waiting_for-Reach x p free some_node =
    next (next (next begin (test 0 x refl some_node)) (test 1 x refl some_node))
      (enter 0 x (with_write_lock p) refl (wrlock-ok p free))

Crash : ℕ → Program → Type 0
Crash x p =
    (s : Deleters) × Reach p s × (s.phase 1 ≡ inside x) × (delete_locked x s.program ≡ fault)

delete_locked-Crash :
    (x : ℕ) (p : Program) (c : Item) (q : Run Program (Unit {0}))
    → Reach p (waiting_for x p)
    → (c.value == x) ≡ true
    → Returns (λ _ t. (zs : List Cell) × IsList t (erase x (c ∷ [])) zs) q
    → delete_locked x (with_write_lock p) ≡ q
    → Crash x p
unfolding Crash erase
delete_locked-Crash x p c q r hit (returns {s = t} (zs, w)) e =
    let empty = subst (λ l. IsList t l zs) (rw hit refl) w in
    (
      _,
      next (next r (leave 0 x t refl e))
          (enter 1 x (with_write_lock t) refl (wrlock-ok t w.free_lock)),
      refl,
      delete_locked-fault x (with_write_lock t) (null_of_nil empty.stores.chain),
    )

-- On a list of one node, two threads that call `list_delete` with its value may pass the test of
-- `*head` one after the other; the one that gets the lock last dereferences NULL.
pub list_delete-fault :
    (x : ℕ) (p : Program) (c : Item) (ys : List Cell)
    → IsList p (c ∷ []) ys
    → (c.value == x) ≡ true
    → (s : Deleters) × Reach p s × (s.phase 1 ≡ inside x) × (delete_locked x s.program ≡ fault)
unfolding Crash
list_delete-fault x p c ys v hit =
    let (q, e, n, o, r) = Seg-uncons v.stores.chain in
    delete_locked-Crash x p c (delete_locked x (with_write_lock p))
      (waiting_for-Reach x p v.free_lock (not_null n)) hit
      (delete_locked-erase x p (c ∷ []) ys v (not_null n)) refl
