-- ===== src/LinkedList/Race/Standing.antt =====
-- What holds in every state that threads in list_delete reach.
use threadsafe_memory_manage.Prelude.{
  ℕ, ◌≡◌, ◌≢◌, refl, sym, ap, ◌∙◌, Bool, true, false, List, [], ◌∷◌, arith, ◌==◌, Bool-cases, inl,
  inr, ==→eq, ==→ne,
}
use threadsafe_memory_manage.Word.{null}
use threadsafe_memory_manage.Run.{ok, deadlock}
use threadsafe_memory_manage.Run.Returns
use threadsafe_memory_manage.Run.Returns.{Returns, returns}
use threadsafe_memory_manage.Manager.Chain.{Cell}
use threadsafe_memory_manage.NodeStore.{Program, wrlock}
use threadsafe_memory_manage.LinkedList.Nodes.{Item}
use threadsafe_memory_manage.LinkedList.Valid.{IsList}
use threadsafe_memory_manage.LinkedList.Grow.{with_write_lock, wrlock-ok}
use threadsafe_memory_manage.LinkedList.Erase.{erase}
use threadsafe_memory_manage.LinkedList.Race.{
  delete_locked, Phase, outside, waiting, inside, Deleters, update, Step, find_empty, test, enter,
  leave, Reach, begin, next,
}
use threadsafe_memory_manage.LinkedList.Race.Locked.{delete_locked-fault, delete_locked-erase}

-- The list without the first node of each value, the last value of `vs` first.
abbrev pub erase_all : List ℕ → List Item → List Item
erase_all [] xs = xs
erase_all (v ∷ vs) xs = erase v (erase_all vs xs)

abbrev pub is_inside : Phase → Bool
is_inside outside = false
is_inside (waiting x) = false
is_inside (inside x) = true

-- Who has the lock, where `base` is the program with the lock free.
pub data Holding (s : Deleters) (base : Program) : Type 0 where
  nobody : s.program ≡ base → ((i : ℕ) → is_inside (s.phase i) ≡ false) → Holding s base
  somebody :
      (i value : ℕ)
      → s.phase i ≡ inside value
      → s.program ≡ with_write_lock base
      → ((j : ℕ) → j ≢ i → is_inside (s.phase j) ≡ false)
      → Holding s base

pub record Standing (xs : List Item) (s : Deleters) : Type 0 where
  pub base : Program
  pub cells : List Cell
  pub valid : IsList base (erase_all s.deleted xs) cells
  pub holding : Holding s base

pub not_inside : {p : Phase} {x : ℕ} → p ≡ inside x → is_inside p ≡ false → ⊥
not_inside e out = cc (ap is_inside e, out)

update-is_inside :
    (f : ℕ → Phase) (i : ℕ) (p : Phase)
    → is_inside p ≡ false
    → (j : ℕ) → is_inside (f j) ≡ false
    → is_inside (update f i p j) ≡ false
update-is_inside f i p out j e = elim (Bool-cases (j == i)) [
  | inl same ↦ rw same out
  | inr other ↦ rw other e
]

update_ne :
    (f : ℕ → Phase) (i : ℕ) (p : Phase) (j : ℕ)
    → j ≢ i
    → is_inside (update f i p j) ≡ is_inside (f j)
update_ne f i p j ne = ground (arith, ne)

left_alone :
    (f : ℕ → Phase) (i : ℕ)
    → ((j : ℕ) → j ≢ i → is_inside (f j) ≡ false)
    → (j : ℕ) → is_inside (update f i outside j) ≡ false
left_alone f i others j = elim (Bool-cases (j == i)) [
  | inl same ↦ rw same refl
  | inr other ↦ rw other (others j (==→ne j i other))
]

wrlock-deadlock : (s : Program) → wrlock (with_write_lock s) ≡ deadlock
unfolding wrlock
wrlock-deadlock s = refl

module _ (xs : List Item) (s : Deleters) (o : Standing xs s) where
  test-Standing :
      (i x : ℕ)
      → s.phase i ≡ outside
      → Standing xs (record s { phase = update s.phase i (waiting x) })
  test-Standing i x at = record {
    base = o.base;
    cells = o.cells;
    valid = o.valid;
    holding = by o.holding;
  }
    where
      by : Holding s o.base → Holding (record s { phase = update s.phase i (waiting x) }) o.base
      by (nobody here alone) =
          nobody here λ j. update-is_inside s.phase i (waiting x) refl j (alone j)
      by (somebody k y kt here others) =
          somebody k y (ground (arith, at, kt)) here
            λ j ne. update-is_inside s.phase i (waiting x) refl j (others j ne)

  enter-Standing :
      (i x : ℕ) (p : Program)
      → s.phase i ≡ waiting x
      → wrlock s.program ≡ ok tt p
      → Standing xs (record s { program = p; phase = update s.phase i (inside x) })
  enter-Standing i x p at e = record {
    base = o.base;
    cells = o.cells;
    valid = o.valid;
    holding = by o.holding;
  }
    where
      by :
          Holding s o.base
          → Holding (record s { program = p; phase = update s.phase i (inside x) }) o.base
      by (nobody here alone) =
          somebody i x (ground arith) (cc (e, wrlock-ok o.base o.valid.free_lock, ap wrlock here))
            λ j ne. (update_ne s.phase i (inside x) j ne ∙ alone j)
      by (somebody k y kt here others) = cc (e, ap wrlock here, wrlock-deadlock o.base)

  leave-Standing :
      (i x : ℕ) (p : Program)
      → s.phase i ≡ inside x
      → delete_locked x s.program ≡ ok tt p
      → Standing xs
          (record { program = p; phase = update s.phase i outside; deleted = x ∷ s.deleted })
  leave-Standing i x p at e = by o.holding
    where
      after :
          s.program ≡ with_write_lock o.base
          → ((j : ℕ) → j ≢ i → is_inside (s.phase j) ≡ false)
          → Standing xs
              (record { program = p; phase = update s.phase i outside; deleted = x ∷ s.deleted })
      after here others = elim (Bool-cases (o.base.head == null)) [
        | inl empty ↦ cc (
          e,
          ap (delete_locked x) here,
          delete_locked-fault x (with_write_lock o.base) (==→eq o.base.head null empty),
        )
        | inr some_node ↦
            let (zs, w) =
              Returns.of_ok
                {P = λ _ t. (zs : List Cell) × IsList t (erase x (erase_all s.deleted xs)) zs}
                (delete_locked-erase x o.base (erase_all s.deleted xs) o.cells o.valid some_node)
                (sym (ap (delete_locked x) here) ∙ e) in
            record {
              base = p;
              cells = zs;
              valid = w;
              holding = nobody refl λ j. left_alone s.phase i others j;
            }
      ]

      by :
          Holding s o.base
          → Standing xs
              (record { program = p; phase = update s.phase i outside; deleted = x ∷ s.deleted })
      by (nobody here alone) = absurd (not_inside at (alone i))
      by (somebody k y kt here others) = elim (Bool-cases (i == k)) [
        | inl same ↦ after here λ j ne. others j λ jk. ne (jk ∙ sym (==→eq i k same))
        | inr other ↦ absurd (not_inside at (others i (==→ne i k other)))
      ]

Step-Standing : {xs : List Item} {s t : Deleters} → Standing xs s → Step s t → Standing xs t
Step-Standing {xs} {s} o (find_empty i at e) = o
Step-Standing {xs} {s} o (test i x at e) = test-Standing xs s o i x at
Step-Standing {xs} {s} o (enter i x p at e) = enter-Standing xs s o i x p at e
Step-Standing {xs} {s} o (leave i x p at e) = leave-Standing xs s o i x p at e

pub Reach-Standing :
    {p : Program} {xs : List Item} {ys : List Cell} {s : Deleters}
    → IsList p xs ys
    → Reach p s
    → Standing xs s
Reach-Standing {p} {xs} {ys} v begin = record {
  base = p;
  cells = ys;
  valid = v;
  holding = nobody refl (λ i. refl);
}
Reach-Standing v (next r st) = Step-Standing (Reach-Standing v r) st
