-- ===== src/LinkedList/Threads/Standing.antt =====
-- What holds in every state that the threads reach.
use threadsafe_memory_manage.Prelude.{
  ℕ, ◌+◌, ◌<◌, ◌≡◌, ◌≢◌, ◌⊎◌, refl, sym, ap, ◌∙◌, Option, none, some, List, [], ◌∷◌, ◌++◌, arith,
  ◌==◌, if◌then◌else◌, Bool-cases, inl, inr, ==→eq, ==→ne,
}
use threadsafe_memory_manage.Word.{Ptr, null}
use threadsafe_memory_manage.Manager.Chain.{Cell}
use threadsafe_memory_manage.NodeStore.{gone, Program}
use threadsafe_memory_manage.LinkedList.Nodes.{Item, item}
use threadsafe_memory_manage.LinkedList.Valid.{Stores, IsList}
use threadsafe_memory_manage.LinkedList.Erase.{erase}
use threadsafe_memory_manage.LinkedList.Place.{Loose, put_behind, put_before}
use threadsafe_memory_manage.LinkedList.Threads.{
  Side, behind, ahead, Writing, placing, placed, appending, erasing, Query, Reading, Answer, Phase,
  outside, waiting, writing, reading, Event, inserted, refused, deleted, answered, System, update,
  start,
}
use threadsafe_memory_manage.LinkedList.Threads.Locks.{
  readers_of, writers_of, reads, writes, Held, move-Held, start-Held, reads-le,
}
use threadsafe_memory_manage.LinkedList.Threads.Rounds.{Reads, Says}

-- The list with a new node next to the node at `q`, if there is one.
abbrev pub put : Side → Ptr → Item → List Item → List Item
put behind q x xs = put_behind q x xs
put ahead q x xs = put_before q x xs

-- The calls one after the other, on a list that only they touch.
pub data Replays (xs : List Item) : List Event → List Item → Type 0 where
  nothing : Replays xs [] xs
  insertion :
      {h : List Event} {ys : List Item} (i value : ℕ) (p : Ptr)
      → Replays xs h ys
      → Replays xs (inserted i value p ∷ h) (ys ++ item p value ∷ [])
  refusal :
      {h : List Event} {ys : List Item} (i value : ℕ)
      → Replays xs h ys
      → Replays xs (refused i value ∷ h) ys
  deletion :
      {h : List Event} {ys : List Item} (i value : ℕ)
      → Replays xs h ys
      → Replays xs (deleted i value ∷ h) (erase value ys)
  placement :
      {h : List Event} {ys : List Item} (i : ℕ) (side : Side) (q : Ptr) (value : ℕ) (p : Ptr)
      → Replays xs h ys
      → Replays xs
          (placed i side q value p ∷ h)
          (if p == null then ys else put side q (item p value) ys)
  reply :
      {h : List Event} {ys : List Item} (i : ℕ) (q : Query) (a : Answer)
      → Replays xs h ys
      → Says q a ys
      → Replays xs (answered i q a ∷ h) ys

-- The node that a thread has allocated and not yet linked.
abbrev pub own_node : Phase → Option Ptr
own_node outside = none
own_node (waiting (appending value p)) = some p
own_node (waiting (erasing value)) = none
own_node (waiting (placing side q value)) = none
own_node (writing (appending value p)) = some p
own_node (writing (erasing value)) = none
own_node (writing (placing side q value)) = none
own_node (reading r) = none

-- The node next to which a thread is to put a new one.
abbrev pub target_of : Writing → Option Ptr
target_of (appending value p) = none
target_of (erasing value) = none
target_of (placing side q value) = some q

abbrev pub target : Phase → Option Ptr
target outside = none
target (waiting w) = target_of w
target (writing w) = target_of w
target (reading r) = none

pub record Standing (n : ℕ) (xs : List Item) (s : System) : Type 0 where
  pub items : List Item
  pub cells : List Cell
  pub stores : Stores s.program items cells
  pub replay : Replays xs s.history items
  pub held : Held n s.program.list_lock s.phase
  pub made : s.program.list_lock ≢ gone
  pub loose :
      (i : ℕ) (p : Ptr) → i < n → own_node (s.phase i) ≡ some p → Loose s.program.nodes items p
  pub apart :
      (i j : ℕ) (p : Ptr)
      → i < n
      → j < n
      → own_node (s.phase i) ≡ some p
      → own_node (s.phase j) ≡ some p
      → i ≡ j
  pub aimed : (i : ℕ) (q : Ptr) → i < n → target (s.phase i) ≡ some q → q ≢ null
  pub readers :
      (i : ℕ) (r : Reading) → i < n → s.phase i ≡ reading r → Reads s.program.nodes items r

-- What the thread `i` changes as it moves to `p`: the others keep what they have.
pub record Moved (n : ℕ) (xs : List Item) (s : System) (o : Standing n xs s) (i : ℕ) (p : Phase)
    (t : Program) (h : List Event) (zs : List Item) : Type 0 where
  pub cells : List Cell
  pub stores : Stores t zs cells
  pub replay : Replays xs h zs
  pub still_made : t.list_lock ≢ gone
  pub readers_counted :
      readers_of t.list_lock + reads (s.phase i) ≡ readers_of s.program.list_lock + reads p
  pub writers_counted :
      writers_of t.list_lock + writes (s.phase i) ≡ writers_of s.program.list_lock + writes p
  pub own : (a : Ptr) → own_node p ≡ some a → Loose t.nodes zs a
  pub new :
      (a : Ptr) → own_node p ≡ some a → (own_node (s.phase i) ≡ some a) ⊎ (s.program.nodes a ≡ none)
  pub others :
      (a : Ptr)
      → own_node (s.phase i) ≢ some a
      → Loose s.program.nodes o.items a
      → Loose t.nodes zs a
  pub aims : (q : Ptr) → target p ≡ some q → q ≢ null
  pub reads_on : (r : Reading) → p ≡ reading r → Reads t.nodes zs r
  pub others_read :
      (r : Reading)
      → 0 < readers_of s.program.list_lock
      → Reads s.program.nodes o.items r
      → Reads t.nodes zs r

update-cases :
    (f : ℕ → Phase) (i : ℕ) (p : Phase) (j : ℕ)
    → ((j ≡ i) × (update f i p j ≡ p)) ⊎ ((j ≢ i) × (update f i p j ≡ f j))
update-cases f i p j = elim (Bool-cases (j == i)) [
  | inl same ↦ inl (==→eq j i same, rw same refl)
  | inr other ↦ inr (==→ne j i other, rw other refl)
]

module _ {n : ℕ} {xs : List Item} {s : System} (o : Standing n xs s) {i : ℕ} (below : i < n)
    {p : Phase} {t : Program} {h : List Event} {zs : List Item}
    (m : Moved n xs s o i p t h zs) where
  Loose-update :
      (j : ℕ) (a : Ptr) → j < n → own_node (update s.phase i p j) ≡ some a → Loose t.nodes zs a
  Loose-update j a hj e = elim (update-cases s.phase i p j) [
    | inl (ji, at) ↦ m.own a (ap own_node (sym at) ∙ e)
    | inr (ji, at) ↦
        let mine = ap own_node (sym at) ∙ e in
        m.others a (λ his. ji (o.apart j i a hj below mine his)) (o.loose j a hj mine)
  ]

  clash :
      (j : ℕ) (a : Ptr) → j < n → j ≢ i → own_node p ≡ some a → own_node (s.phase j) ≡ some a → ⊥
  clash j a hj ji mine his = elim (m.new a mine) [
    | inl before ↦ ji (o.apart j i a hj below his before)
    | inr unused ↦ cc ((o.loose j a hj his).live_node.holds, unused)
  ]

  apart_after :
      (j k : ℕ) (a : Ptr)
      → j < n
      → k < n
      → own_node (update s.phase i p j) ≡ some a
      → own_node (update s.phase i p k) ≡ some a
      → j ≡ k
  apart_after j k a hj hk ej ek = elim (update-cases s.phase i p j) [
    | inl (ji, atj) ↦ elim (update-cases s.phase i p k) [
      | inl (ki, atk) ↦ ji ∙ sym ki
      | inr (ki, atk) ↦
          absurd (clash k a hk ki (ap own_node (sym atj) ∙ ej) (ap own_node (sym atk) ∙ ek))
    ]
    | inr (ji, atj) ↦ elim (update-cases s.phase i p k) [
      | inl (ki, atk) ↦
          absurd (clash j a hj ji (ap own_node (sym atk) ∙ ek) (ap own_node (sym atj) ∙ ej))
      | inr (ki, atk) ↦
          o.apart j k a hj hk (ap own_node (sym atj) ∙ ej) (ap own_node (sym atk) ∙ ek)
    ]
  ]

  aimed_after : (j : ℕ) (q : Ptr) → j < n → target (update s.phase i p j) ≡ some q → q ≢ null
  aimed_after j q hj e = elim (update-cases s.phase i p j) [
    | inl (ji, at) ↦ m.aims q (ap target (sym at) ∙ e)
    | inr (ji, at) ↦ o.aimed j q hj (ap target (sym at) ∙ e)
  ]

  readers_after :
      (j : ℕ) (r : Reading) → j < n → update s.phase i p j ≡ reading r → Reads t.nodes zs r
  readers_after j r hj e = elim (update-cases s.phase i p j) [
    | inl (ji, at) ↦ m.reads_on r (sym at ∙ e)
    | inr (ji, at) ↦
        let his = sym at ∙ e in
        m.others_read r (omega (arith, reads-le o.held j hj, ap reads his)) (o.readers j r hj his)
  ]

  pub Moved-Standing :
      Standing n xs (record { program = t; phase = update s.phase i p; history = h })
  Moved-Standing = record {
    items = zs;
    cells = m.cells;
    stores = m.stores;
    replay = m.replay;
    held = move-Held o.held i below t.list_lock p m.readers_counted m.writers_counted;
    made = m.still_made;
    loose = Loose-update;
    apart = apart_after;
    aimed = aimed_after;
    readers = readers_after;
  }

pub start-Standing :
    (n : ℕ) (p : Program) (xs : List Item) (ys : List Cell)
    → IsList p xs ys
    → Standing n xs (start p)
start-Standing n p xs ys v = record {
  items = xs;
  cells = ys;
  stores = v.stores;
  replay = nothing;
  held = rw v.free_lock (start-Held n);
  made = λ e. cc (v.free_lock, e);
  loose = λ i a h e. cc e;
  apart = λ i j a hi hj e. cc e;
  aimed = λ i q h e. cc e;
  readers = λ i r h e. cc e;
}
