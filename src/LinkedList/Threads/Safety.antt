-- ===== src/LinkedList/Threads/Safety.antt =====
-- What threads that call linked_list.c at once can rely on.
use threadsafe_memory_manage.Prelude.{
  ℕ, ◌+◌, ◌^◌, ◌≤◌, ◌<◌, ◌≡◌, ◌≢◌, ◌⊎◌, refl, sym, ap, ◌∙◌, none, List, arith, ◌==◌, Bool-cases,
  inl, inr, ==→eq, length,
}
use threadsafe_memory_manage.Word.{Ptr, null}
use threadsafe_memory_manage.Run.{Run, ok, fault}
use threadsafe_memory_manage.Run.Returns.{Returns, returns}
use threadsafe_memory_manage.Manager.Chain.{Cell}
use threadsafe_memory_manage.NodeStore.{
  FreshNode, alloc_node, RwLock, gone, shared, idle, exclusive, Program,
}
use threadsafe_memory_manage.LinkedList.Nodes.{Item}
use threadsafe_memory_manage.LinkedList.Valid.{Stores, IsList}
use threadsafe_memory_manage.LinkedList.Grow.{alloc_node-Allocated, with_write_lock, wrlock-ok}
use threadsafe_memory_manage.LinkedList.Race.Locked.{delete_locked-fault}
use threadsafe_memory_manage.LinkedList.Threads.{
  Side, behind, placing, new_node, decline, aim, Writing, appending, erasing, Reading, Phase,
  outside, waiting, writing, reading, System, write_locked, read_round, Step, refuse, allocate,
  find_empty, test, lock_write, unlock_write, lock_read, look, unlock_read, Reach,
}
use threadsafe_memory_manage.LinkedList.Threads.Locks.{
  readers_of, writers_of, reads, writes, reads-le, rwunlock-reader,
}
use threadsafe_memory_manage.LinkedList.Threads.Rounds.{
  Rounded, goes, ends, overflows, read_round-Rounded,
}
use threadsafe_memory_manage.LinkedList.Threads.Standing.{Standing, Replays}
use threadsafe_memory_manage.LinkedList.Threads.Steps.{Reach-Standing}
use threadsafe_memory_manage.LinkedList.Threads.Returning.{
  append-Returns, erase-Returns, place-cases,
}
use threadsafe_memory_manage.Sums.{sum, some_part}

-- The list stands for the calls that have returned, one after the other.
pub record Serial (xs : List Item) (s : System) : Type 0 where
  pub items : List Item
  pub cells : List Cell
  pub stores : Stores s.program items cells
  pub replay : Replays xs s.history items

-- Why a thread that has the lock cannot go on.
pub data Fails (node_size : ℕ) (s : System) (i : ℕ) : Type 0 where
  lost :
      (value : ℕ)
      → s.phase i ≡ writing (erasing value)
      → s.program.head ≡ null
      → ((f : FreshNode) → write_locked node_size f (erasing value) s.program ≡ fault)
      → Fails node_size s i
  stale :
      (q value : ℕ)
      → s.phase i ≡ writing (placing behind q value)
      → s.program.nodes q ≡ none
      → ((f : FreshNode) → write_locked node_size f (placing behind q value) s.program ≡ fault)
      → Fails node_size s i
  overflow :
      (r : Reading) (items : List Item) (cells : List Cell)
      → s.phase i ≡ reading r
      → Stores s.program items cells
      → 2 ^ 31 ≤ length items
      → read_round r s.program ≡ fault
      → Fails node_size s i

-- The thread that makes a step.
abbrev pub mover : {n node_size : ℕ} {s t : System} → Step n node_size s t → ℕ
mover (refuse i value f t below at new e) = i
mover (allocate i value f p t below at new e given) = i
mover (find_empty i value below at empty) = i
mover (test i value below at some_node) = i
mover (decline i side q value below at refused_call) = i
mover (aim i side q value below at taken) = i
mover (lock_write i w t below at e) = i
mover (unlock_write i w f p u t below at unused new e) = i
mover (lock_read i q t below at e) = i
mover (look i r r' below at e) = i
mover (unlock_read i r a t below at e u) = i

abbrev pub Advances : ℕ → ℕ → System → ℕ → Type 0
Advances n node_size s i =
    ((t : System) × (step : Step n node_size s t) × (mover step ≡ i)) ⊎ Fails node_size s i

-- Some thread that is in a call can go on, or fails.
abbrev pub SomeoneAdvances : ℕ → ℕ → System → Type 0
SomeoneAdvances n node_size s = (j : ℕ) × (j < n) × (s.phase j ≢ outside) × Advances n node_size s j

unlocks :
    {n node_size : ℕ} {s : System} {i : ℕ} {w : Writing} {P : Unit {0} → Program → Type 0}
    {r : Run Program (Unit {0})}
    → (f : FreshNode) (p : Ptr) (u : Program) → i < n
    → s.phase i ≡ writing w
    → s.program.manager.blocks f.descriptor.at ≡ none
    → new_node node_size f w s.program ≡ ok p u
    → Returns P r
    → write_locked node_size f w s.program ≡ r
    → (t : System) × (step : Step n node_size s t) × (mover step ≡ i)
unlocks {i} {w} f p u below at unused new (returns {s = t} h) e =
    (_, unlock_write i w f p u t below at (λ _. unused) new e, refl)

module _ {n node_size : ℕ} {xs : List Item} (s : System) (o : Standing n xs s) (f : FreshNode)
    (unused : s.program.manager.blocks f.descriptor.at ≡ none) (pos : 0 < node_size) (i : ℕ)
    (below : i < n) where
  -- A writer that allocates under the lock.
  placing-Advances :
      (side : Side) (q value : ℕ)
      → s.phase i ≡ writing (placing side q value)
      → {P : Ptr → Program → Type 0} {r : Run Program Ptr} → Returns P r
      → alloc_node node_size f s.program ≡ r
      → Advances n node_size s i
  unfolding new_node
  placing-Advances side q value at (returns {a = p} {s = u} h) alloc =
      elim (place-cases s o i below node_size side q value at) [
        | inl (is_behind, dead, fails) ↦
            let as_behind : placing side q value ≡ placing behind q value =
              ap (λ k. placing k q value) is_behind in
            inr (
              stale q value (at ∙ ap writing as_behind) dead
                λ g. ap (λ w. write_locked node_size g w s.program) (sym as_behind) ∙ fails g)
        | inr go ↦ inl (unlocks f p u below at unused alloc (go f p u pos unused alloc) refl)
      ]

  writing-Advances : (w : Writing) → s.phase i ≡ writing w → Advances n node_size s i
  unfolding write_locked new_node
  writing-Advances (appending value p) at =
      inl
        (unlocks f null s.program below at unused refl (append-Returns s o i below value p at) refl)
  writing-Advances (erasing value) at = elim (Bool-cases (s.program.head == null)) [
    | inl empty ↦
        let none_left = ==→eq s.program.head null empty in
        inr (lost value at none_left λ g. delete_locked-fault value s.program none_left)
    | inr some_node ↦ inl (
        unlocks f null s.program below at unused refl (erase-Returns s o i below value at some_node)
          refl)
  ]
  writing-Advances (placing side q value) at =
      placing-Advances side q value at
        (alloc_node-Allocated node_size f s.program o.items o.cells o.stores unused pos) refl

  reading-Advances : (r : Reading) → s.phase i ≡ reading r → Advances n node_size s i
  reading-Advances r at = by (read_round-Rounded s.program o.items r (o.readers i r below at))
    where
      by : Rounded s.program o.items r → Advances n node_size s i
      by (goes r' e v) = inl (_, look i r r' below at e, refl)
      by (ends a e v) =
          let (t, u) =
            rwunlock-reader s.program (omega (arith, reads-le o.held i below, ap reads at)) in
          inl (_, unlock_read i r a t below at e u, refl)
      by (overflows e h) = inr (overflow r o.items o.cells at o.stores h e)

  -- A thread that reads or writes.
  holder-Advances : (p : Phase) → s.phase i ≡ p → 0 < reads p + writes p → Advances n node_size s i
  holder-Advances outside at h = absurd (omega arith)
  holder-Advances (waiting w) at h = absurd (omega arith)
  holder-Advances (writing w) at h = writing-Advances w at
  holder-Advances (reading r) at h = reading-Advances r at

module _ {n node_size : ℕ} {xs : List Item} (s : System) (o : Standing n xs s) (f : FreshNode)
    (unused : s.program.manager.blocks f.descriptor.at ≡ none) (pos : 0 < node_size) where
  -- If somebody has the lock, somebody advances.
  held-Advances :
      (g : Phase → ℕ)
      → ((p : Phase) → g p ≤ reads p + writes p)
      → 0 < sum n (λ j. g (s.phase j))
      → SomeoneAdvances n node_size s
  held-Advances g part some_holder =
      let (j, below, h) = some_part n (λ j. g (s.phase j)) some_holder in
      let holds : 0 < reads (s.phase j) + writes (s.phase j) = omega (arith, h, part (s.phase j)) in
      (
        j,
        below,
        (λ out. absurd (omega (arith, holds, ap reads out, ap writes out))),
        holder-Advances s o f unused pos j below (s.phase j) refl holds,
      )

  waiting-Advances :
      (i : ℕ) (w : Writing) (l : RwLock)
      → i < n
      → s.phase i ≡ waiting w
      → s.program.list_lock ≡ l
      → SomeoneAdvances n node_size s
  waiting-Advances i w gone below at e = absurd (o.made e)
  waiting-Advances i w idle below at e = (
    i,
    below,
    (λ out. cc (at, out)),
    inl (_, lock_write i w (with_write_lock s.program) below at (wrlock-ok s.program e), refl),
  )
  waiting-Advances i w exclusive below at e =
      held-Advances writes (λ p. omega arith) (omega (arith, o.held.writers, ap writers_of e))
  waiting-Advances i w (shared m) below at e =
      held-Advances reads (λ p. omega arith) (omega (arith, o.held.readers, ap readers_of e))

  phase-Advances :
      (i : ℕ) (p : Phase) → i < n → s.phase i ≡ p → p ≢ outside → SomeoneAdvances n node_size s
  phase-Advances i outside below at ne = absurd (ne refl)
  phase-Advances i (waiting w) below at ne = waiting-Advances i w s.program.list_lock below at refl
  phase-Advances i (writing w) below at ne =
      (i, below, (λ out. cc (at, out)), writing-Advances s o f unused pos i below w at)
  phase-Advances i (reading r) below at ne =
      (i, below, (λ out. cc (at, out)), reading-Advances s o f unused pos i below r at)

module _ {n node_size : ℕ} {p : Program} {xs : List Item} {ys : List Cell} {s : System}
    (v : IsList p xs ys) (pos : 0 < node_size) (r : Reach n node_size p s) where
  o : Standing n xs s
  o = Reach-Standing pos v r

  -- From a well-formed list, however the steps of `n` threads that insert at the end or next to any
  -- address, delete, search, count and display interleave, the list is well formed in every state, and
  -- the calls that have returned have the effects and the answers of the same calls made one after the
  -- other, in the order in which they returned; an insertion next to an address where no node of the
  -- list stands leaves the list. The nodes that insertions have allocated and not linked stand aside.
  pub Reach-Serial : Serial xs s
  Reach-Serial = record { items = o.items; cells = o.cells; stores = o.stores; replay = o.replay }

  -- In every such state in which the C heap has a descriptor to give, a thread that has the lock of
  -- the list can make its next step, unless it is to delete from a list that has become empty since its
  -- test of `*head`, or to insert behind a node that is no more, or has counted more nodes than an `int`
  -- holds.
  pub inside-Advances :
      (f : FreshNode)
      → s.program.manager.blocks f.descriptor.at ≡ none
      → (i : ℕ) → i < n
      → 0 < reads (s.phase i) + writes (s.phase i)
      → Advances n node_size s i
  inside-Advances f unused i below inside =
      holder-Advances s o f unused pos i below (s.phase i) refl inside

  -- In every such state in which some thread is in a call, some thread that is in a call can make its
  -- next step, unless it fails in one of these three ways.
  pub Reach-SomeoneAdvances :
      (f : FreshNode)
      → s.program.manager.blocks f.descriptor.at ≡ none
      → (i : ℕ) → i < n
      → s.phase i ≢ outside
      → SomeoneAdvances n node_size s
  Reach-SomeoneAdvances f unused i below ne =
      phase-Advances s o f unused pos i (s.phase i) below refl ne
