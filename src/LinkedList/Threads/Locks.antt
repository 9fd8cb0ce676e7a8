-- ===== src/LinkedList/Threads/Locks.antt =====
-- The read-write lock counts the threads that have it.
use threadsafe_memory_manage.Prelude.{
  ℕ, zero, suc, ◌+◌, ◌≤◌, ◌<◌, ◌≡◌, ◌≢◌, refl, arith, ne→==, eq→==,
}
use threadsafe_memory_manage.Run.{ok}
use threadsafe_memory_manage.NodeStore.{
  RwLock, gone, idle, exclusive, shared, Program, rdlock, wrlock, rwunlock,
}
use threadsafe_memory_manage.LinkedList.Grow.{with_write_lock, wrlock-ok}
use threadsafe_memory_manage.LinkedList.Threads.{Phase, outside, waiting, writing, reading, update}
use threadsafe_memory_manage.Sums.{sum, sum-change, sum-zero, le-sum}

abbrev pub readers_of : RwLock → ℕ
readers_of gone = 0
readers_of idle = 0
readers_of exclusive = 0
readers_of (shared n) = suc n

abbrev pub writers_of : RwLock → ℕ
writers_of gone = 0
writers_of idle = 0
writers_of exclusive = 1
writers_of (shared n) = 0

abbrev pub reads : Phase → ℕ
reads outside = 0
reads (waiting w) = 0
reads (writing w) = 0
reads (reading r) = 1

abbrev pub writes : Phase → ℕ
writes outside = 0
writes (waiting w) = 0
writes (writing w) = 1
writes (reading r) = 0

-- The lock is held by those of the first `n` threads that read or write.
pub record Held (n : ℕ) (l : RwLock) (f : ℕ → Phase) : Type 0 where
  pub readers : sum n (λ j. reads (f j)) ≡ readers_of l
  pub writers : sum n (λ j. writes (f j)) ≡ writers_of l

count-update :
    (g : Phase → ℕ) (n : ℕ) (f : ℕ → Phase) (i : ℕ) (p : Phase)
    → i < n
    → sum n (λ j. g (update f i p j)) + g (f i) ≡ sum n (λ j. g (f j)) + g p
count-update g n f i p below = omega (
  arith,
  sum-change n (λ j. g (f j)) (λ j. g (update f i p j)) i below (λ j ne. rw (ne→== j i ne) refl),
  at_i,
)
  where
    at_i : g (update f i p i) ≡ g p
    at_i = rw (eq→== i i refl) refl

pub start-Held : (n : ℕ) → Held n idle (λ _. outside)
start-Held n = record {
  readers = sum-zero n (λ _. 0) (λ i. refl);
  writers = sum-zero n (λ _. 0) (λ i. refl);
}

module _ {n : ℕ} {l : RwLock} {f : ℕ → Phase} (h : Held n l f) (i : ℕ) (below : i < n) where
  -- A thread moves, and the lock counts it.
  pub move-Held :
      (k : RwLock) (p : Phase)
      → readers_of k + reads (f i) ≡ readers_of l + reads p
      → writers_of k + writes (f i) ≡ writers_of l + writes p
      → Held n k (update f i p)
  move-Held k p r w = record {
    readers = omega (arith, count-update reads n f i p below, h.readers, r);
    writers = omega (arith, count-update writes n f i p below, h.writers, w);
  }

  pub reads-le : reads (f i) ≤ readers_of l
  reads-le = omega (arith, le-sum n (λ j. reads (f j)) i below, h.readers)

  pub writes-le : writes (f i) ≤ writers_of l
  writes-le = omega (arith, le-sum n (λ j. writes (f j)) i below, h.writers)

-- What a lock operation that returns has done.
module _ (s : Program) where
  pub wrlock-ok_idle :
      {t : Program} → wrlock s ≡ ok tt t → (s.list_lock ≡ idle) × (t ≡ with_write_lock s)
  unfolding wrlock
  wrlock-ok_idle {t} e = by s.list_lock refl
    where
      by : (l : RwLock) → s.list_lock ≡ l → (s.list_lock ≡ idle) × (t ≡ with_write_lock s)
      by gone at = absurd (ground (arith, at, e))
      by idle at = (at, cc (wrlock-ok s at, e))
      by exclusive at = absurd (ground (arith, at, e))
      by (shared m) at = absurd (ground (arith, at, e))

  pub rdlock-ok_lock :
      {t : Program}
      → rdlock s ≡ ok tt t
      → (l : RwLock) × (t ≡ record s { list_lock = l })
        × (readers_of l ≡ suc (readers_of s.list_lock))
        × (writers_of l ≡ writers_of s.list_lock)
  unfolding rdlock
  rdlock-ok_lock {t} e = by s.list_lock refl
    where
      by :
          (k : RwLock)
          → s.list_lock ≡ k
          → (l : RwLock) × (t ≡ record s { list_lock = l })
            × (readers_of l ≡ suc (readers_of s.list_lock))
            × (writers_of l ≡ writers_of s.list_lock)
      by gone at = absurd (ground (arith, at, e))
      by idle at = (shared zero, ground (arith, at, e), rw at refl, rw at refl)
      by exclusive at = absurd (ground (arith, at, e))
      by (shared m) at = (shared (suc m), ground (arith, at, e), rw at refl, rw at refl)

  -- The unlock of a reader.
  pub rwunlock-ok_lock :
      {t : Program}
      → rwunlock s ≡ ok tt t
      → 0 < readers_of s.list_lock
      → (l : RwLock) × (l ≢ gone)
        × (t ≡ record s { list_lock = l })
        × (suc (readers_of l) ≡ readers_of s.list_lock)
        × (writers_of l ≡ writers_of s.list_lock)
  unfolding rwunlock
  rwunlock-ok_lock {t} e some_reader = by s.list_lock refl
    where
      by :
          (k : RwLock)
          → s.list_lock ≡ k
          → (l : RwLock) × (l ≢ gone)
            × (t ≡ record s { list_lock = l })
            × (suc (readers_of l) ≡ readers_of s.list_lock)
            × (writers_of l ≡ writers_of s.list_lock)
      by gone at = absurd (ground (arith, at, some_reader))
      by idle at = absurd (ground (arith, at, some_reader))
      by exclusive at = absurd (ground (arith, at, some_reader))
      by (shared zero) at = (idle, (λ x. cc), ground (arith, at, e), rw at refl, rw at refl)
      by (shared (suc m)) at = (shared m, (λ x. cc), ground (arith, at, e), rw at refl, rw at refl)

  -- Who holds the lock can give it back.
  pub rwunlock-reader : 0 < readers_of s.list_lock → (t : Program) × (rwunlock s ≡ ok tt t)
  unfolding rwunlock
  rwunlock-reader some_reader = by s.list_lock refl
    where
      by : (k : RwLock) → s.list_lock ≡ k → (t : Program) × (rwunlock s ≡ ok tt t)
      by gone at = absurd (ground (arith, at, some_reader))
      by idle at = absurd (ground (arith, at, some_reader))
      by exclusive at = absurd (ground (arith, at, some_reader))
      by (shared zero) at = (record s { list_lock = idle }, rw (at, rwunlock))
      by (shared (suc m)) at = (record s { list_lock = shared m }, rw (at, rwunlock))

pub exclusive_of_writer : (l : RwLock) → 0 < writers_of l → l ≡ exclusive
exclusive_of_writer gone h = absurd (omega arith)
exclusive_of_writer idle h = absurd (omega arith)
exclusive_of_writer exclusive h = refl
exclusive_of_writer (shared n) h = absurd (omega arith)
