-- ===== src/Manager/Locked.antt =====
-- The functions that take the lock: each releases it on every path, and otherwise does what its
-- body does.
use threadsafe_memory_manage.Prelude.{ℕ, ◌≡◌, sym, Option, none, List}
use threadsafe_memory_manage.Word.{Ptr}
use threadsafe_memory_manage.Run.{ok}
use threadsafe_memory_manage.Run.Returns
use threadsafe_memory_manage.Run.Returns.{Returns, returns}
use threadsafe_memory_manage.Machine.{
  MemoryBlock, Mutex, unlocked, locked, Manager, Fresh, mutex_lock, mutex_unlock,
}
use threadsafe_memory_manage.Manager.{mem_alloc, mem_free}
use threadsafe_memory_manage.Manager.Chain.{Cell}
use threadsafe_memory_manage.Manager.Valid.{limit, Owns, IsValid, Kept, allocate}
use threadsafe_memory_manage.Manager.Alloc.{Allocated, mem_alloc_no_lock-allocate}
use threadsafe_memory_manage.Manager.Free.{release, mem_free_no_lock-release}

abbrev pub with_lock : Mutex → Manager → Manager
with_lock l s = record s { lock = l }

pub lock-ok : (s : Manager) → s.lock ≡ unlocked → mutex_lock s ≡ ok tt (with_lock locked s)
unfolding mutex_lock
lock-ok s e = rw (e, mutex_lock)

pub unlock-ok : (s : Manager) → s.lock ≡ locked → mutex_unlock s ≡ ok tt (with_lock unlocked s)
unfolding mutex_unlock
unlock-ok s e = rw (e, mutex_unlock)

pub Owns-with_lock :
    {rest : Ptr → Option MemoryBlock} {s : Manager} {xs : List Cell} (l : Mutex)
    → Owns rest s xs
    → Owns rest (with_lock l s) xs
Owns-with_lock l v = record {
  chain = v.chain;
  packed = v.packed;
  owned = v.owned;
  nonnull = v.nonnull;
  small = v.small;
  live = v.live;
}

-- What the body keeps under the lock, the whole call keeps.
pub Kept-with_lock :
    (s t : Manager)
    → s.lock ≡ unlocked
    → Kept (with_lock locked s) t
    → Kept s (with_lock unlocked t)
Kept-with_lock s t e k = record {
  memory = k.memory;
  memory_size = k.memory_size;
  lock = sym e;
  pool = k.pool;
  bytes = k.bytes;
}

module _ (s : Manager) {xs : List Cell} (v : IsValid s xs) (idle : s.lock ≡ unlocked) where
  -- On a well-formed state with the lock free, `mem_alloc` returns what the abstract first-fit
  -- allocator returns and leaves its list of regions, well formed, with the lock free again and the
  -- pool and its bytes untouched; it neither faults nor blocks, and its loop ends in time.
  pub mem_alloc-allocate :
      (f : Fresh) (size : ℕ)
      → s.blocks f.at ≡ none
      → Returns
          (Allocated (λ _. none) s f.at xs (allocate f.at size s.memory (limit s) xs))
          (mem_alloc f size s)
  unfolding mem_alloc
  mem_alloc-allocate f size free = rw (lock-ok s idle) (
      Returns.bind
        (mem_alloc_no_lock-allocate (with_lock locked s) f size xs (Owns-with_lock locked v) free)
        λ p t a. rw (unlock-ok t a.kept.lock) (
          returns (record {
            result = a.result;
            owns = Owns-with_lock unlocked a.owns;
            kept = Kept-with_lock s t idle a.kept;
            members = a.members;
          })))

  -- On a well-formed state with the lock free, `mem_free` takes out the first region that starts at
  -- the pointer (none at NULL or at an unknown pointer), and leaves a well-formed state with the
  -- lock free again and the pool and its bytes untouched.
  pub mem_free-release :
      (b : Ptr) → Returns (λ _ t. IsValid t (release b xs) × Kept s t) (mem_free b s)
  unfolding mem_free
  mem_free-release b = rw (lock-ok s idle) (
      Returns.bind (mem_free_no_lock-release (with_lock locked s) b (Owns-with_lock locked v))
        λ u t (w, kept).
          rw (unlock-ok t kept.lock)
            (returns (Owns-with_lock unlocked w, Kept-with_lock s t idle kept)))
