-- ===== src/Manager/Lifetime.antt =====
-- `mem_init` and `mem_deinit`: the beginning and the end of a pool.
use threadsafe_memory_manage.Prelude.{
  ℕ, zero, suc, ◌+◌, ◌^◌, ◌<◌, ◌≡◌, ◌≢◌, refl, false, none, List, [], ◌∷◌, arith, if◌then◌else◌,
  ne→==, eq→==, length,
}
use threadsafe_memory_manage.Word.{Ptr, null}
use threadsafe_memory_manage.Run.Returns
use threadsafe_memory_manage.Run.Returns.{Returns, returns}
use threadsafe_memory_manage.Machine.{absent, unlocked, locked, Manager, write, put, mutex_destroy}
use threadsafe_memory_manage.Machine.Points.{Points, not_null, load-ok, free_block-ok}
use threadsafe_memory_manage.Manager.{mem_init, mem_deinit, free_loop, free_pool}
use threadsafe_memory_manage.Manager.Chain
use threadsafe_memory_manage.Manager.Chain.{Cell, block, has, ◌∉◌, Chain, nil, link}
use threadsafe_memory_manage.Manager.FirstFit.{Packed-length}
use threadsafe_memory_manage.Manager.Valid.{limit, IsValid}
use threadsafe_memory_manage.Manager.Locked.{with_lock, lock-ok, unlock-ok}

-- With no descriptor live, and a pool from `malloc` that is not NULL and ends below 2 ^ 64,
-- `mem_init` leaves a well-formed state with an empty list, the lock free, and that pool and size.
pub mem_init-IsValid :
    (pool : Ptr) (size : ℕ) (s : Manager)
    → pool ≢ null
    → pool + size < 2 ^ 64
    → ((a : Ptr) → s.blocks a ≡ none)
    → Returns
        (λ _ t. IsValid t [] × (t.lock ≡ unlocked) × (t.memory ≡ pool) × (t.memory_size ≡ size))
        (mem_init pool size s)
unfolding mem_init
mem_init-IsValid pool size s ne small empty = returns (
  record {
    chain = nil;
    packed = omega arith;
    owned = λ a o. empty a;
    nonnull = ne;
    small = small;
    live = rw (ne→== pool null ne);
  },
  refl,
  refl,
  refl,
)

-- The state behind the loop of `mem_deinit`.
record Emptied (s : Manager) (xs : List Cell) (t : Manager) : Type 0 where
  head : t.memory_head ≡ null
  memory : t.memory ≡ s.memory
  lock : t.lock ≡ s.lock
  pool : t.pool ≡ s.pool
  gone : (a : Ptr) → t.blocks a ≡ (if has a xs then none else s.blocks a)

free_loop-Emptied :
    (k : ℕ) (s : Manager) {p : Ptr} (xs : List Cell)
    → s.memory_head ≡ p
    → Chain s.blocks null p xs
    → length xs < k
    → Returns (λ _ t. Emptied s xs t) (free_loop k s)
unfolding free_loop write
free_loop-Emptied zero s xs e chain fuel = absurd (omega arith)
free_loop-Emptied (suc k) s [] e nil fuel =
    rw (eq→== s.memory_head null e)
      (returns (record { head = e; memory = refl; lock = refl; pool = refl; gone = λ a. refl }))
free_loop-Emptied (suc k) s {p} (c ∷ xs) e (link {q} e' pt out rest) fuel =
    let head : Points s.blocks s.memory_head (block c q) = rw e pt in
    let s1 : Manager = record s { memory_head = q } in
    rw (not_null head, load-ok s head, free_block-ok s1 head)
      (Returns.mono
        (free_loop-Emptied k (put s.memory_head none s1) xs refl
          (Chain.frame-write s.memory_head none rest (rw e out)) (omega arith))
        λ u t d. record {
          head = d.head;
          memory = d.memory;
          lock = d.lock;
          pool = d.pool;
          gone = λ a. ground (arith, d.gone a);
        })

pub record Deinited (t : Manager) : Type 0 where
  pub head : t.memory_head ≡ null
  pub size : t.memory_size ≡ 0
  pub lock : t.lock ≡ absent
  pub pool : t.pool ≡ false
  pub blocks : (a : Ptr) → t.blocks a ≡ none

-- On a well-formed state with the lock free, `mem_deinit` returns without a fault; then the pool and
-- every descriptor are freed, the list is empty, the size is 0 and the mutex destroyed, and `memory`
-- still holds the address of the freed pool.
pub mem_deinit-Deinited :
    (s : Manager) (xs : List Cell)
    → IsValid s xs
    → s.lock ≡ unlocked
    → Returns (λ _ t. Deinited t × (t.memory ≡ s.memory)) (mem_deinit s)
unfolding mem_deinit free_pool mutex_destroy
mem_deinit-Deinited s xs v idle =
    let s1 : Manager = record (with_lock locked s) { pool = false } in
    rw (lock-ok s idle, ne→== s.memory null v.nonnull, v.live)
      (Returns.bind
        (free_loop-Emptied (suc s.memory_size) s1 xs refl v.chain
          (omega (arith, Packed-length s.memory (limit s) xs v.packed)))
        λ u t d. rw (unlock-ok (record t { memory_size = 0 }) d.lock) (
          returns (
            record {
              head = d.head;
              size = refl;
              lock = refl;
              pool = d.pool;
              blocks = λ a. ground (arith, d.gone a, v.owned a);
            },
            d.memory,
          )))
