-- ===== src/Barrier.antt =====
-- The barrier of common_defs.h, used by threads 0 to `num_threads - 1` in any order of steps: a
-- step of `my_barrier_wait` is what a thread does while it holds the mutex, or without it.
pub mod Counting
pub mod Invariant
pub mod Safety
pub mod Progress
mod Tests
use threadsafe_memory_manage.Prelude.{ℕ, suc, ◌<◌, ◌≡◌, Bool, true, false, ◌==◌, if◌then◌else◌}

-- Where a thread stands in `my_barrier_wait`.
pub data Pc : Type 0 where
  outside : Pc
  arriving : Pc  -- has the mutex, before `count++`
  sleeping : Pc  -- in `pthread_cond_wait`
  awake : Pc  -- in `pthread_cond_wait`, about to take the mutex again
  leaving : Pc  -- has the mutex, before the unlock

-- The mutex of a barrier, with the thread that has it.
pub data Lock : Type 0 where
  absent : Lock
  free : Lock
  held : ℕ → Lock

-- A thread, with the calls in which it has counted itself in, and those from which it has returned.
pub record Thread : Type 0 where
  pub pc : Pc
  pub entered : ℕ
  pub passed : ℕ

-- `my_barrier_t` (of its condition variable, whether it exists), with the threads, and how often the
-- last of them has arrived.
pub record Barrier : Type 0 where
  pub mutex : Lock
  pub cond : Bool
  pub count : ℕ
  pub num_threads : ℕ
  pub threads : ℕ → Thread
  pub rounds : ℕ

abbrev pub update : (ℕ → Thread) → ℕ → Thread → ℕ → Thread
update threads i t j = if j == i then t else threads j

abbrev pub move_to : Pc → Thread → Thread
move_to pc t = record t { pc = pc }

-- `pthread_cond_broadcast`
abbrev pub woken : Thread → Thread
woken t = elim t.pc [ sleeping ↦ move_to awake t | _ ↦ t ]

abbrev pub enters : Thread → Pc → Thread
enters t pc = record { pc = pc; entered = suc t.entered; passed = t.passed }

-- `my_barrier_init`; what `pthread_mutex_init` and `pthread_cond_init` return is an argument
unfoldable pub my_barrier_init : ℕ → ℕ → ℕ → Barrier → ℕ × Barrier
my_barrier_init mutex_result cond_result num_threads b =
    let c : Barrier = record b { count = 0; num_threads = num_threads } in
    if mutex_result == 0
    then (if cond_result == 0
        then (0, record c { mutex = free; cond = true })
        else (cond_result, record c { mutex = free }))
    else (mutex_result, c)

unfoldable pub my_barrier_destroy : Barrier → ℕ × Barrier
my_barrier_destroy b = (0, record b { mutex = absent; cond = false })

-- `count++`, and the branch on it: the last thread resets the count and wakes the others, any other
-- gives the mutex back and sleeps.
unfoldable pub arrive : ℕ → Barrier → Barrier
arrive i b =
    if suc b.count == b.num_threads
    then record b {
      count = 0;
      threads = update (λ j. woken (b.threads j)) i (enters (b.threads i) leaving);
      rounds = suc b.rounds;
    }
    else record b {
      mutex = free;
      count = suc b.count;
      threads = update b.threads i (enters (b.threads i) sleeping);
    }

-- The unlock, and the return.
unfoldable pub leave : ℕ → Barrier → Barrier
leave i b =
    let t = b.threads i in
    record b {
      mutex = free;
      threads =
          update b.threads i (record { pc = outside; entered = t.entered; passed = suc t.passed });
    }

-- The mutex is free, and the thread takes it.
abbrev pub take : ℕ → Pc → Barrier → Barrier
take i pc b = record b { mutex = held i; threads = update b.threads i (move_to pc (b.threads i)) }

-- One step of one thread of `my_barrier_wait`.
pub data Step (b : Barrier) : Barrier → Type 0 where
  lock :
      (i : ℕ)
      → i < b.num_threads
      → (b.threads i).pc ≡ outside
      → b.mutex ≡ free
      → Step b (take i arriving b)
  count_in : (i : ℕ) → i < b.num_threads → (b.threads i).pc ≡ arriving → Step b (arrive i b)
  reacquire :
      (i : ℕ)
      → i < b.num_threads
      → (b.threads i).pc ≡ awake
      → b.mutex ≡ free
      → Step b (take i leaving b)
  unlock : (i : ℕ) → i < b.num_threads → (b.threads i).pc ≡ leaving → Step b (leave i b)

-- The same, with the spurious wakeups that POSIX allows.
pub data StepOrWake (b : Barrier) : Barrier → Type 0 where
  step : {c : Barrier} → Step b c → StepOrWake b c
  wake :
      (i : ℕ)
      → (b.threads i).pc ≡ sleeping
      → StepOrWake b (record b { threads = update b.threads i (move_to awake (b.threads i)) })

-- A barrier for `n` threads, all outside, that `my_barrier_init` has made.
abbrev unused : Barrier
unused = record {
  mutex = absent;
  cond = false;
  count = 0;
  num_threads = 0;
  threads = λ _. record { pc = outside; entered = 0; passed = 0 };
  rounds = 0;
}

abbrev pub start : ℕ → Barrier
start n = (my_barrier_init 0 0 n unused).1

pub data Reach (n : ℕ) : Barrier → Type 0 where
  begin : Reach n (start n)
  next : {b c : Barrier} → Reach n b → Step b c → Reach n c

pub data ReachOrWake (n : ℕ) : Barrier → Type 0 where
  begin : ReachOrWake n (start n)
  next : {b c : Barrier} → ReachOrWake n b → StepOrWake b c → ReachOrWake n c
