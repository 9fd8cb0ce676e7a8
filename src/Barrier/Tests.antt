-- ===== src/Barrier/Tests.antt =====
-- The theorems on the barrier at two threads, of which the first sleeps.
use threadsafe_memory_manage.Prelude.{◌+◌, ◌*◌, ◌≤◌, ◌<◌, ◌≡◌, suc, refl, subst, arith}
use threadsafe_memory_manage.Barrier.{
  Barrier, Step, lock, count_in, Reach, ReachOrWake, begin, next, my_barrier_init, take, arriving,
  start,
}
use threadsafe_memory_manage.Barrier.Progress.{steps, steps-le_rounds}
use threadsafe_memory_manage.Barrier.Safety.{
  first_asleep, arrive-first, passed-le-entered, no_deadlock, wake-passes,
}

first_asleep-Reach : Reach 2 (first_asleep 2)
unfolding my_barrier_init
first_asleep-Reach =
    subst (Reach 2) (arrive-first 2 (omega arith))
      (next (next begin (lock 0 (omega arith) refl refl)) (count_in 0 (omega arith) refl))

passed-le-entered_example : (0 ≤ 0) × (1 ≤ suc 0) × (1 < 2)
unfolding my_barrier_init
passed-le-entered_example =
    passed-le-entered (omega arith) first_asleep-Reach 0 1 (omega arith) (omega arith)

no_deadlock_example : (c : Barrier) × Step (first_asleep 2) c
no_deadlock_example = no_deadlock (omega arith) first_asleep-Reach

wake-passes_example :
    (b : Barrier) × ReachOrWake 2 b × ((b.threads 0).passed ≡ 1) × ((b.threads 1).entered ≡ 0)
wake-passes_example = wake-passes 2 (omega arith)

one_locked : Reach 2 (take 0 arriving (start 2))
unfolding my_barrier_init
one_locked = next begin (lock 0 (omega arith) refl refl)

steps-le_rounds_example : steps one_locked ≤ 2 * (4 * 0 + 2)
unfolding my_barrier_init
steps-le_rounds_example = steps-le_rounds (omega arith) one_locked
