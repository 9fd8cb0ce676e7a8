-- ===== src/Barrier/Safety.antt =====
-- What the barrier promises: nobody passes a round before all have entered it, and nobody is stuck.
use threadsafe_memory_manage.Prelude.{ℕ, suc, ◌≤◌, ◌<◌, ◌≡◌, refl, ap, subst, arith, ne→==}
use threadsafe_memory_manage.Barrier.{
  Pc, outside, arriving, sleeping, awake, leaving, Lock, absent, free, held, Barrier, Step, lock,
  count_in, reacquire, unlock, Reach, ReachOrWake, next, begin, step, wake, update, move_to, enters,
  my_barrier_init, start, arrive, leave, take,
}
use threadsafe_memory_manage.Barrier.Counting.{asleep, some_awake}
use threadsafe_memory_manage.Barrier.Invariant.{Stands, critical, Reach-Inv}

-- Where a thread stands, its calls lie around the number of rounds.
passed-le-rounds : (r : ℕ) (p : Pc) (e a : ℕ) → Stands r p e a → (a ≤ r) × (r ≤ e) × (e ≤ suc a)
passed-le-rounds r outside e a s = omega arith
passed-le-rounds r arriving e a s = omega arith
passed-le-rounds r sleeping e a s = omega arith
passed-le-rounds r awake e a s = omega arith
passed-le-rounds r leaving e a s = omega arith

module _ {n : ℕ} {b : Barrier} (pos : 0 < n) (r : Reach n b) where
  around :
      (i : ℕ)
      → i < n
      → ((b.threads i).passed ≤ b.rounds)
        × (b.rounds ≤ (b.threads i).entered)
        × ((b.threads i).entered ≤ suc (b.threads i).passed)
  around i h = passed-le-rounds b.rounds (b.threads i).pc _ _ ((Reach-Inv pos r).stands i h)

  -- Without spurious wakeups, in every state that the `num_threads` threads of a barrier reach, no
  -- thread has returned from more calls of `my_barrier_wait` than any other has entered; no thread is
  -- more than one call ahead of another, and `count` stays below `num_threads`.
  pub passed-le-entered :
      (i j : ℕ)
      → i < n
      → j < n
      → ((b.threads i).passed ≤ (b.threads j).entered)
        × ((b.threads i).entered ≤ suc (b.threads j).entered)
        × (b.count < n)
  passed-le-entered i j hi hj = omega (arith, around i hi, around j hj, (Reach-Inv pos r).few)

  -- A thread that is in the barrier and does not sleep can move when the mutex is free.
  moves_free :
      (i : ℕ) → i < n → asleep (b.threads i).pc ≡ 0 → b.mutex ≡ free → (c : Barrier) × Step b c
  moves_free i h w open_mutex = by_pc (b.threads i).pc refl
    where
      by_pc : (p : Pc) → (b.threads i).pc ≡ p → (c : Barrier) × Step b c
      by_pc outside e = (_, lock i (omega (arith, h, (Reach-Inv pos r).size)) e open_mutex)
      by_pc arriving e = (_, count_in i (omega (arith, h, (Reach-Inv pos r).size)) e)
      by_pc sleeping e = absurd (omega (arith, ap asleep e, w))
      by_pc awake e = (_, reacquire i (omega (arith, h, (Reach-Inv pos r).size)) e open_mutex)
      by_pc leaving e = (_, unlock i (omega (arith, h, (Reach-Inv pos r).size)) e)

  moves_held : (i : ℕ) → b.mutex ≡ held i → (c : Barrier) × Step b c
  moves_held i e = by_pc (b.threads i).pc refl
    where
      by_pc : (p : Pc) → (b.threads i).pc ≡ p → (c : Barrier) × Step b c
      by_pc outside at = cc (((Reach-Inv pos r).holder i e).1, ap critical at)
      by_pc arriving at =
          (_, count_in i (omega (arith, (Reach-Inv pos r).holder i e, (Reach-Inv pos r).size)) at)
      by_pc sleeping at = cc (((Reach-Inv pos r).holder i e).1, ap critical at)
      by_pc awake at = cc (((Reach-Inv pos r).holder i e).1, ap critical at)
      by_pc leaving at =
          (_, unlock i (omega (arith, (Reach-Inv pos r).holder i e, (Reach-Inv pos r).size)) at)

  -- The barrier never deadlocks: in every state that its threads reach, one of them can take a step.
  pub no_deadlock : (c : Barrier) × Step b c
  no_deadlock =
      let v = Reach-Inv pos r in
      let (i, below, w) = some_awake n b.threads (omega (arith, v.few, v.counted)) in
      by_mutex i below w b.mutex refl
    where
      by_mutex :
          (i : ℕ)
          → i < n
          → asleep (b.threads i).pc ≡ 0
          → (l : Lock) → b.mutex ≡ l
          → (c : Barrier) × Step b c
      by_mutex i below w absent e = absurd ((Reach-Inv pos r).made e)
      by_mutex i below w free e = moves_free i below w e
      by_mutex i below w (held j) e = moves_held j e

-- Thread 0 sleeps, alone of `n`.
abbrev pub first_asleep : ℕ → Barrier
first_asleep n = record (start n) {
  count = 1;
  threads =
      update (update (start n).threads 0 (move_to arriving ((start n).threads 0))) 0
        (enters (move_to arriving ((start n).threads 0)) sleeping);
}

pub arrive-first : (n : ℕ) → 1 < n → arrive 0 (take 0 arriving (start n)) ≡ first_asleep n
unfolding arrive my_barrier_init
arrive-first n many = rw (ne→== 1 n (omega arith)) refl

-- With one spurious wakeup, a barrier for two threads or more lets thread 0 return from its first
-- call before thread 1 has called at all.
pub wake-passes :
    (n : ℕ)
    → 1 < n
    → (b : Barrier) × ReachOrWake n b × ((b.threads 0).passed ≡ 1) × ((b.threads 1).entered ≡ 0)
unfolding my_barrier_init leave
wake-passes n many =
    let r1 : ReachOrWake n (take 0 arriving (start n)) =
      next begin (step (lock 0 (omega arith) refl refl)) in
    let r2 : ReachOrWake n (first_asleep n) =
      subst (ReachOrWake n) (arrive-first n many)
        (next r1 (step (count_in 0 (omega arith) refl))) in
    (
      _,
      next (next (next r2 (wake 0 refl)) (step (reacquire 0 (omega arith) refl refl)))
          (step (unlock 0 (omega arith) refl)),
      refl,
      refl,
    )
