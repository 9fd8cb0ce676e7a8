-- ===== src/Barrier/Progress.antt =====
-- How many steps the threads of the barrier take for a number of rounds.
use threadsafe_memory_manage.Prelude.{
  ℕ, suc, ◌+◌, ◌*◌, ◌≤◌, ◌<◌, ◌≡◌, refl, ap, subst, arith, ◌==◌, Bool-cases, inl, inr, eq→==, ne→==,
}
use threadsafe_memory_manage.Barrier.{
  Pc, outside, arriving, sleeping, awake, leaving, Thread, Barrier, update, move_to, woken, enters,
  arrive, leave, Step, lock, count_in, reacquire, unlock, Reach, begin, next,
}
use threadsafe_memory_manage.Sums.{sum, sum-change, sum-same, sum-le}
use threadsafe_memory_manage.Barrier.Invariant.{Stands, Reach-Inv}

-- The steps that lead a thread from outside to where it stands in a call.
abbrev pub done_at : Pc → ℕ
done_at outside = 0
done_at arriving = 1
done_at sleeping = 2
done_at awake = 2
done_at leaving = 3

-- The steps of a thread: a call takes four, or three and a half turn if it is the last to arrive.
abbrev pub cost : Thread → ℕ
cost t = 4 * t.passed + done_at t.pc

abbrev total : ℕ → (ℕ → Thread) → ℕ
total n f = sum n (λ i. cost (f i))

total-update :
    (n : ℕ) (f : ℕ → Thread) (i : ℕ) (t : Thread)
    → i < n
    → total n (update f i t) + cost (f i) ≡ total n f + cost t
total-update n f i t below = omega (
  arith,
  sum-change n (λ j. cost (f j)) (λ j. cost (update f i t j)) i below
      (λ j ne. rw (ne→== j i ne) refl),
  at_i,
)
  where
    at_i : cost (update f i t i) ≡ cost t
    at_i = rw (eq→== i i refl) refl

cost-woken : (t : Thread) → cost (woken t) ≡ cost t
cost-woken t = by_pc t.pc refl
  where
    by_pc : (p : Pc) → t.pc ≡ p → cost (woken t) ≡ cost t
    by_pc outside e = rw (e, woken) (rw e refl)
    by_pc arriving e = rw (e, woken) (rw e refl)
    by_pc sleeping e = rw (e, woken) refl
    by_pc awake e = rw (e, woken) (rw e refl)
    by_pc leaving e = rw (e, woken) (rw e refl)

total-woken : (n : ℕ) (f : ℕ → Thread) → total n (λ i. woken (f i)) ≡ total n f
total-woken n f =
    sum-same n (λ i. cost (woken (f i))) (λ i. cost (f i)) (λ i below. cost-woken (f i))

arrive-total :
    (b : Barrier) (i : ℕ)
    → i < b.num_threads
    → (b.threads i).pc ≡ arriving
    → total b.num_threads b.threads < total b.num_threads (arrive i b).threads
unfolding arrive
arrive-total b i below at = elim (Bool-cases (suc b.count == b.num_threads)) [
  | inl last ↦
      let t : Thread = enters (b.threads i) leaving in
      rw last (
        omega (
          arith,
          total-update b.num_threads (λ j. woken (b.threads j)) i t below,
          total-woken b.num_threads b.threads,
          cost-woken (b.threads i),
          ap done_at at,
        ))
  | inr more ↦
      let t : Thread = enters (b.threads i) sleeping in
      rw more (omega (arith, total-update b.num_threads b.threads i t below, ap done_at at))
]

leave-total :
    (b : Barrier) (i : ℕ)
    → i < b.num_threads
    → (b.threads i).pc ≡ leaving
    → total b.num_threads b.threads < total b.num_threads (leave i b).threads
unfolding leave
leave-total b i below at =
    let t : Thread = record {
      pc = outside;
      entered = (b.threads i).entered;
      passed = suc (b.threads i).passed;
    } in
    omega (arith, total-update b.num_threads b.threads i t below, ap done_at at)

-- Every step costs.
Step-total :
    {b c : Barrier} → Step b c → total b.num_threads b.threads < total b.num_threads c.threads
Step-total {b} (lock i below at open_mutex) = omega (
  arith,
  total-update b.num_threads b.threads i (move_to arriving (b.threads i)) below,
  ap done_at at,
)
Step-total {b} (count_in i below at) = arrive-total b i below at
Step-total {b} (reacquire i below at open_mutex) = omega (
  arith,
  total-update b.num_threads b.threads i (move_to leaving (b.threads i)) below,
  ap done_at at,
)
Step-total {b} (unlock i below at) = leave-total b i below at

unfoldable pub steps : {n : ℕ} {b : Barrier} → Reach n b → ℕ
steps begin = 0
steps (next r s) = suc (steps r)

Step-num_threads : {b c : Barrier} → Step b c → c.num_threads ≡ b.num_threads
unfolding arrive leave
Step-num_threads (lock i below at open_mutex) = refl
Step-num_threads {b} (count_in i below at) = ground arith
Step-num_threads (reacquire i below at open_mutex) = refl
Step-num_threads (unlock i below at) = refl

-- A run takes no more steps than its threads have behind them.
steps-le_total : {n : ℕ} {b : Barrier} (pos : 0 < n) (r : Reach n b) → steps r ≤ total n b.threads
unfolding steps
steps-le_total {n} pos begin = omega arith
steps-le_total {n} pos (next {b} {c} r s) = omega (
  arith,
  steps-le_total pos r,
  subst (λ k. total k b.threads < total k c.threads) (Reach-Inv pos r).size (Step-total s),
)

cost-le_rounds : (r : ℕ) (p : Pc) (e a : ℕ) → Stands r p e a → 4 * a + done_at p ≤ 4 * r + 2
cost-le_rounds r outside e a s = omega arith
cost-le_rounds r arriving e a s = omega arith
cost-le_rounds r sleeping e a s = omega arith
cost-le_rounds r awake e a s = omega arith
cost-le_rounds r leaving e a s = omega arith

total-le_rounds :
    (n r : ℕ) (f : ℕ → Thread)
    → ((i : ℕ) → i < n → Stands r (f i).pc (f i).entered (f i).passed)
    → total n f ≤ n * (4 * r + 2)
total-le_rounds n r f h =
    sum-le n (λ i. cost (f i)) (4 * r + 2)
      (λ i below. cost-le_rounds r (f i).pc (f i).entered (f i).passed (h i below))

-- Without spurious wakeups and however the `n` threads of a barrier are scheduled, a run in which
-- `k` rounds have been completed takes at most `n * (4 * k + 2)` steps: as long as threads make
-- steps, rounds are completed.
pub steps-le_rounds :
    {n : ℕ} {b : Barrier} → 0 < n → (r : Reach n b) → steps r ≤ n * (4 * b.rounds + 2)
steps-le_rounds {n} {b} pos r =
    omega
      (arith, steps-le_total pos r, total-le_rounds n b.rounds b.threads (Reach-Inv pos r).stands)
