-- ===== src/Barrier/Invariant.antt =====
-- What holds of the barrier in every state that its threads can reach without a spurious wakeup.
use threadsafe_memory_manage.Prelude.{
  ℕ, suc, ◌<◌, ◌≡◌, ◌≢◌, refl, subst, sym, ap, ◌∙◌, Bool, true, false, arith, ◌==◌, Bool-cases, inl,
  inr, ==→eq, ==→ne, ne→==, eq→==,
}
use threadsafe_memory_manage.Barrier.{
  Pc, outside, arriving, sleeping, awake, leaving, Thread, absent, free, held, Barrier, update,
  move_to, woken, enters, my_barrier_init, arrive, leave, take, Step, lock, count_in, reacquire,
  unlock, start, Reach, begin, next,
}
use threadsafe_memory_manage.Barrier.Counting.{
  asleep, asleep-cases, asleep-woken, woken-sleeping, how_many, how_many-update, how_many-lt,
  how_many-eq-zero,
}

-- The calls of a thread that stands somewhere, once `r` rounds are complete.
abbrev pub Stands : ℕ → Pc → ℕ → ℕ → Type 0
Stands r outside entered passed = (entered ≡ r) × (passed ≡ r)
Stands r arriving entered passed = (entered ≡ r) × (passed ≡ r)
Stands r sleeping entered passed = (entered ≡ suc r) × (passed ≡ r)
Stands r awake entered passed = (entered ≡ r) × (suc passed ≡ r)
Stands r leaving entered passed = (entered ≡ r) × (suc passed ≡ r)

abbrev pub Fits : ℕ → Thread → Type 0
Fits r t = Stands r t.pc t.entered t.passed

Fits-update :
    (r : ℕ) (f : ℕ → Thread) (i : ℕ) (t : Thread) (j : ℕ)
    → Fits r t
    → (j ≢ i → Fits r (f j))
    → Fits r (update f i t j)
Fits-update r f i t j here there = elim (Bool-cases (j == i)) [
  | inl same ↦ rw same here
  | inr other ↦ rw other (there (==→ne j i other))
]

abbrev pub critical : Pc → Bool
critical arriving = true
critical leaving = true
critical _ = false

pub record Inv (n : ℕ) (b : Barrier) : Type 0 where
  pub size : b.num_threads ≡ n
  pub counted : b.count ≡ how_many n b.threads
  pub few : b.count < n
  pub made : b.mutex ≢ absent
  pub stands : (i : ℕ) → i < n → Fits b.rounds (b.threads i)
  pub owner : (i : ℕ) → i < n → critical (b.threads i).pc ≡ true → b.mutex ≡ held i
  pub holder : (i : ℕ) → b.mutex ≡ held i → (i < n) × (critical (b.threads i).pc ≡ true)

start-Inv : (n : ℕ) → 0 < n → Inv n (start n)
unfolding my_barrier_init
start-Inv n pos = record {
  size = refl;
  counted = sym (how_many-eq-zero n (start n).threads (λ i. refl));
  few = pos;
  made = λ e. cc;
  stands = λ i h. (refl, refl);
  owner = λ i h e. cc;
  holder = λ i e. cc;
}

module _ {n : ℕ} {b : Barrier} (v : Inv n b) (i : ℕ) (below : i < n) where
  -- A thread takes the free mutex.
  take-Inv :
      (p q : Pc)
      → (b.threads i).pc ≡ p
      → b.mutex ≡ free
      → asleep p ≡ asleep q
      → critical q ≡ true
      → ((e a : ℕ) → Stands b.rounds p e a → Stands b.rounds q e a)
      → Inv n (take i q b)
  take-Inv p q at open_mutex same crit stays = record {
    size = v.size;
    counted = omega (
      arith,
      v.counted,
      how_many-update n b.threads i (move_to q (b.threads i)) below,
      ap asleep at,
    );
    few = v.few;
    made = λ e. cc;
    stands = λ j h.
        Fits-update b.rounds b.threads i (move_to q (b.threads i)) j
          (stays (b.threads i).entered (b.threads i).passed (
            subst (λ p. Stands b.rounds p (b.threads i).entered (b.threads i).passed) at
              (v.stands i below)))
          (λ other. v.stands j h);
    owner = λ j h e. ground (arith, v.owner j h);
    holder = λ j e. ground (arith);
  }

  leave-Inv : (b.threads i).pc ≡ leaving → Inv n (leave i b)
  unfolding leave
  leave-Inv at =
      let t : Thread = record {
        pc = outside;
        entered = (b.threads i).entered;
        passed = suc (b.threads i).passed;
      } in
      let own = v.owner i below (rw at refl) in
      let was =
        subst (λ p. Stands b.rounds p (b.threads i).entered (b.threads i).passed) at
          (v.stands i below) in
      record {
        size = v.size;
        counted = omega (arith, v.counted, how_many-update n b.threads i t below, ap asleep at);
        few = v.few;
        made = λ e. cc;
        stands = λ j h. Fits-update b.rounds b.threads i t j was (λ other. v.stands j h);
        owner = λ j h e. ground (arith, v.owner j h, own);
        holder = λ j e. cc;
      }

  -- Not the last to arrive.
  sleep-Inv :
      (b.threads i).pc ≡ arriving
      → suc b.count ≢ b.num_threads
      → Inv n (record b {
        mutex = free;
        count = suc b.count;
        threads = update b.threads i (enters (b.threads i) sleeping);
      })
  sleep-Inv at more =
      let t : Thread = enters (b.threads i) sleeping in
      let own = v.owner i below (rw at refl) in
      let was =
        subst (λ p. Stands b.rounds p (b.threads i).entered (b.threads i).passed) at
          (v.stands i below) in
      record {
        size = v.size;
        counted = omega (arith, v.counted, how_many-update n b.threads i t below, ap asleep at);
        few = omega (arith, v.few, v.size, more);
        made = λ e. cc;
        stands = λ j h.
            Fits-update b.rounds b.threads i t j (ap suc was.0, was.1) (λ other. v.stands j h);
        owner = λ j h e. ground (arith, v.owner j h, own);
        holder = λ j e. cc;
      }

  -- The last to arrive finds all others asleep.
  others_asleep :
      (b.threads i).pc ≡ arriving
      → suc b.count ≡ b.num_threads
      → (j : ℕ) → j < n
      → j ≢ i
      → (b.threads j).pc ≡ sleeping
  others_asleep at last j h ne = elim (asleep-cases (b.threads j).pc) [
    | inl yes_asleep ↦ yes_asleep
    | inr not_asleep ↦
        let g : ℕ → Thread = update b.threads i (move_to sleeping (b.threads i)) in
        absurd (
          omega (
            arith,
            v.counted,
            v.size,
            how_many-update n b.threads i (move_to sleeping (b.threads i)) below,
            ap asleep at,
            how_many-lt n g j h (rw (ne→== j i ne) not_asleep),
          ))
  ]

  wake_all-Inv :
      (b.threads i).pc ≡ arriving
      → suc b.count ≡ b.num_threads
      → Inv n (record b {
        count = 0;
        threads = update (λ j. woken (b.threads j)) i (enters (b.threads i) leaving);
        rounds = suc b.rounds;
      })
  wake_all-Inv at last =
      let t : Thread = enters (b.threads i) leaving in
      let woken_all : ℕ → Thread = λ j. woken (b.threads j) in
      let own = v.owner i below (rw at refl) in
      let was =
        subst (λ p. Stands b.rounds p (b.threads i).entered (b.threads i).passed) at
          (v.stands i below) in
      record {
        size = v.size;
        counted = sym (
            how_many-eq-zero n (update woken_all i t) λ j. elim (Bool-cases (j == i)) [
              | inl same ↦ rw same refl
              | inr other ↦ rw other (asleep-woken (b.threads j))
            ]);
        few = omega (arith, below);
        made = v.made;
        stands = λ j h.
            Fits-update (suc b.rounds) woken_all i t j (ap suc was.0, ap suc was.1)
              λ other.
                let slept = others_asleep at last j h other in
                let wasj =
                  subst (λ p. Stands b.rounds p (b.threads j).entered (b.threads j).passed) slept
                    (v.stands j h) in
                rw (woken-sleeping (b.threads j) slept) (wasj.0, ap suc wasj.1);
        owner = λ j h e. elim (Bool-cases (j == i)) [
          | inl same ↦ own ∙ ap held (sym (==→eq j i same))
          | inr other ↦
              let slept = others_asleep at last j h (==→ne j i other) in
              cc (rw other at e, ap (λ t. critical t.pc) (woken-sleeping (b.threads j) slept))
        ];
        holder = λ j e.
            let same : j ≡ i = cc (own, e) in
            (omega (arith, same, below), rw (eq→== j i same) refl);
      }

  arrive-Inv : (b.threads i).pc ≡ arriving → Inv n (arrive i b)
  unfolding arrive
  arrive-Inv at = elim (Bool-cases (suc b.count == b.num_threads)) [
    | inl last ↦ rw last (wake_all-Inv at (==→eq _ _ last))
    | inr more ↦ rw more (sleep-Inv at (==→ne _ _ more))
  ]

Step-Inv : {n : ℕ} {b c : Barrier} → Inv n b → Step b c → Inv n c
Step-Inv v (lock i below at open_mutex) =
    take-Inv v i (omega (arith, below, v.size)) outside arriving at open_mutex refl refl
      (λ e a s. s)
Step-Inv v (count_in i below at) = arrive-Inv v i (omega (arith, below, v.size)) at
Step-Inv v (reacquire i below at open_mutex) =
    take-Inv v i (omega (arith, below, v.size)) awake leaving at open_mutex refl refl (λ e a s. s)
Step-Inv v (unlock i below at) = leave-Inv v i (omega (arith, below, v.size)) at

pub Reach-Inv : {n : ℕ} {b : Barrier} → 0 < n → Reach n b → Inv n b
Reach-Inv {n} pos begin = start-Inv n pos
Reach-Inv pos (next r s) = Step-Inv (Reach-Inv pos r) s
