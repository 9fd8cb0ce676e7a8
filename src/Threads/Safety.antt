-- ===== src/Threads/Safety.antt =====
-- What memory_manager.c promises to threads that call it at once.
use threadsafe_memory_manage.Prelude.{
  ℕ, ◌≡◌, ◌≢◌, refl, sym, ap, subst, ◌∙◌, true, false, Bool-cases, inl, inr, some, none, List,
  arith, ◌==◌, ==→eq, ==→ne,
}
use threadsafe_memory_manage.Run.{Run, ok}
use threadsafe_memory_manage.Run.Returns
use threadsafe_memory_manage.Run.Returns.{Returns, returns}
use threadsafe_memory_manage.Word.{Ptr}
use threadsafe_memory_manage.Machine.{Manager, unlocked, locked, mutex_lock}
use threadsafe_memory_manage.Manager.Chain.{Cell}
use threadsafe_memory_manage.Manager.Valid.{limit, IsValid}
use threadsafe_memory_manage.Manager.Locked.{with_lock, lock-ok, Owns-with_lock}
use threadsafe_memory_manage.Threads.{
  Call, alloc, release, resize, System, IsNew, needs_lock, locked_part, Step, Reach, enter, leave,
  pass,
}
use threadsafe_memory_manage.Threads.Sequential.{
  abstract, Called, overlapping, call-Called, call-locked_part, IsNew-with_lock,
}
use threadsafe_memory_manage.Threads.InOrder.{
  Holding, nobody, somebody, InOrder, Reach-InOrder, Replays,
}

-- The globals stand for regions that the abstract allocator reaches through the calls that have
-- returned, in the order in which they have.
pub record Linear (m : Manager) (xs : List Cell) (s : System) : Type 0 where
  pub regions : List Cell
  pub valid : IsValid s.manager regions
  pub replay : Replays m.memory (limit m) xs s.history regions

-- The thread `i` can take the mutex in the next step.
abbrev pub Enters : ℕ → Call → System → Type 0
Enters i c s = (t : System) × Step s t × (t.inside i ≡ some c)

-- The thread `i` can take the mutex, or another thread has it, can leave, and however it leaves,
-- the thread `i` can take the mutex then.
pub data Admits (i : ℕ) (c : Call) (s : System) : Type 0 where
  now : Enters i c s → Admits i c s
  later :
      {t : System} (k : ℕ) (d : Call)
      → s.inside k ≡ some d
      → Step s t
      → t.inside k ≡ none
      → ((u : System) → Step s u → u.inside k ≡ none → Enters i c u)
      → Admits i c s

-- At the globals `m`, the locked part of a call returns what the abstract allocator gives, unless it
-- has to copy between overlapping places.
Finishes : Call → List Cell → Manager → Type 0
Finishes c ys m =
    IsValid m ys
    → IsNew c m
    → overlapping m ys c ≡ false
    → Returns (Called m (abstract m.memory (limit m) c ys)) (locked_part c m)

overlapping-with_lock :
    (b : Manager) (ys : List Cell) (c : Call)
    → overlapping (with_lock locked b) ys c ≡ overlapping b ys c
overlapping-with_lock b ys (alloc f size) = refl
overlapping-with_lock b ys (release block) = refl
overlapping-with_lock b ys (resize f block size) = refl

locked_part-Finishes :
    (b : Manager) (ys : List Cell) (c : Call)
    → b.lock ≡ unlocked
    → needs_lock c ≡ true
    → Finishes c ys (with_lock locked b)
unfolding Finishes
locked_part-Finishes b ys c idle needs w new safe =
    let v : IsValid b ys = Owns-with_lock b.lock w in
    subst (Returns (Called (with_lock locked b) (abstract b.memory (limit b) c ys)))
      (call-locked_part b ys v idle c needs)
      (Returns.mono
        (call-Called b ys v idle c (IsNew-with_lock c b new)
          (sym (overlapping-with_lock b ys c) ∙ safe))
        λ p t d. record {
          result = d.result;
          valid = d.valid;
          lock = d.lock;
          memory = d.memory;
          memory_size = d.memory_size;
        })

module _ {m : Manager} {xs : List Cell} {s : System} (v : IsValid m xs) (idle : m.lock ≡ unlocked)
    (r : Reach m s) where
  o : InOrder m xs s
  o = Reach-InOrder v idle r

  -- From a well-formed state with the lock free, whatever calls of `mem_alloc`, `mem_free` and
  -- `mem_resize` any number of threads make and however their steps interleave, the state stays
  -- well formed, and the calls that have returned have the results that the abstract allocator gives
  -- to the same calls made one after the other, in the order in which they returned.
  pub Reach-Linear : Linear m xs s
  Reach-Linear = by_holding o.holding
    where
      by_holding : Holding s o.base → Linear m xs s
      by_holding (nobody here alone) = record {
        regions = o.regions;
        valid = subst (λ t. IsValid t o.regions) (sym here) o.valid;
        replay = o.replay;
      }
      by_holding (somebody i c at needs here others) = record {
        regions = o.regions;
        valid = subst (λ t. IsValid t o.regions) (sym here) (Owns-with_lock locked o.valid);
        replay = o.replay;
      }

  -- Never are two threads in the locked part of a call at once.
  pub inside_unique : (i j : ℕ) (c d : Call) → s.inside i ≡ some c → s.inside j ≡ some d → i ≡ j
  inside_unique i j c d at bt = by_holding o.holding
    where
      by_holding : Holding s o.base → i ≡ j
      by_holding (nobody here alone) = cc (at, alone i)
      by_holding (somebody k e kt needs here others) = elim (Bool-cases (i == k)) [
        | inl ik ↦ elim (Bool-cases (j == k)) [
          | inl jk ↦ ==→eq i k ik ∙ sym (==→eq j k jk)
          | inr jk ↦ cc (bt, others j (==→ne j k jk))
        ]
        | inr ik ↦ cc (at, others i (==→ne i k ik))
      ]

  -- The thread that has the mutex stands on the globals as they were when it was free.
  module _ (i : ℕ) (c : Call) (at : s.inside i ≡ some c) (new : IsNew c s.manager) where
    at_base : (needs_lock c ≡ true) × (s.manager ≡ with_lock locked o.base)
    at_base = by_holding o.holding
      where
        by_holding :
            Holding s o.base → (needs_lock c ≡ true) × (s.manager ≡ with_lock locked o.base)
        by_holding (nobody here alone) = cc (at, alone i)
        by_holding (somebody k e kt needs here others) = elim (Bool-cases (i == k)) [
          | inl ik ↦
              let same : e ≡ c = cc (kt, at, ap s.inside (==→eq i k ik)) in
              (subst (λ x. needs_lock x ≡ true) same needs, here)
          | inr ik ↦ absurd (ground (arith, at, others i (==→ne i k ik)))
        ]

    -- A thread that has the mutex finishes its call, with the result and the regions of the
    -- abstract allocator, unless it has to copy between overlapping places.
    pub locked_part-Called :
        (ys : List Cell)
        → IsValid s.manager ys
        → overlapping s.manager ys c ≡ false
        → Returns
            (Called s.manager (abstract s.manager.memory (limit s.manager) c ys))
            (locked_part c s.manager)
    unfolding Finishes
    locked_part-Called ys w safe =
        subst (Finishes c ys) (sym at_base.1) (locked_part-Finishes o.base ys c o.idle at_base.0) w
          new safe

  free_to_enter :
      (i : ℕ) (c : Call) (t : System)
      → t.inside i ≡ none
      → needs_lock c ≡ true
      → t.manager.lock ≡ unlocked
      → Enters i c t
  free_to_enter i c t at needs unheld =
      (_, enter i c (with_lock locked t.manager) at needs (lock-ok t.manager unheld), ground arith)

  leaves :
      (k : ℕ) (d : Call) (q : Run Manager Ptr) {P : Ptr → Manager → Type 0}
      → s.inside k ≡ some d
      → IsNew d s.manager
      → Returns P q
      → locked_part d s.manager ≡ q
      → (t : System) × Step s t × (t.inside k ≡ none)
  leaves k d q kt new (returns {a = p} {s = t} h) e = (_, leave k d p t kt new e, ground arith)

  lock-held : (b t : Manager) → s.manager ≡ with_lock locked b → mutex_lock s.manager ≡ ok tt t → ⊥
  unfolding mutex_lock
  lock-held b t here e = cc (ap mutex_lock here, e)

  -- Whenever the thread that has the mutex leaves, it leaves it free.
  after_leave :
      (k : ℕ) (d : Call) (i : ℕ) (c : Call) (b : Manager) (u : System)
      → s.inside k ≡ some d
      → s.manager ≡ with_lock locked b
      → ((j : ℕ) → j ≢ k → s.inside j ≡ none)
      → Returns (λ _ t. t.lock ≡ unlocked) (locked_part d s.manager)
      → s.inside i ≡ none
      → needs_lock c ≡ true
      → Step s u
      → u.inside k ≡ none
      → Enters i c u
  after_leave k d i c b u kt here others frees at needs (enter j e m jt ready taken) gone =
      absurd (lock-held b m here taken)
  after_leave k d i c b u kt here others frees at needs (pass j e jt free_call) gone = cc (kt, gone)
  after_leave k d i c b u kt here others frees at needs (leave j e p m jt new run) gone =
      elim (Bool-cases (j == k)) [
        | inl same ↦
            let is_d : e ≡ d = cc (kt, jt, ap s.inside (==→eq j k same)) in
            free_to_enter i c u (ground (arith, at)) needs
              (Returns.of_ok frees (ap (λ x. locked_part x s.manager) (sym is_d) ∙ run))
        | inr other ↦ cc (jt, others j (==→ne j k other))
      ]

  -- In every reachable state a thread that is in no call can take the mutex for its call, or another
  -- thread has it; that one can leave, and after any step by which it leaves, the thread can take the
  -- mutex for its call. Which of the threads that wait takes it is open: one may wait for ever. The
  -- conditions are that no `mem_resize` that is under way has to copy between overlapping places and
  -- that the C heap gives it no descriptor that is in use.
  pub admits :
      ((j : ℕ) (d : Call) (ys : List Cell)
        → s.inside j ≡ some d
        → IsValid s.manager ys
        → IsNew d s.manager × (overlapping s.manager ys d ≡ false))
      → (i : ℕ) (c : Call) → s.inside i ≡ none
      → needs_lock c ≡ true
      → Admits i c s
  admits fine i c at needs = by_holding o.holding
    where
      by_holding : Holding s o.base → Admits i c s
      by_holding (nobody here alone) =
          now (free_to_enter i c s at needs (ap (λ m. m.lock) here ∙ o.idle))
      by_holding (somebody k d kt ready here others) =
          let w = subst (λ t. IsValid t o.regions) (sym here) (Owns-with_lock locked o.valid) in
          let (new, safe) = fine k d o.regions kt w in
          let run = locked_part-Called k d kt new o.regions w safe in
          let (t, step, left) = leaves k d (locked_part d s.manager) kt new run refl in
          later k d kt step left λ u.
            after_leave k d i c o.base u kt here others (Returns.mono run λ p t q. q.lock) at needs
