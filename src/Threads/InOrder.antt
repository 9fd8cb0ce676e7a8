-- ===== src/Threads/InOrder.antt =====
-- Threads that call the manager at once do what the abstract allocator does with their calls in the
-- order in which they return.
use threadsafe_memory_manage.Prelude.{
  ℕ, ◌≡◌, ◌≢◌, refl, sym, ap, subst, ◌∙◌, true, false, none, some, List, [], ◌∷◌, arith, ◌==◌,
  Bool-cases, inl, inr, ==→eq, ==→ne,
}
use threadsafe_memory_manage.Word.{Ptr, null}
use threadsafe_memory_manage.Run.{ok}
use threadsafe_memory_manage.Machine.{Manager, unlocked, locked, mutex_lock}
use threadsafe_memory_manage.Manager.Chain.{Cell}
use threadsafe_memory_manage.Manager.Valid.{limit, IsValid}
use threadsafe_memory_manage.Manager.Locked.{with_lock, lock-ok}
use threadsafe_memory_manage.Threads.{
  Call, call, needs_lock, locked_part, Event, event, System, update, IsNew, Step, enter, leave,
  pass, Reach, begin, next,
}
use threadsafe_memory_manage.Threads.Sequential.{
  abstract, Called, returned-Called, call-locked_part, lock-deadlock, IsNew-with_lock,
  abstract-pass, abstract-same,
}

-- The abstract allocator, through the calls in the order in which they returned, from the regions
-- `xs`; each call has the result that the allocator gives.
pub data Replays (memory limit : Ptr) (xs : List Cell) : List Event → List Cell → Type 0 where
  nothing : Replays memory limit xs [] xs
  followed :
      {h : List Event} {ys zs : List Cell} (i : ℕ) (c : Call) (p : Ptr)
      → Replays memory limit xs h ys
      → p ≡ (abstract memory limit c ys).0
      → zs ≡ (abstract memory limit c ys).1
      → Replays memory limit xs (event i c p ∷ h) zs

-- Who has the lock, where `base` are the globals with the lock free.
pub data Holding (s : System) (base : Manager) : Type 0 where
  nobody : s.manager ≡ base → ((i : ℕ) → s.inside i ≡ none) → Holding s base
  somebody :
      (i : ℕ) (c : Call)
      → s.inside i ≡ some c
      → needs_lock c ≡ true
      → s.manager ≡ with_lock locked base
      → ((j : ℕ) → j ≢ i → s.inside j ≡ none)
      → Holding s base

Holding-history :
    (s : System) (base : Manager) (h : List Event)
    → Holding s base
    → Holding (record s { history = h }) base
Holding-history s base h (nobody here alone) = nobody here alone
Holding-history s base h (somebody i c at needs here others) = somebody i c at needs here others

pub record InOrder (m : Manager) (xs : List Cell) (s : System) : Type 0 where
  pub base : Manager
  pub regions : List Cell
  pub valid : IsValid base regions
  pub idle : base.lock ≡ unlocked
  pub memory : base.memory ≡ m.memory
  pub memory_size : base.memory_size ≡ m.memory_size
  pub replay : Replays m.memory (limit m) xs s.history regions
  pub holding : Holding s base

module _ (m : Manager) (xs : List Cell) where
  enter-InOrder :
      (s : System) (i : ℕ) (c : Call) (t : Manager)
      → InOrder m xs s
      → needs_lock c ≡ true
      → mutex_lock s.manager ≡ ok tt t
      → InOrder m xs (record s { manager = t; inside = update s.inside i (some c) })
  enter-InOrder s i c t o needs e = by_holding o.holding
    where
      by_holding :
          Holding s o.base
          → InOrder m xs (record s { manager = t; inside = update s.inside i (some c) })
      by_holding (nobody here alone) = record {
        base = o.base;
        regions = o.regions;
        valid = o.valid;
        idle = o.idle;
        memory = o.memory;
        memory_size = o.memory_size;
        replay = o.replay;
        holding =
            somebody i c (ground arith) needs (cc (e, lock-ok o.base o.idle, ap mutex_lock here))
              λ j ne. ground (arith, alone j, ne);
      }
      by_holding (somebody j d at needs' here others) =
          cc (e, ap mutex_lock here, lock-deadlock o.base)

  leave-InOrder :
      (s : System) (i : ℕ) (c : Call) (p : Ptr) (t : Manager)
      → InOrder m xs s
      → s.inside i ≡ some c
      → IsNew c s.manager
      → locked_part c s.manager ≡ ok p t
      → InOrder m xs (record s {
        manager = t;
        inside = update s.inside i none;
        history = event i c p ∷ s.history;
      })
  leave-InOrder s i c p t o at new e = by_holding o.holding
    where
      after :
          Called o.base (abstract o.base.memory (limit o.base) c o.regions) p t
          → ((j : ℕ) → j ≢ i → s.inside j ≡ none)
          → InOrder m xs (record s {
            manager = t;
            inside = update s.inside i none;
            history = event i c p ∷ s.history;
          })
      after d others =
          let same : abstract o.base.memory (limit o.base) c o.regions
              ≡ abstract m.memory (limit m) c o.regions =
            abstract-same o.base m c o.regions o.memory o.memory_size in
          record {
            base = t;
            regions = (abstract o.base.memory (limit o.base) c o.regions).1;
            valid = d.valid;
            idle = d.lock;
            memory = d.memory ∙ o.memory;
            memory_size = d.memory_size ∙ o.memory_size;
            replay = followed i c p o.replay (d.result ∙ ap (λ r. r.0) same) (ap (λ r. r.1) same);
            holding = nobody refl λ j. ground (arith, others j);
          }

      by_holding :
          Holding s o.base
          → InOrder m xs (record s {
            manager = t;
            inside = update s.inside i none;
            history = event i c p ∷ s.history;
          })
      by_holding (nobody here alone) = cc (at, alone i)
      by_holding (somebody j d at' needs here others) = elim (Bool-cases (i == j)) [
        | inl same ↦
            let ij = ==→eq i j same in
            let cd : c ≡ d = cc (at, at', ap s.inside ij) in
            let ready = subst (λ x. needs_lock x ≡ true) (sym cd) needs in
            let run : call c o.base ≡ ok p t =
              call-locked_part o.base o.regions o.valid o.idle c ready
              ∙ ap (locked_part c) (sym here)
              ∙ e in
            let unused = IsNew-with_lock c o.base (subst (IsNew c) here new) in
            after (returned-Called o.base o.regions o.valid o.idle c p t unused run)
              λ k ne. others k (λ kj. ne (kj ∙ sym ij))
        | inr other ↦ cc (at, others i (==→ne i j other))
      ]

  pass-InOrder :
      (s : System) (i : ℕ) (c : Call)
      → InOrder m xs s
      → needs_lock c ≡ false
      → InOrder m xs (record s { history = event i c null ∷ s.history })
  pass-InOrder s i c o free_call =
      let same : abstract m.memory (limit m) c o.regions ≡ (null, o.regions) =
        sym (abstract-same o.base m c o.regions o.memory o.memory_size)
        ∙ abstract-pass c o.base o.regions o.valid free_call in
      record {
        base = o.base;
        regions = o.regions;
        valid = o.valid;
        idle = o.idle;
        memory = o.memory;
        memory_size = o.memory_size;
        replay = followed i c null o.replay (ap (λ r. r.0) (sym same)) (ap (λ r. r.1) (sym same));
        holding = Holding-history s o.base (event i c null ∷ s.history) o.holding;
      }

Step-InOrder :
    {m : Manager} {xs : List Cell} {s t : System} → InOrder m xs s → Step s t → InOrder m xs t
Step-InOrder {m} {xs} {s} o (enter i c t at needs e) = enter-InOrder m xs s i c t o needs e
Step-InOrder {m} {xs} {s} o (leave i c p t at new e) = leave-InOrder m xs s i c p t o at new e
Step-InOrder {m} {xs} {s} o (pass i c at free_call) = pass-InOrder m xs s i c o free_call

pub Reach-InOrder :
    {m : Manager} {xs : List Cell} {s : System}
    → IsValid m xs
    → m.lock ≡ unlocked
    → Reach m s
    → InOrder m xs s
Reach-InOrder {m} {xs} v free begin = record {
  base = m;
  regions = xs;
  valid = v;
  idle = free;
  memory = refl;
  memory_size = refl;
  replay = nothing;
  holding = nobody refl (λ i. refl);
}
Reach-InOrder v free (next r st) = Step-InOrder (Reach-InOrder v free r) st
