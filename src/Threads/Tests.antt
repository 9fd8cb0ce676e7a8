-- ===== src/Threads/Tests.antt =====
-- The theorems on threads at a pool of 100 bytes with one block, which the thread 0 frees while the
-- thread 1 calls `mem_resize (NULL, 0)`.
use threadsafe_memory_manage.Prelude.{
  ℕ, ◌≡◌, refl, true, false, ap, subst, ◌==◌, ==→eq, Bool-cases, inl, inr, none, some, List, [],
  ◌∷◌, arith,
}
use threadsafe_memory_manage.Word.{null}
use threadsafe_memory_manage.Machine
use threadsafe_memory_manage.Machine.{Manager, unlocked, locked, write}
use threadsafe_memory_manage.Manager
use threadsafe_memory_manage.Manager.Chain.{Cell, cell, nil, link}
use threadsafe_memory_manage.Manager.Valid.{IsValid}
use threadsafe_memory_manage.Threads.{
  Call, IsNew, locked_part, release, resize, System, update, event, Reach, begin, next, enter,
  leave, pass,
}
use threadsafe_memory_manage.Threads.Sequential.{overlapping}
use threadsafe_memory_manage.Threads.Safety.{Linear, Admits, Reach-Linear, admits}

abbrev pool_of_100 : Manager
pool_of_100 = record {
  memory = 1000;
  memory_head = 10;
  memory_size = 100;
  lock = unlocked;
  blocks = write (λ _. none) 10 (some (record { start = 1000; end = 1010; next = null }));
  pool = true;
  bytes = λ a. a;
}

abbrev one_cell : List Cell
one_cell = cell 10 1000 1010 ∷ []

one_cell-IsValid : IsValid pool_of_100 one_cell
unfolding write
one_cell-IsValid = record {
  chain = link refl (record { ne_null = omega arith; holds = refl }) refl nil;
  packed = omega arith;
  owned = λ a o. ground arith;
  nonnull = omega arith;
  small = omega arith;
  live = refl;
}

abbrev zero_thread : ℕ
zero_thread = 0

abbrev no_call : Call
no_call = resize (record { at = 20; junk = record { start = 7; end = 8; next = 9 } }) null 0

-- The thread 0 has the mutex, and the call of thread 1 has returned.
abbrev freeing : System
freeing = record {
  manager = record pool_of_100 { lock = locked };
  inside = update (λ i. none) 0 (some (release 1000));
  history = event 1 no_call null ∷ [];
}

freeing-Reach : Reach pool_of_100 freeing
unfolding Machine.mutex_lock
freeing-Reach =
    next (next begin (enter 0 (release 1000) _ refl refl refl)) (pass 1 no_call refl refl)

-- The thread 0 has returned too.
abbrev freed : System
freed = record {
  manager = record pool_of_100 { memory_head = null; blocks = write pool_of_100.blocks 10 none };
  inside = update freeing.inside 0 none;
  history = event 0 (release 1000) null ∷ freeing.history;
}

freed-Reach : Reach pool_of_100 freed
unfolding locked_part Machine.mutex_unlock Machine.load Machine.free_block Machine.write
    Manager.find_loop Manager.find_block Manager.connect Manager.mem_free_no_lock
freed-Reach = next freeing-Reach (leave 0 (release 1000) null _ refl tt refl)

Reach-Linear_example : Linear pool_of_100 one_cell freed
Reach-Linear_example = Reach-Linear one_cell-IsValid refl freed-Reach

only_release : (j : ℕ) (d : Call) → freeing.inside j ≡ some d → release 1000 ≡ d
only_release j d at = elim (Bool-cases (j == 0)) [
  | inl same ↦ cc (ap freeing.inside (==→eq j 0 same), at)
  | inr other ↦ absurd (ground (arith, at, other))
]

admits_example : Admits 1 (release 1000) freeing
admits_example =
    admits one_cell-IsValid refl freeing-Reach
      (λ j d ys at w.
        subst (λ e. IsNew e freeing.manager × (overlapping freeing.manager ys e ≡ false))
          (only_release j d at) (tt, refl))
      1 (release 1000) refl refl
