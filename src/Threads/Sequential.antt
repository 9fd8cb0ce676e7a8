-- ===== src/Threads/Sequential.antt =====
-- A call of memory_manager.c beside the abstract allocator, and beside its locked part.
use threadsafe_memory_manage.Prelude.{
  ◌+◌, ◌≡◌, refl, ◌∙◌, Bool, true, false, List, arith, ◌==◌, Bool-cases, inl, inr,
}
use threadsafe_memory_manage.Word.{Ptr, null}
use threadsafe_memory_manage.Run.{and_then_assoc, pure, ok, fault, deadlock}
use threadsafe_memory_manage.Run.Returns
use threadsafe_memory_manage.Run.Returns.{Returns, returns}
use threadsafe_memory_manage.Machine.{mutex_unlock, Manager, unlocked, locked, mutex_lock}
use threadsafe_memory_manage.Manager.{mem_free_no_lock, mem_alloc, mem_free, mem_resize}
use threadsafe_memory_manage.Manager.Chain.{Cell}
use threadsafe_memory_manage.Manager.Valid.{limit, IsValid, allocate}
use threadsafe_memory_manage.Manager.Find.{cut}
use threadsafe_memory_manage.Manager.Free
use threadsafe_memory_manage.Manager.Locked.{
  with_lock, lock-ok, mem_alloc-allocate, mem_free-release,
}
use threadsafe_memory_manage.Manager.Relocate.{reallocate, clobbers}
use threadsafe_memory_manage.Manager.Resize.{mem_resize-reallocate, mem_resize-fault}
use threadsafe_memory_manage.Threads.{
  Call, alloc, release, resize, call, needs_lock, locked_part, IsNew,
}

-- The abstract allocator: the result of a call, and the regions after it.
abbrev pub abstract : Ptr → Ptr → Call → List Cell → Ptr × List Cell
abstract memory limit (alloc f size) xs = allocate f.at size memory limit xs
abstract memory limit (release block) xs = (null, Free.release block xs)
abstract memory limit (resize f block size) xs = reallocate f.at block size memory limit xs

-- What a call leaves when it returns.
pub record Called (m : Manager) (r : Ptr × List Cell) (p : Ptr) (t : Manager) : Type 0 where
  pub result : p ≡ r.0
  pub valid : IsValid t r.1
  pub lock : t.lock ≡ unlocked
  pub memory : t.memory ≡ m.memory
  pub memory_size : t.memory_size ≡ m.memory_size

-- `mem_resize` would copy between overlapping places.
abbrev pub overlapping : Manager → List Cell → Call → Bool
overlapping m xs (alloc f size) = false
overlapping m xs (release block) = false
overlapping m xs (resize f block size) =
    clobbers block size (cut block xs) (reallocate f.at block size m.memory (limit m) xs).0

module _ (m : Manager) (xs : List Cell) (v : IsValid m xs) (idle : m.lock ≡ unlocked) where
  pub call-Called :
      (c : Call)
      → IsNew c m
      → overlapping m xs c ≡ false
      → Returns (Called m (abstract m.memory (limit m) c xs)) (call c m)
  unfolding call
  call-Called (alloc f size) new safe =
      Returns.mono (mem_alloc-allocate m v idle f size new) λ q u a. record {
        result = a.result;
        valid = a.owns;
        lock = a.kept.lock ∙ idle;
        memory = a.kept.memory;
        memory_size = a.kept.memory_size;
      }
  call-Called (release block) new safe =
      Returns.bind (mem_free-release m v idle block) λ q u (w, kept). returns (record {
        result = refl;
        valid = w;
        lock = kept.lock ∙ idle;
        memory = kept.memory;
        memory_size = kept.memory_size;
      })
  call-Called (resize f block size) new safe =
      Returns.mono (mem_resize-reallocate m v idle block size f new safe) λ q u r. record {
        result = r.result;
        valid = r.valid;
        lock = r.lock;
        memory = r.memory;
        memory_size = r.memory_size;
      }

  pub call-fault : (c : Call) → IsNew c m → overlapping m xs c ≡ true → call c m ≡ fault
  unfolding call
  call-fault (alloc f size) new clash = cc
  call-fault (release block) new clash = cc
  call-fault (resize f block size) new clash = mem_resize-fault m v idle block size f new clash

  -- A call that returned did what the abstract allocator does.
  pub returned-Called :
      (c : Call) (p : Ptr) (t : Manager)
      → IsNew c m
      → call c m ≡ ok p t
      → Called m (abstract m.memory (limit m) c xs) p t
  returned-Called c p t new e = elim (Bool-cases (overlapping m xs c)) [
    | inl clash ↦ cc (call-fault c new clash, e)
    | inr safe ↦
        Returns.of_ok {P = Called m (abstract m.memory (limit m) c xs)} (call-Called c new safe) e
  ]

  -- A call is its lock, and then its locked part.
  pub call-locked_part :
      (c : Call) → needs_lock c ≡ true → call c m ≡ locked_part c (with_lock locked m)
  unfolding call locked_part mem_alloc mem_free mem_resize
  call-locked_part (alloc f size) needs = rw (lock-ok m idle) refl
  call-locked_part (release block) needs = rw (lock-ok m idle) (
      and_then_assoc (mem_free_no_lock block (with_lock locked m)) (λ _. mutex_unlock)
        (λ _. pure null))
  call-locked_part (resize f block size) needs = elim (Bool-cases (size == 0)) [
    | inl empty ↦ elim (Bool-cases (block == null)) [
      | inl nothing ↦ absurd (ground (arith, needs, empty, nothing))
      | inr given ↦
          rw (empty, given, lock-ok m idle)
            (and_then_assoc (mem_free_no_lock block (with_lock locked m)) (λ _. mutex_unlock)
              (λ _. pure null))
    ]
    | inr some_bytes ↦ elim (Bool-cases (block == null)) [
      | inl nothing ↦ rw (some_bytes, nothing, lock-ok m idle) refl
      | inr given ↦ rw (some_bytes, given, lock-ok m idle) refl
    ]
  ]

pub lock-deadlock : (m : Manager) → mutex_lock (with_lock locked m) ≡ deadlock
unfolding mutex_lock
lock-deadlock m = refl

pub IsNew-with_lock : (c : Call) (m : Manager) → IsNew c (with_lock locked m) → IsNew c m
IsNew-with_lock (alloc f size) m new = new
IsNew-with_lock (release block) m new = new
IsNew-with_lock (resize f block size) m new = new

pub abstract-pass :
    (c : Call) (m : Manager) (xs : List Cell)
    → IsValid m xs
    → needs_lock c ≡ false
    → abstract m.memory (limit m) c xs ≡ (null, xs)
unfolding reallocate
abstract-pass (alloc f size) m xs v e = cc
abstract-pass (release block) m xs v e = cc
abstract-pass (resize f block size) m xs v e =
    let empty : (size == 0) ≡ true = ground (arith, e) in
    let none_given : block ≡ null = ground (arith, e) in
    rw
      (
        empty,
        none_given,
        Free.release-null m.memory (limit m) xs v.packed (omega (arith, v.nonnull)),
      )
      refl

-- The abstract allocator knows the globals by the place of the pool.
pub abstract-same :
    (s m : Manager) (c : Call) (xs : List Cell)
    → s.memory ≡ m.memory
    → s.memory_size ≡ m.memory_size
    → abstract s.memory (limit s) c xs ≡ abstract m.memory (limit m) c xs
abstract-same s m c xs e f = λ i. abstract (e i) (e i + f i) c xs
