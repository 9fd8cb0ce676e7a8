-- ===== src/Manager/Resize.antt =====
-- `mem_resize` as a whole: it implements the abstract resize, and is undefined exactly where the
-- bytes would be copied between overlapping places.
use threadsafe_memory_manage.Prelude.{
  ℕ, ◌<◌, ◌≡◌, refl, sym, subst, ◌∙◌, true, false, Option, none, some, List, [], ◌∷◌, ◌++◌, arith,
  ◌==◌, Bool-cases, inl, inr, ==→eq, eq→==, ne→==,
}
use threadsafe_memory_manage.Word.{Ptr, null}
use threadsafe_memory_manage.Run.{ok, fault}
use threadsafe_memory_manage.Run.Returns
use threadsafe_memory_manage.Run.Returns.{Returns, returns}
use threadsafe_memory_manage.Machine.{unlocked, locked, Manager, Fresh}
use threadsafe_memory_manage.Machine.Points.{not_null}
use threadsafe_memory_manage.Manager.{find_block, resize_found, mem_resize}
use threadsafe_memory_manage.Manager.Chain.{Cell}
use threadsafe_memory_manage.Manager.FirstFit.{Packed}
use threadsafe_memory_manage.Manager.Valid.{limit, IsValid, Kept, allocate}
use threadsafe_memory_manage.Manager.Find.{Cut, cut, Searched}
use threadsafe_memory_manage.Manager.Free.{release, release-null, find_block-cut}
use threadsafe_memory_manage.Manager.Locked.{
  with_lock, lock-ok, unlock-ok, Owns-with_lock, mem_alloc-allocate, mem_free-release,
}
use threadsafe_memory_manage.Manager.Relocation.{resize_found-Resized, resize_found-fault}
use threadsafe_memory_manage.Manager.Relocate.{
  regain, reallocate, relocate, contents, clobbers, Resized,
}

cut-null : (lo hi : Ptr) (xs : List Cell) → Packed lo hi xs → 0 < lo → cut null xs ≡ none
unfolding cut
cut-null lo hi [] packed pos = refl
cut-null lo hi (c ∷ xs) packed pos =
    rw (ne→== c.start null (omega arith), cut-null c.end hi xs packed.2 (omega arith))

contents-null :
    (bytes : Ptr → ℕ) (b : Ptr) (size : ℕ) (o : Option Cut) → contents bytes b size o null ≡ bytes
contents-null bytes b size none = refl
contents-null bytes b size (some (pre, c, post)) = refl

regain-fst : (xs : List Cell) (r : Ptr × List Cell) → (regain xs r).0 ≡ r.0
regain-fst xs (p, ys) = ground arith

module _ (s : Manager) {xs : List Cell} (v : IsValid s xs) (idle : s.lock ≡ unlocked) (b : Ptr)
    (size : ℕ) (fr : Fresh) (free : s.blocks fr.at ≡ none) where
  abbrev wanted : Ptr × List Cell
  wanted = reallocate fr.at b size s.memory (limit s) xs

  abbrev Result : Ptr → Manager → Type 0
  Result = Resized s (contents s.bytes b size (cut b xs) wanted.0) wanted

  resize_after_search :
      (size == 0) ≡ false
      → (b == null) ≡ false
      → (r : Ptr × Ptr) → find_block b (with_lock locked s) ≡ ok r (with_lock locked s)
      → (o : Option Cut) → Searched s.blocks b null s.memory_head xs o r
      → clobbers b size o (relocate fr.at size s.memory (limit s) xs o).0 ≡ false
      → Returns
          (Resized s
            (contents s.bytes b size o (relocate fr.at size s.memory (limit s) xs o).0)
            (relocate fr.at size s.memory (limit s) xs o))
          (mem_resize fr b size s)
  unfolding mem_resize
  resize_after_search some_bytes given r run none absent safe =
      rw
        (
          some_bytes,
          given,
          lock-ok s idle,
          run,
          eq→== r.1 null absent,
          unlock-ok (with_lock locked s) refl,
        )
        (returns (record {
          result = refl;
          valid = Owns-with_lock unlocked v;
          memory = refl;
          memory_size = refl;
          lock = refl;
          bytes_moved = refl;
        }))
  resize_after_search some_bytes given r run (some (pre, c, post)) f safe =
      let out = allocate fr.at size s.memory (limit s) (pre ++ post) in
      let same = regain-fst xs out in
      rw (some_bytes, given, lock-ok s idle, run, not_null f.points)
        (subst
          (λ q.
            Returns (Resized s (contents s.bytes b size (some (pre, c, post)) q) (regain xs out))
              (resize_found fr b size r.0 r.1 (with_lock locked s)))
          (sym same)
          (Returns.mono
            (resize_found-Resized (with_lock locked s) b (Owns-with_lock locked v) refl f fr size
              free (subst (λ q. clobbers b size (some (pre, c, post)) q ≡ false) same safe))
            λ p t d. record {
              result = d.result;
              valid = d.valid;
              memory = d.memory;
              memory_size = d.memory_size;
              lock = d.lock;
              bytes_moved = d.bytes_moved;
            }))

  fault_after_search :
      (size == 0) ≡ false
      → (b == null) ≡ false
      → (r : Ptr × Ptr) → find_block b (with_lock locked s) ≡ ok r (with_lock locked s)
      → (o : Option Cut) → Searched s.blocks b null s.memory_head xs o r
      → clobbers b size o (relocate fr.at size s.memory (limit s) xs o).0 ≡ true
      → mem_resize fr b size s ≡ fault
  unfolding mem_resize
  fault_after_search some_bytes given r run none absent clash = cc
  fault_after_search some_bytes given r run (some (pre, c, post)) f clash =
      let out = allocate fr.at size s.memory (limit s) (pre ++ post) in
      rw (some_bytes, given, lock-ok s idle, run, not_null f.points)
        (resize_found-fault (with_lock locked s) b (Owns-with_lock locked v) refl f fr size free
          (subst (λ q. clobbers b size (some (pre, c, post)) q ≡ true) (regain-fst xs out) clash))

  Kept-Resized :
      {r : Ptr × List Cell} (p : Ptr) (t : Manager)
      → p ≡ r.0
      → IsValid t r.1
      → Kept s t
      → Resized s s.bytes r p t
  Kept-Resized p t e w k = record {
    result = e;
    valid = w;
    memory = k.memory;
    memory_size = k.memory_size;
    lock = k.lock ∙ idle;
    bytes_moved = k.bytes;
  }

  -- `mem_resize` with `size == 0` is `mem_free`, and returns NULL.
  resize_zero :
      (size == 0) ≡ true → Returns (Resized s s.bytes (null, release b xs)) (mem_resize fr b size s)
  unfolding mem_resize
  resize_zero empty = elim (Bool-cases (b == null)) [
    | inl nothing ↦
        rw
          (
            empty,
            nothing,
            ==→eq b null nothing,
            release-null s.memory (limit s) xs v.packed (omega (arith, v.nonnull)),
          )
          (returns (record {
            result = refl;
            valid = v;
            memory = refl;
            memory_size = refl;
            lock = idle;
            bytes_moved = refl;
          }))
    | inr given ↦
        rw (empty, given)
          (Returns.bind (mem_free-release s v idle b)
            λ u t (w, k). returns (Kept-Resized null t refl w k))
  ]

  -- `mem_resize` of NULL is `mem_alloc`.
  resize_null :
      (size == 0) ≡ false
      → (b == null) ≡ true
      → Returns
          (Resized s s.bytes (allocate fr.at size s.memory (limit s) xs))
          (mem_resize fr b size s)
  unfolding mem_resize
  resize_null some_bytes nothing =
      rw (some_bytes, nothing)
        (Returns.mono (mem_alloc-allocate s v idle fr size free)
          λ p t a. Kept-Resized p t a.result a.owns a.kept)

  cut-eq-none : (b == null) ≡ true → cut b xs ≡ none
  cut-eq-none nothing =
      rw (==→eq b null nothing) (cut-null s.memory (limit s) xs v.packed (omega (arith, v.nonnull)))

  -- On a well-formed state with the lock free, unless the bytes would be copied between overlapping
  -- places, `mem_resize` returns what the abstract resize returns, and leaves its list, well
  -- formed, the bytes moved, and the lock free.
  pub mem_resize-reallocate :
      clobbers b size (cut b xs) wanted.0 ≡ false → Returns Result (mem_resize fr b size s)
  unfolding reallocate
  mem_resize-reallocate safe = elim (Bool-cases (size == 0)) [
    | inl empty ↦ rw (empty, contents-null) (resize_zero empty)
    | inr some_bytes ↦ elim (Bool-cases (b == null)) [
      | inl nothing ↦ rw (some_bytes, nothing, cut-eq-none nothing) (resize_null some_bytes nothing)
      | inr given ↦
          let (r, run, found) = find_block-cut (with_lock locked s) b (Owns-with_lock locked v) in
          rw (some_bytes, given)
            (resize_after_search some_bytes given r run (cut b xs) found
              (rw (some_bytes, given) at safe))
    ]
  ]

  -- On a well-formed state with the lock free, if the bytes would be copied between overlapping
  -- places, `mem_resize` runs into undefined behaviour.
  pub mem_resize-fault : clobbers b size (cut b xs) wanted.0 ≡ true → mem_resize fr b size s ≡ fault
  unfolding reallocate
  mem_resize-fault clash = elim (Bool-cases (size == 0)) [
    | inl empty ↦ cc (unmoved (cut b xs) (rw empty at clash))
    | inr some_bytes ↦ elim (Bool-cases (b == null)) [
      | inl nothing ↦ cc (rw (cut-eq-none nothing) at clash)
      | inr given ↦
          let (r, run, found) = find_block-cut (with_lock locked s) b (Owns-with_lock locked v) in
          fault_after_search some_bytes given r run (cut b xs) found
            (rw (some_bytes, given) at clash)
    ]
  ]
    where
      unmoved : (o : Option Cut) → clobbers b size o null ≡ true → false ≡ true
      unmoved none h = h
      unmoved (some (pre, c, post)) h = h
