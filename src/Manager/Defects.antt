-- ===== src/Manager/Defects.antt =====
-- Two uses of memory_manager.c that its interface invites and that go wrong.
use threadsafe_memory_manage.Prelude.{
  ℕ, ◌+◌, ◌-◌, ◌<◌, ◌≤◌, ◌≡◌, ◌≢◌, refl, sym, ap, subst, ◌∙◌, none, List, [], ◌∷◌, arith, le→ltb,
  le→leb, ne→==, eq→==,
}
use threadsafe_memory_manage.Word.{Ptr, null}
use threadsafe_memory_manage.Run.{fault, ◌>>=◌}
use threadsafe_memory_manage.Run.Returns
use threadsafe_memory_manage.Run.Returns.{Returns}
use threadsafe_memory_manage.Machine.{unlocked, Manager, Fresh}
use threadsafe_memory_manage.Manager.{mem_alloc, mem_free, mem_resize}
use threadsafe_memory_manage.Manager.Chain.{Cell, cell}
use threadsafe_memory_manage.Manager.FirstFit.{place}
use threadsafe_memory_manage.Manager.Valid.{limit, IsValid, allocate}
use threadsafe_memory_manage.Manager.Find.{cut}
use threadsafe_memory_manage.Manager.Free.{release}
use threadsafe_memory_manage.Manager.Locked.{mem_alloc-allocate, mem_free-release}
use threadsafe_memory_manage.Manager.Relocate.{reallocate}
use threadsafe_memory_manage.Manager.Resize.{mem_resize-fault}

-- On a well-formed state with the lock free, whose first block begins at the start of the pool,
-- `mem_free` of the result of a `mem_alloc` of no bytes takes that block out of the list.
pub mem_free-mem_alloc_zero :
    (s : Manager) (c : Cell) (xs : List Cell) (f : Fresh)
    → IsValid s (c ∷ xs)
    → s.lock ≡ unlocked
    → s.blocks f.at ≡ none
    → c.start ≡ s.memory
    → Returns (λ _ t. IsValid t xs) ((do p ← mem_alloc f 0; mem_free p) s)
unfolding allocate release
mem_free-mem_alloc_zero s c xs f v idle free first =
    Returns.bind (mem_alloc-allocate s v idle f 0 free) λ p t a.
      let w = subst (λ r. IsValid t r.1) same a.owns in
      let start = first ∙ sym (a.result ∙ ap (λ r. r.0) same) in
      Returns.mono (mem_free-release t w (a.kept.lock ∙ idle) p)
        λ u t' (w', k). subst (IsValid t') (rw (eq→== c.start p start) refl) w'
  where
    same : allocate f.at 0 s.memory (limit s) (c ∷ xs) ≡ (s.memory, c ∷ xs)
    same = rw (le→ltb (limit s - s.memory) 0 (omega arith)) refl

-- On a well-formed state with the lock free and a descriptor to be had, take a block that is alone in
-- the pool, `gap` bytes behind its start, and longer than `gap`: to resize it to more than `gap` bytes
-- that fit the pool is undefined behaviour.
pub mem_resize-overlap :
    (s : Manager) (at : Ptr) (gap length size : ℕ) (f : Fresh)
    → IsValid s (cell at (s.memory + gap) (s.memory + gap + length) ∷ [])
    → s.lock ≡ unlocked
    → s.blocks f.at ≡ none
    → f.at ≢ null
    → 0 < gap
    → gap < length
    → gap < size
    → size ≤ s.memory_size
    → mem_resize f (s.memory + gap) size s ≡ fault
unfolding reallocate allocate place cut
mem_resize-overlap s at gap length size f v idle free given pos long large fits =
    mem_resize-fault s v idle (s.memory + gap) size f free (
      rw
        (
          eq→== (s.memory + gap) (s.memory + gap) refl,
          ne→== size 0 (omega arith),
          ne→== (s.memory + gap) null (omega arith),
          le→ltb (limit s - s.memory) size (omega arith),
          ne→== f.at null given,
          le→leb size (limit s - s.memory) (omega arith),
          ne→== s.memory null v.nonnull,
          ne→== s.memory null v.nonnull,
          ne→== s.memory (s.memory + gap) (omega arith),
        )
        (ground arith))
