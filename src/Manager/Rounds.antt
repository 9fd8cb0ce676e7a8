-- ===== src/Manager/Rounds.antt =====
-- What calls in a row come to: an allocation that is given back, and a resize that fails.
use threadsafe_memory_manage.Prelude.{
  ℕ, ◌<◌, ◌≡◌, ◌≢◌, inl, inr, sym, ap, subst, ◌∙◌, fun_ext, none, List, arith, Bool-cases,
}
use threadsafe_memory_manage.Word.{Ptr, null}
use threadsafe_memory_manage.Run.{◌>>=◌}
use threadsafe_memory_manage.Run.Returns
use threadsafe_memory_manage.Run.Returns.{Returns, returns}
use threadsafe_memory_manage.Machine.{unlocked, Manager, Fresh}
use threadsafe_memory_manage.Manager.{mem_alloc, mem_free}
use threadsafe_memory_manage.Manager.Chain.{Cell, has, Chain-head, Chain-agree}
use threadsafe_memory_manage.Manager.FirstFit.{Packed}
use threadsafe_memory_manage.Manager.Valid.{limit, IsValid, Kept, Kept-trans, allocate}
use threadsafe_memory_manage.Manager.Free.{release, release-null}
use threadsafe_memory_manage.Manager.Locked.{mem_alloc-allocate, mem_free-release}
use threadsafe_memory_manage.Manager.Placement.{Outcome, allocate-Outcome}

-- The list determines the descriptors: a well-formed state is given by its list and its pool.
pub IsValid-unique :
    (s t : Manager) (xs : List Cell) → IsValid s xs → IsValid t xs → Kept s t → t ≡ s
IsValid-unique s t xs v w k = λ i. record {
  memory = k.memory i;
  memory_head = Chain-head w.chain v.chain i;
  memory_size = k.memory_size i;
  lock = k.lock i;
  blocks = same i;
  pool = k.pool i;
  bytes = k.bytes i;
}
  where
    same : t.blocks ≡ s.blocks
    same = fun_ext λ a. elim (Bool-cases (has a xs)) [
      | inl inside ↦ Chain-agree w.chain v.chain a inside
      | inr outside ↦ w.owned a outside ∙ sym (v.owned a outside)
    ]

release-Outcome :
    (new : Ptr) (size : ℕ) (lo hi : Ptr) (xs : List Cell)
    → Packed lo hi xs
    → lo ≢ null
    → (p : Ptr) (ys : List Cell) → Outcome new size lo hi xs p ys
    → release p ys ≡ xs
release-Outcome new size lo hi xs packed ne p ys (inl (e, same, why)) =
    ap (λ q. release q ys) e ∙ ap (release null) same ∙ release-null lo hi xs packed (omega arith)
release-Outcome new size lo hi xs packed ne p ys (inr (given, g)) = g.undo

-- On a well-formed state with the lock free, after a `mem_alloc` of at least one byte, `mem_free` of
-- what it returned, NULL included, puts every global, every descriptor and
-- every byte back as it was.
pub mem_free-mem_alloc :
    (s : Manager) (xs : List Cell) (f : Fresh) (size : ℕ)
    → IsValid s xs
    → s.lock ≡ unlocked
    → s.blocks f.at ≡ none
    → 0 < size
    → Returns (λ _ t. t ≡ s) ((do p ← mem_alloc f size; mem_free p) s)
mem_free-mem_alloc s xs f size v idle free pos =
    Returns.bind (mem_alloc-allocate s v idle f size free) λ p t a.
      Returns.mono (mem_free-release t a.owns (a.kept.lock ∙ idle) p) λ u t' (w, k).
        IsValid-unique s t' xs v (subst (IsValid t') (back p t a.result) w) (Kept-trans a.kept k)
  where
    back :
        (p : Ptr)
        → Manager
        → p ≡ (allocate f.at size s.memory (limit s) xs).0
        → release p (allocate f.at size s.memory (limit s) xs).1 ≡ xs
    back p t e =
        ap (λ q. release q (allocate f.at size s.memory (limit s) xs).1) e
        ∙ release-Outcome f.at size s.memory (limit s) xs v.packed v.nonnull
            (allocate f.at size s.memory (limit s) xs).0
            (allocate f.at size s.memory (limit s) xs).1
            (allocate-Outcome f.at size s.memory (limit s) xs v.packed pos v.nonnull)
