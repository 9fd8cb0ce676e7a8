-- ===== src/Manager/Placement.antt =====
-- Where `mem_alloc` puts a block, against a description that knows nothing of the search.
use threadsafe_memory_manage.Prelude.{
  ℕ, ◌+◌, ◌-◌, ◌<◌, ◌≤◌, ◌≡◌, ◌≢◌, ◌⊎◌, inl, inr, refl, Option, none, some, List, arith, ltb, ◌==◌,
  Bool-cases, ltb→lt, ==→eq,
}
use threadsafe_memory_manage.Word.{Ptr, null}
use threadsafe_memory_manage.Run.Returns
use threadsafe_memory_manage.Run.Returns.{Returns}
use threadsafe_memory_manage.Machine.{unlocked, Manager, Fresh}
use threadsafe_memory_manage.Manager.{mem_alloc}
use threadsafe_memory_manage.Manager.Chain.{Cell}
use threadsafe_memory_manage.Manager.FirstFit.{NoRoom, Packed, IsFree, Placed, place, place-Placed}
use threadsafe_memory_manage.Manager.Valid.{limit, IsValid, settle, allocate}
use threadsafe_memory_manage.Manager.Free.{release}
use threadsafe_memory_manage.Manager.Locked.{mem_alloc-allocate}
use threadsafe_memory_manage.Manager.Owners.{
  within, owners, owners-le_one, Accounted, place-Accounted,
}

-- The lowest address at which `size` bytes of the pool are in no region.
pub record IsLowest (size : ℕ) (lo hi : Ptr) (xs : List Cell) (p : Ptr) : Type 0 where
  pub free : IsFree size lo hi xs p
  pub least : (q : Ptr) → IsFree size lo hi xs q → p ≤ q

pub record Granted (size : ℕ) (lo hi : Ptr) (xs : List Cell) (p : Ptr) (ys : List Cell)
    : Type 0 where
  pub lowest : IsLowest size lo hi xs p
  pub counted : (a : Ptr) → owners a ys ≡ owners a xs + within p size a
  pub undo : release p ys ≡ xs

-- An allocation returns NULL for want of a descriptor or of a place, or it grants the lowest place.
abbrev pub Outcome : Ptr → ℕ → Ptr → Ptr → List Cell → Ptr → List Cell → Type 0
Outcome new size lo hi xs p ys =
    ((p ≡ null) × (ys ≡ xs) × NoRoom new size lo hi xs) ⊎ ((p ≢ null) × Granted size lo hi xs p ys)

module _ (new : Ptr) (size : ℕ) (lo hi : Ptr) (xs : List Cell) (packed : Packed lo hi xs)
    (pos : 0 < size) (ne : lo ≢ null) where
  settle-Outcome :
      (o : Option (Ptr × List Cell))
      → Placed new size hi lo xs o
      → Accounted size lo xs o
      → Outcome new size lo hi xs (settle xs o).0 (settle xs o).1
  settle-Outcome none full a = inl (refl, refl, inr full)
  settle-Outcome (some (p, ys)) (free, least) (counted, undo, above) = inr (
    ground arith,
    record { lowest = record { free = free; least = least }; counted = counted; undo = undo },
  )

  pub allocate-Outcome :
      Outcome new size lo hi xs (allocate new size lo hi xs).0 (allocate new size lo hi xs).1
  unfolding allocate
  allocate-Outcome = elim (Bool-cases (ltb (hi - lo) size)) [
    | inl large ↦
        rw large (
          inl (refl, refl, inr λ q f. omega (arith, f.above, f.below, ltb→lt (hi - lo) size large)))
    | inr room ↦ elim (Bool-cases (size == 0)) [
      | inl empty ↦ absurd (omega (arith, ==→eq size 0 empty))
      | inr bytes ↦ elim (Bool-cases (new == null)) [
        | inl exhausted ↦
            rw (room, bytes, exhausted) (inl (refl, refl, inl (==→eq new null exhausted)))
        | inr given ↦
            rw (room, bytes, given)
              (settle-Outcome (place new size hi lo xs) (place-Placed new size pos hi lo xs packed)
                (place-Accounted new size pos hi lo xs packed))
      ]
    ]
  ]

-- What a call of `mem_alloc` leaves.
pub record Served (f : Fresh) (size : ℕ) (s : Manager) (xs : List Cell) (p : Ptr) (t : Manager)
    : Type 0 where
  pub list : List Cell
  pub valid : IsValid t list
  pub outcome : Outcome f.at size s.memory (limit s) xs p list
  pub alone : (a : Ptr) → owners a list ≤ 1

-- On a well-formed state with the lock free, `mem_alloc` of at least one byte returns the lowest address at which that many bytes of the pool
-- are free, and from then on its bytes, which no block owned, are owned by one block alone; it
-- returns NULL only if no address is free so or no descriptor could be had.
pub mem_alloc-Served :
    (s : Manager) (xs : List Cell) (f : Fresh) (size : ℕ)
    → IsValid s xs
    → s.lock ≡ unlocked
    → s.blocks f.at ≡ none
    → 0 < size
    → Returns (Served f size s xs) (mem_alloc f size s)
mem_alloc-Served s xs f size v idle free pos =
    Returns.mono (mem_alloc-allocate s v idle f size free) λ p t a.
      let ys = (allocate f.at size s.memory (limit s) xs).1 in
      record {
        list = ys;
        valid = a.owns;
        outcome =
            rw a.result (allocate-Outcome f.at size s.memory (limit s) xs v.packed pos v.nonnull);
        alone = λ q. owners-le_one q t.memory (limit t) ys a.owns.packed;
      }
