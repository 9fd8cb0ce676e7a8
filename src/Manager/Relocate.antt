-- ===== src/Manager/Relocate.antt =====
-- The abstract resize: the region leaves the list, the allocator runs without it, and the bytes move
-- to the new place.
use threadsafe_memory_manage.Prelude.{
  ℕ, not, ◌-◌, ◌<◌, ◌≤◌, ◌≡◌, ◌≢◌, refl, Bool, false, ◌||◌, ◌&&◌, Option, none, some, List, [], ◌∷◌,
  ◌++◌, arith, leb, ◌==◌, if◌then◌else◌, Bool-cases, inl, inr,
}
use threadsafe_memory_manage.Word.{Ptr, null}
use threadsafe_memory_manage.Machine.{unlocked, Manager, copied, overlaps}
use threadsafe_memory_manage.Manager.Chain.{Cell}
use threadsafe_memory_manage.Manager.FirstFit.{Packed, Packed-le, place}
use threadsafe_memory_manage.Manager.Valid.{limit, IsValid, settle, allocate}
use threadsafe_memory_manage.Manager.Find.{Cut, cut}
use threadsafe_memory_manage.Manager.Free.{release}
use threadsafe_memory_manage.Manager.FirstFit.{Placed, place-Placed}

abbrev pub smaller : ℕ → ℕ → ℕ
smaller a b = if leb a b then a else b

-- A failed allocation leaves the list as it was before the block was disconnected.
abbrev pub regain : List Cell → Ptr × List Cell → Ptr × List Cell
regain xs (p, ys) = if p == null then (null, xs) else (p, ys)

abbrev pub relocate :
    (new : Ptr) (size : ℕ) (memory limit : Ptr) → List Cell → Option Cut → Ptr × List Cell
relocate new size memory limit xs none = (null, xs)
relocate new size memory limit xs (some (pre, c, post)) =
    regain xs (allocate new size memory limit (pre ++ post))

-- The abstract resize of the region that starts at `b`.
unfoldable pub reallocate :
    (new b : Ptr) (size : ℕ) (memory limit : Ptr) → List Cell → Ptr × List Cell
reallocate new b size memory limit xs =
    if size == 0
    then (null, release b xs)
    else if b == null
    then allocate new size memory limit xs
    else relocate new size memory limit xs (cut b xs)

-- Memory after the bytes of the region at `b` have moved to `p`.
abbrev pub contents : (Ptr → ℕ) → Ptr → ℕ → Option Cut → Ptr → Ptr → ℕ
contents bytes b size none p = bytes
contents bytes b size (some (pre, c, post)) p =
    if p == null || p == b then bytes else copied bytes p b (smaller size (c.end - c.start))

-- The move to `p` would copy between overlapping places.
abbrev pub clobbers : Ptr → ℕ → Option Cut → Ptr → Bool
clobbers b size none p = false
clobbers b size (some (pre, c, post)) p =
    not (p == null || p == b) && overlaps p b (smaller size (c.end - c.start))

pub record Resized (s : Manager) (bytes : Ptr → ℕ) (r : Ptr × List Cell) (p : Ptr) (t : Manager)
    : Type 0 where
  pub result : p ≡ r.0
  pub valid : IsValid t r.1
  pub memory : t.memory ≡ s.memory
  pub memory_size : t.memory_size ≡ s.memory_size
  pub lock : t.lock ≡ unlocked
  pub bytes_moved : t.bytes ≡ bytes

-- A NULL from the abstract allocator leaves the list.
pub allocate-null :
    (new : Ptr) (size : ℕ) (memory limit : Ptr) (ys : List Cell)
    → Packed memory limit ys
    → memory ≢ null
    → (allocate new size memory limit ys).0 ≡ null
    → (allocate new size memory limit ys).1 ≡ ys
unfolding allocate
allocate-null new size memory limit ys packed ne e = elim (Bool-cases (size == 0)) [
  | inl empty ↦ ground arith
  | inr bytes ↦ ground (
    arith,
    settled (place new size limit memory ys)
        (place-Placed new size (ground arith) limit memory ys packed),
  )
]
  where
    settled :
        (o : Option (Ptr × List Cell))
        → Placed new size limit memory ys o
        → (settle ys o).0 ≡ null
        → (settle ys o).1 ≡ ys
    settled none q e = refl
    settled (some (p, zs)) q e = absurd (omega (arith, q.0.above))

pub Packed-cell :
    (lo hi : Ptr) (pre : List Cell) (c : Cell) (post : List Cell)
    → Packed lo hi (pre ++ c ∷ post)
    → (lo ≤ c.start) × (c.start < c.end) × (c.end ≤ hi)
Packed-cell lo hi [] c post p = (p.0, p.1, Packed-le c.end hi post p.2)
Packed-cell lo hi (d ∷ pre) c post p = omega (arith, Packed-cell d.end hi pre c post p.2)
