-- ===== src/Manager/Owners.antt =====
-- Which regions a byte of the pool belongs to, before and after an allocation.
use threadsafe_memory_manage.Prelude.{
  ℕ, ◌+◌, ◌-◌, ◌<◌, ◌≤◌, ◌≡◌, refl, ap, ◌&&◌, Option, none, some, List, [], ◌∷◌, arith, ltb, leb,
  if◌then◌else◌, Bool-cases, inl, inr, eq→==, ne→==,
}
use threadsafe_memory_manage.Word.{Ptr}
use threadsafe_memory_manage.Manager.Chain.{Cell}
use threadsafe_memory_manage.Manager.FirstFit.{Packed, behind, place}
use threadsafe_memory_manage.Manager.Free.{release}

-- 1 if the byte `a` lies in `size` bytes from `p` on, else 0
abbrev pub within : Ptr → ℕ → Ptr → ℕ
within p size a = if leb p a && ltb a (p + size) then 1 else 0

-- The number of regions that the byte `a` belongs to.
unfoldable pub owners : Ptr → List Cell → ℕ
owners a [] = 0
owners a (c ∷ xs) = within c.start (c.end - c.start) a + owners a xs

owners-below : (a lo hi : Ptr) (xs : List Cell) → Packed lo hi xs → a < lo → owners a xs ≡ 0
unfolding owners
owners-below a lo hi [] packed low = refl
owners-below a lo hi (c ∷ xs) packed low = ground (arith, owners-below a c.end hi xs packed.2)

-- No byte belongs to two regions.
pub owners-le_one : (a lo hi : Ptr) (xs : List Cell) → Packed lo hi xs → owners a xs ≤ 1
unfolding owners
owners-le_one a lo hi [] packed = omega arith
owners-le_one a lo hi (c ∷ xs) packed =
    ground (arith, owners-below a c.end hi xs packed.2, owners-le_one a c.end hi xs packed.2)

-- What the new region adds, and that taking it out again gives the old list.
abbrev pub Accounted : ℕ → Ptr → List Cell → Option (Ptr × List Cell) → Type 0
Accounted size cur xs none = Unit {0}
Accounted size cur xs (some (p, ys)) =
    ((a : Ptr) → owners a ys ≡ owners a xs + within p size a) × (release p ys ≡ xs) × (cur ≤ p)

module _ (at : Ptr) (size : ℕ) (pos : 0 < size) (limit : Ptr) where
  Accounted-behind :
      (cur : Ptr) (c : Cell) (xs : List Cell)
      → Packed cur limit (c ∷ xs)
      → (r : Option (Ptr × List Cell)) → Accounted size c.end xs r
      → Accounted size cur (c ∷ xs) (behind c r)
  unfolding owners release
  Accounted-behind cur c xs h none g = tt
  Accounted-behind cur c xs h (some (p, ys)) (count, back, above) = (
    λ a. omega (arith, count a),
    rw (ne→== c.start p (omega arith)) (ap (λ zs. c ∷ zs) back),
    omega arith,
  )

  pub place-Accounted :
      (cur : Ptr) (xs : List Cell)
      → Packed cur limit xs
      → Accounted size cur xs (place at size limit cur xs)
  unfolding place owners release
  place-Accounted cur [] h = elim (Bool-cases (leb size (limit - cur))) [
    | inl fits ↦ rw fits (λ a. ground arith, rw (eq→== cur cur refl), omega arith)
    | inr tight ↦ rw tight tt
  ]
  place-Accounted cur (c ∷ xs) h = elim (Bool-cases (leb size (c.start - cur))) [
    | inl fits ↦ rw fits (λ a. ground arith, rw (eq→== cur cur refl), omega arith)
    | inr tight ↦
        rw tight (
          Accounted-behind cur c xs h (place at size limit c.end xs) (place-Accounted c.end xs h.2))
  ]
