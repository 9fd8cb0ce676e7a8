-- ===== src/Manager/FirstFit.antt =====
-- What allocation means for the regions alone: first fit in a packed list of regions.
use threadsafe_memory_manage.Prelude.{
  ℕ, ◌+◌, ◌-◌, ◌≤◌, ◌<◌, ◌≡◌, ◌⊎◌, inl, inr, refl, ◌||◌, Option, none, some, List, [], ◌∷◌, arith,
  leb, ◌==◌, if◌then◌else◌, Bool-cases, leb→le, leb→lt, length,
}
use threadsafe_memory_manage.Word.{Ptr, null}
use threadsafe_memory_manage.Manager.Chain.{Cell, cell, has}

-- The regions are non-empty, in order, disjoint, and between `cur` and `limit`.
abbrev pub Packed : Ptr → Ptr → List Cell → Type 0
Packed cur limit [] = cur ≤ limit
Packed cur limit (c ∷ xs) = (cur ≤ c.start) × (c.start < c.end) × Packed c.end limit xs

abbrev pub behind : Cell → Option (Ptr × List Cell) → Option (Ptr × List Cell)
behind c none = none
behind c (some (p, ys)) = some (p, c ∷ ys)

-- The new descriptor `at` takes the first gap of at least `size` bytes.
unfoldable pub place :
    (at : Ptr) (size : ℕ) (limit cur : Ptr) → List Cell → Option (Ptr × List Cell)
place at size limit cur [] =
    if leb size (limit - cur) then some (cur, cell at cur (cur + size) ∷ []) else none
place at size limit cur (c ∷ xs) =
    if leb size (c.start - cur)
    then some (cur, cell at cur (cur + size) ∷ c ∷ xs)
    else behind c (place at size limit c.end xs)

-- The `size` bytes from `p` on lie between `cur` and `limit` and meet no region.
abbrev pub Apart : ℕ → Ptr → List Cell → Type 0
Apart size p [] = Unit {0}
Apart size p (c ∷ xs) = ((p + size ≤ c.start) ⊎ (c.end ≤ p)) × Apart size p xs

pub record IsFree (size : ℕ) (cur limit : Ptr) (xs : List Cell) (p : Ptr) : Type 0 where
  pub above : cur ≤ p
  pub below : p + size ≤ limit
  pub apart : Apart size p xs

abbrev pub IsFull : ℕ → Ptr → Ptr → List Cell → Type 0
IsFull size lo hi xs = (q : Ptr) → ¬ (IsFree size lo hi xs q)

-- Why an allocation fails: no descriptor at `new`, or no place of that size.
abbrev pub NoRoom : Ptr → ℕ → Ptr → Ptr → List Cell → Type 0
NoRoom new size lo hi xs = (new ≡ null) ⊎ IsFull size lo hi xs

pub Packed-le : (cur limit : Ptr) (xs : List Cell) → Packed cur limit xs → cur ≤ limit
Packed-le cur limit [] h = h
Packed-le cur limit (c ∷ xs) h = omega (arith, Packed-le c.end limit xs h.2)

-- Each region takes a byte, so there are at most as many as bytes.
pub Packed-length :
    (cur limit : Ptr) (xs : List Cell) → Packed cur limit xs → length xs + cur ≤ limit
Packed-length cur limit [] h = omega arith
Packed-length cur limit (c ∷ xs) h = omega (arith, Packed-length c.end limit xs h.2)

-- A region that ends where the packed list begins is apart from all of it.
pub Apart-before :
    (size : ℕ) (p cur limit : Ptr) (xs : List Cell)
    → Packed cur limit xs
    → p + size ≤ cur
    → Apart size p xs
Apart-before size p cur limit [] h k = tt
Apart-before size p cur limit (c ∷ xs) h k =
    (inl (omega arith), Apart-before size p c.end limit xs h.2 (omega arith))

-- What `place` promises of its result.
abbrev pub Placed :
    (at : Ptr) (size : ℕ) (limit cur : Ptr) → List Cell → Option (Ptr × List Cell) → Type 0
Placed at size limit cur xs none = (q : Ptr) → IsFree size cur limit xs q → ⊥
Placed at size limit cur xs (some (p, ys)) =
    IsFree size cur limit xs p × ((q : Ptr) → IsFree size cur limit xs q → p ≤ q)

module _ (at : Ptr) (size : ℕ) (pos : 0 < size) (limit : Ptr) where
  Placed-behind :
      (cur : Ptr) (c : Cell) (xs : List Cell)
      → Packed cur limit (c ∷ xs)
      → c.start - cur < size
      → (r : Option (Ptr × List Cell)) → Placed at size limit c.end xs r
      → Placed at size limit cur (c ∷ xs) (behind c r)
  Placed-behind cur c xs h tight none nowhere = λ q f.
      nowhere q
        (record { above = ground (arith, f.above, f.apart.0); below = f.below; apart = f.apart.1 })
  Placed-behind cur c xs h tight (some (p, ys)) (f, least) = (
    record { above = omega (arith, f.above); below = f.below; apart = (inr f.above, f.apart) },
    λ q g.
        least q (record {
          above = ground (arith, g.above, g.apart.0);
          below = g.below;
          apart = g.apart.1;
        }),
  )

  -- First fit takes the lowest free place, and fails only if there is none.
  pub place-Placed :
      (cur : Ptr) (xs : List Cell)
      → Packed cur limit xs
      → Placed at size limit cur xs (place at size limit cur xs)
  unfolding place
  place-Placed cur [] h = elim (Bool-cases (leb size (limit - cur))) [
    | inl fits ↦ rw fits (
      record {
        above = omega arith;
        below = omega (arith, leb→le size (limit - cur) fits);
        apart = tt;
      },
      λ q f. f.above,
    )
    | inr tight ↦ rw tight (λ q f. omega (arith, leb→lt size (limit - cur) tight, f.above, f.below))
  ]
  place-Placed cur (c ∷ xs) h = elim (Bool-cases (leb size (c.start - cur))) [
    | inl fits ↦ rw fits (
      record {
        above = omega arith;
        below = omega (arith, leb→le size (c.start - cur) fits, Packed-le c.end limit xs h.2);
        apart = (
          inl (omega (arith, leb→le size (c.start - cur) fits)),
          Apart-before size cur c.end limit xs h.2
              (omega (arith, leb→le size (c.start - cur) fits)),
        );
      },
      λ q f. f.above,
    )
    | inr tight ↦ rw tight (
        Placed-behind cur c xs h (leb→lt size (c.start - cur) tight) (place at size limit c.end xs)
          (place-Placed c.end xs h.2))
  ]

-- What the new list is: packed again, and with one descriptor more.
abbrev pub Grown : Ptr → Ptr → Ptr → List Cell → Option (Ptr × List Cell) → Type 0
Grown at limit cur xs none = Unit {0}
Grown at limit cur xs (some (p, ys)) =
    Packed cur limit ys × ((a : Ptr) → has a ys ≡ (a == at || has a xs))

module _ (at : Ptr) (size : ℕ) (pos : 0 < size) (limit : Ptr) where
  Grown-behind :
      (cur : Ptr) (c : Cell) (xs : List Cell)
      → Packed cur limit (c ∷ xs)
      → (r : Option (Ptr × List Cell)) → Grown at limit c.end xs r
      → Grown at limit cur (c ∷ xs) (behind c r)
  Grown-behind cur c xs h none g = tt
  Grown-behind cur c xs h (some (p, ys)) (packed, members) =
      ((h.0, h.1, packed), λ a. ground (arith, members a))

  pub place-Grown :
      (cur : Ptr) (xs : List Cell)
      → Packed cur limit xs
      → Grown at limit cur xs (place at size limit cur xs)
  unfolding place
  place-Grown cur [] h = elim (Bool-cases (leb size (limit - cur))) [
    | inl fits ↦ rw fits (omega (arith, leb→le size (limit - cur) fits), λ a. refl)
    | inr tight ↦ rw tight tt
  ]
  place-Grown cur (c ∷ xs) h = elim (Bool-cases (leb size (c.start - cur))) [
    | inl fits ↦ rw fits (
      (omega arith, omega arith, (omega (arith, leb→le size (c.start - cur) fits), h.1, h.2)),
      λ a. refl,
    )
    | inr tight ↦
        rw tight (Grown-behind cur c xs h (place at size limit c.end xs) (place-Grown c.end xs h.2))
  ]
