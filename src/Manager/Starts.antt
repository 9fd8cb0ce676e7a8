-- ===== src/Manager/Starts.antt =====
-- Where the regions of a list start: what allocation adds, and what release takes away.
use threadsafe_memory_manage.Prelude.{
  ℕ, suc, not, ◌-◌, ◌<◌, ◌≡◌, ◌≢◌, ◌⊎◌, inl, inr, refl, ap, Bool, true, false, ◌&&◌, ◌||◌, Option,
  none, some, List, [], ◌∷◌, arith, ltb, leb, ◌==◌, Bool-cases, length, ==→eq, ltb→lt,
}
use threadsafe_memory_manage.Word.{Ptr, null}
use threadsafe_memory_manage.Run.Returns
use threadsafe_memory_manage.Run.Returns.{Returns}
use threadsafe_memory_manage.Machine.{unlocked, Manager, Fresh}
use threadsafe_memory_manage.Manager.{mem_alloc}
use threadsafe_memory_manage.Manager.Chain.{Cell}
use threadsafe_memory_manage.Manager.FirstFit.{
  NoRoom, Packed, Apart, behind, place, place-Placed, Placed,
}
use threadsafe_memory_manage.Manager.Valid.{limit, IsValid, Kept, settle, allocate}
use threadsafe_memory_manage.Manager.Free.{release}
use threadsafe_memory_manage.Manager.Locked.{mem_alloc-allocate}

unfoldable pub starts : Ptr → List Cell → Bool
starts a [] = false
starts a (c ∷ xs) = (a == c.start) || starts a xs

starts-above : (a lo hi : Ptr) (xs : List Cell) → Packed lo hi xs → a < lo → starts a xs ≡ false
unfolding starts
starts-above a lo hi [] packed low = refl
starts-above a lo hi (c ∷ xs) packed low = ground (arith, starts-above a c.end hi xs packed.2)

-- After a release no region starts there; elsewhere nothing changes.
pub starts-release :
    (b a lo hi : Ptr) (xs : List Cell)
    → Packed lo hi xs
    → starts a (release b xs) ≡ (not (a == b) && starts a xs)
unfolding starts release
starts-release b a lo hi [] packed = ground arith
starts-release b a lo hi (c ∷ xs) packed = elim (Bool-cases (c.start == b)) [
  | inl hit ↦ rw hit (ground (arith, starts-above a c.end hi xs packed.2))
  | inr miss ↦ rw miss (ground (arith, starts-release b a c.end hi xs packed.2))
]

pub starts-release_ne : (b a : Ptr) (xs : List Cell) → a ≢ b → starts a (release b xs) ≡ starts a xs
unfolding starts release
starts-release_ne b a [] ne = refl
starts-release_ne b a (c ∷ xs) ne = elim (Bool-cases (c.start == b)) [
  | inl hit ↦ rw hit (ground arith)
  | inr miss ↦ rw miss (ground (arith, starts-release_ne b a xs ne))
]

pub length-release :
    (b : Ptr) (xs : List Cell) → starts b xs ≡ true → suc (length (release b xs)) ≡ length xs
unfolding starts release
length-release b [] h = cc
length-release b (c ∷ xs) h = elim (Bool-cases (c.start == b)) [
  | inl hit ↦ rw hit refl
  | inr miss ↦ rw miss (ap suc (length-release b xs (ground arith)))
]

-- A region in a free place begins where no other does.
starts-Apart :
    (size p lo hi : Ptr) (xs : List Cell)
    → 0 < size
    → Packed lo hi xs
    → Apart size p xs
    → starts p xs ≡ false
unfolding starts
starts-Apart size p lo hi [] pos packed apart = refl
starts-Apart size p lo hi (c ∷ xs) pos packed apart =
    ground (arith, starts-Apart size p c.end hi xs pos packed.2 apart.1)

abbrev Begun : List Cell → Option (Ptr × List Cell) → Type 0
Begun xs none = Unit {0}
Begun xs (some (p, ys)) =
    ((a : Ptr) → starts a ys ≡ (a == p || starts a xs)) × (length ys ≡ suc (length xs))

Begun-behind :
    (c : Cell) (xs : List Cell) (r : Option (Ptr × List Cell))
    → Begun xs r
    → Begun (c ∷ xs) (behind c r)
unfolding starts
Begun-behind c xs none h = tt
Begun-behind c xs (some (p, ys)) (at, count) = (λ a. ground (arith, at a), omega (arith, count))

place-Begun : (new size limit cur : Ptr) (xs : List Cell) → Begun xs (place new size limit cur xs)
unfolding starts place
place-Begun new size limit cur [] = elim (Bool-cases (leb size (limit - cur))) [
  | inl fits ↦ rw fits (λ a. refl, refl)
  | inr tight ↦ rw tight tt
]
place-Begun new size limit cur (c ∷ xs) = elim (Bool-cases (leb size (c.start - cur))) [
  | inl fits ↦ rw fits (λ a. refl, refl)
  | inr tight ↦
      rw tight
        (Begun-behind c xs (place new size limit c.end xs) (place-Begun new size limit c.end xs))
]

-- What a client sees of an allocation.
pub record New (xs : List Cell) (p : Ptr) (ys : List Cell) : Type 0 where
  pub given : p ≢ null
  pub unused : starts p xs ≡ false
  pub begun : (a : Ptr) → starts a ys ≡ (a == p || starts a xs)
  pub counted : length ys ≡ suc (length xs)

abbrev pub Offered : Ptr → ℕ → Ptr → Ptr → List Cell → Ptr → List Cell → Type 0
Offered new size lo hi xs p ys = ((p ≡ null) × (ys ≡ xs) × NoRoom new size lo hi xs) ⊎ New xs p ys

module _ (new : Ptr) (size : ℕ) (lo hi : Ptr) (xs : List Cell) (packed : Packed lo hi xs)
    (pos : 0 < size) (ne : lo ≢ null) where
  settle-Offered :
      (o : Option (Ptr × List Cell))
      → Placed new size hi lo xs o
      → Begun xs o
      → Offered new size lo hi xs (settle xs o).0 (settle xs o).1
  settle-Offered none full b = inl (refl, refl, inr full)
  settle-Offered (some (p, ys)) (free, least) (begun, counted) = inr (record {
    given = ground (arith, free.above);
    unused = starts-Apart size p lo hi xs pos packed free.apart;
    begun = begun;
    counted = counted;
  })

  allocate-Offered :
      Offered new size lo hi xs (allocate new size lo hi xs).0 (allocate new size lo hi xs).1
  unfolding allocate
  allocate-Offered = elim (Bool-cases (ltb (hi - lo) size)) [
    | inl large ↦
        rw large (
          inl (refl, refl, inr λ q f. omega (arith, f.above, f.below, ltb→lt (hi - lo) size large)))
    | inr room ↦ elim (Bool-cases (size == 0)) [
      | inl empty ↦ absurd (omega (arith, ==→eq size 0 empty))
      | inr bytes ↦ elim (Bool-cases (new == null)) [
        | inl exhausted ↦
            rw (room, bytes, exhausted) (inl (refl, refl, inl (==→eq new null exhausted)))
        | inr given ↦
            rw (room, bytes, given)
              (settle-Offered (place new size hi lo xs) (place-Placed new size pos hi lo xs packed)
                (place-Begun new size hi lo xs))
      ]
    ]
  ]

pub mem_alloc-Offered :
    (s : Manager) (xs : List Cell) (f : Fresh) (size : ℕ)
    → IsValid s xs
    → s.lock ≡ unlocked
    → s.blocks f.at ≡ none
    → 0 < size
    → Returns
        (λ p t.
          (ys : List Cell) × IsValid t ys × Kept s t × Offered f.at size s.memory (limit s) xs p ys)
        (mem_alloc f size s)
mem_alloc-Offered s xs f size v idle free pos =
    Returns.mono (mem_alloc-allocate s v idle f size free) λ p t a. (
      (allocate f.at size s.memory (limit s) xs).1,
      a.owns,
      a.kept,
      rw a.result (allocate-Offered f.at size s.memory (limit s) xs v.packed pos v.nonnull),
    )
