-- ===== src/Barrier/Counting.antt =====
-- How many of the first threads sleep.
use threadsafe_memory_manage.Prelude.{ℕ, ◌+◌, ◌≤◌, ◌<◌, ◌≡◌, ◌⊎◌, refl, ap, arith, inl, inr}
use threadsafe_memory_manage.Sums.{sum, sum-change, sum-le, sum-lt, sum-zero, some_zero}
use threadsafe_memory_manage.Barrier.{
  Pc, sleeping, outside, arriving, awake, leaving, Thread, update, woken, move_to,
}

abbrev pub asleep : Pc → ℕ
asleep outside = 0
asleep arriving = 0
asleep sleeping = 1
asleep awake = 0
asleep leaving = 0

pub asleep-cases : (p : Pc) → (p ≡ sleeping) ⊎ (asleep p ≡ 0)
asleep-cases outside = inr refl
asleep-cases arriving = inr refl
asleep-cases sleeping = inl refl
asleep-cases awake = inr refl
asleep-cases leaving = inr refl

-- A broadcast leaves no thread asleep.
pub asleep-woken : (t : Thread) → asleep (woken t).pc ≡ 0
asleep-woken t = by_pc t.pc refl
  where
    by_pc : (p : Pc) → t.pc ≡ p → asleep (woken t).pc ≡ 0
    by_pc outside e = rw (e, woken) (rw e refl)
    by_pc arriving e = rw (e, woken) (rw e refl)
    by_pc sleeping e = rw (e, woken) refl
    by_pc awake e = rw (e, woken) (rw e refl)
    by_pc leaving e = rw (e, woken) (rw e refl)

pub woken-sleeping : (t : Thread) → t.pc ≡ sleeping → woken t ≡ move_to awake t
woken-sleeping t e = rw (e, woken) refl

updated : (f : ℕ → Thread) (i : ℕ) (t : Thread) → update f i t i ≡ t
updated f i t = ground arith

pub how_many : ℕ → (ℕ → Thread) → ℕ
how_many n f = sum n λ i. asleep (f i).pc

asleep-le : (p : Pc) → asleep p ≤ 1
asleep-le outside = omega arith
asleep-le arriving = omega arith
asleep-le sleeping = omega arith
asleep-le awake = omega arith
asleep-le leaving = omega arith

pub how_many-update :
    (n : ℕ) (f : ℕ → Thread) (i : ℕ) (t : Thread)
    → i < n
    → how_many n (update f i t) + asleep (f i).pc ≡ how_many n f + asleep t.pc
unfolding how_many
how_many-update n f i t h = omega (
  arith,
  sum-change n (λ j. asleep (f j).pc) (λ j. asleep (update f i t j).pc) i h
      λ j ne. ground (arith, ne),
  ap (λ u. asleep u.pc) (updated f i t),
)

pub how_many-le : (n : ℕ) (f : ℕ → Thread) → how_many n f ≤ n
unfolding how_many
how_many-le n f = omega (arith, sum-le n (λ i. asleep (f i).pc) 1 λ i below. asleep-le (f i).pc)

-- One of them awake, and they are less than all.
pub how_many-lt : (n : ℕ) (f : ℕ → Thread) (i : ℕ) → i < n → asleep (f i).pc ≡ 0 → how_many n f < n
unfolding how_many
how_many-lt n f i h w = sum-lt n (λ j. asleep (f j).pc) i (λ j below. asleep-le (f j).pc) h w

pub how_many-eq-zero : (n : ℕ) (f : ℕ → Thread) → ((i : ℕ) → asleep (f i).pc ≡ 0) → how_many n f ≡ 0
unfolding how_many
how_many-eq-zero n f h = sum-zero n (λ i. asleep (f i).pc) h

-- Less than all, and one of them is awake.
pub some_awake :
    (n : ℕ) (f : ℕ → Thread) → how_many n f < n → (i : ℕ) × (i < n) × (asleep (f i).pc ≡ 0)
unfolding how_many
some_awake n f h = some_zero n (λ i. asleep (f i).pc) h
