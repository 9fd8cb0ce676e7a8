-- ===== src/Sums.antt =====
-- Sums over the first natural numbers, for what a number of threads has in common.
use threadsafe_memory_manage.Prelude.{
  ℕ, zero, suc, ◌+◌, ◌*◌, ◌≤◌, ◌<◌, ◌≡◌, ◌≢◌, refl, arith, ◌==◌, Bool-cases, inl, inr,
}

pub sum : ℕ → (ℕ → ℕ) → ℕ
sum zero f = 0
sum (suc n) f = sum n f + f n

-- Two functions that agree below `n` have one sum.
pub sum-same : (n : ℕ) (f g : ℕ → ℕ) → ((i : ℕ) → i < n → f i ≡ g i) → sum n f ≡ sum n g
unfolding sum
sum-same zero f g same = refl
sum-same (suc n) f g same =
    omega (arith, sum-same n f g (λ i h. same i (omega arith)), same n (omega arith))

-- Two functions that agree but at `i`.
pub sum-change :
    (n : ℕ) (f g : ℕ → ℕ) (i : ℕ)
    → i < n
    → ((j : ℕ) → j ≢ i → g j ≡ f j)
    → sum n g + f i ≡ sum n f + g i
unfolding sum
sum-change zero f g i h same = absurd (omega arith)
sum-change (suc n) f g i h same = elim (Bool-cases (n == i)) [
  | inl last ↦
      ground (arith, sum-same n g f (λ j below. same j (ground (arith, last, below))), last)
  | inr below ↦ ground (arith, sum-change n f g i, same, same n, below)
]

pub le-sum : (n : ℕ) (f : ℕ → ℕ) (i : ℕ) → i < n → f i ≤ sum n f
unfolding sum
le-sum zero f i h = absurd (omega arith)
le-sum (suc n) f i h = elim (Bool-cases (n == i)) [
  | inl last ↦ ground (arith, last)
  | inr below ↦ ground (arith, le-sum n f i, below)
]

pub sum-zero : (n : ℕ) (f : ℕ → ℕ) → ((i : ℕ) → f i ≡ 0) → sum n f ≡ 0
unfolding sum
sum-zero zero f h = refl
sum-zero (suc n) f h = omega (arith, sum-zero n f h, h n)

-- A sum that is not 0 has a part that is not.
pub some_part : (n : ℕ) (f : ℕ → ℕ) → 0 < sum n f → (i : ℕ) × (i < n) × (0 < f i)
unfolding sum
some_part zero f h = absurd (omega arith)
some_part (suc n) f h = elim (Bool-cases (f n == 0)) [
  | inl none_here ↦
      let (i, below, part) = some_part n f (ground (arith, h, none_here)) in (i, omega arith, part)
  | inr here ↦ (n, omega arith, ground (arith, here))
]

pub sum-le : (n : ℕ) (f : ℕ → ℕ) (k : ℕ) → ((i : ℕ) → i < n → f i ≤ k) → sum n f ≤ n * k
unfolding sum
sum-le zero f k h = omega arith
sum-le (suc n) f k h = grind (arith, sum-le n f k (λ i below. h i (omega arith)), h n (omega arith))

-- Parts of at most 1, of which one is 0, stay below their number.
pub sum-lt :
    (n : ℕ) (f : ℕ → ℕ) (i : ℕ) → ((j : ℕ) → j < n → f j ≤ 1) → i < n → f i ≡ 0 → sum n f < n
unfolding sum
sum-lt zero f i few h w = absurd (omega arith)
sum-lt (suc n) f i few h w = elim (Bool-cases (n == i)) [
  | inl last ↦ ground (arith, sum-le n f 1 (λ j below. few j (omega arith)), last, w)
  | inr below ↦
      ground (arith, sum-lt n f i (λ j below. few j (omega arith)), few n (omega arith), below, w)
]

-- A sum below the number of its parts has a part that is 0.
pub some_zero : (n : ℕ) (f : ℕ → ℕ) → sum n f < n → (i : ℕ) × (i < n) × (f i ≡ 0)
unfolding sum
some_zero zero f h = absurd (omega arith)
some_zero (suc n) f h = elim (Bool-cases (f n == 0)) [
  | inl here ↦ (n, omega arith, ground (arith, here))
  | inr there ↦ let (i, below, w) = some_zero n f (ground (arith, h, there)) in (i, omega arith, w)
]
