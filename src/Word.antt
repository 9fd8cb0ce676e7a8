-- ===== src/Word.antt =====
-- Addresses and `size_t` of the 64-bit target: `void *` arithmetic as memory_manager.c uses it.
-- A pointer is its address and NULL is 0; sums and differences wrap at 2 ^ 64.
use threadsafe_memory_manage.Prelude.{ℕ, ◌+◌, ◌-◌, ◌%◌, ◌^◌, ◌≤◌, ◌<◌, ◌≡◌, arith}

abbrev pub Ptr : Type 0
Ptr = ℕ

abbrev pub null : Ptr
null = 0

-- `p + n`
unfoldable pub ptr_add : Ptr → ℕ → Ptr
ptr_add p n = (p + n) % 2 ^ 64

-- `p - q`, converted to `size_t`
unfoldable pub ptr_sub : Ptr → Ptr → ℕ
ptr_sub p q = (p + 2 ^ 64 - q) % 2 ^ 64

pub ptr_add-exact : (p n : ℕ) → p + n < 2 ^ 64 → ptr_add p n ≡ p + n
unfolding ptr_add
ptr_add-exact p n h = omega arith

pub ptr_sub-exact : (p q : ℕ) → q ≤ p → p < 2 ^ 64 → ptr_sub p q ≡ p - q
unfolding ptr_sub
ptr_sub-exact p q h k = omega arith
