-- ===== src/LinkedList/Erase.antt =====
-- The first node with a value: the split of a list there, and the list without it.
use threadsafe_memory_manage.Prelude.{
  ℕ, ◌≡◌, refl, ap, Bool, true, false, ◌||◌, List, [], ◌∷◌, ◌++◌, arith, ◌==◌, if◌then◌else◌,
  Bool-cases, inl, inr,
}
use threadsafe_memory_manage.Word.{null}
use threadsafe_memory_manage.LinkedList.Nodes.{Item}
use threadsafe_memory_manage.LinkedList.Read.{find_value}

-- The list without its first node with the value.
unfoldable pub erase : ℕ → List Item → List Item
erase x [] = []
erase x (c ∷ xs) = if c.value == x then xs else c ∷ erase x xs

abbrev pub contains : ℕ → List Item → Bool
contains x [] = false
contains x (c ∷ xs) = (c.value == x) || contains x xs

-- The place of the first node with the value.
pub data Search (x : ℕ) : List Item → Type 0 where
  absent : {xs : List Item} → contains x xs ≡ false → Search x xs
  found :
      (pre : List Item) (d : Item) (post : List Item)
      → contains x pre ≡ false
      → (d.value == x) ≡ true
      → Search x (pre ++ d ∷ post)

pub missed :
    (x : ℕ) (c : Item) (xs : List Item) → contains x (c ∷ xs) ≡ false → (c.value == x) ≡ false
missed x c xs out = ground arith

split_behind :
    (x : ℕ) (c : Item) {xs : List Item} → (c.value == x) ≡ false → Search x xs → Search x (c ∷ xs)
split_behind x c miss (absent out) = absent (rw (miss, out) refl)
split_behind x c miss (found pre d post out hit) = found (c ∷ pre) d post (rw (miss, out) refl) hit

pub split_at_value : (x : ℕ) (xs : List Item) → Search x xs
split_at_value x [] = absent refl
split_at_value x (c ∷ xs) = elim (Bool-cases (c.value == x)) [
  | inl hit ↦ found [] c xs refl hit
  | inr miss ↦ split_behind x c miss (split_at_value x xs)
]

pub erase-append :
    (x : ℕ) (pre : List Item) (d : Item) (post : List Item)
    → contains x pre ≡ false
    → (d.value == x) ≡ true
    → erase x (pre ++ d ∷ post) ≡ pre ++ post
unfolding erase
erase-append x [] d post out hit = rw hit refl
erase-append x (c ∷ pre) d post out hit =
    rw (missed x c _ out) (ap (λ xs. c ∷ xs) (erase-append x pre d post (ground arith) hit))

pub erase-absent : (x : ℕ) (xs : List Item) → contains x xs ≡ false → erase x xs ≡ xs
unfolding erase
erase-absent x [] out = refl
erase-absent x (c ∷ xs) out =
    rw (missed x c _ out) (ap (λ ys. c ∷ ys) (erase-absent x xs (ground arith)))

pub find_value-append :
    (x : ℕ) (pre : List Item) (d : Item) (post : List Item)
    → contains x pre ≡ false
    → (d.value == x) ≡ true
    → find_value x (pre ++ d ∷ post) ≡ d.at
unfolding find_value
find_value-append x [] d post out hit = rw hit refl
find_value-append x (c ∷ pre) d post out hit =
    rw (missed x c _ out) (find_value-append x pre d post (ground arith) hit)

pub find_value-absent : (x : ℕ) (xs : List Item) → contains x xs ≡ false → find_value x xs ≡ null
unfolding find_value
find_value-absent x [] out = refl
find_value-absent x (c ∷ xs) out = rw (missed x c _ out) (find_value-absent x xs (ground arith))
