-- ===== src/LinkedList/Read.antt =====
-- The functions of linked_list.c that only read: search, count and display.
use threadsafe_memory_manage.Prelude.{
  ℕ, zero, suc, ◌+◌, ◌-◌, ◌^◌, ◌<◌, ◌≡◌, refl, sym, ap, ◌∙◌, List, [], ◌∷◌, arith, ◌==◌,
  if◌then◌else◌, Bool-cases, inl, inr, length, ==→eq, ne→==, eq→==,
}
use threadsafe_memory_manage.Word.{Ptr, null}
use threadsafe_memory_manage.Run.{ok}
use threadsafe_memory_manage.NodeStore.{Program, idle, shared, rdlock, rwunlock}
use threadsafe_memory_manage.Manager.Chain.{Cell}
use threadsafe_memory_manage.LinkedList.{
  rounds, search_loop, list_search, count_loop, list_count_nodes, Token, opening, number, comma,
  closing, display_loop, list_display_range, list_display,
}
use threadsafe_memory_manage.LinkedList.Nodes.{
  Item, null-not-has, nil_of_null, not_null, load_node-ok, ◌∉◌, Seg, nil, link,
}
use threadsafe_memory_manage.LinkedList.Valid.{IsList, length-lt_rounds}

abbrev pub values : List Item → List ℕ
values [] = []
values (c ∷ xs) = c.value ∷ values xs

-- The first node with a value, or NULL.
unfoldable pub find_value : ℕ → List Item → Ptr
find_value v [] = null
find_value v (c ∷ xs) = if c.value == v then c.at else find_value v xs

abbrev pub with_lock : Program → Program
with_lock s = record s { list_lock = shared zero }

pub rdlock-ok : (s : Program) → s.list_lock ≡ idle → rdlock s ≡ ok tt (with_lock s)
unfolding rdlock
rdlock-ok s e = rw (e, rdlock)

-- Unlocking restores the state.
pub rwunlock-ok : (s : Program) → s.list_lock ≡ idle → rwunlock (with_lock s) ≡ ok tt s
unfolding rwunlock
rwunlock-ok s e = ap (λ l. ok tt (record s { list_lock = l })) (sym e)

search_loop-find_value :
    (k v : ℕ) (s : Program) {p : Ptr} (xs : List Item)
    → Seg s.nodes null p xs
    → length xs < k
    → search_loop k v p s ≡ ok (find_value v xs) s
unfolding search_loop find_value
search_loop-find_value zero v s xs r fuel = absurd (omega arith)
search_loop-find_value (suc k) v s [] nil fuel = refl
search_loop-find_value (suc k) v s (c ∷ xs) (link {p} e n out r) fuel =
    elim (Bool-cases (c.value == v)) [
      | inl hit ↦ rw (not_null n, load_node-ok s n, hit, e)
      | inr miss ↦
          rw (not_null n, load_node-ok s n, miss) (search_loop-find_value k v s xs r (omega arith))
    ]

count_loop-length :
    (k n : ℕ) (s : Program) {p : Ptr} (xs : List Item)
    → Seg s.nodes null p xs
    → length xs < k
    → n + length xs < 2 ^ 31
    → count_loop k n p s ≡ ok (n + length xs) s
unfolding count_loop
count_loop-length zero m s xs r fuel small = absurd (omega arith)
count_loop-length (suc k) m s [] nil fuel small = ap (λ c. ok c s) (omega arith)
count_loop-length (suc k) m s (c ∷ xs) (link {p} e n out r) fuel small =
    rw (not_null n, ne→== m (2 ^ 31 - 1) (omega arith), load_node-ok s n)
      (count_loop-length k (m + 1) s xs r (omega arith) (omega arith)
        ∙ ap (λ c. ok c s) (omega arith))

-- The values, with a comma and a space between, and the brackets.
unfoldable pub commas : List ℕ → List Token
commas [] = closing ∷ []
commas (v ∷ []) = number v ∷ closing ∷ []
commas (v ∷ w ∷ vs) = number v ∷ comma ∷ commas (w ∷ vs)

pub display_loop-commas :
    (k : ℕ) (s : Program) {p stop : Ptr} (xs : List Item)
    → Seg s.nodes stop p xs
    → stop ∉ xs
    → length xs < k
    → display_loop k p stop s ≡ ok (commas (values xs)) s
unfolding display_loop commas
display_loop-commas zero s xs r out fuel = absurd (omega arith)
display_loop-commas (suc k) s {stop} [] nil out fuel = ground arith
display_loop-commas (suc zero) s (c ∷ xs) r out fuel = absurd (omega arith)
display_loop-commas (suc (suc k)) s {stop} (c ∷ []) (link {p} e n out' nil) out fuel =
    rw
      (
        not_null n,
        ne→== p stop (ground arith),
        load_node-ok s n,
        display_loop-commas (suc k) s {p = stop} {stop = stop} [] nil refl (omega arith),
        eq→== stop stop refl,
      )
      (ground arith)
display_loop-commas (suc (suc k)) s {stop} (c ∷ d ∷ xs) (link {p} {q} e n out' (link e2 m out2 r))
      out fuel =
    rw (
      not_null n,
      ne→== p stop (ground arith),
      load_node-ok s n,
      display_loop-commas (suc k) s {p = q} {stop = stop} (d ∷ xs) (link e2 m out2 r) (ground arith)
          (omega arith),
      not_null m,
      ne→== q stop (ground arith),
    )

module _ (s : Program) (xs : List Item) (ys : List Cell) (v : IsList s xs ys) where
  within_rounds : length xs < rounds s
  within_rounds = length-lt_rounds s xs ys v.stores

  -- On a well-formed list, `list_search` returns the first node with the value, or NULL if there is
  -- none, and leaves the state, its lock included, as it was.
  pub list_search-find_value : (x : ℕ) → list_search x s ≡ ok (find_value x xs) s
  unfolding list_search
  list_search-find_value x = rw (
    rdlock-ok s v.free_lock,
    search_loop-find_value (rounds s) x (with_lock s) xs v.stores.chain within_rounds,
    rwunlock-ok s v.free_lock,
  )

  -- On a well-formed list of less than 2 ^ 31 nodes, `list_count_nodes` returns their number and
  -- leaves the state as it was.
  pub list_count_nodes-length : length xs < 2 ^ 31 → list_count_nodes s ≡ ok (length xs) s
  unfolding list_count_nodes
  list_count_nodes-length small = elim (Bool-cases (s.head == null)) [
    | inl empty ↦
        rw (rdlock-ok s v.free_lock, empty, rwunlock-ok s v.free_lock)
          (ap (λ zs. ok (length zs) s) (sym (nil_of_null v.stores.chain (==→eq s.head null empty))))
    | inr more ↦
        rw
          (
            rdlock-ok s v.free_lock,
            more,
            count_loop-length (rounds s) 0 (with_lock s) xs v.stores.chain within_rounds
                (omega arith),
            rwunlock-ok s v.free_lock,
          )
          (ap (λ n. ok n s) (omega arith))
  ]

  -- On a well-formed list, `list_display` prints all values in order, with a comma between two, in
  -- brackets, and leaves the state as it was.
  pub list_display-commas : list_display s ≡ ok (opening ∷ commas (values xs)) s
  unfolding list_display list_display_range
  list_display-commas = rw (
    rdlock-ok s v.free_lock,
    display_loop-commas (rounds s) (with_lock s) {p = s.head} {stop = null} xs v.stores.chain
        (null-not-has v.stores.chain) within_rounds,
    rwunlock-ok s v.free_lock,
  )
