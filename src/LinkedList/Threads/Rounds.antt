-- ===== src/LinkedList/Threads/Rounds.antt =====
-- One round of the loop of a reader.
use mathlib.Core.List.{append_assoc}
use threadsafe_memory_manage.Prelude.{
  if_true, if_false, ℕ, ◌+◌, ◌-◌, ◌^◌, ◌≤◌, ◌≡◌, refl, sym, subst, ◌∙◌, Option, List, [], ◌∷◌, ◌++◌,
  arith, ◌==◌, Bool-cases, inl, inr, length, ==→eq,
}
use threadsafe_memory_manage.Word.{Ptr, null}
use threadsafe_memory_manage.Run.{ok, fault}
use threadsafe_memory_manage.NodeStore.{Node, Program}
use threadsafe_memory_manage.LinkedList.{Token, opening, number, comma, closing}
use threadsafe_memory_manage.LinkedList.Nodes.{Item, not_null, load_node-ok, Seg, nil, link}
use threadsafe_memory_manage.Manager.Chain.{Cell}
use threadsafe_memory_manage.LinkedList.Valid.{Stores}
use threadsafe_memory_manage.LinkedList.Read.{values, find_value, commas}
use threadsafe_memory_manage.LinkedList.Threads.{
  start_reading, Query, Reading, searching, counting, displaying, Answer, found, counted, printed,
  query, going, done, read_round,
}

abbrev pub cursor : Reading → Ptr
cursor (searching value current) = current
cursor (counting m current) = current
cursor (displaying out current) = current

-- With `rest` still to read of the list `xs`, the reader is on the way to the answer for `xs`.
abbrev pub OnTheWay : Reading → List Item → List Item → Type 0
OnTheWay (searching value current) xs rest = find_value value xs ≡ find_value value rest
OnTheWay (counting m current) xs rest = length xs ≡ m + length rest
OnTheWay (displaying out current) xs rest =
    opening ∷ commas (values xs) ≡ out ++ commas (values rest)

pub record Reads (h : Ptr → Option Node) (xs : List Item) (r : Reading) : Type 0 where
  pub rest : List Item
  pub chain : Seg h null (cursor r) rest
  pub way : OnTheWay r xs rest

-- The answer to a query, of the functions that run alone.
abbrev pub Says : Query → Answer → List Item → Type 0
Says (Query.search value) (found p) xs = p ≡ find_value value xs
Says Query.count (counted m) xs = m ≡ length xs
Says Query.display (printed out) xs = out ≡ opening ∷ commas (values xs)
Says _ _ xs = ⊥

-- How a round ends. It faults only where an `int` cannot hold the count.
pub data Rounded (s : Program) (xs : List Item) (r : Reading) : Type 0 where
  goes : (r' : Reading) → read_round r s ≡ ok (going r') s → Reads s.nodes xs r' → Rounded s xs r
  ends : (a : Answer) → read_round r s ≡ ok (done a) s → Says (query r) a xs → Rounded s xs r
  overflows : read_round r s ≡ fault → 2 ^ 31 ≤ length xs → Rounded s xs r

module _ (s : Program) (xs : List Item) where
  search-Rounded :
      (value : ℕ) (current : Ptr) (rest : List Item)
      → Seg s.nodes null current rest
      → find_value value xs ≡ find_value value rest
      → Rounded s xs (searching value current)
  unfolding read_round find_value
  search-Rounded value current [] nil way = ends (found null) refl (sym way)
  search-Rounded value current (c ∷ rest) (link {q} e n out r) way =
      elim (Bool-cases (c.value == value)) [
        | inl hit ↦
            ends (found current) (rw (not_null n, load_node-ok s n, hit))
              (e ∙ sym (way ∙ if_true c.at (find_value value rest) (c.value == value) hit))
        | inr miss ↦ goes (searching value q) (rw (not_null n, load_node-ok s n, miss)) (record {
          rest = rest;
          chain = r;
          way = way ∙ if_false c.at (find_value value rest) (c.value == value) miss;
        })
      ]

  count-Rounded :
      (m : ℕ) (current : Ptr) (rest : List Item)
      → Seg s.nodes null current rest
      → length xs ≡ m + length rest
      → Rounded s xs (counting m current)
  unfolding read_round
  count-Rounded m current [] nil way = ends (counted m) refl (omega (arith, way))
  count-Rounded m current (c ∷ rest) (link {q} e n out r) way =
      elim (Bool-cases (m == 2 ^ 31 - 1)) [
        | inl full ↦ overflows (rw (not_null n, full)) (omega (arith, ==→eq m (2 ^ 31 - 1) full))
        | inr more ↦
            goes (counting (m + 1) q) (rw (not_null n, more, load_node-ok s n))
              (record { rest = rest; chain = r; way = omega (arith, way) })
      ]

  display-Rounded :
      (printed_before : List Token) (current : Ptr) (rest : List Item)
      → Seg s.nodes null current rest
      → opening ∷ commas (values xs) ≡ printed_before ++ commas (values rest)
      → Rounded s xs (displaying printed_before current)
  unfolding read_round commas
  display-Rounded before current [] nil way = ends (printed (before ++ closing ∷ [])) refl (sym way)
  display-Rounded before current (c ∷ []) (link {q} e n out nil) way =
      goes (displaying (before ++ number c.value ∷ []) null) (rw (not_null n, load_node-ok s n))
        (record {
          rest = [];
          chain = nil;
          way = way ∙ sym (append_assoc before (number c.value ∷ []) (closing ∷ []));
        })
  display-Rounded before current (c ∷ d ∷ rest) (link {q} e n out (link e2 n2 out2 r)) way =
      goes (displaying (before ++ number c.value ∷ comma ∷ []) q)
        (rw (not_null n, load_node-ok s n, not_null n2))
        (record {
          rest = d ∷ rest;
          chain = link e2 n2 out2 r;
          way =
              way
              ∙ sym
                  (append_assoc before (number c.value ∷ comma ∷ []) (commas (values (d ∷ rest))));
        })

  pub read_round-Rounded : (r : Reading) → Reads s.nodes xs r → Rounded s xs r
  read_round-Rounded (searching value current) v = search-Rounded value current v.rest v.chain v.way
  read_round-Rounded (counting m current) v = count-Rounded m current v.rest v.chain v.way
  read_round-Rounded (displaying before current) v =
      display-Rounded before current v.rest v.chain v.way

pub start-Reads :
    (q : Query) (s : Program) (xs : List Item) (ys : List Cell)
    → Stores s xs ys
    → Reads s.nodes xs (start_reading q s.head)
start-Reads (Query.search value) s xs ys v = record { rest = xs; chain = v.chain; way = refl }
start-Reads Query.count s xs ys v = record { rest = xs; chain = v.chain; way = omega arith }
start-Reads Query.display s xs ys v = record { rest = xs; chain = v.chain; way = refl }

pub goes_on :
    {s : Program} {xs : List Item} {r r' : Reading}
    → Rounded s xs r
    → read_round r s ≡ ok (going r') s
    → Reads s.nodes xs r'
goes_on {s} {xs} (goes r'' e v) e' =
    let same : r'' ≡ _ = cc (e, e') in subst (Reads s.nodes xs) same v
goes_on (ends a e v) e' = cc (e, e')
goes_on (overflows e h) e' = cc (e, e')

pub ends_with :
    {s : Program} {xs : List Item} {r : Reading} {a : Answer}
    → Rounded s xs r
    → read_round r s ≡ ok (done a) s
    → Says (query r) a xs
ends_with (goes r'' e v) e' = cc (e, e')
ends_with {xs} {r} {a} (ends b e v) e' =
    let same : b ≡ a = cc (e, e') in subst (λ c. Says (query r) c xs) same v
ends_with (overflows e h) e' = cc (e, e')
