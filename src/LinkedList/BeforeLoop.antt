-- ===== src/LinkedList/BeforeLoop.antt =====
-- The loop of `list_insert_before`, and the choice of the head or the loop.
use threadsafe_memory_manage.Prelude.{
  ◌∙◌, ℕ, zero, suc, ◌<◌, ◌≡◌, ◌≢◌, refl, sym, ap, some, List, [], ◌∷◌, arith, ◌==◌, if◌then◌else◌,
  eq→==, ne→==, length,
}
use threadsafe_memory_manage.Word.{Ptr, null}
use threadsafe_memory_manage.Run.{Cmd, ok}
use threadsafe_memory_manage.NodeStore.{Program, put_node, set_head}
use threadsafe_memory_manage.LinkedList.{rounds, before_loop}
use threadsafe_memory_manage.LinkedList.Nodes.{
  node, not_null, load_node-ok, set_next-ok, Item, ◌∉◌, null_of_nil, Seg, nil, link,
}
use threadsafe_memory_manage.LinkedList.Link.{joined, Seg-uncons}

-- The loop changes the `next` that leads to the node.
before_loop-found :
    (k : ℕ) (s : Program) (new q : Ptr) {p : Ptr} (c : Item) (pre : List Item)
    → Seg s.nodes q p (c ∷ pre)
    → q ∉ (c ∷ pre)
    → length pre < k
    → before_loop k new q p s ≡ ok tt (joined (c ∷ pre) new s)
unfolding before_loop
before_loop-found zero s new q c pre r out fuel = absurd (omega arith)
before_loop-found (suc k) s new q c [] (link {p} e n o nil) out fuel =
    rw (not_null n, load_node-ok s n, eq→== q q refl, set_next-ok s n new)
      (ap (λ a. ok tt (put_node a (some (node c.value new)) s)) e)
before_loop-found (suc k) s new q c (d ∷ pre) (link {p} e n o (link {p = m} e2 n2 o2 r)) out fuel =
    rw (not_null n, load_node-ok s n, ne→== m q (ground arith))
      (before_loop-found k s new q d pre (link e2 n2 o2 r) (ground arith) (omega arith))

-- Where no `next` leads to the node, it changes nothing.
before_loop-absent :
    (k : ℕ) (s : Program) (new q : Ptr) {p : Ptr} (xs : List Item)
    → Seg s.nodes null p xs
    → q ∉ xs
    → q ≢ null
    → length xs < k
    → before_loop k new q p s ≡ ok tt s
unfolding before_loop
before_loop-absent zero s new q xs r out ne fuel = absurd (omega arith)
before_loop-absent (suc k) s new q [] nil out ne fuel = refl
before_loop-absent (suc zero) s new q (c ∷ xs) r out ne fuel = absurd (omega arith)
before_loop-absent (suc (suc k)) s new q (c ∷ []) (link {p} e n o nil) out ne fuel =
    rw (not_null n, load_node-ok s n, ne→== null q (λ e. ne (sym e))) refl
before_loop-absent (suc (suc k)) s new q (c ∷ d ∷ xs) (link {p} e n o (link {p = m} e2 n2 o2 r)) out
      ne fuel =
    rw (not_null n, load_node-ok s n, ne→== m q (ground arith))
      (before_loop-absent (suc k) s new q (d ∷ xs) (link e2 n2 o2 r) (ground arith) ne
        (omega arith))

-- The choice behind the two assignments to the new node.
abbrev pub link_before : ℕ → Ptr → Ptr → Ptr → Cmd Program (Unit {0})
link_before fuel new q head = if q == head then set_head new else before_loop fuel new q head

abbrev pub link_now : Ptr → Ptr → Cmd Program (Unit {0})
link_now new q s = link_before (rounds s) new q s.head s

pub link_before-joined :
    (k : ℕ) (s : Program) (new q head : Ptr) (pre : List Item)
    → Seg s.nodes q head pre
    → q ∉ pre
    → length pre < k
    → link_before k new q head s ≡ ok tt (joined pre new s)
link_before-joined k s new q head [] r out fuel = rw (eq→== q head (sym (null_of_nil r))) refl
link_before-joined k s new q head (c ∷ pre) r out fuel =
    let (next, e, n, o, rest) = Seg-uncons r in
    rw (ne→== q head (ground arith)) (before_loop-found k s new q c pre r out (omega arith))

pub link_before-absent :
    (k : ℕ) (s : Program) (new q head : Ptr) (xs : List Item)
    → Seg s.nodes null head xs
    → q ∉ xs
    → q ≢ null
    → length xs < k
    → link_before k new q head s ≡ ok tt s
link_before-absent k s new q head [] r out ne fuel =
    let here = null_of_nil r in
    rw (ne→== q head (λ e. ne (e ∙ here))) (before_loop-absent k s new q [] r out ne fuel)
link_before-absent k s new q head (c ∷ xs) r out ne fuel =
    let (next, e, n, o, rest) = Seg-uncons r in
    rw (ne→== q head (ground arith)) (before_loop-absent k s new q (c ∷ xs) r out ne fuel)
