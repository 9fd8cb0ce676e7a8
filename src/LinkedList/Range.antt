-- ===== src/LinkedList/Range.antt =====
-- `list_display_range` between two nodes of a list.
use threadsafe_memory_manage.Prelude.{
  ◌≤◌, ◌≡◌, refl, subst, Option, List, [], ◌∷◌, ◌++◌, arith, length,
}
use threadsafe_memory_manage.Word.{Ptr, null}
use threadsafe_memory_manage.Run.{ok}
use threadsafe_memory_manage.Manager.Chain.{Cell}
use threadsafe_memory_manage.NodeStore.{Node, Program}
use threadsafe_memory_manage.LinkedList.{rounds, opening, list_display_range}
use threadsafe_memory_manage.LinkedList.Nodes.{
  node, Item, HasNode, not_null, load_node-ok, ◌∈◌, ◌∉◌, null-not-has, Seg, nil, link,
}
use threadsafe_memory_manage.LinkedList.Link.{last, Seg-split, Seg-uncons, Seg-apart}
use threadsafe_memory_manage.LinkedList.Valid.{IsList, length-lt_rounds}
use threadsafe_memory_manage.LinkedList.Read.{
  values, commas, with_lock, rdlock-ok, rwunlock-ok, display_loop-commas,
}

-- The last node of a segment leads to its end.
Seg-last :
    {h : Ptr → Option Node} {stop p : Ptr} (c : Item) (xs : List Item)
    → Seg h stop p (c ∷ xs)
    → HasNode h (last c xs).at (node (last c xs).value stop)
Seg-last {h} {stop} c [] (link e n o nil) = subst (λ a. HasNode h a (node c.value stop)) e n
Seg-last c (d ∷ xs) (link e n o r) = Seg-last d xs r

-- The end of a segment, where the rest of the chain begins, is no node of it.
end-not-has :
    {h : Ptr → Option Node} {stop p : Ptr} (xs ys : List Item)
    → Seg h stop p xs
    → Seg h null stop ys
    → ((a : Ptr) → a ∈ xs → a ∉ ys)
    → stop ∉ xs
end-not-has xs [] r nil apart = null-not-has r
end-not-has {stop} xs (d ∷ ys) r (link e n o rest) apart = ground (arith, apart stop, e)

length-part : (xs ys zs : List Item) → length ys ≤ length (xs ++ (ys ++ zs))
length-part [] [] zs = omega arith
length-part [] (y ∷ ys) zs = omega (arith, length-part [] ys zs)
length-part (x ∷ xs) ys zs = omega (arith, length-part xs ys zs)

-- On a well-formed list, `list_display_range` from one node to the same or a later one prints their
-- values and those between, in order, with a comma between two, in brackets, and leaves the state as
-- it was.
pub list_display_range-commas :
    (s : Program) (pre : List Item) (c : Item) (xs post : List Item) (ys : List Cell)
    → IsList s (pre ++ ((c ∷ xs) ++ post)) ys
    → list_display_range c.at (last c xs).at s ≡ ok (opening ∷ commas (values (c ∷ xs))) s
unfolding list_display_range
list_display_range-commas s pre c xs post ys v =
    let w = with_lock s in
    let (start, front, rest) = Seg-split pre ((c ∷ xs) ++ post) v.stores.chain in
    let (stop, body, back) = Seg-split (c ∷ xs) post rest in
    let (next, e, n, o, r) = Seg-uncons body in
    let out = end-not-has (c ∷ xs) post body back (Seg-apart (c ∷ xs) post rest) in
    let end = Seg-last c xs body in
    rw
      (
        rdlock-ok s v.free_lock,
        not_null (subst (λ a. HasNode s.nodes a (node c.value next)) e n),
        not_null end,
        load_node-ok w end,
        display_loop-commas (rounds s) w {p = c.at} {stop = stop} (c ∷ xs)
            (subst (λ a. Seg s.nodes stop a (c ∷ xs)) e body) out
            (omega (
              arith,
              length-part pre (c ∷ xs) post,
              length-lt_rounds s (pre ++ ((c ∷ xs) ++ post)) ys v.stores,
            )),
        rwunlock-ok s v.free_lock,
      )
      refl
