-- ===== src/Manager/Reconnect.antt =====
-- The way back of `mem_resize`: after a failed allocation the block returns to its place in the list.
use threadsafe_memory_manage.Prelude.{
  ◌≡◌, refl, sym, ap, ◌∙◌, false, ◌||◌, Option, none, some, List, [], ◌∷◌, ◌++◌, arith, ne→==,
  eq→==,
}
use threadsafe_memory_manage.Word.{Ptr, null}
use threadsafe_memory_manage.Run.{ok}
use threadsafe_memory_manage.Machine.{MemoryBlock, Manager, write}
use threadsafe_memory_manage.Manager.{connect}
use threadsafe_memory_manage.Manager.Chain
use threadsafe_memory_manage.Manager.Chain.{
  Chain-head, Cell, block, has, ◌∈◌, ◌∉◌, ne_of_has, Chain, nil, link,
}
use threadsafe_memory_manage.Manager.Valid.{Owns, IsValid, Kept, Owns-Kept, Kept-trans}
use threadsafe_memory_manage.Manager.Find.{Found, has-append}
use threadsafe_memory_manage.Manager.Unlink.{
  joined, connect-joined, joined-front, joined-outside, joined-Kept, Chain-append,
}
use threadsafe_memory_manage.Manager.Free.{disconnected-out}

-- A segment can be cut in two.
Chain-split :
    {h : Ptr → Option MemoryBlock} {stop p : Ptr} (xs ys : List Cell)
    → Chain h stop p (xs ++ ys)
    → (mid : Ptr) × Chain h mid p xs × Chain h stop mid ys
Chain-split {p} [] ys r = (p, nil, r)
Chain-split (c ∷ xs) ys (link {p} e pt out r) =
    let (mid, front, back) = Chain-split xs ys r in
    (mid, link e pt (ground (arith, has-append p xs ys)) front, back)

module _ {s : Manager} {b : Ptr} {xs : List Cell} (v : IsValid s xs) {pre post : List Cell}
    {c : Cell} {r : Ptr × Ptr} (f : Found s.blocks b null s.memory_head xs pre c post r) where
  -- `t` is the state after the failed allocation: its list is that without the block.
  module _ {t : Manager}
      (w : Owns (write (λ _. none) r.1 (some (block c f.next))) t (pre ++ post)) where
    abbrev pub back : Manager
    back = joined pre r.1 t

    pub reconnect-ok : connect r.0 r.1 t ≡ ok tt back
    reconnect-ok =
        let (mid, front, rest) = Chain-split pre post w.chain in
        rw f.before (connect-joined t r.1 pre front)

    out : r.1 ∉ pre
    out = ground (arith, has-append r.1 pre post, disconnected-out s b v f)

    held : back.blocks r.1 ≡ some (block c f.next)
    unfolding write
    held =
        joined-outside t r.1 pre r.1 out
        ∙ w.owned r.1 (disconnected-out s b v f)
        ∙ rw (eq→== r.1 r.1 refl)

    reconnect-chain : Chain back.blocks null back.memory_head xs
    reconnect-chain =
        let (mid, front, rest) = Chain-split pre post w.chain in
        let same : f.next ≡ mid = Chain-head f.back rest in
        rw f.split (
          Chain-append (joined-front t r.1 pre front)
            (link f.here
              (record {
                ne_null = f.points.ne_null;
                holds = held ∙ ap (λ q. some (block c q)) same;
              })
              f.out
              (Chain.frame rest λ a i. joined-outside t r.1 pre a (ground (arith, f.apart a))))
            f.apart)

    reconnect-owned : (a : Ptr) → a ∉ xs → back.blocks a ≡ none
    unfolding write
    reconnect-owned a o =
        joined-outside t r.1 pre a (ground (arith, whole))
        ∙ w.owned a (ground (arith, whole, has-append a pre post))
        ∙ rw (ne→== a r.1 (ground (arith, whole, f.here)))
      where
        whole : (has a pre || has a (c ∷ post)) ≡ false
        whole = sym (has-append a pre (c ∷ post)) ∙ ap (has a) (sym f.split) ∙ o

    pub reconnect-IsValid : Kept s t → IsValid back xs
    reconnect-IsValid kept =
        Owns-Kept v (Kept-trans kept (joined-Kept t r.1 pre)) reconnect-chain v.packed
          reconnect-owned
