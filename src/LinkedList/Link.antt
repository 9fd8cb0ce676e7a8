-- ===== src/LinkedList/Link.antt =====
-- Cutting a chain of nodes in two, and changing where its front part leads.
use threadsafe_memory_manage.Prelude.{ℕ, ◌≡◌, refl, subst, Option, some, List, [], ◌∷◌, ◌++◌, arith}
use threadsafe_memory_manage.Word.{Ptr, null}
use threadsafe_memory_manage.NodeStore.{Node, Program, write_node, put_node}
use threadsafe_memory_manage.LinkedList.Nodes.{
  node, item, Seg-append, HasNode, HasNode-write, HasNode-write_ne, Item, ◌∈◌, ◌∉◌, ne_of_has,
  has-append, Seg, nil, link,
}

pub Seg-split :
    {h : Ptr → Option Node} {stop p : Ptr} (xs ys : List Item)
    → Seg h stop p (xs ++ ys)
    → (mid : Ptr) × Seg h mid p xs × Seg h stop mid ys
Seg-split {p} [] ys r = (p, nil, r)
Seg-split (c ∷ xs) ys (link {p} e n out r) =
    let (mid, front, back) = Seg-split xs ys r in
    (mid, link e n (ground (arith, has-append p xs ys)) front, back)

pub Seg-uncons :
    {h : Ptr → Option Node} {stop p : Ptr} {c : Item} {xs : List Item}
    → Seg h stop p (c ∷ xs)
    → (next : Ptr) × (p ≡ c.at) × HasNode h p (node c.value next) × (p ∉ xs) × Seg h stop next xs
Seg-uncons (link {q} e n out r) = (q, e, n, out, r)

-- The two parts of a chain share no node.
pub Seg-apart :
    {h : Ptr → Option Node} {stop p : Ptr} (xs ys : List Item)
    → Seg h stop p (xs ++ ys)
    → (a : Ptr) → a ∈ xs
    → a ∉ ys
Seg-apart [] ys r a i = cc
Seg-apart (c ∷ xs) ys (link {p} e n out r) a i =
    ground (arith, has-append a xs ys, Seg-apart xs ys r a, e)

-- Where the node `c` stands in a chain from `p` to NULL.
pub record Placed (h : Ptr → Option Node) (p : Ptr) (pre : List Item) (c : Item) (post : List Item)
    : Type 0 where
  pub next : Ptr
  pub at : HasNode h c.at (node c.value next)
  pub front : Seg h c.at p pre
  pub back : Seg h null next post
  pub out : c.at ∉ post
  pub apart : (a : Ptr) → a ∈ pre → a ∉ (c ∷ post)

pub placed :
    {h : Ptr → Option Node} {p : Ptr} (pre : List Item) (c : Item) (post : List Item)
    → Seg h null p (pre ++ c ∷ post)
    → Placed h p pre c post
placed {h} {p} pre c post chain =
    let (mid, front, rest) = Seg-split pre (c ∷ post) chain in
    let (next, e, at, out, back) = Seg-uncons rest in
    record {
      next = next;
      at = subst (λ q. HasNode h q (node c.value next)) e at;
      front = subst (λ q. Seg h q p pre) e front;
      back = back;
      out = subst (λ q. q ∉ post) e out;
      apart = Seg-apart pre (c ∷ post) chain;
    }

abbrev pub last : Item → List Item → Item
last c [] = c
last c (d ∷ xs) = last d xs

pub last-has : (c : Item) (xs : List Item) → (last c xs).at ∈ (c ∷ xs)
last-has c [] = ground arith
last-has c (d ∷ xs) = ground (arith, last-has d xs)

-- A write to the `next` of its last node moves the end of a segment.
pub relink :
    {h : Ptr → Option Node} {stop p : Ptr} (q : Ptr) (c : Item) (xs : List Item)
    → Seg h stop p (c ∷ xs)
    → Seg (write_node h (last c xs).at (some (node (last c xs).value q))) q p (c ∷ xs)
relink {h} {p} q c [] (link e n out nil) =
    link e
      (subst (λ a. HasNode (write_node h a (some (node c.value q))) p (node c.value q)) e
        (HasNode-write (node c.value q) n))
      out nil
relink q c (d ∷ xs) (link {p} e n out rest) =
    link e
      (HasNode-write_ne (some (node (last d xs).value q)) n
        (ne_of_has (last d xs).at p (d ∷ xs) (last-has d xs) out))
      out (relink q d xs rest)

-- The state once the front `pre` leads to `q`: the last `next`, or the head, is `q`.
abbrev pub joined : List Item → Ptr → Program → Program
joined [] q s = record s { head = q }
joined (c ∷ pre) q s = put_node (last c pre).at (some (node (last c pre).value q)) s

module _ (s : Program) (q : Ptr) where
  pub joined-front :
      {stop : Ptr} (pre : List Item)
      → Seg s.nodes stop s.head pre
      → Seg (joined pre q s).nodes q (joined pre q s).head pre
  joined-front [] front = nil
  joined-front (c ∷ pre) front = relink q c pre front

  pub joined-outside : (pre : List Item) (a : Ptr) → a ∉ pre → (joined pre q s).nodes a ≡ s.nodes a
  unfolding write_node
  joined-outside [] a out = refl
  joined-outside (c ∷ pre) a out =
      ground (arith, ne_of_has (last c pre).at a (c ∷ pre) (last-has c pre) out)

  -- Nothing else of the state changes.
  pub joined-manager : (pre : List Item) → (joined pre q s).manager ≡ s.manager
  joined-manager [] = refl
  joined-manager (c ∷ pre) = refl

  pub joined-lock : (pre : List Item) → (joined pre q s).list_lock ≡ s.list_lock
  joined-lock [] = refl
  joined-lock (c ∷ pre) = refl

-- A new node between two parts of a chain.
pub Seg-insert :
    {g : Ptr → Option Node} {p new q : Ptr} {v : ℕ} (pre post : List Item)
    → Seg g new p pre
    → HasNode g new (node v q)
    → Seg g null q post
    → ((a : Ptr) → a ∈ pre → a ∉ post)
    → new ∉ (pre ++ post)
    → Seg g null p (pre ++ item new v ∷ post)
Seg-insert {new} pre post front n back apart out =
    Seg-append front (link refl n (ground (arith, has-append new pre post)) back) λ a i.
      ground (arith, apart a i, ne_of_has a new pre i (ground (arith, has-append new pre post)))
