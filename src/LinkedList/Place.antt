-- ===== src/LinkedList/Place.antt =====
-- A new node next to a node of the list: where the node stands, and the list with the new one.
use threadsafe_memory_manage.Prelude.{
  ◌≡◌, ◌≢◌, refl, sym, ap, ◌∙◌, true, false, Option, some, List, [], ◌∷◌, ◌++◌, arith, ◌==◌,
  if◌then◌else◌, Bool-cases, inl, inr, ==→eq, ==→ne, subst,
}
use threadsafe_memory_manage.Word.{Ptr}
use threadsafe_memory_manage.Manager.Chain.{Cell}
use threadsafe_memory_manage.NodeStore.{idle, Node, Program, write_node}
use threadsafe_memory_manage.LinkedList.Nodes.{HasNode, HasNode-write, HasNode-write_ne, Item, ◌∉◌}
use threadsafe_memory_manage.LinkedList.Valid.{Stores, IsList}
use threadsafe_memory_manage.LinkedList.Grow.{NewNode, Linked, Stores-lock}

-- The list with `x` right behind the node at `q`, if there is one.
unfoldable pub put_behind : Ptr → Item → List Item → List Item
put_behind q x [] = []
put_behind q x (c ∷ xs) = if c.at == q then c ∷ x ∷ xs else c ∷ put_behind q x xs

-- The list with `x` right before the node at `q`, if there is one.
unfoldable pub put_before : Ptr → Item → List Item → List Item
put_before q x [] = []
put_before q x (c ∷ xs) = if c.at == q then x ∷ c ∷ xs else c ∷ put_before q x xs

-- Where the node at `q` stands.
pub data Here (q : Ptr) : List Item → Type 0 where
  away : {xs : List Item} → q ∉ xs → Here q xs
  here :
      (pre : List Item) (d : Item) (post : List Item)
      → (d.at == q) ≡ true
      → q ∉ pre
      → Here q (pre ++ d ∷ post)

split_past :
    (q : Ptr) (c : Item) {xs : List Item} → (c.at == q) ≡ false → Here q xs → Here q (c ∷ xs)
split_past q c miss (away out) = away (ground (arith, out))
split_past q c miss (here pre d post hit out) = here (c ∷ pre) d post hit (ground (arith, out))

pub split_at_node : (q : Ptr) (xs : List Item) → Here q xs
split_at_node q [] = away refl
split_at_node q (c ∷ xs) = elim (Bool-cases (c.at == q)) [
  | inl hit ↦ here [] c xs hit refl
  | inr miss ↦ split_past q c miss (split_at_node q xs)
]

not-first : (q : Ptr) (c : Item) (xs : List Item) → q ∉ (c ∷ xs) → (c.at == q) ≡ false
not-first q c xs out = ground arith

module _ (q : Ptr) (x : Item) where
  pub put_behind-away : (xs : List Item) → q ∉ xs → put_behind q x xs ≡ xs
  unfolding put_behind
  put_behind-away [] out = refl
  put_behind-away (c ∷ xs) out =
      rw (not-first q c xs out) (ap (λ ys. c ∷ ys) (put_behind-away xs (ground arith)))

  pub put_before-away : (xs : List Item) → q ∉ xs → put_before q x xs ≡ xs
  unfolding put_before
  put_before-away [] out = refl
  put_before-away (c ∷ xs) out =
      rw (not-first q c xs out) (ap (λ ys. c ∷ ys) (put_before-away xs (ground arith)))

  pub put_behind-here :
      (pre : List Item) (d : Item) (post : List Item)
      → (d.at == q) ≡ true
      → q ∉ pre
      → put_behind q x (pre ++ d ∷ post) ≡ pre ++ d ∷ x ∷ post
  unfolding put_behind
  put_behind-here [] d post hit out = rw hit refl
  put_behind-here (c ∷ pre) d post hit out =
      rw (not-first q c pre out) (ap (λ ys. c ∷ ys) (put_behind-here pre d post hit (ground arith)))

  pub put_before-here :
      (pre : List Item) (d : Item) (post : List Item)
      → (d.at == q) ≡ true
      → q ∉ pre
      → put_before q x (pre ++ d ∷ post) ≡ pre ++ x ∷ d ∷ post
  unfolding put_before
  put_before-here [] d post hit out = rw hit refl
  put_before-here (c ∷ pre) d post hit out =
      rw (not-first q c pre out) (ap (λ ys. c ∷ ys) (put_before-here pre d post hit (ground arith)))

-- A live node outside the list.
pub record Loose (h : Ptr → Option Node) (xs : List Item) (p : Ptr) : Type 0 where
  pub contents : Node
  pub live_node : HasNode h p contents
  pub out : p ∉ xs

-- A list in the place of another, and every live node outside the one is a live node outside the other.
pub record Placement (s : Program) (xs zs : List Item) (t : Program) : Type 0 where
  pub cells : List Cell
  pub list : IsList t zs cells
  pub aside : (a : Ptr) → Loose s.nodes xs a → Loose t.nodes zs a

-- A write of a live node keeps what is loose.
pub Loose-write :
    {h : Ptr → Option Node} {xs : List Item} {a : Ptr} (p : Ptr) (c : Node)
    → Loose h xs a
    → Loose (write_node h p (some c)) xs a
Loose-write {h} {xs} {a} p c l = elim (Bool-cases (p == a)) [
  | inl same ↦ record {
    contents = c;
    live_node =
        subst (λ b. HasNode (write_node h b (some c)) a c) (sym (==→eq p a same))
          (HasNode-write c l.live_node);
    out = l.out;
  }
  | inr other ↦ record {
    contents = l.contents;
    live_node = HasNode-write_ne (some c) l.live_node (==→ne p a other);
    out = l.out;
  }
]

-- What is loose stays so beside a new node.
pub Loose-alloc :
    {s t : Program} {xs : List Item} {ys : List Cell} {junk : Node} {p a : Ptr}
    → Stores s xs ys
    → NewNode s xs ys junk p t
    → Loose s.nodes xs a
    → Loose t.nodes xs a
Loose-alloc {s} {p} {a} v n l = record {
  contents = l.contents;
  live_node = record {
    ne_null = l.live_node.ne_null;
    holds =
        n.same a (λ e. cc (l.live_node.holds, v.backed p n.new.unused, ap s.nodes e))
        ∙ l.live_node.holds;
  };
  out = l.out;
}

-- A list that is linked to the new node.
pub Linked-Placement :
    {s t u : Program} {xs zs : List Item} {ys : List Cell} {junk : Node} {p : Ptr}
    → Stores s xs ys
    → (n : NewNode s xs ys junk p t) → Linked t xs zs n.regions p u
    → ((a : Ptr) → a ∉ xs → a ≢ p → a ∉ zs)
    → Placement s xs zs u
Linked-Placement {s} {p} v n k outside = record {
  cells = n.regions;
  list = k.list;
  aside = λ a l.
      let ne : a ≢ p = λ e. cc (l.live_node.holds, v.backed p n.new.unused, ap s.nodes e) in
      let m = Loose-alloc v n l in
      record {
        contents = m.contents;
        live_node = record {
          ne_null = m.live_node.ne_null;
          holds = k.same a l.out ne ∙ m.live_node.holds;
        };
        out = outside a l.out ne;
      };
}

-- No block was to be had.
pub unplaced :
    {s t : Program} {xs : List Item} {ys : List Cell}
    → Stores t xs ys
    → t.nodes ≡ s.nodes
    → Placement s xs xs (record t { list_lock = idle })
unplaced {t} {xs} {ys} v same = record {
  cells = ys;
  list = record { stores = Stores-lock t idle v; free_lock = refl };
  aside = λ a l. subst (λ g. Loose g xs a) (sym same) l;
}
