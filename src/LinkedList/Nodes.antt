-- ===== src/LinkedList/Nodes.antt =====
-- The nodes of linked_list.c as a chain: which nodes a pointer leads to, with their values.
use threadsafe_memory_manage.Prelude.{
  ℕ, ◌≡◌, ◌≢◌, refl, sym, ap, ◌∙◌, fun_ext, Bool, true, false, ◌||◌, Option, none, some, List, [],
  ◌∷◌, ◌++◌, arith, ◌==◌, Bool-cases, inl, inr, ==→eq,
}
use threadsafe_memory_manage.Word.{Ptr, null}
use threadsafe_memory_manage.Run.{ok}
use threadsafe_memory_manage.NodeStore.{
  Node, Program, write_node, put_node, load_node, set_value, set_next,
}

abbrev pub node : ℕ → Ptr → Node
node v q = record { value = v; next = q }

-- `p` holds a live node.
pub record HasNode (h : Ptr → Option Node) (p : Ptr) (n : Node) : Type 0 where
  pub ne_null : p ≢ null
  pub holds : h p ≡ some n

module _ {h : Ptr → Option Node} {p : Ptr} {n : Node} where
  pub not_null : HasNode h p n → (p == null) ≡ false
  not_null e = ground (arith, e.ne_null)

  pub HasNode-write : (c : Node) → HasNode h p n → HasNode (write_node h p (some c)) p c
  unfolding write_node
  HasNode-write c e = record { ne_null = e.ne_null; holds = ground arith }

  pub HasNode-write_ne :
      {q : Ptr} (c : Option Node) → HasNode h p n → q ≢ p → HasNode (write_node h q c) p n
  unfolding write_node
  HasNode-write_ne c e ne = record { ne_null = e.ne_null; holds = ground (arith, e.holds) }

pub write_node-write_node :
    (h : Ptr → Option Node) (p : Ptr) (x y : Option Node)
    → write_node (write_node h p x) p y ≡ write_node h p y
unfolding write_node
write_node-write_node h p x y = fun_ext λ a. ground arith

module _ (s : Program) {p : Ptr} {n : Node} (e : HasNode s.nodes p n) where
  pub load_node-ok : load_node p s ≡ ok n s
  unfolding load_node
  load_node-ok = rw (not_null e, e.holds)

  pub set_value-ok :
      (v : ℕ) → set_value p v s ≡ ok tt (put_node p (some (record n { value = v })) s)
  unfolding set_value
  set_value-ok v = rw load_node-ok

  pub set_next-ok : (q : Ptr) → set_next p q s ≡ ok tt (put_node p (some (record n { next = q })) s)
  unfolding set_next
  set_next-ok q = rw load_node-ok

-- One node of a list: its address and its value.
pub record Item : Type 0 where
  pub at : Ptr
  pub value : ℕ

abbrev pub item : Ptr → ℕ → Item
item p v = record { at = p; value = v }

abbrev pub has : Ptr → List Item → Bool
has a [] = false
has a (c ∷ xs) = (a == c.at) || has a xs

infix 40 ◌∈◌ ◌∉◌
abbrev pub ◌∈◌ : Ptr → List Item → Type 0
a ∈ xs = has a xs ≡ true

abbrev pub ◌∉◌ : Ptr → List Item → Type 0
a ∉ xs = has a xs ≡ false

pub ne_of_has : (a b : Ptr) (xs : List Item) → a ∈ xs → b ∉ xs → a ≢ b
ne_of_has a b xs i o e = cc (sym i ∙ ap (λ x. has x xs) e ∙ o)

pub has-append : (a : Ptr) (xs ys : List Item) → has a (xs ++ ys) ≡ (has a xs || has a ys)
has-append a [] ys = refl
has-append a (x ∷ xs) ys = ground (arith, has-append a xs ys)

-- From `p` the `next` pointers lead through the distinct nodes `xs` to `stop`.
pub data Seg (h : Ptr → Option Node) (stop : Ptr) : Ptr → List Item → Type 0 where
  nil : Seg h stop stop []
  link :
      {p q : Ptr} {c : Item} {xs : List Item}
      → p ≡ c.at
      → HasNode h p (node c.value q)
      → p ∉ xs
      → Seg h stop q xs
      → Seg h stop p (c ∷ xs)

module _ {h : Ptr → Option Node} {stop : Ptr} where
  pub frame :
      {g : Ptr → Option Node} {p : Ptr} {xs : List Item}
      → Seg h stop p xs
      → ((a : Ptr) → a ∈ xs → g a ≡ h a)
      → Seg g stop p xs
  frame nil same = nil
  frame (link {p} e n out r) same =
      link e (record { ne_null = n.ne_null; holds = same p (ground arith) ∙ n.holds }) out
        (frame r λ a i. same a (ground arith))

  pub frame-write :
      {p : Ptr} {xs : List Item} (a : Ptr) (c : Option Node)
      → Seg h stop p xs
      → a ∉ xs
      → Seg (write_node h a c) stop p xs
  unfolding write_node
  frame-write a c r out = frame r (ground arith)

  -- What is in a chain is live.
  pub live :
      {p : Ptr} {xs : List Item} (a : Ptr) → Seg h stop p xs → a ∈ xs → (n : Node) × (h a ≡ some n)
  live a nil i = cc
  live a (link {p} {q} {c} e n out r) i = elim (Bool-cases (a == c.at)) [
    | inl here ↦ (node c.value q, ap h (==→eq a c.at here ∙ sym e) ∙ n.holds)
    | inr there ↦ live a r (ground arith)
  ]

  pub not-has_of_none : {p : Ptr} {xs : List Item} (a : Ptr) → Seg h stop p xs → h a ≡ none → a ∉ xs
  not-has_of_none a nil unused = refl
  not-has_of_none a (link e n out r) unused = ground (arith, not-has_of_none a r unused, n.holds)

-- NULL is no node, and leads to none.
pub null-not-has :
    {h : Ptr → Option Node} {stop p : Ptr} {xs : List Item} → Seg h stop p xs → null ∉ xs
null-not-has nil = refl
null-not-has (link e n out r) = ground (arith, null-not-has r, n.ne_null)

pub null_of_nil : {h : Ptr → Option Node} {stop p : Ptr} → Seg h stop p [] → p ≡ stop
null_of_nil nil = refl

pub nil_of_null :
    {h : Ptr → Option Node} {stop p : Ptr} {xs : List Item} → Seg h stop p xs → p ≡ null → xs ≡ []
nil_of_null nil e = refl
nil_of_null (link l n out r) e = absurd (n.ne_null e)

-- Two segments that share no node make one.
pub Seg-append :
    {h : Ptr → Option Node} {mid stop p : Ptr} {xs ys : List Item}
    → Seg h mid p xs
    → Seg h stop mid ys
    → ((a : Ptr) → a ∈ xs → a ∉ ys)
    → Seg h stop p (xs ++ ys)
Seg-append nil r apart = r
Seg-append {ys} (link {p} {xs} e n out rest) r apart =
    link e n (ground (arith, has-append p xs ys, apart p))
      (Seg-append rest r λ a i. apart a (ground arith))
