-- ===== src/Manager/Chain.antt =====
-- The linked list of descriptors: which descriptors `memory_head` leads to, in which order.
use threadsafe_memory_manage.Prelude.{
  ◌≡◌, ◌≢◌, refl, sym, ap, ◌∙◌, Bool, true, false, ◌||◌, Option, none, some, Bool-cases, inl, inr,
  ==→eq, List, [], ◌∷◌, arith, ◌==◌,
}
use threadsafe_memory_manage.Word.{Ptr}
use threadsafe_memory_manage.Machine.{MemoryBlock, write}
use threadsafe_memory_manage.Machine.Points.{Points}

-- One descriptor of the list: its address, and the region that it describes.
pub record Cell : Type 0 where
  pub at : Ptr
  pub start : Ptr
  pub end : Ptr

abbrev pub cell : Ptr → Ptr → Ptr → Cell
cell a p q = record { at = a; start = p; end = q }

abbrev pub block : Cell → Ptr → MemoryBlock
block c q = record { start = c.start; end = c.end; next = q }

abbrev pub has : Ptr → List Cell → Bool
has a [] = false
has a (c ∷ xs) = (a == c.at) || has a xs

infix 40 ◌∈◌ ◌∉◌
abbrev pub ◌∈◌ : Ptr → List Cell → Type 0
a ∈ xs = has a xs ≡ true

abbrev pub ◌∉◌ : Ptr → List Cell → Type 0
a ∉ xs = has a xs ≡ false

pub ne_of_has : (a b : Ptr) (xs : List Cell) → a ∈ xs → b ∉ xs → a ≢ b
ne_of_has a b xs i o e = cc (sym i ∙ ap (λ x. has x xs) e ∙ o)

-- From `p` the `next` pointers lead through the distinct descriptors `xs` to `stop`.
pub data Chain (h : Ptr → Option MemoryBlock) (stop : Ptr) : Ptr → List Cell → Type 0 where
  nil : Chain h stop stop []
  link :
      {p q : Ptr} {c : Cell} {xs : List Cell}
      → p ≡ c.at
      → Points h p (block c q)
      → p ∉ xs
      → Chain h stop q xs
      → Chain h stop p (c ∷ xs)

module _ {h : Ptr → Option MemoryBlock} {stop : Ptr} where
  pub eq_of_nil : {p : Ptr} → Chain h stop p [] → p ≡ stop
  eq_of_nil nil = refl

  -- A chain survives any change that spares its own descriptors.
  pub frame :
      {g : Ptr → Option MemoryBlock} {p : Ptr} {xs : List Cell}
      → Chain h stop p xs
      → ((a : Ptr) → a ∈ xs → g a ≡ h a)
      → Chain g stop p xs
  frame nil same = nil
  frame (link {p} e pt out r) same =
      link e (record { ne_null = pt.ne_null; holds = ground (arith, same p, pt.holds) }) out
        (frame r λ a i. same a (ground arith))

  pub frame-write :
      {p : Ptr} {xs : List Cell} (a : Ptr) (c : Option MemoryBlock)
      → Chain h stop p xs
      → a ∉ xs
      → Chain (write h a c) stop p xs
  unfolding write
  frame-write a c r out = frame r (ground arith)

  pub not-has_of_none :
      {p : Ptr} {xs : List Cell} (a : Ptr) → Chain h stop p xs → h a ≡ none → a ∉ xs
  not-has_of_none a nil unused = refl
  not-has_of_none a (link e pt out r) unused = ground (arith, not-has_of_none a r unused, pt.holds)

pub Chain-uncons :
    {h : Ptr → Option MemoryBlock} {stop p : Ptr} {c : Cell} {xs : List Cell}
    → Chain h stop p (c ∷ xs)
    → (next : Ptr) × (p ≡ c.at) × Points h p (block c next) × Chain h stop next xs
Chain-uncons (link {q} e pt out r) = (q, e, pt, r)

-- The list says where its first descriptor is.
pub Chain-head :
    {h g : Ptr → Option MemoryBlock} {stop p q : Ptr} {xs : List Cell}
    → Chain h stop p xs
    → Chain g stop q xs
    → p ≡ q
Chain-head nil s = sym (eq_of_nil s)
Chain-head (link e pt out r) s = e ∙ sym (Chain-uncons s).1

-- Two heaps with one chain agree on its descriptors.
pub Chain-agree :
    {h g : Ptr → Option MemoryBlock} {stop p q : Ptr} {xs : List Cell}
    → Chain h stop p xs
    → Chain g stop q xs
    → (a : Ptr) → a ∈ xs
    → h a ≡ g a
Chain-agree nil s a i = cc
Chain-agree {h} {g} (link {q} {c} e pt out r) s a i =
    let (next, e', pt', r') = Chain-uncons s in
    elim (Bool-cases (a == c.at)) [
      | inl here ↦
          let at = ==→eq a c.at here in
          ap h (at ∙ sym e)
          ∙ pt.holds
          ∙ ap (λ q. some (block c q)) (Chain-head r r')
          ∙ sym (ap g (at ∙ sym e') ∙ pt'.holds)
      | inr there ↦ Chain-agree r r' a (ground arith)
    ]
