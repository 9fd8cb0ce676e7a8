-- ===== src/Manager/Find.antt =====
-- The search of `mem_free_no_lock` and `mem_resize` for the block that starts at an address.
use threadsafe_memory_manage.Prelude.{
  ℕ, zero, suc, ◌<◌, ◌≡◌, refl, sym, ap, subst, ◌∙◌, ◌||◌, Option, none, some, List, [], ◌∷◌, ◌++◌,
  arith, ◌==◌, if◌then◌else◌, Bool-cases, inl, inr, length, ==→eq,
}
use threadsafe_memory_manage.Word.{Ptr, null}
use threadsafe_memory_manage.Run.{ok}
use threadsafe_memory_manage.Machine.{MemoryBlock, Manager}
use threadsafe_memory_manage.Machine.Points.{Points, not_null, load-ok}
use threadsafe_memory_manage.Manager.{find_loop}
use threadsafe_memory_manage.Manager.Chain.{Cell, block, has, ◌∈◌, ◌∉◌, Chain, nil, link}

-- The list around its first region that starts at `b`.
abbrev pub Cut : Type 0
Cut = List Cell × Cell × List Cell

abbrev pub ahead : Cell → Option Cut → Option Cut
ahead c none = none
ahead c (some (pre, d, post)) = some (c ∷ pre, d, post)

unfoldable pub cut : Ptr → List Cell → Option Cut
cut b [] = none
cut b (c ∷ xs) = if c.start == b then some ([], c, xs) else ahead c (cut b xs)

-- A cut takes the list apart.
abbrev pub IsCut : List Cell → Option Cut → Type 0
IsCut xs none = Unit {0}
IsCut xs (some (pre, c, post)) = xs ≡ pre ++ c ∷ post

IsCut-ahead : (c : Cell) (xs : List Cell) (o : Option Cut) → IsCut xs o → IsCut (c ∷ xs) (ahead c o)
IsCut-ahead c xs none h = tt
IsCut-ahead c xs (some (pre, d, post)) h = ap (λ ys. c ∷ ys) h

pub cut-IsCut : (b : Ptr) (xs : List Cell) → IsCut xs (cut b xs)
unfolding cut
cut-IsCut b [] = tt
cut-IsCut b (c ∷ xs) = elim (Bool-cases (c.start == b)) [
  | inl hit ↦ rw hit refl
  | inr miss ↦ rw miss (IsCut-ahead c xs (cut b xs) (cut-IsCut b xs))
]

abbrev pub last_at : Ptr → List Cell → Ptr
last_at p [] = p
last_at p (c ∷ xs) = last_at c.at xs

-- The pointers that the search ends with, against the cut of the list.
pub record Found (h : Ptr → Option MemoryBlock) (b previous p : Ptr) (xs pre : List Cell) (c : Cell)
    (post : List Cell) (r : Ptr × Ptr) : Type 0 where
  pub next : Ptr
  pub split : xs ≡ pre ++ c ∷ post
  pub front : Chain h r.1 p pre
  pub before : r.0 ≡ last_at previous pre
  pub here : r.1 ≡ c.at
  pub points : Points h r.1 (block c next)
  pub back : Chain h null next post
  pub start : c.start ≡ b
  pub out : r.1 ∉ post
  pub apart : (a : Ptr) → a ∈ pre → a ∉ (c ∷ post)

abbrev pub Searched :
    (Ptr → Option MemoryBlock) → (b previous p : Ptr) → List Cell → Option Cut → Ptr × Ptr → Type 0
Searched h b previous p xs none r = r.1 ≡ null
Searched h b previous p xs (some (pre, c, post)) r = Found h b previous p xs pre c post r

pub has-append : (a : Ptr) (xs ys : List Cell) → has a (xs ++ ys) ≡ (has a xs || has a ys)
has-append a [] ys = refl
has-append a (x ∷ xs) ys = ground (arith, has-append a xs ys)

module _ (h : Ptr → Option MemoryBlock) (b previous : Ptr) {p q : Ptr} (c : Cell)
    (xs : List Cell) where
  Searched-ahead :
      p ≡ c.at
      → Points h p (block c q)
      → p ∉ xs
      → (r : Ptr × Ptr) (o : Option Cut) → Searched h b p q xs o r
      → Searched h b previous p (c ∷ xs) (ahead c o) r
  Searched-ahead e pt out r none done = done
  Searched-ahead e pt out r (some (pre, d, post)) f = record {
    next = f.next;
    split = ap (λ ys. c ∷ ys) f.split;
    front = link e pt pout.0 f.front;
    before = f.before ∙ ap (λ x. last_at x pre) e;
    here = f.here;
    points = f.points;
    back = f.back;
    start = f.start;
    out = f.out;
    apart = λ a i. elim (Bool-cases (a == p)) [
      | inl same ↦ subst (λ x. x ∉ (d ∷ post)) (sym (==→eq a p same)) pout.1
      | inr other ↦ f.apart a (ground arith)
    ];
  }
    where
      pout : p ∉ pre × p ∉ (d ∷ post)
      pout =
          let whole = rw (f.split, has-append) at out in
          (ground (arith, whole), ground (arith, whole))

-- The search leaves the state alone and stops at the cut.
pub find_loop-cut :
    (k : ℕ) (s : Manager) (b previous : Ptr) {p : Ptr} (xs : List Cell)
    → Chain s.blocks null p xs
    → length xs < k
    → (r : Ptr × Ptr) × (find_loop k b previous p s ≡ ok r s)
      × Searched s.blocks b previous p xs (cut b xs) r
unfolding find_loop cut
find_loop-cut zero s b previous xs chain fuel = absurd (omega arith)
find_loop-cut (suc k) s b previous [] nil fuel = ((previous, null), refl, refl)
find_loop-cut (suc k) s b previous {p} (c ∷ xs) (link {q} e pt out rest) fuel =
    elim (Bool-cases (c.start == b)) [
      | inl hit ↦ (
        (previous, p),
        rw (not_null pt, load-ok s pt, hit),
        rw hit (record {
          next = q;
          split = refl;
          front = nil;
          before = refl;
          here = e;
          points = pt;
          back = rest;
          start = ==→eq c.start b hit;
          out = out;
          apart = λ a i. absurd (ground arith);
        }),
      )
      | inr miss ↦
          let (r, run, found) = find_loop-cut k s b p xs rest (omega arith) in
          (
            r,
            rw (not_null pt, load-ok s pt, miss) run,
            rw miss (Searched-ahead s.blocks b previous c xs e pt out r (cut b xs) found),
          )
    ]
