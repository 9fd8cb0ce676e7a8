-- ===== src/Manager/Free.antt =====
-- `mem_free_no_lock` takes the region that starts at an address out of the list, and frees its
-- descriptor.
use threadsafe_memory_manage.Prelude.{
  suc, ◌<◌, ◌≡◌, ◌≢◌, refl, ap, subst, ◌∙◌, false, Option, none, some, List, [], ◌∷◌, ◌++◌, arith,
  ◌==◌, if◌then◌else◌, Bool-cases, inl, inr, ==→eq, ==→ne, ne→==, eq→==,
}
use threadsafe_memory_manage.Word.{Ptr, null}
use threadsafe_memory_manage.Run.{ok}
use threadsafe_memory_manage.Run.Returns.{Returns, returns}
use threadsafe_memory_manage.Machine.{MemoryBlock, Manager, write, put}
use threadsafe_memory_manage.Machine.Points.{Points, not_null, load-ok, free_block-ok}
use threadsafe_memory_manage.Manager.{find_block, connect, mem_free_no_lock}
use threadsafe_memory_manage.Manager.Chain
use threadsafe_memory_manage.Manager.Chain.{Cell, block, has, ◌∈◌, ◌∉◌, ne_of_has, Chain}
use threadsafe_memory_manage.Manager.FirstFit.{Packed, Packed-length}
use threadsafe_memory_manage.Manager.Valid.{limit, Owns, IsValid, Kept, Owns-Kept}
use threadsafe_memory_manage.Manager.Find.{
  Cut, cut, ahead, Found, Searched, find_loop-cut, has-append,
}
use threadsafe_memory_manage.Manager.Unlink.{
  joined, connect-joined, joined-front, joined-outside, joined-Kept, Chain-append,
}

-- The list without its first region that starts at `b`.
unfoldable pub release : Ptr → List Cell → List Cell
release b [] = []
release b (c ∷ xs) = if c.start == b then xs else c ∷ release b xs

abbrev pub spliced : List Cell → Option Cut → List Cell
spliced xs none = xs
spliced xs (some (pre, c, post)) = pre ++ post

spliced-ahead :
    (c : Cell) (xs : List Cell) (o : Option Cut) → spliced (c ∷ xs) (ahead c o) ≡ c ∷ spliced xs o
spliced-ahead c xs none = refl
spliced-ahead c xs (some o) = refl

pub spliced-cut : (b : Ptr) (xs : List Cell) → spliced xs (cut b xs) ≡ release b xs
unfolding cut release
spliced-cut b [] = refl
spliced-cut b (c ∷ xs) = elim (Bool-cases (c.start == b)) [
  | inl hit ↦ rw hit
  | inr miss ↦ rw miss (spliced-ahead c xs (cut b xs) ∙ ap (λ ys. c ∷ ys) (spliced-cut b xs))
]

-- No region starts at NULL.
pub release-null : (lo hi : Ptr) (xs : List Cell) → Packed lo hi xs → 0 < lo → release null xs ≡ xs
unfolding release
release-null lo hi [] packed pos = refl
release-null lo hi (c ∷ xs) packed pos =
    rw (ne→== c.start null (omega arith))
      (ap (λ ys. c ∷ ys) (release-null c.end hi xs packed.2 (omega arith)))

pub Packed-cut :
    (lo hi : Ptr) (pre : List Cell) (c : Cell) (post : List Cell)
    → Packed lo hi (pre ++ c ∷ post)
    → Packed lo hi (pre ++ post)
Packed-cut lo hi [] c [] p = omega arith
Packed-cut lo hi [] c (d ∷ post) p = (omega arith, p.2.1, p.2.2)
Packed-cut lo hi (d ∷ pre) c post p = (p.0, p.1, Packed-cut d.end hi pre c post p.2)

module _ {rest : Ptr → Option MemoryBlock} (s : Manager) (b : Ptr) {xs : List Cell}
    (v : Owns rest s xs) where
  -- The search of a well-formed list stops within its rounds, at the cut of the list.
  pub find_block-cut :
      (r : Ptr × Ptr) × (find_block b s ≡ ok r s)
      × Searched s.blocks b null s.memory_head xs (cut b xs) r
  unfolding find_block
  find_block-cut =
      find_loop-cut (suc s.memory_size) s b null xs v.chain
        (omega (arith, Packed-length s.memory (limit s) xs v.packed))

  module _ {pre post : List Cell} {c : Cell} {r : Ptr × Ptr}
      (f : Found s.blocks b null s.memory_head xs pre c post r) where
    -- The disconnected block is no longer in the list, and its descriptor is still live.
    pub disconnect-Owns :
        Owns (write rest r.1 (some (block c f.next))) (joined pre f.next s) (pre ++ post)
    unfolding write
    disconnect-Owns =
        Owns-Kept v (joined-Kept s f.next pre)
          (Chain-append (joined-front s f.next pre f.front)
            (Chain.frame f.back λ a i. joined-outside s f.next pre a (apart a i))
            (λ a i. ground (arith, f.apart a i)))
          (Packed-cut s.memory (limit s) pre c post
            (subst (Packed s.memory (limit s)) f.split v.packed))
          owned
      where
        apart : (a : Ptr) → a ∈ post → a ∉ pre
        apart a i = ground (arith, f.apart a)

        outside : (a : Ptr) → a ∉ (pre ++ post) → a ≢ r.1 → a ∉ xs
        outside a o ne = rw (f.split, has-append) (ground (arith, has-append a pre post, f.here))

        owned :
            (a : Ptr)
            → a ∉ (pre ++ post)
            → (joined pre f.next s).blocks a ≡ write rest r.1 (some (block c f.next)) a
        owned a o =
            joined-outside s f.next pre a (ground (arith, has-append a pre post))
            ∙ (elim (Bool-cases (a == r.1)) [
              | inl here ↦ rw here (ap s.blocks (==→eq a r.1 here) ∙ f.points.holds)
              | inr there ↦ rw there (v.owned a (outside a o (==→ne a r.1 there)))
            ])

    pub disconnected-out : r.1 ∉ (pre ++ post)
    disconnected-out = elim (Bool-cases (has r.1 pre)) [
      | inl inside ↦ absurd (ground (arith, f.apart r.1 inside, f.here))
      | inr outside ↦ rw (has-append, outside, f.out)
    ]

    pub disconnected-Points : Points (joined pre f.next s).blocks r.1 (block c f.next)
    disconnected-Points = record {
      ne_null = f.points.ne_null;
      holds =
          joined-outside s f.next pre r.1
            (ground (arith, has-append r.1 pre post, disconnected-out))
          ∙ f.points.holds;
    }

    -- What both callers of the search do first with the block.
    pub disconnect-ok : connect r.0 f.next s ≡ ok tt (joined pre f.next s)
    disconnect-ok = rw f.before (connect-joined s f.next pre f.front)

-- A descriptor that is not in the list goes back to the C heap.
pub free-Owns :
    (a : Ptr) (x : Option MemoryBlock) {t : Manager} {ys : List Cell}
    → Owns (write (λ _. none) a x) t ys
    → a ∉ ys
    → IsValid (put a none t) ys
unfolding write
free-Owns a x w out = record {
  chain = Chain.frame-write a none w.chain out;
  packed = w.packed;
  owned = λ e o. ground (arith, w.owned e o);
  nonnull = w.nonnull;
  small = w.small;
  live = w.live;
}

module _ (s : Manager) (b : Ptr) {xs : List Cell} (v : IsValid s xs) where
  free_after_search :
      (b == null) ≡ false
      → (r : Ptr × Ptr) → find_block b s ≡ ok r s
      → (o : Option Cut) → Searched s.blocks b null s.memory_head xs o r
      → Returns (λ _ t. IsValid t (spliced xs o) × Kept s t) (mem_free_no_lock b s)
  unfolding mem_free_no_lock
  free_after_search given r run none absent =
      rw (given, run, eq→== r.1 null absent)
        (returns
          (v, record { memory = refl; memory_size = refl; lock = refl; pool = refl; bytes = refl }))
  free_after_search given r run (some (pre, c, post)) f =
      let j = joined pre f.next s in
      let kept = joined-Kept s f.next pre in
      rw
        (
          given,
          run,
          not_null f.points,
          load-ok s f.points,
          disconnect-ok s b v f,
          free_block-ok j (disconnected-Points s b v f),
        )
        (returns (
          free-Owns r.1 (some (block c f.next)) (disconnect-Owns s b v f)
              (disconnected-out s b v f),
          record {
            memory = kept.memory;
            memory_size = kept.memory_size;
            lock = kept.lock;
            pool = kept.pool;
            bytes = kept.bytes;
          },
        ))

  -- `mem_free_no_lock` removes the first region that starts at `block`; with none, nothing changes.
  pub mem_free_no_lock-release :
      Returns (λ _ t. IsValid t (release b xs) × Kept s t) (mem_free_no_lock b s)
  unfolding mem_free_no_lock
  mem_free_no_lock-release = elim (Bool-cases (b == null)) [
    | inl nothing ↦
        rw
          (
            nothing,
            ==→eq b null nothing,
            release-null s.memory (limit s) xs v.packed (omega (arith, v.nonnull)),
          )
          (returns (
            v,
            record { memory = refl; memory_size = refl; lock = refl; pool = refl; bytes = refl },
          ))
    | inr given ↦
        let (r, run, found) = find_block-cut s b v in
        subst (λ ys. Returns (λ _ t. IsValid t ys × Kept s t) (mem_free_no_lock b s))
          (spliced-cut b xs) (free_after_search given r run (cut b xs) found)
  ]
