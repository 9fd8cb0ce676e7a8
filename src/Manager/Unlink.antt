-- ===== src/Manager/Unlink.antt =====
-- Disconnecting a block from the list and connecting it again.
use threadsafe_memory_manage.Prelude.{◌≡◌, refl, Option, some, List, [], ◌∷◌, ◌++◌, arith}
use threadsafe_memory_manage.Word.{Ptr, null}
use threadsafe_memory_manage.Run.{ok}
use threadsafe_memory_manage.Machine.{MemoryBlock, Manager, write, put}
use threadsafe_memory_manage.Machine.Points.{
  Points, not_null, set_next-ok, Points-write, Points-write_ne,
}
use threadsafe_memory_manage.Manager
use threadsafe_memory_manage.Manager.Chain.{Cell, block, ◌∈◌, ◌∉◌, ne_of_has, Chain, nil, link}
use threadsafe_memory_manage.Manager.Valid.{Kept}
use threadsafe_memory_manage.Manager.Find.{last_at, has-append}

-- Two segments that share no descriptor make one.
pub Chain-append :
    {h : Ptr → Option MemoryBlock} {mid stop p : Ptr} {xs ys : List Cell}
    → Chain h mid p xs
    → Chain h stop mid ys
    → ((a : Ptr) → a ∈ xs → a ∉ ys)
    → Chain h stop p (xs ++ ys)
Chain-append nil r apart = r
Chain-append {ys} (link {p} {xs} e pt out rest) r apart =
    link e pt (ground (arith, has-append p xs ys, apart p))
      (Chain-append rest r λ a i. apart a (ground arith))

abbrev pub last : Cell → List Cell → Cell
last c [] = c
last c (d ∷ xs) = last d xs

last_at-last : (p : Ptr) (c : Cell) (xs : List Cell) → last_at p (c ∷ xs) ≡ (last c xs).at
last_at-last p c [] = refl
last_at-last p c (d ∷ xs) = last_at-last c.at d xs

-- The last descriptor of a segment points behind it.
last-Points :
    {h : Ptr → Option MemoryBlock} {stop p : Ptr} (c : Cell) (xs : List Cell)
    → Chain h stop p (c ∷ xs)
    → Points h (last c xs).at (block (last c xs) stop)
last-Points c [] (link e pt out nil) = rw e at pt
last-Points c (d ∷ xs) (link e pt out rest) = last-Points d xs rest

last-has : (c : Cell) (xs : List Cell) → (last c xs).at ∈ (c ∷ xs)
last-has c [] = ground arith
last-has c (d ∷ xs) = ground (arith, last-has d xs)

-- A write to its `next` moves the end of the segment, and spares the rest.
relink :
    {h : Ptr → Option MemoryBlock} {stop p : Ptr} (q : Ptr) (c : Cell) (xs : List Cell)
    → Chain h stop p (c ∷ xs)
    → Chain (write h (last c xs).at (some (block (last c xs) q))) q p (c ∷ xs)
relink {h} q c [] (link e pt out nil) = link e (rw (← e) (Points-write (block c q) pt)) out nil
relink q c (d ∷ xs) (link {p} e pt out rest) =
    link e
      (Points-write_ne (block (last d xs) q) pt
        (ne_of_has (last d xs).at p (d ∷ xs) (last-has d xs) out))
      out (relink q d xs rest)

-- The state after `connect (previous, q)`, where `previous` is the last of `pre`, or NULL.
abbrev pub joined : List Cell → Ptr → Manager → Manager
joined [] q s = record s { memory_head = q }
joined (c ∷ pre) q s = put (last c pre).at (some (block (last c pre) q)) s

module _ (s : Manager) (q : Ptr) where
  pub connect-joined :
      {stop : Ptr} (pre : List Cell)
      → Chain s.blocks stop s.memory_head pre
      → Manager.connect (last_at null pre) q s ≡ ok tt (joined pre q s)
  unfolding Manager.connect
  connect-joined [] front = refl
  connect-joined (c ∷ pre) front =
      let pt = last-Points c pre front in
      rw (last_at-last null c pre, not_null pt, set_next-ok s pt q)

  pub joined-front :
      {stop : Ptr} (pre : List Cell)
      → Chain s.blocks stop s.memory_head pre
      → Chain (joined pre q s).blocks q (joined pre q s).memory_head pre
  joined-front [] front = nil
  joined-front (c ∷ pre) front = relink q c pre front

  pub joined-outside :
      (pre : List Cell) (a : Ptr) → a ∉ pre → (joined pre q s).blocks a ≡ s.blocks a
  unfolding write
  joined-outside [] a out = refl
  joined-outside (c ∷ pre) a out =
      ground (arith, ne_of_has (last c pre).at a (c ∷ pre) (last-has c pre) out)

  -- Only descriptors of `pre` and the head pointer change.
  pub joined-Kept : (pre : List Cell) → Kept s (joined pre q s)
  joined-Kept [] = record {
    memory = refl;
    memory_size = refl;
    lock = refl;
    pool = refl;
    bytes = refl;
  }
  joined-Kept (c ∷ pre) = record {
    memory = refl;
    memory_size = refl;
    lock = refl;
    pool = refl;
    bytes = refl;
  }
