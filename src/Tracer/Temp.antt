-- ===== src/Tracer/Temp.antt =====
-- The memory that cM2.c hands out from `tmpbuff` while it initializes.
use threadsafe_memory_manage.Prelude.{
  ℕ, ◌+◌, ◌-◌, ◌*◌, ◌%◌, ◌^◌, ◌≤◌, ◌<◌, ◌≡◌, ◌≢◌, refl, ap, ◌∙◌, true, false, List, [], ◌∷◌, arith,
  ltb, if◌then◌else◌, Bool-cases, if_true, if_false, inl, inr, ltb→lt, ltb→le, lt→ltb, le→ltb,
  ne→==,
}
use threadsafe_memory_manage.Word.{Ptr, null}
use threadsafe_memory_manage.Run.{Cmd, pure, ok, exited, ◌>>=◌}
use threadsafe_memory_manage.Run.Returns.{Returns, returns}
use threadsafe_memory_manage.Client.{Client, serve}
use threadsafe_memory_manage.Platform.{Symbol, Platform, Tracer, set_bytes, filled, memset}
use threadsafe_memory_manage.Tracer.{temp_alloc, malloc_with, calloc_with, calls_with, init}

-- `myfn_malloc` is being looked up.
pub record IsInitializing {W : Type 0} (s : Tracer W) : Type 0 where
  pub unset : s.bound Symbol.malloc ≡ false
  pub busy : s.malloc_initializing ≡ true
  pub within : s.tmppos < 1024

-- The state behind a block of `size` bytes.
abbrev pub carved : {W : Type 0} → ℕ → Tracer W → Tracer W
carved size s = record s { tmppos = s.tmppos + size; tmpallocs = (s.tmpallocs + 1) % 2 ^ 64 }

pub carved-IsInitializing :
    {W : Type 0} (size : ℕ) (s : Tracer W)
    → IsInitializing s
    → s.tmppos + size < 1024
    → IsInitializing (carved size s)
carved-IsInitializing size s v fits = record { unset = v.unset; busy = v.busy; within = fits }

module _ {W : Type 0} (e : Platform W) (start : Cmd (Tracer W) (Unit {0})) where
  pub temp_alloc-carved :
      (size : ℕ) (s : Tracer W)
      → s.tmppos < 1024
      → size + 1024 ≤ 2 ^ 64
      → temp_alloc e size s
        ≡ (if ltb (s.tmppos + size) 1024 then ok (e.tmpbuff + s.tmppos) (carved size s) else exited)
  unfolding temp_alloc
  temp_alloc-carved size s within small =
      let whole : (s.tmppos + size) % 2 ^ 64 ≡ s.tmppos + size = omega arith in
      elim (Bool-cases (ltb (s.tmppos + size) 1024)) [
        | inl fits ↦
            rw (fits, whole, fits)
              (ap {A = ℕ}
                (λ q.
                  ok (e.tmpbuff + s.tmppos)
                    (record s { tmppos = q; tmpallocs = (s.tmpallocs + 1) % 2 ^ 64 }))
                whole)
        | inr full ↦ rw (whole, full) refl
      ]

  malloc-temp_alloc :
      (size : ℕ) (s : Tracer W)
      → IsInitializing s
      → malloc_with e start size s ≡ temp_alloc e size s
  unfolding malloc_with
  malloc-temp_alloc size s v =
      ap {A = Cmd (Tracer W) Ptr} (λ m. m s)
        (if_false _ _ (s.bound Symbol.malloc) v.unset ∙ if_true _ _ s.malloc_initializing v.busy)

  pub malloc-carved :
      (size : ℕ) (s : Tracer W)
      → IsInitializing s
      → size + 1024 ≤ 2 ^ 64
      → malloc_with e start size s
        ≡ (if ltb (s.tmppos + size) 1024 then ok (e.tmpbuff + s.tmppos) (carved size s) else exited)
  malloc-carved size s v small =
      malloc-temp_alloc size s v ∙ temp_alloc-carved size s v.within small

  -- A sum that wraps passes the test.
  malloc-wrapped :
      (size : ℕ) (s : Tracer W)
      → IsInitializing s
      → size < 2 ^ 64
      → 2 ^ 64 ≤ s.tmppos + size
      → malloc_with e start size s
        ≡ ok
            (e.tmpbuff + s.tmppos)
            (record s { tmppos = s.tmppos + size - 2 ^ 64; tmpallocs = (s.tmpallocs + 1) % 2 ^ 64 })
  unfolding temp_alloc
  malloc-wrapped size s v below wraps =
      let pos = s.tmppos + size - 2 ^ 64 in
      let wrapped : (s.tmppos + size) % 2 ^ 64 ≡ pos = omega arith in
      malloc-temp_alloc size s v
      ∙ rw (wrapped, lt→ltb pos 1024 (omega (arith, v.within)))
          (ap {A = ℕ}
            (λ q.
              ok (e.tmpbuff + s.tmppos)
                (record s { tmppos = q; tmpallocs = (s.tmpallocs + 1) % 2 ^ 64 }))
            wrapped)

  -- `calloc` while `malloc` is looked up, of `n * m` bytes that fit: at most 2 ^ 64 - 1024, and with
  -- the position in `tmpbuff` less than 1024. It returns the block at the position, whose bytes are
  -- zero, and no other byte changes. (`tmpbuff` is not at NULL.)
  pub calloc-carved :
      (n m : ℕ) (s : Tracer W)
      → IsInitializing s
      → n * m + 1024 ≤ 2 ^ 64
      → s.tmppos + n * m < 1024
      → e.tmpbuff ≢ null
      → calloc_with e start n m s
        ≡ ok
            (e.tmpbuff + s.tmppos)
            (set_bytes (filled s.heap.bytes (e.tmpbuff + s.tmppos) 0 (n * m)) (carved (n * m) s))
  unfolding calloc_with memset
  calloc-carved n m s v small fits nonnull =
      let whole : n * m % 2 ^ 64 ≡ n * m = omega arith in
      ap {A = Cmd (Tracer W) Ptr} (λ m. m s) (if_false _ _ (s.bound Symbol.malloc) v.unset)
      ∙ rw
          (
            whole,
            malloc-carved (n * m) s v small,
            lt→ltb _ _ fits,
            ne→== (e.tmpbuff + s.tmppos) null (omega arith),
          )
          refl

-- A client that asks for blocks of the sizes in turn, and returns their addresses.
unfoldable pub mallocs : {A : Type 0} → List ℕ → (List Ptr → Client A) → Client A
mallocs [] k = k []
mallocs (size ∷ sizes) k = Client.malloc size λ p. mallocs sizes λ ps. k (p ∷ ps)

abbrev pub sum : List ℕ → ℕ
sum [] = 0
sum (n ∷ ns) = n + sum ns

-- Addresses one behind the other, from a position in `tmpbuff`.
unfoldable pub offsets : Ptr → ℕ → List ℕ → List Ptr
offsets base pos [] = []
offsets base pos (size ∷ sizes) = (base + pos) ∷ offsets base (pos + size) sizes

-- Sizes that a `size_t` sum with a position in `tmpbuff` can hold.
abbrev pub Small : List ℕ → Type 0
Small [] = Unit {0}
Small (n ∷ ns) = (n + 1024 ≤ 2 ^ 64) × Small ns

-- `tmpallocs` after that many blocks.
abbrev pub counted : List ℕ → ℕ → ℕ
counted [] n = n
counted (size ∷ sizes) n = counted sizes ((n + 1) % 2 ^ 64)

abbrev pub carved_all : {W : Type 0} → List ℕ → Tracer W → Tracer W
carved_all sizes s = record s {
  tmppos = s.tmppos + sum sizes;
  tmpallocs = counted sizes s.tmpallocs;
}

module _ {W : Type 0} (e : Platform W) (d : ℕ) where
  pub serve-mallocs :
      {A : Type 0} (sizes : List ℕ) (k : List Ptr → Client A) (s : Tracer W)
      → IsInitializing s
      → Small sizes
      → serve (calls_with e (init e d)) (mallocs sizes k) s ≡ (
          if ltb (s.tmppos + sum sizes) 1024
          then serve
              (calls_with e (init e d))
              (k (offsets e.tmpbuff s.tmppos sizes))
              (carved_all sizes s)
          else exited)
  unfolding serve mallocs offsets
  serve-mallocs [] k s v small =
      let none_added : s.tmppos ≡ s.tmppos + 0 = omega arith in
      rw (lt→ltb (s.tmppos + 0) 1024 (omega (arith, v.within))) (
        ap {A = ℕ} (λ q. serve (calls_with e (init e d)) (k []) (record s { tmppos = q }))
          none_added)
  serve-mallocs (size ∷ sizes) k s v small = elim (Bool-cases (ltb (s.tmppos + size) 1024)) [
    | inl fits ↦
        let next = carved-IsInitializing size s v (ltb→lt _ _ fits) in
        let sums : s.tmppos + (size + sum sizes) ≡ s.tmppos + size + sum sizes = omega arith in
        rw (malloc-carved e (init e d) size s v small.0, fits, sums)
          (serve-mallocs sizes (λ ps. k ((e.tmpbuff + s.tmppos) ∷ ps)) (carved size s) next small.1)
    | inr full ↦
        rw
          (
            malloc-carved e (init e d) size s v small.0,
            full,
            le→ltb (s.tmppos + (size + sum sizes)) 1024 (omega (arith, ltb→le _ _ full)),
          )
          refl
  ]

  -- A size near 2 ^ 64 passes the test for what is left of `tmpbuff`, since the sum wraps: the
  -- position falls back, and the next block lies in memory that is already handed out.
  pub malloc_wraps :
      (size n : ℕ) (s : Tracer W)
      → IsInitializing s
      → size < 2 ^ 64
      → 2 ^ 64 ≤ s.tmppos + size
      → s.tmppos + size - 2 ^ 64 + n < 1024
      → Returns {A = Ptr × Ptr}
          (λ ps t.
            (ps.0 ≡ e.tmpbuff + s.tmppos) × (e.tmpbuff ≤ ps.1) × (ps.1 < e.tmpbuff + s.tmppos))
          ((do
            p ← malloc_with e (init e d) size
            q ← malloc_with e (init e d) n
            pure {S = Tracer W} (p, q))
            s)
  malloc_wraps size n s v below wraps fits =
      let t : Tracer W = record s {
        tmppos = s.tmppos + size - 2 ^ 64;
        tmpallocs = (s.tmpallocs + 1) % 2 ^ 64;
      } in
      let w : IsInitializing t = record {
        unset = v.unset;
        busy = v.busy;
        within = omega (arith, v.within);
      } in
      rw
        (
          malloc-wrapped e (init e d) size s v below wraps,
          malloc-carved e (init e d) n t w (omega arith),
          lt→ltb (t.tmppos + n) 1024 fits,
        )
        (returns (omega arith))
