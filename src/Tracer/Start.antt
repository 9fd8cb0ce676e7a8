-- ===== src/Tracer/Start.antt =====
-- The first call of `malloc`, which looks the real functions up.
use threadsafe_memory_manage.Prelude.{
  ℕ, ◌+◌, ◌<◌, ◌≡◌, refl, ap, ◌∙◌, fun_ext, Bool, true, false, ◌&&◌, List, ◌∷◌, arith,
  if◌then◌else◌, if_false, Bool-cases, inl, inr, lt→ltb,
}
use threadsafe_memory_manage.Word.{Ptr}
use threadsafe_memory_manage.Run.{Cmd, ok, fault, exited}
use threadsafe_memory_manage.Client.{Client, serve}
use threadsafe_memory_manage.Platform.{
  Symbol, is, bind, Platform, Tracer, Heap, malloc_first, temp_report, malloced, call_next,
}
use threadsafe_memory_manage.Platform.Fits.{IsShort, malloced-fits, sprintf_write-ok}
use threadsafe_memory_manage.Tracer.{
  malloc_next, malloc_with, calloc_with, calls_with, look_up, init_with, init, traced, set_bound,
}
use threadsafe_memory_manage.Tracer.Transparent.{call_next-ok}
use threadsafe_memory_manage.Tracer.Temp.{
  IsInitializing, mallocs, sum, Small, counted, carved_all, serve-mallocs,
}

-- Before the first call.
pub record IsFresh {W : Type 0} (s : Tracer W) : Type 0 where
  pub unset : s.bound Symbol.malloc ≡ false
  pub quiet : s.malloc_initializing ≡ false

-- `dlsym` finds what `found` says; on its first call it asks for blocks of the given sizes itself.
pub record Finds {W : Type 0} (e : Platform W) (sizes : List ℕ) (found : Symbol → Bool)
    : Type 0 where
  pub first : e.dlsym Symbol.malloc ≡ mallocs sizes (λ _. Client.done (found Symbol.malloc))
  pub rest :
      (symbol : Symbol)
      → is symbol Symbol.malloc ≡ false
      → e.dlsym symbol ≡ Client.done (found symbol)

abbrev pub all_found : (Symbol → Bool) → Bool
all_found found =
    found Symbol.malloc
    && found Symbol.free
    && found Symbol.calloc
    && found Symbol.realloc
    && found Symbol.memalign
    && found Symbol.mmap
    && found Symbol.munmap

abbrev bind_all : (Symbol → Bool) → (Symbol → Bool) → Symbol → Bool
bind_all found b = bind Symbol.munmap (found Symbol.munmap) (
    bind Symbol.mmap (found Symbol.mmap) (
      bind Symbol.memalign (found Symbol.memalign) (
        bind Symbol.realloc (found Symbol.realloc) (
          bind Symbol.calloc (found Symbol.calloc)
            (bind Symbol.free (found Symbol.free) (bind Symbol.malloc (found Symbol.malloc) b))))))

bind_all-found :
    (found b : Symbol → Bool) (symbol : Symbol) → bind_all found b symbol ≡ found symbol
bind_all-found found b Symbol.malloc = refl
bind_all-found found b Symbol.free = refl
bind_all-found found b Symbol.calloc = refl
bind_all-found found b Symbol.realloc = refl
bind_all-found found b Symbol.memalign = refl
bind_all-found found b Symbol.mmap = refl
bind_all-found found b Symbol.munmap = refl

module _ {W : Type 0} (e : Platform W) (d : ℕ) (sizes : List ℕ) (found : Symbol → Bool)
    (v : Finds e sizes found) where
  look_up-rest :
      (symbol : Symbol) (s : Tracer W)
      → is symbol Symbol.malloc ≡ false
      → look_up e (calls_with e (init e d)) symbol s ≡ ok tt (set_bound symbol (found symbol) s)
  unfolding look_up serve
  look_up-rest symbol s other = rw (v.rest symbol other) refl

  look_up-malloc :
      (s : Tracer W)
      → IsInitializing s
      → Small sizes
      → s.tmppos + sum sizes < 1024
      → look_up e (calls_with e (init e d)) Symbol.malloc s
        ≡ ok tt (set_bound Symbol.malloc (found Symbol.malloc) (carved_all sizes s))
  unfolding look_up serve
  look_up-malloc s w small fits =
      rw
        (
          v.first,
          serve-mallocs e d sizes (λ _. Client.done (found Symbol.malloc)) s w small,
          lt→ltb _ _ fits,
        )
        refl

  init-found :
      (s : Tracer W)
      → IsInitializing s
      → Small sizes
      → s.tmppos + sum sizes < 1024
      → init_with e (calls_with e (init e d)) s ≡ (
          if all_found found then ok tt (record (carved_all sizes s) { bound = found }) else exited)
  unfolding init_with
  init-found s w small fits =
      rw
        (
          look_up-malloc s w small fits,
          look_up-rest Symbol.free _ refl,
          look_up-rest Symbol.calloc _ refl,
          look_up-rest Symbol.realloc _ refl,
          look_up-rest Symbol.memalign _ refl,
          look_up-rest Symbol.mmap _ refl,
          look_up-rest Symbol.munmap _ refl,
        )
        (elim (Bool-cases (all_found found)) [
          | inl every ↦ rw every (
              ap (λ b. ok tt (record (carved_all sizes s) { bound = b }))
                (fun_ext (bind_all-found found s.bound)))
          | inr missing ↦ rw missing refl
        ])

-- The state behind the first call of `malloc`.
abbrev pub started :
    {W : Type 0} → List ℕ → (Symbol → Bool) → ℕ → Ptr → Heap W → Tracer W → Tracer W
started sizes found size p h s = record (carved_all sizes s) {
  bound = found;
  malloc_initializing = false;
  heap = h;
  output =
      malloced size p
      ∷ temp_report (s.tmppos + sum sizes) (counted sizes s.tmpallocs)
      ∷ malloc_first size
      ∷ s.output;
}

module _ {W : Type 0} (e : Platform W) (short : IsShort e.format) where
  -- If `fprintf` itself allocates nothing, and `dlsym` calls nothing but `malloc`, in its first lookup
  -- alone, for sizes of at most 2 ^ 64 - 1024 that leave the position in `tmpbuff` below 1024, and
  -- the texts of numbers and addresses are short: the first call of `malloc` looks every function up,
  -- serves those blocks from `tmpbuff`, and then, with the flag cleared and three lines printed,
  -- returns what the allocator behind returns; where a function is missing, it ends the program.
  pub malloc-started :
      (sizes : List ℕ) (found : Symbol → Bool) (size : ℕ) (s : Tracer W)
      → Finds e sizes found
      → IsFresh s
      → Small sizes
      → s.tmppos + sum sizes < 1024
      → (traced e).malloc size s ≡ (
          if all_found found
          then (let (p, h) = e.next.malloc size s.heap in ok p (started sizes found size p h s))
          else exited)
  unfolding malloc_with malloc_next init
  malloc-started sizes found size s v fresh small fits =
      let t : Tracer W = record s { malloc_initializing = true } in
      let w : IsInitializing t = record {
        unset = fresh.unset;
        busy = refl;
        within = omega arith;
      } in
      let u : Tracer W = record (carved_all sizes s) {
        bound = found;
        malloc_initializing = false;
        output =
            temp_report (s.tmppos + sum sizes) (counted sizes s.tmpallocs)
            ∷ malloc_first size
            ∷ s.output;
      } in
      ap {A = Cmd (Tracer W) Ptr} (λ m. m s)
        (if_false _ _ (s.bound Symbol.malloc) fresh.unset
          ∙ if_false _ _ s.malloc_initializing fresh.quiet)
      ∙ rw (init-found e 1 sizes found v t w small fits) (elim (Bool-cases (all_found found)) [
        | inl every ↦
            rw
              (
                every,
                call_next-ok u Symbol.malloc (e.next.malloc size) (ground (arith, every)),
                sprintf_write-ok e 50 _ _ (malloced-fits e.format short size _),
              )
              refl
        | inr missing ↦ rw missing refl
      ])

module _ {W : Type 0} (e : Platform W) where
  -- `init` sets `myfn_malloc` before `myfn_calloc`: if `dlsym` calls `calloc` in between, that call
  -- goes through a NULL pointer.
  pub malloc-calloc_fault :
      (size n m : ℕ) (k : Ptr → Client Bool) (s : Tracer W)
      → e.dlsym Symbol.malloc ≡ Client.done true
      → e.dlsym Symbol.free ≡ Client.calloc n m k
      → IsFresh s
      → s.bound Symbol.calloc ≡ false
      → (traced e).malloc size s ≡ fault
  unfolding malloc_with init init_with look_up serve calloc_with call_next
  malloc-calloc_fault size n m k s first second fresh unset =
      ap {A = Cmd (Tracer W) Ptr} (λ m. m s)
        (if_false _ _ (s.bound Symbol.malloc) fresh.unset
          ∙ if_false _ _ s.malloc_initializing fresh.quiet)
      ∙ rw (first, second, unset) refl
