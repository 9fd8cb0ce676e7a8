-- ===== src/Tracer/Steady.antt =====
-- Initialization ends: calls that `dlsym` makes while cM2.c initializes nest at most twice, since
-- each of the two flags `initializing` lets one call through.
use threadsafe_memory_manage.Prelude.{
  ℕ, zero, suc, ◌%◌, ◌^◌, ◌*◌, ◌<◌, ◌≡◌, refl, sym, ◌∙◌, true, false, arith, ◌∷◌,
}
use threadsafe_memory_manage.Word.{Ptr}
use threadsafe_memory_manage.Run.Ends
use threadsafe_memory_manage.Run.Ends.{Ends, returned, faulted, left}
use threadsafe_memory_manage.Client.{Client, MapRequest, serve}
use threadsafe_memory_manage.Platform.{
  Symbol, Platform, Tracer, malloc_first, mmap_first, temp_report, dlsym_error,
}
use threadsafe_memory_manage.Tracer.{
  malloc_with, mmap_with, realloc_with, calloc_with, calls_with, look_up, set_bound, init_with,
  init, traced,
}
use threadsafe_memory_manage.Tracer.Flags.{
  Flags, pending, Ends_if, Steady, bind-Steady, pure-Steady, if-Steady, get-Steady, modify-Steady,
  exit-Steady, print-Steady, sprintf_write-Steady, call_next-Steady, memmove-Steady, memset-Steady,
  temp_alloc-Steady, malloc_next-Steady, mmap_next-Steady, free-Steady, memalign-Steady,
  munmap-Steady,
}

module _ {W : Type 0} where
  -- `init` at depth `d`, wherever fewer initializations than that are to come.
  abbrev InitEnds : Platform W → ℕ → Type 0
  InitEnds e d = (s : Tracer W) → pending s < d → Ends (λ _ t. Flags s t) (init e d s)

  module _ (e : Platform W) (d : ℕ) (ends : InitEnds e d) where
    malloc_with-Steady : (size : ℕ) → Steady d (malloc_with e (init e d) size)
    unfolding malloc_with
    malloc_with-Steady size = record {
      runs = λ s few.
          Ends_if _ _ (s.bound Symbol.malloc) s (λ set. (malloc_next-Steady e size).runs s few)
            (λ unset.
              Ends_if _ _ s.malloc_initializing s (λ busy. (temp_alloc-Steady e size).runs s few)
                (λ first.
                  (Ends.bind (ends (record s { malloc_initializing = true }) (ground (arith, few)))
                    λ u t f.
                      Ends.mono
                        ((malloc_next-Steady {d = d} e size).runs
                          (record t {
                            malloc_initializing = false;
                            output =
                                temp_report t.tmppos t.tmpallocs ∷ malloc_first size ∷ t.output;
                          })
                          (ground (arith, few, f.mmap)))
                        λ p v g. record {
                          malloc = g.malloc ∙ sym first;
                          mmap = g.mmap ∙ f.mmap;
                        })));
    }

    mmap_with-Steady : (request : MapRequest) → Steady d (mmap_with e (init e d) request)
    unfolding mmap_with
    mmap_with-Steady request = record {
      runs = λ s few.
          Ends_if _ _ (s.bound Symbol.mmap) s (λ set. (mmap_next-Steady e request).runs s few)
            (λ unset.
              Ends_if _ _ s.mmap_initializing s
                (λ busy. (temp_alloc-Steady e request.length).runs s few)
                (λ first.
                  (Ends.bind (ends (record s { mmap_initializing = true }) (ground (arith, few)))
                    λ u t f.
                      Ends.mono
                        ((mmap_next-Steady {d = d} e request).runs
                          (record t {
                            mmap_initializing = false;
                            output =
                                temp_report t.tmppos t.tmpallocs
                                ∷ mmap_first request.length
                                ∷ t.output;
                          })
                          (ground (arith, few, f.malloc)))
                        λ p v g. record {
                          malloc = g.malloc ∙ f.malloc;
                          mmap = g.mmap ∙ sym first;
                        })));
    }

    realloc_with-Steady : (p : Ptr) (size : ℕ) → Steady d (realloc_with e (init e d) p size)
    unfolding realloc_with
    realloc_with-Steady p size = bind-Steady (sprintf_write-Steady e 70 _) λ _. get-Steady λ s.
        if-Steady (s.bound Symbol.malloc)
          (bind-Steady (call_next-Steady _ _)
            λ q. bind-Steady (sprintf_write-Steady e 70 _) λ _. pure-Steady q)
          (bind-Steady (malloc_with-Steady size) λ q.
            bind-Steady
              (if-Steady _ (bind-Steady (memmove-Steady q p size) λ _. free-Steady e p)
                (pure-Steady tt))
              λ _. pure-Steady q)

    calloc_with-Steady : (n m : ℕ) → Steady d (calloc_with e (init e d) n m)
    unfolding calloc_with
    calloc_with-Steady n m = get-Steady λ s.
        if-Steady (s.bound Symbol.malloc)
          (bind-Steady (call_next-Steady _ _)
            λ p. bind-Steady (sprintf_write-Steady e 70 _) λ _. pure-Steady p)
          (bind-Steady (malloc_with-Steady (n * m % 2 ^ 64)) λ p.
            bind-Steady (if-Steady _ (pure-Steady tt) (memset-Steady p 0 (n * m % 2 ^ 64)))
              λ _. pure-Steady p)

    serve-Steady : {A : Type 0} (c : Client A) → Steady d (serve (calls_with e (init e d)) c)
    unfolding serve
    serve-Steady (Client.done a) = pure-Steady a
    serve-Steady (Client.malloc size k) =
        bind-Steady (malloc_with-Steady size) λ p. serve-Steady (k p)
    serve-Steady (Client.free p k) = bind-Steady (free-Steady e p) λ _. serve-Steady k
    serve-Steady (Client.realloc p size k) =
        bind-Steady (realloc_with-Steady p size) λ q. serve-Steady (k q)
    serve-Steady (Client.calloc n m k) =
        bind-Steady (calloc_with-Steady n m) λ p. serve-Steady (k p)
    serve-Steady (Client.memalign n m k) =
        bind-Steady (memalign-Steady e n m) λ p. serve-Steady (k p)
    serve-Steady (Client.mmap request k) =
        bind-Steady (mmap_with-Steady request) λ p. serve-Steady (k p)
    serve-Steady (Client.munmap p n k) = bind-Steady (munmap-Steady e p n) λ r. serve-Steady (k r)

    look_up-Steady : (symbol : Symbol) → Steady d (look_up e (calls_with e (init e d)) symbol)
    unfolding look_up
    look_up-Steady symbol =
        bind-Steady (serve-Steady (e.dlsym symbol))
          λ found. modify-Steady (set_bound symbol found) λ t. record { malloc = refl; mmap = refl }

    init_with-Steady : Steady d (init_with e (calls_with e (init e d)))
    unfolding init_with
    init_with-Steady = bind-Steady (look_up-Steady Symbol.malloc) λ _.
        bind-Steady (look_up-Steady Symbol.free) λ _.
          bind-Steady (look_up-Steady Symbol.calloc) λ _.
            bind-Steady (look_up-Steady Symbol.realloc) λ _.
              bind-Steady (look_up-Steady Symbol.memalign) λ _.
                bind-Steady (look_up-Steady Symbol.mmap) λ _.
                  bind-Steady (look_up-Steady Symbol.munmap) λ _. get-Steady λ s.
                    if-Steady _ (pure-Steady tt)
                      (bind-Steady (print-Steady dlsym_error) λ _. exit-Steady)

  init-InitEnds : (e : Platform W) (d : ℕ) → InitEnds e d
  unfolding init
  init-InitEnds e zero s few = absurd (omega arith)
  init-InitEnds e (suc d) s few = (init_with-Steady e d (init-InitEnds e d)).runs s (omega arith)

  -- If `fprintf` itself allocates nothing: whatever `dlsym` calls meanwhile, and in any state of the
  -- file, every client of the traced functions comes to an end: it returns, with the flags
  -- `initializing` as they were, stops the program, or runs into undefined behaviour; the nested
  -- initializations never exceed the depth that the model gives them.
  pub serve-traced-Ends :
      {A : Type 0} (e : Platform W) (c : Client A) (s : Tracer W)
      → Ends
          (λ _ t.
            (t.malloc_initializing ≡ s.malloc_initializing)
            × (t.mmap_initializing ≡ s.mmap_initializing))
          (serve (traced e) c s)
  serve-traced-Ends e c s =
      Ends.mono ((serve-Steady e 2 (init-InitEnds e 2) c).runs s (ground arith))
        λ a t f. (f.malloc, f.mmap)
