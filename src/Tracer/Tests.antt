-- ===== src/Tracer/Tests.antt =====
-- The theorems on cM2.c over a concrete machine: an allocator that hands out addresses in order.
use threadsafe_memory_manage.Prelude.{
  ℕ, ◌+◌, ◌-◌, ◌^◌, ◌≤◌, ◌<◌, ◌≡◌, refl, Bool, true, false, List, [], ◌∷◌, arith, leb,
  if◌then◌else◌,
}
use threadsafe_memory_manage.Word.{Ptr}
use threadsafe_memory_manage.Run.{ok, fault, exited, pure, ◌>>=◌}
use threadsafe_memory_manage.Run.Returns.{Returns}
use threadsafe_memory_manage.Run.Ends.{Ends}
use threadsafe_memory_manage.Client.{Client, serve}
use threadsafe_memory_manage.Platform.{
  Symbol, Heap, Next, Platform, Tracer, is, memaligned, filled, set_bytes,
}
use threadsafe_memory_manage.Platform.Fits.{IsShort}
use threadsafe_memory_manage.Tracer.{init, traced, memalign, malloc_with, calloc_with}
use threadsafe_memory_manage.Tracer.Steady.{serve-traced-Ends}
use threadsafe_memory_manage.Tracer.Transparent.{
  IsLegible, after, reference, serve-traced-reference, memalign_bounds,
}
use threadsafe_memory_manage.Tracer.Temp.{
  IsInitializing, mallocs, carved, calloc-carved, malloc_wraps,
}
use threadsafe_memory_manage.Tracer.Start.{Finds, started, malloc-started, malloc-calloc_fault}

-- The next free address.
abbrev bump : ℕ → Heap ℕ → Ptr × Heap ℕ
bump size h = (h.world, record h { world = h.world + size })

abbrev behind : Next ℕ
behind = record {
  malloc = bump;
  free = λ p h. h;
  realloc = λ p size. bump size;
  calloc = λ n m. bump m;
  memalign = λ n m. bump m;
  mmap = λ request. bump request.length;
  munmap = λ p n h. (0, h);
}

-- Every number is printed as one digit.
abbrev digit : ℕ → List ℕ
digit n = b'7' ∷ []

-- On its first call `dlsym` asks for 8 and for 24 bytes.
abbrev asks : Symbol → Client Bool
asks Symbol.malloc = mallocs (8 ∷ 24 ∷ []) λ _. Client.done true
asks _ = Client.done true

abbrev machine : Platform ℕ
machine = record {
  tmpbuff = 5000;
  format = record { long = digit; pointer = digit; int = digit };
  next = behind;
  dlsym = asks;
}

machine-IsShort : IsShort machine.format
machine-IsShort = record {
  long = λ n. omega arith;
  pointer = λ p. omega arith;
  int = λ n. omega arith;
}

machine-IsLegible : IsLegible machine
machine-IsLegible = record { short = machine-IsShort; memaligned_fits = λ n m h. omega arith }

machine-Finds : Finds machine (8 ∷ 24 ∷ []) (λ _. true)
machine-Finds = record { first = refl; rest = asks-rest }
  where
    asks-rest : (symbol : Symbol) → is symbol Symbol.malloc ≡ false → asks symbol ≡ Client.done true
    asks-rest Symbol.malloc e = cc
    asks-rest Symbol.free e = refl
    asks-rest Symbol.calloc e = refl
    asks-rest Symbol.realloc e = refl
    asks-rest Symbol.memalign e = refl
    asks-rest Symbol.mmap e = refl
    asks-rest Symbol.munmap e = refl

-- Before the first call, and while `malloc` is looked up with 32 bytes handed out.
abbrev blank : Tracer ℕ
blank = record {
  tmppos = 0;
  tmpallocs = 0;
  bound = λ _. false;
  malloc_initializing = false;
  mmap_initializing = false;
  heap = record { world = 9000; bytes = λ a. a };
  output = [];
}

abbrev looking : Tracer ℕ
looking = record blank { tmppos = 32; tmpallocs = 2; malloc_initializing = true }

abbrev ready : Tracer ℕ
ready = record blank { tmppos = 32; tmpallocs = 2; bound = λ _. true }

looking-IsInitializing : IsInitializing looking
looking-IsInitializing = record { unset = refl; busy = refl; within = omega arith }

-- A client that allocates, frees a block of `tmpbuff`, and reallocates.
abbrev client : Client Ptr
client = Client.malloc 40 λ p. Client.free 5008 (Client.realloc p 80 λ q. Client.done q)

serve-traced-Ends_example :
    Ends
      (λ _ t. (t.malloc_initializing ≡ false) × (t.mmap_initializing ≡ false))
      (serve (traced machine) client blank)
serve-traced-Ends_example = serve-traced-Ends machine client blank

serve-traced-reference_example : serve (traced machine) client ready ≡ (
    let r = reference machine 32 client ready.heap [] in ok r.value (after ready r.heap r.output))
serve-traced-reference_example =
    serve-traced-reference machine machine-IsLegible client ready (λ symbol. refl)

-- What that client gets: its second block, from the allocator behind.
reference_run : (reference machine 32 client ready.heap []).value ≡ 9040
unfolding reference
reference_run = refl

memalign_bounds_example : memalign machine 16 64 ready ≡ (
    if leb 3 51
    then ok 9000
        (after ready (record { world = 9064; bytes = λ a. a }) (memaligned 16 64 9000 ∷ []))
    else fault)
memalign_bounds_example = memalign_bounds machine 16 64 ready (λ symbol. refl)

calloc-carved_example :
    calloc_with machine (init machine 1) 4 10 looking
    ≡ ok 5032 (set_bytes (filled (λ a. a) 5032 0 40) (carved 40 looking))
calloc-carved_example =
    calloc-carved machine (init machine 1) 4 10 looking looking-IsInitializing (omega arith)
      (omega arith) (omega arith)

malloc_wraps_example :
    Returns {A = Ptr × Ptr}
      (λ ps t. (ps.0 ≡ 5032) × (5000 ≤ ps.1) × (ps.1 < 5032))
      ((do
        p ← malloc_with machine (init machine 1) (2 ^ 64 - 20)
        q ← malloc_with machine (init machine 1) 16
        pure {S = Tracer ℕ} (p, q))
        looking)
malloc_wraps_example =
    malloc_wraps machine 1 (2 ^ 64 - 20) 16 looking looking-IsInitializing (omega arith)
      (omega arith) (omega arith)

malloc-started_example : (traced machine).malloc 100 blank ≡ (
    if true
    then ok 9000
        (started (8 ∷ 24 ∷ []) (λ _. true) 100 9000 (record { world = 9100; bytes = λ a. a }) blank)
    else exited)
malloc-started_example =
    malloc-started machine machine-IsShort (8 ∷ 24 ∷ []) (λ _. true) 100 blank machine-Finds
      (record { unset = refl; quiet = refl }) (omega arith) (omega arith)

-- A `dlsym` that calls `calloc` on its second call.
abbrev asks_late : Symbol → Client Bool
asks_late Symbol.free = Client.calloc 1 8 λ p. Client.done true
asks_late _ = Client.done true

malloc-calloc_fault_example :
    (traced (record machine { dlsym = asks_late })).malloc 100 blank ≡ fault
malloc-calloc_fault_example =
    malloc-calloc_fault (record machine { dlsym = asks_late }) 100 1 8 (λ p. Client.done true) blank
      refl refl (record { unset = refl; quiet = refl }) refl
