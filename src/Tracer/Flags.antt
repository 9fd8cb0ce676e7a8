-- ===== src/Tracer/Flags.antt =====
-- The two flags `initializing` of cM2.c, and the commands that end and leave them as they were.
use threadsafe_memory_manage.Prelude.{
  ℕ, ◌+◌, ◌%◌, ◌^◌, ◌≤◌, ◌≡◌, refl, ◌∙◌, Bool, true, false, arith, if◌then◌else◌, ltb,
}
use threadsafe_memory_manage.Word.{Ptr}
use threadsafe_memory_manage.Run.{Cmd, pure, ◌>>=◌, get, modify, fault}
use threadsafe_memory_manage.Run.Ends
use threadsafe_memory_manage.Run.Ends.{Ends, returned, faulted, left}
use threadsafe_memory_manage.Client.{MapRequest}
use threadsafe_memory_manage.Platform.{
  Symbol, Platform, Tracer, Heap, Line, print, sprintf_write, call_next, memset, memmove, exit,
  too_much, freeing_temp,
}
use threadsafe_memory_manage.Tracer.{temp_alloc, malloc_next, mmap_next, free, memalign, munmap}

abbrev pub waiting : Bool → ℕ
waiting true = 0
waiting false = 1

module _ {W : Type 0} where
  pub record Flags (s t : Tracer W) : Type 0 where
    pub malloc : t.malloc_initializing ≡ s.malloc_initializing
    pub mmap : t.mmap_initializing ≡ s.mmap_initializing

  -- How many initializations can still begin.
  abbrev pub pending : Tracer W → ℕ
  pending s = waiting s.malloc_initializing + waiting s.mmap_initializing

  pending-Flags : (s t : Tracer W) → Flags s t → pending t ≡ pending s
  pending-Flags s t f = rw (f.malloc, f.mmap) refl

  Flags-trans : {s t u : Tracer W} → Flags s t → Flags t u → Flags s u
  Flags-trans f g = record { malloc = g.malloc ∙ f.malloc; mmap = g.mmap ∙ f.mmap }

  Flags-refl : (s : Tracer W) → Flags s s
  Flags-refl s = record { malloc = refl; mmap = refl }

  pub Ends_if :
      {A : Type 0} {P : A → Tracer W → Type 0} (m n : Cmd (Tracer W) A) (b : Bool) (s : Tracer W)
      → (b ≡ true → Ends P (m s))
      → (b ≡ false → Ends P (n s))
      → Ends P ((if b then m else n) s)
  Ends_if _ _ true s m n = m refl
  Ends_if _ _ false s m n = n refl

  -- With at most `d` initializations to come, the command ends and leaves the flags.
  pub record Steady (d : ℕ) {A : Type 0} (m : Cmd (Tracer W) A) : Type 0 where
    pub runs : (s : Tracer W) → pending s ≤ d → Ends (λ _ t. Flags s t) (m s)

  module _ {d : ℕ} where
    pub bind-Steady :
        {A B : Type 0} {m : Cmd (Tracer W) A} {k : A → Cmd (Tracer W) B}
        → Steady d m
        → ((a : A) → Steady d (k a))
        → Steady d (m >>= k)
    bind-Steady m k = record {
      runs = λ s few. Ends.bind (m.runs s few) λ a t f.
          Ends.mono ((k a).runs t (omega (arith, pending-Flags s t f))) λ b u g. Flags-trans f g;
    }

    pub pure-Steady : {A : Type 0} (a : A) → Steady d (pure {S = Tracer W} a)
    pure-Steady a = record { runs = λ s few. returned (Flags-refl s) }

    pub if-Steady :
        {A : Type 0} {m n : Cmd (Tracer W) A} (b : Bool)
        → Steady d m
        → Steady d n
        → Steady d (if b then m else n)
    if-Steady true m n = m
    if-Steady false m n = n

    pub get-Steady :
        {A : Type 0} {k : Tracer W → Cmd (Tracer W) A}
        → ((s : Tracer W) → Steady d (k s))
        → Steady d (get >>= k)
    get-Steady k = record { runs = λ s few. (k s).runs s few }

    pub modify-Steady :
        (f : Tracer W → Tracer W) → ((s : Tracer W) → Flags s (f s)) → Steady d (modify f)
    modify-Steady f same = record { runs = λ s few. returned (same s) }

    pub exit-Steady : {A : Type 0} → Steady d (exit {W = W} {A = A})
    exit-Steady = record { runs = λ s few. left }

    pub print-Steady : (line : Line) → Steady d (print {W = W} line)
    print-Steady line = modify-Steady _ (λ s. record { malloc = refl; mmap = refl })

    or_fault-Steady :
        {A : Type 0} (m : Cmd (Tracer W) A) (test : Tracer W → Bool)
        → Steady d m
        → Steady d (λ s. if test s then m s else fault)
    or_fault-Steady {A} m test steady = record {
      runs = λ s few. branch (test s) s (steady.runs s few);
    }
      where
        branch :
            (b : Bool) (s : Tracer W)
            → Ends (λ _ t. Flags s t) (m s)
            → Ends (λ _ t. Flags s t) (if b then m s else fault)
        branch true s r = r
        branch false s r = faulted

    pub sprintf_write-Steady :
        (e : Platform W) (n : ℕ) (line : Line) → Steady d (sprintf_write e n line)
    unfolding sprintf_write
    sprintf_write-Steady e n line = or_fault-Steady _ _ (print-Steady line)

    pub call_next-Steady :
        {A : Type 0} (symbol : Symbol) (f : Heap W → A × Heap W) → Steady d (call_next symbol f)
    unfolding call_next
    call_next-Steady symbol f =
        or_fault-Steady _ (λ s. s.bound symbol)
          (record { runs = λ s few. returned (record { malloc = refl; mmap = refl }) })

    pub memmove-Steady : (to from : Ptr) (n : ℕ) → Steady d (memmove {W = W} to from n)
    unfolding memmove
    memmove-Steady to from n = modify-Steady _ λ t. record { malloc = refl; mmap = refl }

    pub memset-Steady : (to : Ptr) (value n : ℕ) → Steady d (memset {W = W} to value n)
    unfolding memset
    memset-Steady to value n = modify-Steady _ λ t. record { malloc = refl; mmap = refl }

    pub temp_alloc-Steady : (e : Platform W) (size : ℕ) → Steady d (temp_alloc e size)
    unfolding temp_alloc
    temp_alloc-Steady e size = get-Steady λ s.
        if-Steady (ltb ((s.tmppos + size) % 2 ^ 64) 1024)
          (bind-Steady
            (modify-Steady
              (λ t. record t {
                tmppos = (t.tmppos + size) % 2 ^ 64;
                tmpallocs = (t.tmpallocs + 1) % 2 ^ 64;
              })
              λ t. record { malloc = refl; mmap = refl })
            λ _. pure-Steady (e.tmpbuff + s.tmppos))
          (bind-Steady (print-Steady too_much) λ _. exit-Steady)

    pub malloc_next-Steady : (e : Platform W) (size : ℕ) → Steady d (malloc_next e size)
    unfolding malloc_next
    malloc_next-Steady e size =
        bind-Steady (call_next-Steady _ _)
          λ p. bind-Steady (sprintf_write-Steady e 50 _) λ _. pure-Steady p

    pub mmap_next-Steady : (e : Platform W) (request : MapRequest) → Steady d (mmap_next e request)
    unfolding mmap_next
    mmap_next-Steady e request =
        bind-Steady (call_next-Steady _ _)
          λ p. bind-Steady (sprintf_write-Steady e 70 _) λ _. pure-Steady p

    pub free-Steady : (e : Platform W) (p : Ptr) → Steady d (free e p)
    unfolding free
    free-Steady e p = get-Steady λ s.
        bind-Steady (if-Steady _ (print-Steady freeing_temp) (call_next-Steady _ _))
          λ _. sprintf_write-Steady e 50 _

    pub memalign-Steady : (e : Platform W) (n m : ℕ) → Steady d (memalign e n m)
    unfolding memalign
    memalign-Steady e n m =
        bind-Steady (call_next-Steady _ _)
          λ p. bind-Steady (sprintf_write-Steady e 70 _) λ _. pure-Steady p

    pub munmap-Steady : (e : Platform W) (p : Ptr) (n : ℕ) → Steady d (munmap e p n)
    unfolding munmap
    munmap-Steady e p n = bind-Steady (sprintf_write-Steady e 70 _) λ _.
        bind-Steady (call_next-Steady _ _)
          λ r. bind-Steady (sprintf_write-Steady e 70 _) λ _. pure-Steady r
