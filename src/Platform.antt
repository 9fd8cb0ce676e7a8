-- ===== src/Platform.antt =====
-- What surrounds cM2.c: the functions that `dlsym` finds, what it prints through, and the state that
-- the file keeps. The allocator behind it, `dlsym` and the texts of `sprintf` are parameters.
pub mod Fits
use Prim.Native.Char.{code}
use Prim.Native.String.{String}
use threadsafe_memory_manage.Prelude.{
  ℕ, suc, ◌+◌, ◌-◌, Bool, true, false, ◌&&◌, List, [], ◌∷◌, ◌++◌, ltb, leb, if◌then◌else◌, length,
}
use threadsafe_memory_manage.Word.{Ptr}
use threadsafe_memory_manage.Run.{
  Run, ok, fault, exited, Cmd, pure, and_then, ◌>>=◌, ◌>>◌, get, modify,
}
use threadsafe_memory_manage.Machine.{copied}
use threadsafe_memory_manage.Client.{MapRequest, Client}

-- The functions that cM2.c looks up.
pub data Symbol : Type 0 where
  malloc free calloc realloc memalign mmap munmap : Symbol

abbrev pub is : Symbol → Symbol → Bool
is malloc malloc = true
is free free = true
is calloc calloc = true
is realloc realloc = true
is memalign memalign = true
is mmap mmap = true
is munmap munmap = true
is _ _ = false

abbrev pub bind : Symbol → Bool → (Symbol → Bool) → Symbol → Bool
bind symbol found bound other = if is symbol other then found else bound other

-- The bytes of memory, with whatever else the allocator behind keeps.
pub record Heap (W : Type 0) : Type 0 where
  pub world : W
  pub bytes : Ptr → ℕ

-- The allocator behind, which `dlsym (RTLD_NEXT, …)` finds.
pub record Next (W : Type 0) : Type 0 where
  pub malloc : ℕ → Heap W → Ptr × Heap W
  pub free : Ptr → Heap W → Heap W
  pub realloc : Ptr → ℕ → Heap W → Ptr × Heap W
  pub calloc : ℕ → ℕ → Heap W → Ptr × Heap W
  pub memalign : ℕ → ℕ → Heap W → Ptr × Heap W
  pub mmap : MapRequest → Heap W → Ptr × Heap W
  pub munmap : Ptr → ℕ → Heap W → ℕ × Heap W

-- The texts of `%ld`, `%p` and `%d`.
pub record Format : Type 0 where
  pub long : ℕ → List ℕ
  pub pointer : Ptr → List ℕ
  pub int : ℕ → List ℕ

-- The machine that cM2.c runs on: where `tmpbuff` lies, the texts, the allocator behind, and what
-- `dlsym` does: it may call the intercepted functions itself, and finds the symbol or not.
pub record Platform (W : Type 0) : Type 0 where
  pub tmpbuff : Ptr
  pub format : Format
  pub next : Next W
  pub dlsym : Symbol → Client Bool

-- What the functions print, one constructor for each format string. That stdio may itself call
-- `malloc` for a buffer is not modelled.
pub data Line : Type 0 where
  malloc_first : ℕ → Line
  mmap_first : ℕ → Line
  temp_report : ℕ → ℕ → Line
  too_much : Line
  freeing_temp : Line
  dlsym_error : Line
  malloced : ℕ → Ptr → Line
  freed : Ptr → Line
  reallocating : ℕ → Ptr → Line
  realloced : ℕ → Ptr → Ptr → Line
  calloced : ℕ → ℕ → Line
  memaligned : ℕ → ℕ → Ptr → Line
  mapped : ℕ → Ptr → Line
  unmapping : Ptr → ℕ → Line
  unmapped : Ptr → ℕ → ℕ → Line

-- The statics of cM2.c (which `myfn_` pointers are not NULL, the two flags `initializing`), memory,
-- and what has been printed, the last line first.
pub record Tracer (W : Type 0) : Type 0 where
  pub tmppos : ℕ
  pub tmpallocs : ℕ
  pub bound : Symbol → Bool
  pub malloc_initializing : Bool
  pub mmap_initializing : Bool
  pub heap : Heap W
  pub output : List Line

abbrev pub codes : String → List ℕ
codes String.[] = []
codes (String.◌∷◌ c s) = code c ∷ codes s

module _ (f : Format) where
  -- What `sprintf` writes to its buffer.
  unfoldable pub render : Line → List ℕ
  render (malloced size ptr) =
      codes "rMALLOc (" ++ (f.long size ++ (codes ") at " ++ (f.pointer ptr ++ codes "\n")))
  render (freed ptr) = codes "rFREE at " ++ (f.pointer ptr ++ codes "\n")
  render (reallocating size ptr) =
      codes "rREALLOC-> (" ++ (f.long size ++ (codes ") at " ++ (f.pointer ptr ++ codes " \n")))
  render (realloced size ptr nptr) =
      codes "rREALLOC ("
      ++ (f.long size
          ++ (codes ") at " ++ (f.pointer ptr ++ (codes " -> " ++ (f.pointer nptr ++ codes "\n")))))
  render (calloced nmemb size) =
      codes "rCALLOC (" ++ (f.long nmemb ++ (codes "," ++ (f.long size ++ codes ") \n")))
  render (memaligned blocksize bytes ptr) =
      codes "rMEMALING ("
      ++ (f.long blocksize
          ++ (codes ", " ++ (f.long bytes ++ (codes ") @ " ++ (f.pointer ptr ++ codes "\n")))))
  render (mapped length ptr) =
      codes "rMMAP (" ++ (f.long length ++ (codes ") at " ++ (f.pointer ptr ++ codes "\n")))
  render (unmapping ptr length) =
      codes "rMUNMMAP-> (" ++ (f.pointer ptr ++ (codes "," ++ (f.long length ++ codes ") => \n")))
  render (unmapped ptr length resp) =
      codes "rMUNMMAP ("
      ++ (f.pointer ptr
          ++ (codes "," ++ (f.long length ++ (codes ") => " ++ (f.int resp ++ codes "\n")))))
  render _ = []

abbrev pub filled : (Ptr → ℕ) → Ptr → ℕ → ℕ → Ptr → ℕ
filled bytes to value n a = if leb to a && ltb a (to + n) then value else bytes a

module _ {W : Type 0} where
  -- `fprintf`. It is assumed to allocate nothing: stdio has the buffer of its stream, or needs none.
  abbrev pub print : Line → Cmd (Tracer W) (Unit {0})
  print line = modify (λ s. record s { output = line ∷ s.output })

  -- `char buffer[n]; int len = sprintf (buffer, …); write (1, buffer, len);`
  -- undefined if the text and its NUL do not fit the buffer
  unfoldable pub sprintf_write : Platform W → ℕ → Line → Cmd (Tracer W) (Unit {0})
  sprintf_write e n line s = if ltb (length (render e.format line)) n then print line s else fault

  -- A call through a `myfn_` pointer: undefined if it is NULL
  unfoldable pub call_next : {A : Type 0} → Symbol → (Heap W → A × Heap W) → Cmd (Tracer W) A
  call_next symbol function s =
      if s.bound symbol
      then (let (a, h) = function s.heap in ok a (record s { heap = h }))
      else fault

  abbrev pub set_bytes : (Ptr → ℕ) → Tracer W → Tracer W
  set_bytes bytes s = record s { heap = record { world = s.heap.world; bytes = bytes } }

  -- `memset (to, value, n)` and `memmove (to, from, n)`
  unfoldable pub memset : Ptr → ℕ → ℕ → Cmd (Tracer W) (Unit {0})
  memset to value n = modify (λ s. set_bytes (filled s.heap.bytes to value n) s)

  unfoldable pub memmove : Ptr → Ptr → ℕ → Cmd (Tracer W) (Unit {0})
  memmove to from n = modify (λ s. set_bytes (copied s.heap.bytes to from n) s)

  -- `exit (1)`
  abbrev pub exit : {A : Type 0} → Cmd (Tracer W) A
  exit s = exited
