-- ===== src/Client.antt =====
-- A program that calls the malloc family: the seven functions that cM2.c intercepts, as calls that a
-- client makes, and the ways to serve them. `Calls` is the interface that cM2.c implements twice
-- over: once itself, and once by the functions that it looks up.
use threadsafe_memory_manage.Prelude.{ℕ}
use threadsafe_memory_manage.Word.{Ptr}
use threadsafe_memory_manage.Run.{Cmd, pure, ◌>>=◌, ◌>>◌}

-- The arguments of `mmap`.
pub record MapRequest : Type 0 where
  pub ptr : Ptr
  pub length : ℕ
  pub prot : ℕ
  pub flags : ℕ
  pub fd : ℕ
  pub offset : ℕ

-- A client returns a value, or makes a call and goes on with its result.
pub data Client (A : Type 0) : Type 0 where
  done : A → Client A
  malloc : ℕ → (Ptr → Client A) → Client A
  free : Ptr → Client A → Client A
  realloc : Ptr → ℕ → (Ptr → Client A) → Client A
  calloc : ℕ → ℕ → (Ptr → Client A) → Client A
  memalign : ℕ → ℕ → (Ptr → Client A) → Client A
  mmap : MapRequest → (Ptr → Client A) → Client A
  munmap : Ptr → ℕ → (ℕ → Client A) → Client A

-- One implementation of the seven functions, on a state of type S.
pub record Calls (S : Type 0) : Type 0 where
  pub malloc : ℕ → Cmd S Ptr
  pub free : Ptr → Cmd S (Unit {0})
  pub realloc : Ptr → ℕ → Cmd S Ptr
  pub calloc : ℕ → ℕ → Cmd S Ptr
  pub memalign : ℕ → ℕ → Cmd S Ptr
  pub mmap : MapRequest → Cmd S Ptr
  pub munmap : Ptr → ℕ → Cmd S ℕ

unfoldable pub serve : {S A : Type 0} → Calls S → Client A → Cmd S A
serve c (Client.done a) = pure a
serve c (Client.malloc size k) = do p ← c.malloc size; serve c (k p)
serve c (Client.free p k) = do c.free p; serve c k
serve c (Client.realloc p size k) = do q ← c.realloc p size; serve c (k q)
serve c (Client.calloc nmemb size k) = do p ← c.calloc nmemb size; serve c (k p)
serve c (Client.memalign blocksize bytes k) = do p ← c.memalign blocksize bytes; serve c (k p)
serve c (Client.mmap request k) = do p ← c.mmap request; serve c (k p)
serve c (Client.munmap p length k) = do resp ← c.munmap p length; serve c (k resp)
