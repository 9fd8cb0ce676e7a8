-- ===== src/Tracer.antt =====
-- cM2.c, function by function: the malloc family, intercepted and traced. `init` looks the real
-- functions up by `dlsym`, which may call the intercepted ones meanwhile: `depth` bounds how deep
-- such calls nest.
pub mod Flags
pub mod Steady
pub mod Temp
pub mod TempCopy
pub mod Start
mod Tests
pub mod Transparent
use threadsafe_memory_manage.Prelude.{
  ℕ, zero, suc, ◌+◌, ◌*◌, ◌%◌, ◌^◌, Bool, true, false, ◌&&◌, not, ltb, leb, ◌==◌, if◌then◌else◌,
}
use threadsafe_memory_manage.Word.{Ptr, null}
use threadsafe_memory_manage.Run.{
  ok, fault, out_of_fuel, Cmd, pure, and_then, ◌>>=◌, ◌>>◌, get, modify,
}
use threadsafe_memory_manage.Client.{MapRequest, Client, Calls, serve}
use threadsafe_memory_manage.Platform.{
  Symbol, bind, Platform, Tracer, malloc_first, mmap_first, temp_report, too_much, freeing_temp,
  dlsym_error, malloced, freed, reallocating, realloced, calloced, memaligned, mapped, unmapping,
  unmapped, print, sprintf_write, call_next, memset, memmove, exit,
}

-- `sizeof (tmpbuff)`
abbrev pub tmpbuff_size : ℕ
tmpbuff_size = 1024

abbrev pub set_bound : {W : Type 0} → Symbol → Bool → Tracer W → Tracer W
set_bound symbol found s = record s { bound = bind symbol found s.bound }

module _ {W : Type 0} (e : Platform W) where
  -- The block from `tmpbuff` of `malloc` and `mmap` while they initialize.
  unfoldable pub temp_alloc : ℕ → Cmd (Tracer W) Ptr
  temp_alloc size = do
    s ← get
    if ltb ((s.tmppos + size) % 2 ^ 64) tmpbuff_size
        then (do
          modify (λ s. record s {
            tmppos = (s.tmppos + size) % 2 ^ 64;
            tmpallocs = (s.tmpallocs + 1) % 2 ^ 64;
          })
          pure (e.tmpbuff + s.tmppos))
        else print too_much >> exit

  -- What `malloc` does once `myfn_malloc` is set.
  unfoldable pub malloc_next : ℕ → Cmd (Tracer W) Ptr
  malloc_next size = do
    ptr ← call_next Symbol.malloc (e.next.malloc size)
    sprintf_write e 50 (malloced size ptr)
    pure ptr

  unfoldable pub mmap_next : MapRequest → Cmd (Tracer W) Ptr
  mmap_next request = do
    ptr2 ← call_next Symbol.mmap (e.next.mmap request)
    sprintf_write e 70 (mapped request.length ptr2)
    pure ptr2

  unfoldable pub free : Ptr → Cmd (Tracer W) (Unit {0})
  free ptr = do
    s ← get
    if leb e.tmpbuff ptr && leb ptr (e.tmpbuff + s.tmppos)
        then print freeing_temp
        else call_next Symbol.free (λ h. (tt, e.next.free ptr h))
    sprintf_write e 50 (freed ptr)

  unfoldable pub memalign : ℕ → ℕ → Cmd (Tracer W) Ptr
  memalign blocksize bytes = do
    ptr ← call_next Symbol.memalign (e.next.memalign blocksize bytes)
    sprintf_write e 70 (memaligned blocksize bytes ptr)
    pure ptr

  unfoldable pub munmap : Ptr → ℕ → Cmd (Tracer W) ℕ
  munmap ptr length = do
    sprintf_write e 70 (unmapping ptr length)
    resp ← call_next Symbol.munmap (e.next.munmap ptr length)
    sprintf_write e 70 (unmapped ptr length resp)
    pure resp

  -- The functions that may initialize, over `init`.
  module _ (init : Cmd (Tracer W) (Unit {0})) where
    unfoldable pub malloc_with : ℕ → Cmd (Tracer W) Ptr
    malloc_with size = do
      s ← get
      if s.bound Symbol.malloc
          then malloc_next size
          else if s.malloc_initializing
          then temp_alloc size
          else do
            modify (λ s. record s { malloc_initializing = true })
            init
            modify (λ s. record s { malloc_initializing = false })
            print (malloc_first size)
            t ← get
            print (temp_report t.tmppos t.tmpallocs)
            malloc_next size

    unfoldable pub mmap_with : MapRequest → Cmd (Tracer W) Ptr
    mmap_with request = do
      s ← get
      if s.bound Symbol.mmap
          then mmap_next request
          else if s.mmap_initializing
          then temp_alloc request.length
          else do
            modify (λ s. record s { mmap_initializing = true })
            init
            modify (λ s. record s { mmap_initializing = false })
            print (mmap_first request.length)
            t ← get
            print (temp_report t.tmppos t.tmpallocs)
            mmap_next request

    unfoldable pub realloc_with : Ptr → ℕ → Cmd (Tracer W) Ptr
    realloc_with ptr size = do
      sprintf_write e 70 (reallocating size ptr)
      s ← get
      if s.bound Symbol.malloc
          then (do
            nptr ← call_next Symbol.realloc (e.next.realloc ptr size)
            sprintf_write e 70 (realloced size ptr nptr)
            pure nptr)
          else do
            nptr ← malloc_with size
            if not (nptr == null) && not (ptr == null)
                then memmove nptr ptr size >> free ptr
                else pure tt
            pure nptr

    unfoldable pub calloc_with : ℕ → ℕ → Cmd (Tracer W) Ptr
    calloc_with nmemb size = do
      s ← get
      if s.bound Symbol.malloc
          then (do
            ptr ← call_next Symbol.calloc (e.next.calloc nmemb size)
            sprintf_write e 70 (calloced nmemb size)
            pure ptr)
          else do
            ptr ← malloc_with (nmemb * size % 2 ^ 64)
            if ptr == null then pure tt else memset ptr 0 (nmemb * size % 2 ^ 64)
            pure ptr

    abbrev pub calls_with : Calls (Tracer W)
    calls_with = record {
      malloc = malloc_with;
      free = free;
      realloc = realloc_with;
      calloc = calloc_with;
      memalign = memalign;
      mmap = mmap_with;
      munmap = munmap;
    }

  -- `myfn_… = dlsym (RTLD_NEXT, "…")`, where `dlsym` calls the functions `calls`
  unfoldable pub look_up : Calls (Tracer W) → Symbol → Cmd (Tracer W) (Unit {0})
  look_up calls symbol = do found ← serve calls (e.dlsym symbol); modify (set_bound symbol found)

  -- The body of `init`.
  unfoldable pub init_with : Calls (Tracer W) → Cmd (Tracer W) (Unit {0})
  init_with calls = do
    look_up calls Symbol.malloc
    look_up calls Symbol.free
    look_up calls Symbol.calloc
    look_up calls Symbol.realloc
    look_up calls Symbol.memalign
    look_up calls Symbol.mmap
    look_up calls Symbol.munmap
    s ← get
    if s.bound Symbol.malloc
          && s.bound Symbol.free
          && s.bound Symbol.calloc
          && s.bound Symbol.realloc
          && s.bound Symbol.memalign
          && s.bound Symbol.mmap
          && s.bound Symbol.munmap
        then pure tt
        else print dlsym_error >> exit

  unfoldable pub init : ℕ → Cmd (Tracer W) (Unit {0})
  init zero = λ _. out_of_fuel
  init (suc depth) = init_with (calls_with (init depth))

  -- The seven functions as the linker puts them in place of the real ones.
  abbrev pub traced : Calls (Tracer W)
  traced = calls_with (init 2)
