-- ===== src/Tracer/Transparent.antt =====
-- Once it has initialized, cM2.c is transparent: its clients see the allocator behind it.
use threadsafe_memory_manage.Prelude.{
  ℕ, ◌+◌, ◌<◌, ◌≡◌, inl, inr, refl, Bool, true, ◌&&◌, List, ◌∷◌, arith, leb, length, if◌then◌else◌,
  Bool-cases, leb→le, leb→lt,
}
use threadsafe_memory_manage.Word.{Ptr}
use threadsafe_memory_manage.Run.{ok, fault}
use threadsafe_memory_manage.Client.{Client, MapRequest, serve}
use threadsafe_memory_manage.Platform.{
  Symbol, Platform, Tracer, Heap, Line, freeing_temp, malloced, freed, reallocating, realloced,
  calloced, memaligned, mapped, unmapping, unmapped, render, call_next,
}
use threadsafe_memory_manage.Platform.Fits.{
  IsShort, malloced-fits, freed-fits, reallocating-fits, realloced-fits, calloced-fits, mapped-fits,
  unmapping-fits, unmapped-fits, memaligned-length, sprintf_write-ok, sprintf_write-fault,
}
use threadsafe_memory_manage.Tracer.{
  malloc_next, mmap_next, free, memalign, munmap, malloc_with, mmap_with, realloc_with, calloc_with,
  traced,
}

-- The texts fit: they are short, and `memalign` gives no long address for two long numbers.
pub record IsLegible {W : Type 0} (e : Platform W) : Type 0 where
  pub short : IsShort e.format
  pub memaligned_fits :
      (n m : ℕ) (h : Heap W)
      → length (e.format.long n)
          + length (e.format.long m)
          + length (e.format.pointer (e.next.memalign n m h).0)
        < 52

abbrev pub AllBound : {W : Type 0} → Tracer W → Type 0
AllBound s = (symbol : Symbol) → s.bound symbol ≡ true

-- What a client has seen, and what has been printed, when it ends.
pub record Seen (W A : Type 0) : Type 0 where
  pub value : A
  pub heap : Heap W
  pub output : List Line

module _ {W : Type 0} (e : Platform W) (tmppos : ℕ) where
  -- `p` lies in the used part of `tmpbuff`, or right behind it.
  abbrev pub is_temp : Ptr → Bool
  is_temp p = leb e.tmpbuff p && leb p (e.tmpbuff + tmppos)

  -- A client on the allocator behind alone, with its calls written down; blocks of `tmpbuff` are not
  -- freed.
  unfoldable pub reference : {A : Type 0} → Client A → Heap W → List Line → Seen W A
  reference (Client.done a) h out = record { value = a; heap = h; output = out }
  reference (Client.malloc size k) h out =
      let (p, h') = e.next.malloc size h in reference (k p) h' (malloced size p ∷ out)
  reference (Client.free p k) h out =
      reference k (if is_temp p then h else e.next.free p h)
        (freed p ∷ (if is_temp p then freeing_temp ∷ out else out))
  reference (Client.realloc p size k) h out =
      let (q, h') = e.next.realloc p size h in
      reference (k q) h' (realloced size p q ∷ reallocating size p ∷ out)
  reference (Client.calloc nmemb size k) h out =
      let (p, h') = e.next.calloc nmemb size h in reference (k p) h' (calloced nmemb size ∷ out)
  reference (Client.memalign n m k) h out =
      let (p, h') = e.next.memalign n m h in reference (k p) h' (memaligned n m p ∷ out)
  reference (Client.mmap request k) h out =
      let (p, h') = e.next.mmap request h in reference (k p) h' (mapped request.length p ∷ out)
  reference (Client.munmap p n k) h out =
      let (r, h') = e.next.munmap p n h in reference (k r) h' (unmapped p n r ∷ unmapping p n ∷ out)

module _ {W : Type 0} where
  abbrev pub after : Tracer W → Heap W → List Line → Tracer W
  after s h out = record s { heap = h; output = out }

  pub call_next-ok :
      {A : Type 0} (s : Tracer W) (symbol : Symbol) (f : Heap W → A × Heap W)
      → s.bound symbol ≡ true
      → call_next symbol f s ≡ ok (f s.heap).0 (record s { heap = (f s.heap).1 })
  unfolding call_next
  call_next-ok s symbol f found = rw found refl

module _ {W : Type 0} (e : Platform W) (v : IsLegible e) (s : Tracer W) (all : AllBound s) where
  malloc-ok :
      (size : ℕ)
      → (traced e).malloc size s
        ≡ (let (p, h) = e.next.malloc size s.heap in ok p (after s h (malloced size p ∷ s.output)))
  unfolding malloc_with malloc_next
  malloc-ok size =
      rw
        (
          all Symbol.malloc,
          call_next-ok s Symbol.malloc (e.next.malloc size) (all Symbol.malloc),
          sprintf_write-ok e 50 _ _ (malloced-fits e.format v.short size _),
        )
        refl

  free-ok :
      (p : Ptr)
      → free e p s
        ≡ ok tt (
            after s
              (if is_temp e s.tmppos p then s.heap else e.next.free p s.heap)
              (freed p ∷ (if is_temp e s.tmppos p then freeing_temp ∷ s.output else s.output)))
  unfolding free
  free-ok p = elim (Bool-cases (is_temp e s.tmppos p)) [
    | inl temp ↦ rw (temp, sprintf_write-ok e 50 _ _ (freed-fits e.format v.short p)) refl
    | inr other ↦
        rw
          (
            other,
            call_next-ok s Symbol.free (λ h. (tt, e.next.free p h)) (all Symbol.free),
            sprintf_write-ok e 50 _ _ (freed-fits e.format v.short p),
          )
          refl
  ]

  realloc-ok :
      (p : Ptr) (size : ℕ)
      → (traced e).realloc p size s ≡ (
          let (q, h) = e.next.realloc p size s.heap in
          ok q (after s h (realloced size p q ∷ reallocating size p ∷ s.output)))
  unfolding realloc_with
  realloc-ok p size =
      rw
        (
          sprintf_write-ok e 70 _ s (reallocating-fits e.format v.short size p),
          all Symbol.malloc,
          call_next-ok (record s { output = reallocating size p ∷ s.output }) Symbol.realloc
              (e.next.realloc p size) (all Symbol.realloc),
          sprintf_write-ok e 70 _ _ (realloced-fits e.format v.short size p _),
        )
        refl

  calloc-ok :
      (n m : ℕ)
      → (traced e).calloc n m s
        ≡ (let (p, h) = e.next.calloc n m s.heap in ok p (after s h (calloced n m ∷ s.output)))
  unfolding calloc_with
  calloc-ok n m =
      rw
        (
          all Symbol.malloc,
          call_next-ok s Symbol.calloc (e.next.calloc n m) (all Symbol.calloc),
          sprintf_write-ok e 70 _ _ (calloced-fits e.format v.short n m),
        )
        refl

  memalign-ok :
      (n m : ℕ)
      → memalign e n m s ≡ (
          let (p, h) = e.next.memalign n m s.heap in ok p (after s h (memaligned n m p ∷ s.output)))
  unfolding memalign
  memalign-ok n m =
      rw
        (
          call_next-ok s Symbol.memalign (e.next.memalign n m) (all Symbol.memalign),
          sprintf_write-ok e 70 (memaligned n m (e.next.memalign n m s.heap).0)
              (record s { heap = (e.next.memalign n m s.heap).1 })
              (omega (
                arith,
                memaligned-length e.format n m (e.next.memalign n m s.heap).0,
                v.memaligned_fits n m s.heap,
              )),
        )
        refl

  mmap-ok :
      (request : MapRequest)
      → (traced e).mmap request s ≡ (
          let (p, h) = e.next.mmap request s.heap in
          ok p (after s h (mapped request.length p ∷ s.output)))
  unfolding mmap_with mmap_next
  mmap-ok request =
      rw
        (
          all Symbol.mmap,
          call_next-ok s Symbol.mmap (e.next.mmap request) (all Symbol.mmap),
          sprintf_write-ok e 70 _ _ (mapped-fits e.format v.short request.length _),
        )
        refl

  munmap-ok :
      (p : Ptr) (n : ℕ)
      → munmap e p n s ≡ (
          let (r, h) = e.next.munmap p n s.heap in
          ok r (after s h (unmapped p n r ∷ unmapping p n ∷ s.output)))
  unfolding munmap
  munmap-ok p n =
      rw
        (
          sprintf_write-ok e 70 _ s (unmapping-fits e.format v.short p n),
          call_next-ok (record s { output = unmapping p n ∷ s.output }) Symbol.munmap
              (e.next.munmap p n) (all Symbol.munmap),
          sprintf_write-ok e 70 _ _ (unmapped-fits e.format v.short p n _),
        )
        refl

module _ {W : Type 0} (e : Platform W) (v : IsLegible e) where
  -- Once every function is looked up, and where the texts fit their buffers, a client of the traced
  -- functions gets the results that it gets from the allocator behind, leaves memory as it does
  -- there, and each call prints its lines; blocks of `tmpbuff` are not handed to `free` behind, and
  -- the statics of the file do not change.
  pub serve-traced-reference :
      {A : Type 0} (c : Client A) (s : Tracer W)
      → AllBound s
      → serve (traced e) c s
        ≡ (let r = reference e s.tmppos c s.heap s.output in ok r.value (after s r.heap r.output))
  unfolding serve reference
  serve-traced-reference (Client.done a) s all = refl
  serve-traced-reference (Client.malloc size k) s all =
      rw (malloc-ok e v s all size) (serve-traced-reference (k _) (after s _ _) all)
  serve-traced-reference (Client.free p k) s all =
      rw (free-ok e v s all p) (serve-traced-reference k (after s _ _) all)
  serve-traced-reference (Client.realloc p size k) s all =
      rw (realloc-ok e v s all p size) (serve-traced-reference (k _) (after s _ _) all)
  serve-traced-reference (Client.calloc n m k) s all =
      rw (calloc-ok e v s all n m) (serve-traced-reference (k _) (after s _ _) all)
  serve-traced-reference (Client.memalign n m k) s all =
      rw (memalign-ok e v s all n m) (serve-traced-reference (k _) (after s _ _) all)
  serve-traced-reference (Client.mmap request k) s all =
      rw (mmap-ok e v s all request) (serve-traced-reference (k _) (after s _ _) all)
  serve-traced-reference (Client.munmap p n k) s all =
      rw (munmap-ok e v s all p n) (serve-traced-reference (k _) (after s _ _) all)

-- The buffer of `memalign` holds 69 characters, of which 18 are its own: once the functions are
-- looked up, `memalign` returns what the allocator behind returns where its two numbers and the
-- address take at most 51, and overflows the buffer where they take more.
pub memalign_bounds :
    {W : Type 0} (e : Platform W) (n m : ℕ) (s : Tracer W)
    → AllBound s
    → memalign e n m s ≡ (
        let (p, h) = e.next.memalign n m s.heap in
        if leb
          (length (e.format.long n) + length (e.format.long m) + length (e.format.pointer p))
          51
        then ok p (after s h (memaligned n m p ∷ s.output))
        else fault)
unfolding memalign
memalign_bounds {W} e n m s all =
    rw (call_next-ok s Symbol.memalign (e.next.memalign n m) (all Symbol.memalign))
      (elim (Bool-cases (leb taken 51)) [
        | inl small ↦
            rw (small, sprintf_write-ok e 70 line t (omega (arith, own, leb→le _ _ small))) refl
        | inr large ↦
            rw (large, sprintf_write-fault e 70 line t (omega (arith, own, leb→lt _ _ large))) refl
      ])
  where
    p : Ptr
    p = (e.next.memalign n m s.heap).0

    taken : ℕ
    taken = length (e.format.long n) + length (e.format.long m) + length (e.format.pointer p)

    line : Line
    line = memaligned n m p

    t : Tracer W
    t = record s { heap = (e.next.memalign n m s.heap).1 }

    own : length (render e.format line) ≡ 18 + taken
    own = omega (arith, memaligned-length e.format n m p)
