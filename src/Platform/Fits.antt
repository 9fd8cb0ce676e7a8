-- ===== src/Platform/Fits.antt =====
-- When the texts fit the buffers that `sprintf` writes to.
use threadsafe_memory_manage.Prelude.{
  ℕ, ◌+◌, ◌≤◌, ◌<◌, ◌≡◌, List, [], ◌∷◌, ◌++◌, arith, length, le→ltb, lt→ltb,
}
use threadsafe_memory_manage.Word.{Ptr}
use threadsafe_memory_manage.Run.{ok, fault}
use threadsafe_memory_manage.Platform.{
  Format, Platform, Line, Tracer, render, sprintf_write, malloced, freed, reallocating, realloced,
  calloced, memaligned, mapped, unmapping, unmapped,
}

length-append {ℓ} : {A : Type ℓ} (xs ys : List A) → length (xs ++ ys) ≡ length xs + length ys
length-append [] ys = omega arith
length-append (x ∷ xs) ys = omega (arith, length-append xs ys)

-- The texts of a 64-bit machine with 47-bit user addresses: `%ld` takes at most 20 characters, `%p`
-- at most 14, `%d` at most 11.
pub record IsShort (f : Format) : Type 0 where
  pub long : (n : ℕ) → length (f.long n) ≤ 20
  pub pointer : (p : Ptr) → length (f.pointer p) ≤ 14
  pub int : (n : ℕ) → length (f.int n) ≤ 11

module _ (f : Format) (v : IsShort f) where
  open v use {long, pointer, int}

  pub malloced-fits : (size : ℕ) (p : Ptr) → length (render f (malloced size p)) < 50
  unfolding render
  malloced-fits size p = omega (arith, length-append {0}, long size, pointer p)

  pub freed-fits : (p : Ptr) → length (render f (freed p)) < 50
  unfolding render
  freed-fits p = omega (arith, length-append {0}, pointer p)

  pub reallocating-fits : (size : ℕ) (p : Ptr) → length (render f (reallocating size p)) < 70
  unfolding render
  reallocating-fits size p = omega (arith, length-append {0}, long size, pointer p)

  pub realloced-fits : (size : ℕ) (p q : Ptr) → length (render f (realloced size p q)) < 70
  unfolding render
  realloced-fits size p q = omega (arith, length-append {0}, long size, pointer p, pointer q)

  pub calloced-fits : (n m : ℕ) → length (render f (calloced n m)) < 70
  unfolding render
  calloced-fits n m = omega (arith, length-append {0}, long n, long m)

  pub mapped-fits : (n : ℕ) (p : Ptr) → length (render f (mapped n p)) < 70
  unfolding render
  mapped-fits n p = omega (arith, length-append {0}, long n, pointer p)

  pub unmapping-fits : (p : Ptr) (n : ℕ) → length (render f (unmapping p n)) < 70
  unfolding render
  unmapping-fits p n = omega (arith, length-append {0}, long n, pointer p)

  pub unmapped-fits : (p : Ptr) (n r : ℕ) → length (render f (unmapped p n r)) < 70
  unfolding render
  unmapped-fits p n r = omega (arith, length-append {0}, long n, pointer p, int r)

-- The line of `memalign` has 18 characters of its own.
pub memaligned-length :
    (f : Format) (n m : ℕ) (p : Ptr)
    → length (render f (memaligned n m p))
      ≡ 18 + length (f.long n) + length (f.long m) + length (f.pointer p)
unfolding render
memaligned-length f n m p = omega (arith, length-append {0})

module _ {W : Type 0} (e : Platform W) where
  pub sprintf_write-ok :
      (n : ℕ) (line : Line) (s : Tracer W)
      → length (render e.format line) < n
      → sprintf_write e n line s ≡ ok tt (record s { output = line ∷ s.output })
  unfolding sprintf_write
  sprintf_write-ok n line s fits = rw (lt→ltb _ _ fits)

  pub sprintf_write-fault :
      (n : ℕ) (line : Line) (s : Tracer W)
      → n ≤ length (render e.format line)
      → sprintf_write e n line s ≡ fault
  unfolding sprintf_write
  sprintf_write-fault n line s over = rw (le→ltb _ _ over)
