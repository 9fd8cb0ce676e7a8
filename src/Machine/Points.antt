-- ===== src/Machine/Points.antt =====
-- A live descriptor behind a pointer, and what the primitive calls of the machine do there.
use threadsafe_memory_manage.Prelude.{◌≡◌, ◌≢◌, Option, none, some, false, fun_ext, arith, ◌==◌}
use threadsafe_memory_manage.Word.{Ptr, null}
use threadsafe_memory_manage.Run.{ok}
use threadsafe_memory_manage.Machine.{
  MemoryBlock, Manager, put, write, load, set_start, set_end, set_next, free_block,
}

pub record Points (h : Ptr → Option MemoryBlock) (p : Ptr) (b : MemoryBlock) : Type 0 where
  pub ne_null : p ≢ null
  pub holds : h p ≡ some b

module _ {h : Ptr → Option MemoryBlock} {p : Ptr} {b : MemoryBlock} where
  pub not_null : Points h p b → (p == null) ≡ false
  not_null e = ground (arith, e.ne_null)

  pub Points-write : (c : MemoryBlock) → Points h p b → Points (write h p (some c)) p c
  unfolding write
  Points-write c e = record { ne_null = e.ne_null; holds = ground arith }

pub Points-write_ne :
    {h : Ptr → Option MemoryBlock} {p q : Ptr} {b : MemoryBlock} (c : MemoryBlock)
    → Points h p b
    → q ≢ p
    → Points (write h q (some c)) p b
unfolding write
Points-write_ne c e ne = record { ne_null = e.ne_null; holds = ground (arith, e.holds) }

-- Only the last write to an address counts.
pub write-write :
    (h : Ptr → Option MemoryBlock) (p : Ptr) (x y : Option MemoryBlock)
    → write (write h p x) p y ≡ write h p y
unfolding write
write-write h p x y = fun_ext λ a. ground arith

-- Taking back what was given out restores the heap.
pub write-none :
    (h : Ptr → Option MemoryBlock) (p : Ptr) (x : Option MemoryBlock)
    → h p ≡ none
    → write (write h p x) p none ≡ h
unfolding write
write-none h p x e = fun_ext λ a. ground arith

module _ (s : Manager) {p : Ptr} {b : MemoryBlock} (e : Points s.blocks p b) where
  pub load-ok : load p s ≡ ok b s
  unfolding load
  load-ok = rw (not_null e, e.holds)

  pub set_start-ok : (v : Ptr) → set_start p v s ≡ ok tt (put p (some (record b { start = v })) s)
  unfolding set_start
  set_start-ok v = rw load-ok

  pub set_end-ok : (v : Ptr) → set_end p v s ≡ ok tt (put p (some (record b { end = v })) s)
  unfolding set_end
  set_end-ok v = rw load-ok

  pub set_next-ok : (v : Ptr) → set_next p v s ≡ ok tt (put p (some (record b { next = v })) s)
  unfolding set_next
  set_next-ok v = rw load-ok

  pub free_block-ok : free_block p s ≡ ok tt (put p none s)
  unfolding free_block
  free_block-ok = rw load-ok
