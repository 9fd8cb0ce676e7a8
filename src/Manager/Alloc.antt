-- ===== src/Manager/Alloc.antt =====
-- `mem_alloc_no_lock` implements the abstract allocator.
use threadsafe_memory_manage.Prelude.{
  ℕ, suc, ◌+◌, ◌-◌, ◌^◌, ◌<◌, ◌≤◌, ◌≡◌, ◌≢◌, refl, sym, ◌∙◌, false, Option, none, some, List, [],
  ◌∷◌, arith, ltb, leb, ◌==◌, inl, inr, Bool-cases, leb→le, ltb→le, le→leb, ==→ne, eq→==, ==→eq,
  ne→==,
}
use threadsafe_memory_manage.Word.{Ptr, null, ptr_add-exact, ptr_sub-exact}
use threadsafe_memory_manage.Run.Returns
use threadsafe_memory_manage.Run.Returns.{Returns, returns}
use threadsafe_memory_manage.Machine.{MemoryBlock, Manager, Fresh, put, write, malloc_block}
use threadsafe_memory_manage.Machine.Points.{Points, Points-write, not_null, load-ok}
use threadsafe_memory_manage.Manager.{fits_first, insert_first, insert_block, mem_alloc_no_lock}
use threadsafe_memory_manage.Manager.Chain
use threadsafe_memory_manage.Manager.Chain.{Cell, cell, block, has, ◌∈◌, ◌∉◌, Chain, nil, link}
use threadsafe_memory_manage.Manager.FirstFit.{
  Packed, Packed-le, Packed-length, Grown, place-Grown, behind, place,
}
use threadsafe_memory_manage.Manager.Insert.{Inserted, fill-ok, insert_loop-place}
use threadsafe_memory_manage.Manager.Valid.{limit, Owns, Kept, Owns-Kept, settle, allocate}

-- What an insert of `n` into the list `xs` does, when `r` is the address and the list wanted.
record Settled (s : Manager) (n : Ptr) (xs : List Cell) (r : Ptr × List Cell) (p : Ptr)
    (t : Manager) : Type 0 where
  result : p ≡ r.0
  chain : Chain t.blocks null t.memory_head r.1
  kept : Kept s t
  outside : (a : Ptr) → a ≢ n → a ∉ xs → t.blocks a ≡ s.blocks a
  unused : n ∉ r.1 → t.blocks n ≡ none

module _ (s : Manager) {n : Ptr} {junk : MemoryBlock} (pn : Points s.blocks n junk) where
  insert_first-Settled :
      (size : ℕ) (xs : List Cell)
      → n ∉ xs
      → Chain s.blocks null s.memory_head xs
      → s.memory + size < 2 ^ 64
      → Returns
          (Settled s n xs (s.memory, cell n s.memory (s.memory + size) ∷ xs))
          (insert_first n size s)
  unfolding insert_first write
  insert_first-Settled size xs nout chain small =
      rw (ptr_add-exact s.memory size small, fill-ok s pn s.memory (s.memory + size) s.memory_head)
        (returns (record {
          result = refl;
          chain = link refl (Points-write _ pn) nout (Chain.frame-write n _ chain nout);
          kept = record {
            memory = refl;
            memory_size = refl;
            lock = refl;
            pool = refl;
            bytes = refl;
          };
          outside = λ a i o. ground arith;
          unused = λ o. ground arith;
        }))

  Inserted-Settled :
      (c : Cell) (xs : List Cell)
      → Chain s.blocks null s.memory_head (c ∷ xs)
      → n ∉ (c ∷ xs)
      → (hi lo : Ptr) (r : Option (Ptr × List Cell)) → Grown n hi lo xs r
      → (p : Ptr) (t : Manager) → Inserted s n s.memory_head c xs r p t
      → Settled s n (c ∷ xs) (settle (c ∷ xs) (behind c r)) p t
  Inserted-Settled c xs chain nout hi lo none grown p t (e, same, gone) = record {
    result = e;
    chain = rw same.memory_head (Chain.frame chain λ a i. same.outside a (ground arith) refl);
    kept = record {
      memory = same.memory;
      memory_size = same.memory_size;
      lock = same.lock;
      pool = same.pool;
      bytes = same.bytes;
    };
    outside = λ a i o. same.outside a i refl;
    unused = λ o. gone;
  }
  Inserted-Settled c xs chain nout hi lo (some (q, ys)) (_, members) p t (e, placed, same) =
      record {
        result = e;
        chain = rw same.memory_head placed;
        kept = record {
          memory = same.memory;
          memory_size = same.memory_size;
          lock = same.lock;
          pool = same.pool;
          bytes = same.bytes;
        };
        outside = same.outside;
        unused = λ o. ground (arith, members n);
      }

  -- The two ways to insert are first fit from the start of the pool.
  insert_block-Settled :
      (size : ℕ) {p : Ptr} (xs : List Cell)
      → s.memory_head ≡ p
      → Chain s.blocks null p xs
      → n ∉ xs
      → Packed s.memory (limit s) xs
      → limit s < 2 ^ 64
      → 0 < size
      → size ≤ s.memory_size
      → Returns
          (Settled s n xs (settle xs (place n size (limit s) s.memory xs)))
          (insert_block n size s)
  unfolding insert_block fits_first place
  insert_block-Settled size [] e nil nout packed small pos room =
      rw
        (
          eq→== s.memory_head null e,
          le→leb size (s.memory + s.memory_size - s.memory) (omega arith),
        )
        (insert_first-Settled size [] nout (rw e nil) (omega arith))
  insert_block-Settled size (c ∷ xs) e (link {q} e' pt out r) nout packed small pos room =
      let start =
        ptr_sub-exact c.start s.memory packed.0
          (omega (arith, Packed-le c.end (limit s) xs packed.2)) in
      let head : Points s.blocks s.memory_head (block c q) = rw e pt in
      let headc : s.memory_head ≡ c.at = e ∙ e' in
      let hout : s.memory_head ∉ xs = rw e out in
      let chain : Chain s.blocks null s.memory_head (c ∷ xs) = link headc head hout r in
      elim (Bool-cases (leb size (c.start - s.memory))) [
        | inl fits ↦
            rw (not_null head, load-ok s head, start, fits)
              (insert_first-Settled size (c ∷ xs) nout chain (
                omega (
                  arith,
                  leb→le size (c.start - s.memory) fits,
                  Packed-le c.end (limit s) xs packed.2,
                )))
        | inr tight ↦
            rw (not_null head, load-ok s head, start, tight)
              (Returns.mono
                (insert_loop-place (suc s.memory_size) size s c xs headc pn head (ground arith)
                  (ground arith) hout r packed.2 small pos
                  (omega (arith, Packed-length c.end (limit s) xs packed.2)))
                (Inserted-Settled c xs chain nout (limit s) c.end (place n size (limit s) c.end xs)
                  (place-Grown n size pos (limit s) c.end xs packed.2)))
      ]

-- What a call that is to return `r` leaves: the list of `r`, in which only `new` may be new.
pub record Allocated (rest : Ptr → Option MemoryBlock) (s : Manager) (new : Ptr) (xs : List Cell)
    (r : Ptr × List Cell) (p : Ptr) (t : Manager) : Type 0 where
  pub result : p ≡ r.0
  pub owns : Owns rest t r.1
  pub kept : Kept s t
  pub members : (a : Ptr) → a ≢ new → has a r.1 ≡ has a xs

module _ (n hi lo : Ptr) (xs : List Cell) where
  settle-Packed :
      (r : Option (Ptr × List Cell))
      → Packed lo hi xs
      → Grown n hi lo xs r
      → Packed lo hi (settle xs r).1
  settle-Packed none packed grown = packed
  settle-Packed (some (q, ys)) packed grown = grown.0

  settle-has :
      (r : Option (Ptr × List Cell))
      → Grown n hi lo xs r
      → (a : Ptr) → a ≢ n
      → has a (settle xs r).1 ≡ has a xs
  settle-has none grown a ne = refl
  settle-has (some (q, ys)) grown a ne = ground (arith, grown.1 a)

module _ {rest : Ptr → Option MemoryBlock} (s : Manager) (f : Fresh) (size : ℕ) (xs : List Cell)
    (v : Owns rest s xs) (free : s.blocks f.at ≡ none) where
  out : f.at ∉ xs
  out = Chain.not-has_of_none f.at v.chain free

  Settled-Allocated :
      0 < size
      → (p : Ptr) (t : Manager)
      → Settled
          (put f.at (some f.junk) s)
          f.at
          xs
          (settle xs (place f.at size (limit s) s.memory xs))
          p
          t
      → Allocated rest s f.at xs (settle xs (place f.at size (limit s) s.memory xs)) p t
  unfolding write
  Settled-Allocated pos p t d = record {
    result = d.result;
    owns =
        Owns-Kept v kept d.chain (settle-Packed f.at (limit s) s.memory xs found v.packed grown)
          λ a o. elim (Bool-cases (a == f.at)) [
            | inl here ↦
                rw (==→eq a f.at here)
                  (d.unused (rw (==→eq a f.at here) at o) ∙ sym free ∙ v.owned f.at out)
            | inr there ↦ ground (arith, d.outside a, members a, v.owned a)
          ];
    kept = kept;
    members = members;
  }
    where
      open d.kept use {memory, memory_size, lock, pool, bytes}

      kept : Kept s t
      kept = record {
        memory = memory;
        memory_size = memory_size;
        lock = lock;
        pool = pool;
        bytes = bytes;
      }

      found : Option (Ptr × List Cell)
      found = place f.at size (limit s) s.memory xs

      grown : Grown f.at (limit s) s.memory xs found
      grown = place-Grown f.at size pos (limit s) s.memory xs v.packed

      members : (a : Ptr) → a ≢ f.at → has a (settle xs found).1 ≡ has a xs
      members = settle-has f.at (limit s) s.memory xs found grown

  nothing-Allocated : (p : Ptr) → Allocated rest s f.at xs (p, xs) p s
  nothing-Allocated p = record {
    result = refl;
    owns = v;
    kept = record { memory = refl; memory_size = refl; lock = refl; pool = refl; bytes = refl };
    members = λ a ne. refl;
  }

  -- `mem_alloc_no_lock` returns what the abstract allocator returns, and leaves its list.
  pub mem_alloc_no_lock-allocate :
      Returns
        (Allocated rest s f.at xs (allocate f.at size s.memory (limit s) xs))
        (mem_alloc_no_lock f size s)
  unfolding mem_alloc_no_lock allocate malloc_block write
  mem_alloc_no_lock-allocate =
      rw (nonnull, capacity)
        (elim (Bool-cases (ltb s.memory_size size)) [
          | inl large ↦ rw large (returns (nothing-Allocated null))
          | inr room ↦ elim (Bool-cases (size == 0)) [
            | inl empty ↦ rw (room, empty) (returns (nothing-Allocated s.memory))
            | inr some_bytes ↦ elim (Bool-cases (f.at == null)) [
              | inl exhausted ↦ rw (room, some_bytes, exhausted) (returns (nothing-Allocated null))
              | inr given ↦
                  rw (room, some_bytes, given, given)
                    (Returns.mono
                      (insert_block-Settled (put f.at (some f.junk) s) (given-Points given) size xs
                        refl (Chain.frame-write f.at (some f.junk) v.chain out) out v.packed v.small
                        (ground arith) (ltb→le s.memory_size size room))
                      (Settled-Allocated (ground arith)))
            ]
          ]
        ])
    where
      nonnull : (s.memory == null) ≡ false
      nonnull = ne→== s.memory null v.nonnull

      capacity : limit s - s.memory ≡ s.memory_size
      capacity = omega arith

      given-Points : (f.at == null) ≡ false → Points (put f.at (some f.junk) s).blocks f.at f.junk
      given-Points given = record { ne_null = ==→ne f.at null given; holds = ground arith }
