-- ===== src/Manager/Insert.antt =====
-- The general insert of `mem_alloc_no_lock`: the loop over the descriptors is first fit.
use threadsafe_memory_manage.Prelude.{
  ℕ, zero, suc, ◌+◌, ◌-◌, ◌^◌, ◌<◌, ◌≡◌, ◌≢◌, refl, sym, Option, none, some, List, [], ◌∷◌, arith,
  leb, Bool-cases, inl, inr, length, leb→le, ◌∙◌,
}
use threadsafe_memory_manage.Word.{Ptr, null, ptr_add-exact, ptr_sub-exact}
use threadsafe_memory_manage.Run.{ok}
use threadsafe_memory_manage.Run.Returns
use threadsafe_memory_manage.Run.Returns.{Returns, returns}
use threadsafe_memory_manage.Machine.{MemoryBlock, Manager, put, write}
use threadsafe_memory_manage.Machine.Points.{
  Points, Points-write, Points-write_ne, not_null, load-ok, set_start-ok, set_end-ok, set_next-ok,
  free_block-ok, write-write,
}
use threadsafe_memory_manage.Manager.{fill, free_size, insert_after, insert_loop}
use threadsafe_memory_manage.Manager.Chain
use threadsafe_memory_manage.Manager.Chain.{Cell, cell, block, has, ◌∈◌, ◌∉◌, Chain, nil, link}
use threadsafe_memory_manage.Manager.FirstFit.{Packed, Packed-le, Grown, place-Grown, behind, place}

abbrev pub Heap : Type 0
Heap = Ptr → Option MemoryBlock

module _ (s : Manager) {p : Ptr} {b : MemoryBlock} (e : Points s.blocks p b) where
  pub fill-ok :
      (start end next : Ptr)
      → fill p start end next s
        ≡ ok tt (put p (some (record { start = start; end = end; next = next })) s)
  unfolding fill
  fill-ok start end next =
      let b1 : MemoryBlock = record b { start = start } in
      let b2 : MemoryBlock = record b1 { end = end } in
      let s1 : Manager = put p (some b1) s in
      let s2 : Manager = put p (some b2) s1 in
      let e1 = Points-write b1 e in
      let e2 = Points-write b2 e1 in
      rw (
        set_start-ok s e start,
        set_end-ok s1 e1 end,
        set_next-ok s2 e2 next,
        write-write,
        write-write,
      )

-- `t` differs from `s` at most in the descriptors, and there only at `n` and those of `xs`.
pub record SameBut (n : Ptr) (xs : List Cell) (s t : Manager) : Type 0 where
  pub memory : t.memory ≡ s.memory
  pub memory_head : t.memory_head ≡ s.memory_head
  pub memory_size : t.memory_size ≡ s.memory_size
  pub lock : t.lock ≡ s.lock
  pub pool : t.pool ≡ s.pool
  pub bytes : t.bytes ≡ s.bytes
  pub outside : (a : Ptr) → a ≢ n → a ∉ xs → t.blocks a ≡ s.blocks a

-- The free bytes behind a descriptor, up to the next one or to the end of the pool.
abbrev room_to : Ptr → List Cell → Ptr
room_to limit [] = limit
room_to limit (c ∷ xs) = c.start

module _ (s : Manager) where
  free_size-ok :
      {q : Ptr} (c : Cell) (xs : List Cell)
      → Chain s.blocks null q xs
      → s.memory + s.memory_size < 2 ^ 64
      → Packed c.end (s.memory + s.memory_size) xs
      → free_size (block c q) s ≡ ok (room_to (s.memory + s.memory_size) xs - c.end) s
  unfolding free_size
  free_size-ok c [] nil small packed = rw (
    ptr_add-exact s.memory s.memory_size small,
    ptr_sub-exact (s.memory + s.memory_size) c.end packed small,
  )
  free_size-ok c (d ∷ xs) (link e pt out r) small packed = rw (
    not_null pt,
    load-ok s pt,
    ptr_sub-exact d.start c.end packed.0
        (omega (arith, Packed-le d.end (s.memory + s.memory_size) xs packed.2)),
  )

module _ (s : Manager) {n : Ptr} {junk : MemoryBlock} where
  insert_after-ok :
      (size at : Ptr) {q : Ptr} (c : Cell)
      → Points s.blocks n junk
      → Points s.blocks at (block c q)
      → n ≢ at
      → c.end + size < 2 ^ 64
      → insert_after n at (block c q) size s
        ≡ ok c.end
            (put at (some (block c n)) (put n (some (block (cell n c.end (c.end + size)) q)) s))
  unfolding insert_after
  insert_after-ok size at {q} c pn pa ne small =
      let new : MemoryBlock = block (cell n c.end (c.end + size)) q in
      let s1 : Manager = put n (some new) s in
      let pa1 = Points-write_ne new pa ne in
      let pn2 = Points-write_ne (block c n) (Points-write new pn) (λ e. ne (sym e)) in
      rw (
        ptr_add-exact c.end size small,
        fill-ok s pn c.end (c.end + size) q,
        set_next-ok s1 pa1 n,
        load-ok (put at (some (block c n)) s1) pn2,
      )

-- What the loop at the descriptor `at` of `c` does, when first fit behind `c` gives `r`.
abbrev pub Inserted :
    Manager → (n at : Ptr) → Cell → List Cell → Option (Ptr × List Cell) → Ptr → Manager → Type 0
Inserted s n at c xs none p t = (p ≡ null) × SameBut n [] s t × (t.blocks n ≡ none)
Inserted s n at c xs (some (q, ys)) p t =
    (p ≡ q) × Chain t.blocks null at (c ∷ ys) × SameBut n (c ∷ xs) s t

module _ (s : Manager) {n at p : Ptr} (limit cur : Ptr) (c d : Cell) (xs : List Cell) where
  Inserted-behind :
      at ≡ c.at
      → Points s.blocks at (block c p)
      → at ∉ (d ∷ xs)
      → n ≢ at
      → (r : Option (Ptr × List Cell)) → Grown n limit cur xs r
      → (a : Ptr) (t : Manager) → Inserted s n p d xs r a t
      → Inserted s n at c (d ∷ xs) (behind d r) a t
  Inserted-behind e pt out ne none grown a t got = got
  Inserted-behind e pt out ne (some (q, ys)) (_, members) a t (found, chain, same) = (
    found,
    link e
        (record { ne_null = pt.ne_null; holds = same.outside at (λ e. ne (sym e)) out ∙ pt.holds })
        (ground (arith, members at)) chain,
    record {
      memory = same.memory;
      memory_head = same.memory_head;
      memory_size = same.memory_size;
      lock = same.lock;
      pool = same.pool;
      bytes = same.bytes;
      outside = λ b i o. same.outside b i (ground arith);
    },
  )

-- The insert behind `at`, in terms of the list.
insert_after-Inserted :
    (s : Manager) (size : ℕ) {n at q : Ptr} {junk : MemoryBlock} (c : Cell) (xs : List Cell)
    → at ≡ c.at
    → Points s.blocks n junk
    → Points s.blocks at (block c q)
    → n ≢ at
    → n ∉ xs
    → at ∉ xs
    → Chain s.blocks null q xs
    → c.end + size < 2 ^ 64
    → Returns
        (Inserted s n at c xs (some (c.end, cell n c.end (c.end + size) ∷ xs)))
        (insert_after n at (block c q) size s)
unfolding write
insert_after-Inserted s size {n} {at} {q} c xs e pn pa ne nout out r small =
    rw (insert_after-ok s size at c pn pa ne small) (
      returns (
        refl,
        link e (Points-write (block c n) (Points-write_ne new pa ne)) (ground arith) (
            link refl (Points-write_ne (block c n) (Points-write new pn) (λ e. ne (sym e))) nout (
              Chain.frame-write at (some (block c n)) (Chain.frame-write n (some new) r nout) out)),
        record {
          memory = refl;
          memory_head = refl;
          memory_size = refl;
          lock = refl;
          pool = refl;
          bytes = refl;
          outside = λ a i o. ground arith;
        },
      ))
  where
    new : MemoryBlock
    new = block (cell n c.end (c.end + size)) q

-- The loop takes the first gap behind the descriptors that it visits, or gives `new_block` back.
pub insert_loop-place :
    (k size : ℕ) (s : Manager) {n at q : Ptr} {junk : MemoryBlock} (c : Cell) (xs : List Cell)
    → at ≡ c.at
    → Points s.blocks n junk
    → Points s.blocks at (block c q)
    → n ≢ at
    → n ∉ xs
    → at ∉ xs
    → Chain s.blocks null q xs
    → Packed c.end (s.memory + s.memory_size) xs
    → s.memory + s.memory_size < 2 ^ 64
    → 0 < size
    → length xs + 1 < k
    → Returns
        (Inserted s n at c xs (place n size (s.memory + s.memory_size) c.end xs))
        (insert_loop k n size at s)
unfolding insert_loop place write
insert_loop-place zero size s c xs e pn pa ne nout out r packed small pos fuel =
    absurd (omega arith)
insert_loop-place (suc zero) size s c xs e pn pa ne nout out r packed small pos fuel =
    absurd (omega arith)
insert_loop-place (suc (suc k)) size s {n} {at} c [] e pn pa ne nout out nil packed small pos fuel =
    let step = free_size-ok s c [] nil small packed in
    elim (Bool-cases (leb size (s.memory + s.memory_size - c.end))) [
      | inl fits ↦
          rw (not_null pa, load-ok s pa, step, fits)
            (insert_after-Inserted s size c [] e pn pa ne nout out nil
              (ground (arith, leb→le size (s.memory + s.memory_size - c.end))))
      | inr tight ↦
          rw (not_null pa, load-ok s pa, step, tight, free_block-ok s pn)
            (returns (
              refl,
              record {
                memory = refl;
                memory_head = refl;
                memory_size = refl;
                lock = refl;
                pool = refl;
                bytes = refl;
                outside = λ a i o. ground arith;
              },
              ground arith,
            ))
    ]
insert_loop-place (suc (suc k)) size s {n} {at} c (d ∷ xs) e pn pa ne nout out
      (link {p} {q} e' pt out' r) packed small pos fuel =
    let limit : Ptr = s.memory + s.memory_size in
    let step = free_size-ok s c (d ∷ xs) (link e' pt out' r) small packed in
    elim (Bool-cases (leb size (d.start - c.end))) [
      | inl fits ↦
          rw (not_null pa, load-ok s pa, step, fits)
            (insert_after-Inserted s size c (d ∷ xs) e pn pa ne nout out (link e' pt out' r) (
              omega (arith, leb→le size (d.start - c.end) fits, Packed-le d.end limit xs packed.2)))
      | inr tight ↦
          rw (not_null pa, load-ok s pa, step, tight)
            (Returns.mono
              (insert_loop-place (suc k) size s d xs e' pn pt (ground arith) (ground arith) out' r
                packed.2 small pos (omega arith))
              (Inserted-behind s limit d.end c d xs e pa out ne (place n size limit d.end xs)
                (place-Grown n size pos limit d.end xs packed.2)))
    ]
