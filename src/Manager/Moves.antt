-- ===== src/Manager/Moves.antt =====
-- What `mem_resize` does to the block's bytes, to its place and to all else.
use threadsafe_memory_manage.Prelude.{
  ℕ, ◌+◌, ◌-◌, ◌<◌, ◌≤◌, ◌≡◌, ◌≢◌, ◌⊎◌, inl, inr, refl, sym, ap, subst, ◌∙◌, false, none, some,
  List, ◌++◌, arith, ◌==◌, Bool-cases, ==→eq, ne→==, eq→==,
}
use threadsafe_memory_manage.Word.{Ptr, null}
use threadsafe_memory_manage.Run.Returns
use threadsafe_memory_manage.Run.Returns.{Returns}
use threadsafe_memory_manage.Machine.{unlocked, Manager, Fresh}
use threadsafe_memory_manage.Manager.{mem_resize}
use threadsafe_memory_manage.Manager.Chain.{Cell}
use threadsafe_memory_manage.Manager.FirstFit.{NoRoom, Packed}
use threadsafe_memory_manage.Manager.Valid.{limit, IsValid, allocate}
use threadsafe_memory_manage.Manager.Find.{cut, IsCut, cut-IsCut}
use threadsafe_memory_manage.Manager.Free.{Packed-cut}
use threadsafe_memory_manage.Manager.Relocate.{
  smaller, regain, reallocate, contents, clobbers, Resized,
}
use threadsafe_memory_manage.Manager.Resize.{mem_resize-reallocate}
use threadsafe_memory_manage.Manager.Placement.{Outcome, Granted, allocate-Outcome}
use threadsafe_memory_manage.Manager.Rounds.{IsValid-unique}

-- `n` bytes have come from `b` to `p`, and no byte behind `size` bytes from `p` on has changed.
pub record Carried (old new : Ptr → ℕ) (b p : Ptr) (n size : ℕ) : Type 0 where
  pub arrived : (i : ℕ) → i < n → new (p + i) ≡ old (b + i)
  pub spared : (a : Ptr) → (a < p) ⊎ (p + size ≤ a) → new a ≡ old a

Carried-contents :
    (old : Ptr → ℕ) (b p : Ptr) (size : ℕ) (pre : List Cell) (c : Cell) (post : List Cell)
    → p ≢ null
    → Carried old
        (contents old b size (some (pre, c, post)) p)
        b
        p
        (smaller size (c.end - c.start))
        size
Carried-contents old b p size pre c post ne = elim (Bool-cases (p == b)) [
  | inl same ↦
      rw (ne→== p null ne, same)
        (record { arrived = λ i h. ap (λ q. old (q + i)) (==→eq p b same); spared = λ a h. refl })
  | inr other ↦
      rw (ne→== p null ne, other)
        (record {
          arrived = λ i h.
              let shift : p + i - p ≡ i = omega arith in
              ground (arith, ap (λ j. old (b + j)) shift);
          spared = λ a h. ground arith;
        })
]

module _ (s : Manager) (xs : List Cell) (b : Ptr) (size : ℕ) (pre : List Cell) (c : Cell)
    (post : List Cell) (new : Ptr) where
  -- A resize of the block that starts at `b` failed for want of a descriptor or of a place and changed
  -- nothing, or it moved the block.
  pub record Moved (p : Ptr) (t : Manager) : Type 0 where
    pub list : List Cell
    pub valid : IsValid t list
    pub granted : Granted size s.memory (limit s) (pre ++ post) p list
    pub carried : Carried s.bytes t.bytes b p (smaller size (c.end - c.start)) size

  abbrev pub Moves : Ptr → Manager → Type 0
  Moves p t =
      ((p ≡ null) × (t ≡ s) × NoRoom new size s.memory (limit s) (pre ++ post))
      ⊎ ((p ≢ null) × Moved p t)

  module _ (v : IsValid s xs) (idle : s.lock ≡ unlocked) where
    abbrev target : Ptr × List Cell
    target = allocate new size s.memory (limit s) (pre ++ post)

    Moves-regain :
        Outcome new size s.memory (limit s) (pre ++ post) target.0 target.1
        → (p : Ptr) (t : Manager)
        → Resized s
            (contents s.bytes b size (some (pre, c, post)) (regain xs target).0)
            (regain xs target)
            p
            t
        → Moves p t
    Moves-regain (inl (e, same, why)) p t d =
        let failed : regain xs target ≡ (null, xs) = rw (eq→== target.0 null e) refl in
        inl (
          d.result ∙ ap (λ r. r.0) failed,
          IsValid-unique s t xs v (subst (λ r. IsValid t r.1) failed d.valid) (record {
            memory = d.memory;
            memory_size = d.memory_size;
            lock = d.lock ∙ sym idle;
            pool = d.valid.live ∙ sym v.live;
            bytes =
                d.bytes_moved ∙ ap (λ r. contents s.bytes b size (some (pre, c, post)) r.0) failed;
          }),
          why,
        )
    Moves-regain (inr (given, g)) p t d =
        let kept : regain xs target ≡ target = rw (ne→== target.0 null given) refl in
        let at : p ≡ target.0 = d.result ∙ ap (λ r. r.0) kept in
        let ne : p ≢ null = λ e. given (sym at ∙ e) in
        inr (
          ne,
          record {
            list = target.1;
            valid = subst (λ r. IsValid t r.1) kept d.valid;
            granted =
                subst (λ q. Granted size s.memory (limit s) (pre ++ post) q target.1) (sym at) g;
            carried =
                subst (λ m. Carried s.bytes m b p (smaller size (c.end - c.start)) size)
                  (sym (
                    d.bytes_moved
                    ∙ ap (contents s.bytes b size (some (pre, c, post))) (sym d.result)))
                  (Carried-contents s.bytes b p size pre c post ne);
          },
        )

-- On a well-formed state with the lock free, `mem_resize` to at least one byte of the block `c` that
-- starts at `b` either returns NULL and leaves every global, descriptor and byte as it
-- was, which it does only if no descriptor could be had or the new size is free at no address once
-- the block itself is left out of account, or returns the lowest address at which the new size is free once the block itself is left
-- out of account, with the bytes of the old block, up to the smaller of the sizes, at the new place
-- and no byte changed outside it. The condition is that the two places do not overlap.
pub mem_resize-Moves :
    (s : Manager) (xs : List Cell) (b : Ptr) (size : ℕ) (f : Fresh) (pre : List Cell) (c : Cell)
    (post : List Cell)
    → IsValid s xs
    → s.lock ≡ unlocked
    → s.blocks f.at ≡ none
    → 0 < size
    → b ≢ null
    → cut b xs ≡ some (pre, c, post)
    → clobbers b size (cut b xs) (reallocate f.at b size s.memory (limit s) xs).0 ≡ false
    → Returns (Moves s xs b size pre c post f.at) (mem_resize f b size s)
unfolding reallocate
mem_resize-Moves s xs b size f pre c post v idle free pos ne here safe =
    Returns.mono (mem_resize-reallocate s v idle b size f free safe) λ p t d.
      Moves-regain s xs b size pre c post f.at v idle
        (allocate-Outcome f.at size s.memory (limit s) (pre ++ post) packed pos v.nonnull) p t
        (subst (λ r. Resized s (contents s.bytes b size (some (pre, c, post)) r.0) r p t) found
          (subst
            (λ o.
              Resized s (contents s.bytes b size o (reallocate f.at b size s.memory (limit s) xs).0)
                (reallocate f.at b size s.memory (limit s) xs) p t)
            here d))
  where
    packed : Packed s.memory (limit s) (pre ++ post)
    packed =
        Packed-cut s.memory (limit s) pre c post
          (subst (Packed s.memory (limit s)) (subst (IsCut xs) here (cut-IsCut b xs)) v.packed)

    found :
        reallocate f.at b size s.memory (limit s) xs
        ≡ regain xs (allocate f.at size s.memory (limit s) (pre ++ post))
    found = rw (ne→== size 0 (omega arith), ne→== b null ne, here) refl
