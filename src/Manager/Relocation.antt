-- ===== src/Manager/Relocation.antt =====
-- `mem_resize`: the block leaves the list, the allocator runs without it, and the bytes move to the
-- new place. Where the two places overlap, `memcpy` is undefined.
use threadsafe_memory_manage.Prelude.{
  ℕ, ◌-◌, ◌≡◌, ◌≢◌, refl, sym, ap, subst, ◌∙◌, true, false, none, some, List, ◌++◌, arith, ◌==◌,
  if◌then◌else◌, Bool-cases, inl, inr, ==→eq, ==→ne, ne→==, eq→==,
}
use threadsafe_memory_manage.Word.{Ptr, null, ptr_sub-exact}
use threadsafe_memory_manage.Run.{Cmd, ok, fault, pure, and_then, ◌>>◌}
use threadsafe_memory_manage.Run.Returns
use threadsafe_memory_manage.Run.Returns.{Returns, returns}
use threadsafe_memory_manage.Machine.{
  unlocked, locked, Manager, Fresh, write, put, copied, overlaps, memcpy, free_block, mutex_unlock,
}
use threadsafe_memory_manage.Machine.Points.{load-ok, free_block-ok}
use threadsafe_memory_manage.Manager.{connect, mem_alloc_no_lock, resize_found}
use threadsafe_memory_manage.Manager.Chain
use threadsafe_memory_manage.Manager.Chain.{Cell, block, has, ◌∈◌, ◌∉◌, ne_of_has, Chain, nil, link}
use threadsafe_memory_manage.Manager.FirstFit.{Packed}
use threadsafe_memory_manage.Manager.Valid.{limit, Owns, IsValid, Kept, Kept-trans, allocate}
use threadsafe_memory_manage.Manager.Alloc.{Allocated, mem_alloc_no_lock-allocate}
use threadsafe_memory_manage.Manager.Find.{Found}
use threadsafe_memory_manage.Manager.Unlink.{joined, joined-outside, joined-Kept}
use threadsafe_memory_manage.Manager.Free.{
  Packed-cut, disconnect-Owns, disconnect-ok, disconnected-out, free-Owns,
}
use threadsafe_memory_manage.Manager.Locked.{unlock-ok, Owns-with_lock}
use threadsafe_memory_manage.Manager.{resize_move}
use threadsafe_memory_manage.Manager.Reconnect.{back, reconnect-ok, reconnect-IsValid}
use threadsafe_memory_manage.Manager.Relocate.{
  Packed-cell, smaller, regain, contents, clobbers, Resized, allocate-null,
}

module _ (s : Manager) (b : Ptr) {xs : List Cell} (v : IsValid s xs) (held : s.lock ≡ locked)
    {pre post : List Cell} {c : Cell} {r : Ptr × Ptr}
    (f : Found s.blocks b null s.memory_head xs pre c post r) (fr : Fresh) (size : ℕ)
    (free : s.blocks fr.at ≡ none) where
  abbrev pub target : Ptr × List Cell
  target = allocate fr.at size s.memory (limit s) (pre ++ post)

  abbrev pub disconnected : Manager
  disconnected = joined pre f.next s

  abbrev pub Tried : Ptr → Manager → Type 0
  Tried =
      Allocated (write (λ _. none) r.1 (some (block c f.next))) disconnected fr.at (pre ++ post)
        target

  pub try-Allocated : Returns Tried (mem_alloc_no_lock fr size disconnected)
  try-Allocated =
      let kept = joined-Kept s f.next pre in
      let out : fr.at ∉ pre = Chain.not-has_of_none fr.at f.front free in
      let same : allocate fr.at size disconnected.memory (limit disconnected) (pre ++ post)
          ≡ target =
        rw (kept.memory, kept.memory_size) refl in
      subst
        (λ r'.
          Returns
            (Allocated (write (λ _. none) r.1 (some (block c f.next))) disconnected fr.at
              (pre ++ post) r')
            (mem_alloc_no_lock fr size disconnected))
        same
        (mem_alloc_no_lock-allocate disconnected fr size (pre ++ post) (disconnect-Owns s b v f)
          (joined-outside s f.next pre fr.at out ∙ free))

  -- The last part of `resize_found`, on the result of the allocation.
  abbrev pub finish : Ptr → Cmd Manager Ptr
  finish p =
      if p == null
      then (do connect r.0 r.1; mutex_unlock; pure null)
      else resize_move b size r.1 (c.end - c.start) p

  module _ (p : Ptr) (t : Manager) (a : Tried p t) where
    kept : Kept s t
    kept = Kept-trans (joined-Kept s f.next pre) a.kept

    finish-null : p ≡ null → Returns (Resized s s.bytes (regain xs target)) (finish p t)
    finish-null e =
        let failed : target.0 ≡ null = sym a.result ∙ e in
        let w =
          subst (Owns (write (λ _. none) r.1 (some (block c f.next))) t)
            (allocate-null fr.at size s.memory (limit s) (pre ++ post)
              (Packed-cut s.memory (limit s) pre c post
                (subst (Packed s.memory (limit s)) f.split v.packed))
              v.nonnull failed)
            a.owns in
        let all = Kept-trans kept (joined-Kept t r.1 pre) in
        rw
          (
            eq→== p null e,
            eq→== target.0 null failed,
            reconnect-ok v f w,
            unlock-ok (back v f w) (all.lock ∙ held),
          )
          (returns (record {
            result = refl;
            valid = Owns-with_lock unlocked (reconnect-IsValid v f w kept);
            memory = all.memory;
            memory_size = all.memory_size;
            lock = refl;
            bytes_moved = all.bytes;
          }))

    gone : r.1 ∉ target.1
    gone = a.members r.1 (λ e. cc (f.points.holds, free, ap s.blocks e)) ∙ disconnected-out s b v f

    freed-ok : free_block r.1 t ≡ ok tt (put r.1 none t)
    unfolding write
    freed-ok = free_block-ok t {b = block c f.next} (record {
      ne_null = f.points.ne_null;
      holds = a.owns.owned r.1 gone ∙ rw (eq→== r.1 r.1 refl);
    })

    -- The state once the bytes are `bytes` and the lock is free.
    moved :
        (bytes wanted : Ptr → ℕ)
        → bytes ≡ wanted
        → p ≢ null
        → Resized s wanted
            (regain xs target)
            p
            (record t { blocks = write t.blocks r.1 none; bytes = bytes; lock = unlocked })
    moved bytes wanted e ne = rw (ne→== target.0 null (subst (λ x. x ≢ null) a.result ne)) (
        let w = free-Owns r.1 (some (block c f.next)) a.owns gone in
        record {
          result = a.result;
          valid = record {
            chain = w.chain;
            packed = w.packed;
            owned = w.owned;
            nonnull = w.nonnull;
            small = w.small;
            live = w.live;
          };
          memory = kept.memory;
          memory_size = kept.memory_size;
          lock = refl;
          bytes_moved = e;
        })

    abbrev length_moved : ℕ
    length_moved = smaller size (c.end - c.start)

    finish-move :
        p ≢ null
        → clobbers b size (some (pre, c, post)) p ≡ false
        → Returns
            (Resized s (contents s.bytes b size (some (pre, c, post)) p) (regain xs target))
            (finish p t)
    unfolding resize_move memcpy
    finish-move ne safe = elim (Bool-cases (p == b)) [
      | inl same ↦
          rw (ne→== p null ne, freed-ok, same, unlock-ok (put r.1 none t) (kept.lock ∙ held))
            (returns (moved t.bytes s.bytes kept.bytes ne))
      | inr other ↦
          let apart : overlaps p b length_moved ≡ false = rw (ne→== p null ne, other) at safe in
          rw
            (
              ne→== p null ne,
              freed-ok,
              other,
              apart,
              unlock-ok
                  (record t {
                    blocks = write t.blocks r.1 none;
                    bytes = copied t.bytes p b length_moved;
                  })
                  (kept.lock ∙ held),
            )
            (returns (
              moved (copied t.bytes p b length_moved) (copied s.bytes p b length_moved)
                (ap (λ x. copied x p b length_moved) kept.bytes) ne))
    ]

    pub finish-Resized :
        clobbers b size (some (pre, c, post)) p ≡ false
        → Returns
            (Resized s (contents s.bytes b size (some (pre, c, post)) p) (regain xs target))
            (finish p t)
    finish-Resized safe = elim (Bool-cases (p == null)) [
      | inl failed ↦
          subst (λ x. Returns (Resized s x (regain xs target)) (finish p t)) (rw failed refl)
            (finish-null (==→eq p null failed))
      | inr given ↦ finish-move (==→ne p null given) safe
    ]

    pub finish-fault : clobbers b size (some (pre, c, post)) p ≡ true → finish p t ≡ fault
    unfolding resize_move memcpy
    finish-fault clash = elim (Bool-cases (p == null)) [
      | inl failed ↦ cc (rw failed at clash)
      | inr given ↦ elim (Bool-cases (p == b)) [
        | inl same ↦ cc (rw (given, same) at clash)
        | inr other ↦
            let meet : overlaps p b length_moved ≡ true = rw (given, other) at clash in
            rw (given, freed-ok, other, meet)
      ]
    ]

  resize_found-finish :
      resize_found fr b size r.0 r.1 s
      ≡ and_then (mem_alloc_no_lock fr size disconnected) (λ p. finish p)
  unfolding resize_found
  resize_found-finish =
      let packed = subst (Packed s.memory (limit s)) f.split v.packed in
      let inside = Packed-cell s.memory (limit s) pre c post packed in
      rw (
        load-ok s f.points,
        ptr_sub-exact c.end c.start (omega (arith, inside)) (omega (arith, inside, v.small)),
        disconnect-ok s b v f,
      )

  -- The block found, resized: the abstract move, or a fault if the places overlap.
  pub resize_found-Resized :
      clobbers b size (some (pre, c, post)) target.0 ≡ false
      → Returns
          (Resized s (contents s.bytes b size (some (pre, c, post)) target.0) (regain xs target))
          (resize_found fr b size r.0 r.1 s)
  resize_found-Resized safe = rw resize_found-finish (
      Returns.bind try-Allocated λ p t a.
        subst
          (λ q.
            Returns (Resized s (contents s.bytes b size (some (pre, c, post)) q) (regain xs target))
              (finish p t))
          a.result
          (finish-Resized p t a
            (subst (λ q. clobbers b size (some (pre, c, post)) q ≡ false) (sym a.result) safe)))

  pub resize_found-fault :
      clobbers b size (some (pre, c, post)) target.0 ≡ true
      → resize_found fr b size r.0 r.1 s ≡ fault
  resize_found-fault clash = rw resize_found-finish (
      Returns.bind-fault try-Allocated λ p t a.
        finish-fault p t a
          (subst (λ q. clobbers b size (some (pre, c, post)) q ≡ true) (sym a.result) clash))
