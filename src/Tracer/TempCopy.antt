-- ===== src/Tracer/TempCopy.antt =====
-- `realloc` while `malloc` is looked up: a copy within `tmpbuff`.
use threadsafe_memory_manage.Prelude.{ℕ, ◌+◌, ◌∷◌}
use threadsafe_memory_manage.Word.{Ptr}
use threadsafe_memory_manage.Machine.{copied}
use threadsafe_memory_manage.Platform.{
  Platform, Tracer, set_bytes, reallocating, freed, freeing_temp,
}
use threadsafe_memory_manage.Tracer.Temp.{carved}

-- The state behind the copy of a block `p` of `tmpbuff` to a new one of `size` bytes.
abbrev pub recarved : {W : Type 0} → Platform W → Ptr → ℕ → Tracer W → Tracer W
recarved e p size s =
    record (set_bytes (copied s.heap.bytes (e.tmpbuff + s.tmppos) p size) (carved size s)) {
      output = freed p ∷ freeing_temp ∷ reallocating size p ∷ s.output;
    }
