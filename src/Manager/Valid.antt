-- ===== src/Manager/Valid.antt =====
-- When the globals of memory_manager.c are well formed, and the abstract allocator that
-- `mem_alloc_no_lock` implements.
use threadsafe_memory_manage.Prelude.{
  ℕ, ◌+◌, ◌-◌, ◌^◌, ◌<◌, ◌≡◌, ◌≢◌, ◌∙◌, true, Option, none, some, List, ltb, ◌==◌, if◌then◌else◌,
}
use threadsafe_memory_manage.Word.{Ptr, null}
use threadsafe_memory_manage.Machine.{MemoryBlock, Manager}
use threadsafe_memory_manage.Manager.Chain.{Cell, Chain, ◌∉◌}
use threadsafe_memory_manage.Manager.FirstFit.{Packed, place}

abbrev pub limit : Manager → Ptr
limit s = s.memory + s.memory_size

-- The pool is allocated, the list holds the regions of `xs` in order, and the live descriptors are
-- those of the list and of `rest`.
pub record Owns (rest : Ptr → Option MemoryBlock) (s : Manager) (xs : List Cell) : Type 0 where
  pub chain : Chain s.blocks null s.memory_head xs
  pub packed : Packed s.memory (limit s) xs
  pub owned : (a : Ptr) → a ∉ xs → s.blocks a ≡ rest a
  pub nonnull : s.memory ≢ null
  pub small : limit s < 2 ^ 64
  pub live : s.pool ≡ true

-- No descriptor is live but those of the list.
abbrev pub IsValid : Manager → List Cell → Type 0
IsValid = Owns (λ _. none)

-- What no allocation, release or failed resize touches.
pub record Kept (s t : Manager) : Type 0 where
  pub memory : t.memory ≡ s.memory
  pub memory_size : t.memory_size ≡ s.memory_size
  pub lock : t.lock ≡ s.lock
  pub pool : t.pool ≡ s.pool
  pub bytes : t.bytes ≡ s.bytes

-- A state with the same pool needs only a new list to be well formed.
pub Owns-Kept :
    {rest rest' : Ptr → Option MemoryBlock} {s t : Manager} {xs ys : List Cell}
    → Owns rest s xs
    → Kept s t
    → Chain t.blocks null t.memory_head ys
    → Packed s.memory (limit s) ys
    → ((a : Ptr) → a ∉ ys → t.blocks a ≡ rest' a)
    → Owns rest' t ys
Owns-Kept v kept chain packed owned = record {
  chain = chain;
  packed = rw (kept.memory, kept.memory_size) packed;
  owned = owned;
  nonnull = rw kept.memory v.nonnull;
  small = rw (kept.memory, kept.memory_size) v.small;
  live = kept.pool ∙ v.live;
}

pub Kept-trans : {s t u : Manager} → Kept s t → Kept t u → Kept s u
Kept-trans k l = record {
  memory = l.memory ∙ k.memory;
  memory_size = l.memory_size ∙ k.memory_size;
  lock = l.lock ∙ k.lock;
  pool = l.pool ∙ k.pool;
  bytes = l.bytes ∙ k.bytes;
}

abbrev pub settle : List Cell → Option (Ptr × List Cell) → Ptr × List Cell
settle xs none = (null, xs)
settle xs (some r) = r

-- The allocator over regions: `new` is the descriptor that the C heap gives, or NULL.
unfoldable pub allocate : (new : Ptr) (size : ℕ) (memory limit : Ptr) → List Cell → Ptr × List Cell
allocate new size memory limit xs =
    if ltb (limit - memory) size
    then (null, xs)
    else if size == 0
    then (memory, xs)
    else if new == null
    then (null, xs)
    else settle xs (place new size limit memory xs)
