-- ===== src/Manager/Tests.antt =====
-- The theorems on memory_manager.c at a pool of 100 bytes with two blocks, and runs of its code.
use threadsafe_memory_manage.Prelude.{
  ◌≡◌, refl, true, false, Option, none, some, List, [], ◌∷◌, arith,
}
use threadsafe_memory_manage.Word.{Ptr, null, ptr_add, ptr_sub}
use threadsafe_memory_manage.Run.{fault, Cmd, ◌>>=◌, ◌>>◌}
use threadsafe_memory_manage.Run.Returns.{Returns}
use threadsafe_memory_manage.Machine
use threadsafe_memory_manage.Manager
use threadsafe_memory_manage.Machine.{MemoryBlock, unlocked, absent, Manager, Fresh, write}
use threadsafe_memory_manage.Manager.{mem_init, mem_alloc, mem_free, mem_resize, mem_deinit}
use threadsafe_memory_manage.Manager.Chain.{Cell, cell, nil, link}
use threadsafe_memory_manage.Manager.FirstFit.{place}
use threadsafe_memory_manage.Manager.Valid.{IsValid, Kept, allocate}
use threadsafe_memory_manage.Manager.Alloc.{Allocated}
use threadsafe_memory_manage.Manager.Find.{cut}
use threadsafe_memory_manage.Manager.Free.{release}
use threadsafe_memory_manage.Manager.Locked.{mem_alloc-allocate, mem_free-release}
use threadsafe_memory_manage.Manager.Relocate.{reallocate, contents, Resized}
use threadsafe_memory_manage.Manager.Resize.{mem_resize-reallocate, mem_resize-fault}
use threadsafe_memory_manage.Manager.Lifetime.{Deinited, mem_init-IsValid, mem_deinit-Deinited}
use threadsafe_memory_manage.Manager.Placement.{Served, mem_alloc-Served}
use threadsafe_memory_manage.Manager.Rounds.{mem_free-mem_alloc}
use threadsafe_memory_manage.Manager.Moves.{Moves, mem_resize-Moves}
use threadsafe_memory_manage.Manager.Defects.{mem_free-mem_alloc_zero}

abbrev region : Ptr → Ptr → Ptr → Option MemoryBlock
region p q next = some (record { start = p; end = q; next = next })

-- Bytes 1000 to 1099, of which 1000 to 1009 and 1030 to 1049 are allocated.
abbrev two_blocks : Manager
two_blocks = record {
  memory = 1000;
  memory_head = 10;
  memory_size = 100;
  lock = unlocked;
  blocks = write (write (λ _. none) 10 (region 1000 1010 20)) 20 (region 1030 1050 null);
  pool = true;
  bytes = λ a. a;
}

abbrev two_cells : List Cell
two_cells = cell 10 1000 1010 ∷ cell 20 1030 1050 ∷ []

abbrev fresh : Fresh
fresh = record { at = 30; junk = record { start = 7; end = 8; next = 9 } }

two_blocks-IsValid : IsValid two_blocks two_cells
unfolding write
two_blocks-IsValid = record {
  chain =
      link refl (record { ne_null = omega arith; holds = refl }) refl
        (link refl (record { ne_null = omega arith; holds = refl }) refl nil);
  packed = omega arith;
  owned = λ a o. ground arith;
  nonnull = omega arith;
  small = omega arith;
  live = refl;
}

fresh-unused : two_blocks.blocks 30 ≡ none
unfolding write
fresh-unused = refl

mem_alloc-Served_example :
    Returns (Served fresh 5 two_blocks two_cells) (mem_alloc fresh 5 two_blocks)
mem_alloc-Served_example =
    mem_alloc-Served two_blocks two_cells fresh 5 two_blocks-IsValid refl fresh-unused (omega arith)

mem_alloc-allocate_example :
    Returns
      (Allocated (λ _. none) two_blocks 30 two_cells (allocate 30 25 1000 1100 two_cells))
      (mem_alloc fresh 25 two_blocks)
mem_alloc-allocate_example =
    mem_alloc-allocate two_blocks two_blocks-IsValid refl fresh 25 fresh-unused

mem_free-release_example :
    Returns
      (λ _ t. IsValid t (release 1030 two_cells) × Kept two_blocks t)
      (mem_free 1030 two_blocks)
mem_free-release_example = mem_free-release two_blocks two_blocks-IsValid refl 1030

mem_resize-reallocate_example :
    Returns
      (Resized two_blocks
        (contents two_blocks.bytes 1030 60
          (cut 1030 two_cells)
          (reallocate 30 1030 60 1000 1100 two_cells).0)
        (reallocate 30 1030 60 1000 1100 two_cells))
      (mem_resize fresh 1030 60 two_blocks)
unfolding reallocate cut allocate place
mem_resize-reallocate_example =
    mem_resize-reallocate two_blocks two_blocks-IsValid refl 1030 60 fresh fresh-unused refl

mem_resize-Moves_example :
    Returns
      (Moves two_blocks two_cells 1000 40 [] (cell 10 1000 1010) (cell 20 1030 1050 ∷ []) fresh.at)
      (mem_resize fresh 1000 40 two_blocks)
unfolding reallocate cut allocate place
mem_resize-Moves_example =
    mem_resize-Moves two_blocks two_cells 1000 40 fresh [] (cell 10 1000 1010)
      (cell 20 1030 1050 ∷ []) two_blocks-IsValid refl fresh-unused (omega arith) (omega arith) refl
      refl

mem_free-mem_alloc_example :
    Returns (λ _ t. t ≡ two_blocks) ((do p ← mem_alloc fresh 5; mem_free p) two_blocks)
mem_free-mem_alloc_example =
    mem_free-mem_alloc two_blocks two_cells fresh 5 two_blocks-IsValid refl fresh-unused
      (omega arith)

mem_deinit-Deinited_example :
    Returns (λ _ t. Deinited t × (t.memory ≡ 1000)) (mem_deinit two_blocks)
mem_deinit-Deinited_example = mem_deinit-Deinited two_blocks two_cells two_blocks-IsValid refl

-- Before `mem_init`: all zero.
abbrev blank : Manager
blank = record {
  memory = null;
  memory_head = null;
  memory_size = 0;
  lock = absent;
  blocks = λ _. none;
  pool = false;
  bytes = λ _. 0;
}

mem_init-IsValid_example :
    Returns
      (λ _ t. IsValid t [] × (t.lock ≡ unlocked) × (t.memory ≡ 1000) × (t.memory_size ≡ 100))
      (mem_init 1000 100 blank)
mem_init-IsValid_example = mem_init-IsValid 1000 100 blank (omega arith) (omega arith) (λ a. refl)

mem_free-mem_alloc_zero_example :
    Returns
      (λ _ t. IsValid t (cell 20 1030 1050 ∷ []))
      ((do p ← mem_alloc fresh 0; mem_free p) two_blocks)
mem_free-mem_alloc_zero_example =
    mem_free-mem_alloc_zero two_blocks (cell 10 1000 1010) (cell 20 1030 1050 ∷ []) fresh
      two_blocks-IsValid refl fresh-unused refl

-- One block, five bytes behind the start of the pool.
abbrev one_block : Manager
one_block = record two_blocks {
  memory_head = 20;
  blocks = write (λ _. none) 20 (region 1005 1025 null);
}

one_block-IsValid : IsValid one_block (cell 20 1005 1025 ∷ [])
unfolding write
one_block-IsValid = record {
  chain = link refl (record { ne_null = omega arith; holds = refl }) refl nil;
  packed = omega arith;
  owned = λ a o. ground arith;
  nonnull = omega arith;
  small = omega arith;
  live = refl;
}

one_block-unused : one_block.blocks 30 ≡ none
unfolding write
one_block-unused = refl

mem_resize-fault_example : mem_resize fresh 1005 30 one_block ≡ fault
unfolding reallocate cut allocate place
mem_resize-fault_example =
    mem_resize-fault one_block one_block-IsValid refl 1005 30 fresh one_block-unused refl

-- Allocate, allocate, free the first, resize the second: from `mem_init` to the fault.
story : Cmd Manager Ptr
unfolding Machine.write Machine.load Machine.set_start Machine.set_end Machine.set_next
    Machine.malloc_block Machine.free_block Machine.mutex_lock Machine.mutex_unlock Machine.memcpy
    Manager.mem_init Manager.fits_first Manager.fill Manager.insert_first Manager.free_size
    Manager.insert_after Manager.insert_loop Manager.insert_block Manager.mem_alloc_no_lock
    Manager.mem_alloc Manager.find_loop Manager.find_block Manager.connect Manager.mem_free_no_lock
    Manager.mem_free Manager.resize_move Manager.resize_found Manager.mem_resize ptr_add ptr_sub
story = do
  mem_init 1000 100
  a ← mem_alloc (record fresh { at = 10 }) 5
  b ← mem_alloc (record fresh { at = 20 }) 20
  mem_free a
  mem_resize fresh b 20

story_faults : story blank ≡ fault
unfolding story
story_faults = refl
