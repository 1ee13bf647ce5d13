-- ===== src/BlockTable/Examples.antt =====
-- Tables over the device-aware allocator.
use e_llm.Prelude.{
  ℕ, suc, ◌+◌, ◌-◌, ◌/◌, ◌≡◌, refl, some, map, Option, List, [], ◌∷◌, length, arith,
}
use e_llm.Exec.{Result, ok}
use e_llm.Exec.Outcomes.{Ends, Ends-ok}
use e_llm.BlockTable.{
  BlockAllocator, Tabled, gpu, allocate_table, append_to_table, tokens_in, get_num_required_blocks,
  get_num_blocks_touched_by_append_slots,
}
use e_llm.BlockTable.Contents.{OutOfBlocks, Fills, Owned}
use e_llm.BlockTable.Allocates.{allocate_table-holds}
use e_llm.BlockTable.Traces.{Represents, Append, written, fill_table, fill_table-refines}
use e_llm.BlockTable.Touched.{blocks_touched-between}
use e_llm.BlockTable.Tables.{Extended, append_to_table-extends}
use e_llm.NaiveAllocator.{
  NaiveBlock, allocator_of, allocate_mutable, allocate_immutable, allocate_new_block_id, incr,
  refcount, append_token_ids, cow_block_if_not_appendable,
}
use e_llm.DeviceAllocator.{CpuGpuBlockAllocator, create, cpu_gpu}
use e_llm.DeviceAllocator.Contract.{IsSound, IsAllocated, cpu_gpu-KeepsTokens, create-IsSound}
use e_llm.Dict.{get, put, contains}

abbrev first : List ℕ → ℕ
first ids = 0

abbrev methods : BlockAllocator CpuGpuBlockAllocator NaiveBlock
methods = cpu_gpu first

abbrev Sound : CpuGpuBlockAllocator → Type 0
Sound = IsSound 2

abbrev Allocated : NaiveBlock → CpuGpuBlockAllocator → Type 0
Allocated = IsAllocated first 2

-- No block yet, and five free ones of two tokens on the GPU and one on the CPU.
abbrev unallocated : Tabled CpuGpuBlockAllocator NaiveBlock
unallocated = record {
  table = record { block_size = 2; blocks = []; num_full_slots = 0 };
  allocator = create 5 1 2;
}

abbrev block : List ℕ → ℕ → NaiveBlock
block tokens i = record { token_ids = tokens; block_size = 2; block_id = some i }

-- Three tokens in two blocks.
abbrev three_tokens : Tabled CpuGpuBlockAllocator NaiveBlock
three_tokens = record {
  table = record {
    block_size = 2;
    blocks = block (7 ∷ 8 ∷ []) 0 ∷ block (9 ∷ []) 1 ∷ [];
    num_full_slots = 3;
  };
  allocator = record {
    gpu_allocator = record {
      refcounts = (0, 1) ∷ (1, 1) ∷ (2, 0) ∷ (3, 0) ∷ (4, 0) ∷ [];
      free_block_indices = 2 ∷ 3 ∷ 4 ∷ [];
      copy_on_writes = [];
      block_size = 2;
    };
    cpu_allocator = allocator_of (5 ∷ []) 2;
  };
}

abbrev contents :
    Result (Unit {0}) × Tabled CpuGpuBlockAllocator NaiveBlock → List (List ℕ × Option ℕ)
contents (r, s) = map (λ b. (b.token_ids, b.block_id)) s.table.blocks

allocate_runs : allocate_table methods (7 ∷ 8 ∷ 9 ∷ []) gpu unallocated ≡ (ok tt, three_tokens)
unfolding allocate_table allocate_mutable allocate_immutable allocate_new_block_id incr refcount
    append_token_ids cow_block_if_not_appendable get put contains
allocate_runs = refl

append_runs :
    contents (append_to_table methods (1 ∷ 2 ∷ []) 2 three_tokens)
    ≡ (7 ∷ 8 ∷ [], some 0) ∷ (9 ∷ 1 ∷ [], some 1) ∷ (2 ∷ [], some 2) ∷ ([], some 3) ∷ []
unfolding append_to_table allocate_table allocate_mutable allocate_immutable allocate_new_block_id
    incr refcount append_token_ids cow_block_if_not_appendable get put contains
append_runs = refl

allocate_table-holds_example :
    Ends
      (λ _ s'.
        (tokens_in methods s'.table.blocks ≡ 7 ∷ 8 ∷ 9 ∷ [])
        × (length s'.table.blocks ≡ get_num_required_blocks (7 ∷ 8 ∷ 9 ∷ []) 2)
        × (s'.table.num_full_slots ≡ 3)
        × (s'.table.block_size ≡ 2)
        × Fills methods 2 3 s'.table.blocks
        × Owned Sound Allocated s')
      OutOfBlocks
      (allocate_table methods (7 ∷ 8 ∷ 9 ∷ []) gpu unallocated)
allocate_table-holds_example =
    allocate_table-holds methods (7 ∷ 8 ∷ 9 ∷ []) gpu unallocated (cpu_gpu-KeepsTokens first 2)
      (create-IsSound 5 1 2) (omega arith) refl refl

three_tokens-Owned : Owned Sound Allocated three_tokens
three_tokens-Owned =
    (Ends-ok _ tt three_tokens
      (allocate_table-holds methods (7 ∷ 8 ∷ 9 ∷ []) gpu unallocated (cpu_gpu-KeepsTokens first 2)
        (create-IsSound 5 1 2) (omega arith) refl refl)
      allocate_runs).5

append_to_table-extends_example :
    Ends
      (λ _ s'. Extended methods Sound Allocated (1 ∷ 2 ∷ []) three_tokens s')
      OutOfBlocks
      (append_to_table methods (1 ∷ 2 ∷ []) 2 three_tokens)
append_to_table-extends_example =
    append_to_table-extends methods Sound Allocated (1 ∷ 2 ∷ []) 2 three_tokens
      (cpu_gpu-KeepsTokens first 2) three_tokens-Owned (omega arith) refl (refl, (refl, refl))

abbrev two_appends : List Append
two_appends = (1 ∷ 2 ∷ [], 2) ∷ (3 ∷ [], 0) ∷ []

fill_runs :
    contents (fill_table methods (7 ∷ 8 ∷ 9 ∷ []) gpu two_appends unallocated)
    ≡ (7 ∷ 8 ∷ [], some 0) ∷ (9 ∷ 1 ∷ [], some 1) ∷ (2 ∷ 3 ∷ [], some 2) ∷ ([], some 3) ∷ []
unfolding fill_table append_to_table allocate_table allocate_mutable allocate_immutable
    allocate_new_block_id incr refcount append_token_ids cow_block_if_not_appendable get put
    contains
fill_runs = refl

fill_table-refines_example :
    Ends
      (λ _ s'. Represents methods Sound Allocated 2 (written (7 ∷ 8 ∷ 9 ∷ []) two_appends) s')
      OutOfBlocks
      (fill_table methods (7 ∷ 8 ∷ 9 ∷ []) gpu two_appends unallocated)
fill_table-refines_example =
    fill_table-refines methods Sound Allocated (7 ∷ 8 ∷ 9 ∷ []) gpu two_appends unallocated
      (cpu_gpu-KeepsTokens first 2) (create-IsSound 5 1 2) (omega arith) refl refl

-- Slots 3 to 6: the last of block 1, and blocks 2 and 3.
touched_runs : get_num_blocks_touched_by_append_slots three_tokens.table (1 ∷ 2 ∷ []) 2 ≡ 3
touched_runs = refl

blocks_touched-between_example :
    get_num_blocks_touched_by_append_slots three_tokens.table (1 ∷ 2 ∷ []) 2 + 3 / 2
    ≡ suc ((3 + (2 + 2 - 1)) / 2)
blocks_touched-between_example =
    blocks_touched-between three_tokens.table (1 ∷ 2 ∷ []) 2 (omega arith) (omega arith)
