-- ===== src/DeviceAllocator/Examples.antt =====
-- The device-aware allocator with blocks of two tokens, and a shared block that is written.
use e_llm.Prelude.{ℕ, ◌≡◌, refl, some, List, [], ◌∷◌, nat_eq}
use e_llm.Dict.{get, put, contains}
use e_llm.Exec.{ok}
use e_llm.NaiveAllocator.{
  NaiveBlock, allocate_new_block_id, incr, decr, refcount, append_token_ids,
  cow_block_if_not_appendable, free, free_block_id, allocator_of,
}
use e_llm.DeviceAllocator.{CpuGpuBlockAllocator, cpu_gpu}

abbrev first : List ℕ → ℕ
first ids = 0

abbrev half_full : NaiveBlock
half_full = record { token_ids = 7 ∷ []; block_size = 2; block_id = some 0 }

-- The block is shared by two tables.
abbrev sharing : CpuGpuBlockAllocator
sharing = record {
  gpu_allocator = record {
    refcounts = (0, 2) ∷ (1, 0) ∷ [];
    free_block_indices = 1 ∷ [];
    copy_on_writes = [];
    block_size = 2;
  };
  cpu_allocator = allocator_of (2 ∷ []) 2;
}

-- The write goes to a new block, and the copy is recorded.
copy_runs : (cpu_gpu first).append_token_ids half_full (8 ∷ []) sharing ≡ (
  ok (record { token_ids = 7 ∷ 8 ∷ []; block_size = 2; block_id = some 1 }),
  record sharing {
    gpu_allocator = record {
      refcounts = (0, 1) ∷ (1, 1) ∷ [];
      free_block_indices = [];
      copy_on_writes = (0, 1) ∷ [];
      block_size = 2;
    };
  },
)
unfolding append_token_ids cow_block_if_not_appendable refcount free free_block_id decr
    allocate_new_block_id incr get put contains
copy_runs = refl
