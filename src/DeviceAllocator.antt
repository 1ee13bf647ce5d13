-- ===== src/DeviceAllocator.antt =====
-- vllm/core/block/cpu_gpu_block_allocator.py: `CpuGpuBlockAllocator` over two naive allocators.
pub mod Contract
mod Examples
use e_llm.Prelude.{
  ℕ, Bool, true, false, Option, none, some, List, [], ◌∷◌, ◌++◌, range, nat_eq, if◌then◌else◌,
  length,
}
use e_llm.Dict.{contains}
use e_llm.Exec.{
  Exec, Result, ok, err, pure, raise, or_raise, ◌>>=◌, ◌>>◌, assertion_error, key_error,
}
use e_llm.BlockTable.{BlockAllocator, Device}
use e_llm.NaiveAllocator.{
  Allocator, NaiveBlock, Chain, allocator_of, allocate_mutable, allocate_immutable,
  append_token_ids, free, fork, all_blocks, get_num_free_blocks, get_num_total_blocks,
  clear_copy_on_writes,
}

-- The two values of self._allocators.
pub record CpuGpuBlockAllocator : Type 0 where
  pub gpu_allocator : Allocator
  pub cpu_allocator : Allocator

-- CpuGpuBlockAllocator.create with allocator_type "naive".
abbrev pub create : ℕ → ℕ → ℕ → CpuGpuBlockAllocator
create num_gpu_blocks num_cpu_blocks block_size = record {
  gpu_allocator = allocator_of (range 0 num_gpu_blocks) block_size;
  cpu_allocator = allocator_of (range num_gpu_blocks num_cpu_blocks) block_size;
}

abbrev pub on_gpu : {A : Type 0} → Exec Allocator A → Exec CpuGpuBlockAllocator A
on_gpu call s = let (r, a) = call s.gpu_allocator in (r, record s { gpu_allocator = a })

abbrev pub on_cpu : {A : Type 0} → Exec Allocator A → Exec CpuGpuBlockAllocator A
on_cpu call s = let (r, a) = call s.cpu_allocator in (r, record s { cpu_allocator = a })

-- self._allocators[device]
abbrev pub on_device : {A : Type 0} → Device → Exec Allocator A → Exec CpuGpuBlockAllocator A
on_device Device.gpu call = on_gpu call
on_device Device.cpu call = on_cpu call

-- self._block_ids_to_allocator[block_id]
abbrev pub on_owner : {A : Type 0} → ℕ → Exec Allocator A → Exec CpuGpuBlockAllocator A
on_owner block_id call s =
    if contains block_id s.gpu_allocator.refcounts
    then on_gpu call s
    else if contains block_id s.cpu_allocator.refcounts
    then on_cpu call s
    else (err key_error, s)

-- A block's own allocator is that of its id; without an id it calls none.
abbrev pub on_own : {A : Type 0} → Option ℕ → Exec Allocator A → Exec CpuGpuBlockAllocator A
on_own none call = on_gpu call
on_own (some block_id) call = on_owner block_id call

abbrev pub chain_of : Chain → List NaiveBlock → Chain
chain_of prev_block [] = prev_block
chain_of prev_block (block ∷ blocks) = chain_of (Chain.after prev_block block) blocks

abbrev pub last_id : Option ℕ → List NaiveBlock → Option ℕ
last_id found [] = found
last_id found (block ∷ blocks) = last_id block.block_id blocks

abbrev pub free_owned : NaiveBlock → Exec CpuGpuBlockAllocator (Unit {0})
free_owned block = do
  block_id ← or_raise assertion_error block.block_id
  freed ← on_owner block_id (free block)
  pure tt

abbrev pub fork_owned : List NaiveBlock → Exec CpuGpuBlockAllocator (List NaiveBlock)
fork_owned blocks = do
  block_id ← or_raise assertion_error (last_id none blocks)
  forked ← on_owner block_id (fork (chain_of Chain.start blocks))
  pure (all_blocks forked)

abbrev pub free_blocks_on : Device → CpuGpuBlockAllocator → ℕ
free_blocks_on Device.gpu s = get_num_free_blocks s.gpu_allocator
free_blocks_on Device.cpu s = get_num_free_blocks s.cpu_allocator

abbrev pub total_blocks_on : Device → CpuGpuBlockAllocator → ℕ
total_blocks_on Device.gpu s = get_num_total_blocks s.gpu_allocator
total_blocks_on Device.cpu s = get_num_total_blocks s.cpu_allocator

abbrev pub clear_gpu_copy_on_writes : Exec CpuGpuBlockAllocator (List (ℕ × ℕ))
clear_gpu_copy_on_writes = on_gpu clear_copy_on_writes

-- Wherever the iteration over a free set starts.
abbrev pub cpu_gpu : (List ℕ → ℕ) → BlockAllocator CpuGpuBlockAllocator NaiveBlock
cpu_gpu position = record {
  allocate_mutable = λ before device. on_device device (allocate_mutable position);
  allocate_immutable =
      λ before tokens device. on_device device (allocate_immutable position tokens);
  append_token_ids = λ block tokens. on_own block.block_id (append_token_ids position tokens block);
  free = free_owned;
  fork = fork_owned;
  token_ids = λ block. block.token_ids;
  block_id = λ block. block.block_id;
}
