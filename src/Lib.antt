-- ===== src/Lib.antt =====
-- Verification library for eLLM: the KV-cache bookkeeping of the scheduler (vllm/core).
--
-- The scheduler decides which requests run and asks a block space manager for memory. For eLLM that
-- is ELLMBlockSpaceManager, which keeps one TokenLayerKVMap: for each group of consecutive model
-- layers a pool of physical blocks, and for each sequence, block of tokens and layer group an entry
-- that names a physical block. The map can evict the oldest blocks of a sequence and lend temporary
-- blocks, one layer group at a time, while the evicted prefix is recomputed.
--
-- Shared modules:
--   Prelude, Prelude/Tests, Prelude/Lists: Boolean tests, branching, lists over native numbers.
--   Exec, Exec/Reads: methods that change an object and may raise. An action takes the state and
--     returns a result beside the state after it, so writes made before a raise are kept.
--   Dict and its children: Python's dict as an association list in insertion order.
--
-- vllm/core/ellm_cache.py is modelled by KvMap (the state: TokenLayerKVMap, KVMapEntry,
-- LayerGroupBlockPlan) and its children, which carry the methods under the source's names:
--   KvMap/Blocks: _allocate_block, _retain_block, _free_block, and `reserve` and `pop_and_free_all`,
--     the loops that allocate a block per key and take them back when one fails.
--   KvMap/Sequences: allocate_sequence_with_evicted_prefix, append_token with its copy-on-write,
--     fork_sequence, sequence_needs_cow, evict_prefix, free_sequence.
--   KvMap/Recompute: begin_recompute, end_recompute, the block tables and slot mappings,
--     acquire_layer_group_plan, release_layer_group_plan, build_layer_group_plans.
--   KvMap/Accounts and its children: what a balanced pool is, and what each loop does to the books.
--   KvMap/WellFormed and its children: the invariant and its preservation, one file per operation.
--   KvMap/Steps: the map as a transition system. KvMap/Guarantees: what callers rely on.
--   KvMap/KeyLists: the keys that the loops run over. KvMap/Examples: runs at concrete inputs.
-- Nested loops over layer groups and blocks run over the list of their keys, in the loops' order
-- (`by_group`, `by_block`, `row`, `column`). `Table` tells _entries from _temporary_entries, for the
-- loops that run over both.
--
-- vllm/core/ellm_block_manager.py is modelled by EllmBlockManager (the state and the methods of
-- ELLMBlockSpaceManager, which call the map through `on_map`) and EllmBlockManager/Swap (swap_in,
-- swap_out and their tests). FreeCounts and Capacity, and Reaches hold the proofs, Examples the
-- runs. The loop of append_slots takes fuel, get_len rounds: a round adds a token, so the
-- map's length, from 0 at least, has reached get_len by then.
-- int(watermark * num_gpu_blocks) is an argument of the constructor.
-- KvMap/Queries holds the getters of the map that the manager reads. AllocStatus is that of
-- vllm/core/interfaces.py.
--
-- vllm/core/evictor_v2.py is modelled by LruEvictor: the free table, evict, add, update, remove.
-- SchedulingBudget of vllm/core/scheduler.py is modelled by SchedulingBudget, whose integer counters
-- are kept as what was added and what was subtracted.
-- LogicalTokenBlock of vllm/block.py is modelled by LogicalBlock; SequenceStatus, SequenceData and
-- Sequence of vllm/sequence.py by Sequence, and SequenceGroup by SequenceGroup. The loop of
-- _append_tokens_to_blocks takes the number of tokens as fuel: each round writes one at least. The
-- proofs stand in Sequence/Writes and Sequence/Blocks, and in SequenceGroup/Members.
--
-- RefCounter and CopyOnWriteTracker of vllm/core/block/common.py and NaiveBlockAllocator and NaiveBlock
-- of vllm/core/block/naive_block.py are modelled by NaiveAllocator. A block's predecessors are its
-- chain; the set of free ids is a list, and a parameter says where the iteration over it starts. The
-- proofs stand in NaiveAllocator/Balance, NaiveAllocator/Books and NaiveAllocator/Blocks.
-- vllm/core/ellm_policy.py is modelled by EllmPolicy; the throughput of a batch and its order, which
-- are floats, are parameters.
-- vllm/core/scheduler.py is modelled by Scheduler: its state, the block manager's methods that it calls
-- (BlockSpaceManager of vllm/core/interfaces.py, as a record of operations), the configuration, and its
-- children:
--   Scheduler/Policies: the policies of vllm/core/policy.py and sorting by them.
--   Scheduler/Groups: _preempt and its two modes, _swap_in, _swap_out, _append_slots,
--     _allocate_and_set_running, for one sequence group. Scheduler/Admission: the tests for LoRA and budget.
--   Scheduler/Running, Scheduler/Prefills, Scheduler/Swapped: _schedule_running, _schedule_prefills and
--     _schedule_swapped, their local variables as records.
--   Scheduler/Default: _schedule_default, _schedule_chunked_prefill and _schedule, made of the passes;
--     Scheduler/Outputs: what they return and write back, from the outputs of the passes.
--   Scheduler/Queues: add_seq_group, abort_seq_group, free_finished_seq_groups.
--   Scheduler/Laws: what the proofs ask of a block manager, that its methods end. Running/{Tallies,Rooms,
--     Conserved,Priority,Evictions,Victims}, Prefills/{Moves,Fairness}, Swapped/{Moves,Fairness},
--     Default/{Balance,Chunked} and Queues/Aborts hold the proofs; Scheduler/Examples runs the scheduler
--     over the block manager of Scheduler/Counting.
-- A `Turn` is the scheduler during a call of _schedule, with the budget and the LoRA ids. A pass works on
-- copies of the groups: after an exception the queues hold the groups as they were when the call began,
-- where the source has changed some of them in place; no theorem speaks of that state. Each loop takes
-- the length of its queue and one more as fuel, since a round takes a group off the queue or ends it. The
-- readings of time.time() and the draws of random.uniform are functions of how many were made; times are
-- natural numbers, and the delay and weight factors fractions. A chunk that would be negative, when the
-- budget is already exceeded, stops the model with an error of its own. Exec/Outcomes has the rules for
-- what holds when a call returns and when it raises.
-- Not modelled of the scheduler: the choice of batch size and cache layers by scipy
-- (get_opt_bs_and_layers), the order of the scheduled groups by LoRA id (_sort_by_lora_ids), the metadata
-- that schedule() builds from the groups, logging.
-- vllm/core/block/block_table.py is modelled by BlockTable, over a block allocator that is a record of
-- operations (BlockAllocator of vllm/core/block/interfaces.py, with the methods of a block); a block is a
-- value, and the blocks that it follows are a list. chunk_list and cdiv are those of vllm/utils.py.
-- BlockTable/Contents states the contract of the allocator (KeepsTokens, for allocated blocks in good
-- states of the allocator) and how full slots lie in the blocks (Fills); BlockTable/Traces has the
-- specification of a table through its life, a list of tokens; Chunks, Allocates, Appends, Tables and
-- Touched hold the proofs, BlockTable/Examples the runs.
-- When a method of a block raises in the midst of append_token_ids, the blocks written before it keep
-- their new tokens in the source; the model's table has them as before, and no theorem speaks of them.
-- vllm/core/block/cpu_gpu_block_allocator.py is modelled by DeviceAllocator, over two naive allocators; a
-- block's own allocator is the one that has its id. DeviceAllocator/Contract shows that it keeps the
-- contract of the block table, by the theorems on single blocks of NaiveAllocator/Blocks.
-- Numbers are natural numbers: ids, lengths and counts of the source are never negative where the
-- modelled code is called, and the guards against negative arguments are left out with them.
-- math.ceil(a / b) is the exact ceiling (`ceil_div`); the source divides floats, which agree with it
-- below 2^53. All loops of the map are bounded by lists, so no fuel is needed there.
--
-- Not modelled: the context manager lease_layer_group_plan (acquire and release in a try/finally),
-- get_map_entries (a sorted dump for debugging), logging and error texts.
pub mod BlockTable
pub mod DeviceAllocator
pub mod Dict
pub mod EllmBlockManager
pub mod EllmPolicy
pub mod Exec
pub mod KvMap
pub mod LogicalBlock
pub mod LruEvictor
pub mod NaiveAllocator
pub mod Prelude
pub mod Scheduler
pub mod SchedulingBudget
pub mod Sequence
pub mod SequenceGroup
