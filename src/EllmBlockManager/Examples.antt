-- ===== src/EllmBlockManager/Examples.antt =====
-- A manager of two layer groups with three GPU blocks of four tokens each, and a request of five tokens.
use e_llm.Prelude.{none, ◌≡◌, refl, [], ◌∷◌, nat_eq, arith, ◌*◌, ◌<◌, some, true}
use e_llm.Dict.{get, contains, put}
use e_llm.Exec.{ok}
use e_llm.KvMap.{TokenLayerKvMap, empty, init, table, set_table, num_logical_blocks, num_filled}
use e_llm.KvMap.Queries.{get_num_free_blocks}
use e_llm.KvMap.Blocks.{allocate_block, ref_count, set_ref_count, put_entry, reserve}
use e_llm.KvMap.Sequences.{admissible, allocate_sequence_with_evicted_prefix, is_empty}
use e_llm.KvMap.WellFormed.{IsWellFormed}
use e_llm.KvMap.Steps.{Call, Reachable, after}
use e_llm.KvMap.Guarantees.{Reachable-IsWellFormed}
use e_llm.Sequence.{Sequence, SequenceStatus, new_data, get_len}
use e_llm.SequenceGroup.{SequenceGroup, get_seqs}
use e_llm.EllmBlockManager.{
  EllmBlockSpaceManager, alloc_ok, can_allocate, allocate, append_slots,
  evict_to_cached_layer_ratio, evicted_blocks, required_blocks, free_counts,
  get_num_free_gpu_blocks,
}
use e_llm.EllmBlockManager.Capacity.{can_allocate-allocates, evict_to_cached_layer_ratio-returns}
use e_llm.EllmBlockManager.FreeCounts.{AllNew}
use e_llm.EllmBlockManager.Reaches.{CaughtUp, append_slots-CaughtUp}

abbrev start : TokenLayerKvMap
start = empty (record {
  num_layers = 4;
  block_size = 4;
  num_physical_blocks = 3;
  layer_group_size = 2;
  num_layer_groups = 2;
})

start_made : init 4 4 3 2 ≡ ok start
unfolding init
start_made = refl

abbrev manager_of : TokenLayerKvMap → EllmBlockSpaceManager
manager_of cache_map = record {
  block_size = 4;
  num_total_gpu_blocks = 3;
  num_total_cpu_blocks = 2;
  num_layers = 4;
  watermark_blocks = 1;
  cache_map = cache_map;
  free_cpu_blocks = (0 ∷ 1 ∷ []) ∷ (0 ∷ 1 ∷ []) ∷ [];
  swapped_sequences = [];
}

abbrev five_tokens : Sequence
five_tokens = record {
  seq_id = 7;
  block_size = 4;
  seq_data = new_data (3 ∷ 1 ∷ 4 ∷ 1 ∷ 5 ∷ []);
  logical_token_blocks = [];
  status = SequenceStatus.waiting;
}

abbrev request : SequenceGroup
request = record {
  request_id = 0;
  arrival_time = 0;
  lora_int_id = 0;
  long_lora_max_len = 0;
  sampling_params = none;
  seqs_dict = (7, five_tokens) ∷ [];
  cache_layers = 0;
}

start-IsWellFormed : IsWellFormed start
start-IsWellFormed = Reachable-IsWellFormed 4 4 3 2 start start start_made Reachable.new

new_ids : AllNew (get_seqs SequenceStatus.waiting request) start
unfolding empty contains
new_ids = (refl, omega arith, tt, tt)

answer : can_allocate request (manager_of start) ≡ (ok alloc_ok, manager_of start)
unfolding empty can_allocate get_num_free_gpu_blocks free_counts get_num_free_blocks
answer = refl

same_size : start.block_size ≡ 4
unfolding empty
same_size = refl

can_allocate-allocates_example :
    (m' : EllmBlockSpaceManager) × (allocate request (manager_of start) ≡ (ok tt, m'))
    × IsWellFormed m'.cache_map
can_allocate-allocates_example =
    can_allocate-allocates (manager_of start) request start-IsWellFormed same_size new_ids answer

abbrev loaded : TokenLayerKvMap
loaded = after (Call.allocate 7 5 0) start

loaded-IsWellFormed : IsWellFormed loaded
loaded-IsWellFormed =
    Reachable-IsWellFormed 4 4 3 2 start loaded start_made
      (Reachable.called start (Call.allocate 7 5 0) Reachable.new)

loaded_size : loaded.block_size ≡ 4
unfolding empty get contains put allocate_sequence_with_evicted_prefix admissible num_logical_blocks
    num_filled reserve allocate_block put_entry ref_count set_ref_count table set_table
loaded_size = refl

idle : is_empty loaded.temporary_entries ≡ true
unfolding empty get contains put allocate_sequence_with_evicted_prefix admissible num_logical_blocks
    num_filled reserve allocate_block put_entry ref_count set_ref_count table set_table
idle = refl

seven_known : get 7 loaded.sequence_lengths ≡ some (get_len five_tokens)
unfolding empty get contains put allocate_sequence_with_evicted_prefix admissible num_logical_blocks
    num_filled reserve allocate_block put_entry ref_count set_ref_count table set_table
seven_known = refl

seven_prefix : get 7 loaded.evicted_prefix_blocks ≡ some 0
unfolding empty get contains put allocate_sequence_with_evicted_prefix admissible num_logical_blocks
    num_filled reserve allocate_block put_entry ref_count set_ref_count table set_table
seven_prefix = refl

evict_to_cached_layer_ratio-returns_example :
    (m' : EllmBlockSpaceManager) × (evict_to_cached_layer_ratio five_tokens 2 (manager_of loaded)
      ≡ (ok (evicted_blocks (required_blocks 4 five_tokens) 4 2 * 4), m'))
    × IsWellFormed m'.cache_map
    × (m'.cache_map.evicted_prefix_blocks
        ≡ put 7 (evicted_blocks (required_blocks 4 five_tokens) 4 2) loaded.evicted_prefix_blocks)
    × (evicted_blocks (required_blocks 4 five_tokens) 4 2 < required_blocks 4 five_tokens)
evict_to_cached_layer_ratio-returns_example =
    evict_to_cached_layer_ratio-returns (manager_of loaded) five_tokens 2 0 loaded-IsWellFormed
      loaded_size idle seven_known seven_prefix (omega arith)

-- The request with two more tokens.
abbrev seven_tokens : Sequence
seven_tokens = record five_tokens {
  seq_data = record five_tokens.seq_data { output_token_ids = 9 ∷ 2 ∷ [] };
}

append_slots-CaughtUp_example : CaughtUp 7 7 (
  (append_slots seven_tokens 0 (manager_of loaded)).0,
  (append_slots seven_tokens 0 (manager_of loaded)).1.cache_map,
)
append_slots-CaughtUp_example =
    append_slots-CaughtUp (manager_of loaded) seven_tokens 5 loaded-IsWellFormed seven_known
