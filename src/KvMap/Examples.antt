-- ===== src/KvMap/Examples.antt =====
-- Runs of a map of two layer groups of two layers each and three blocks of four tokens per group.
use e_llm.Prelude.{
  ℕ, ◌-◌, ◌≡◌, refl, ◌≤◌, ◌<◌, ◌↔◌, [], ◌∷◌, nat_eq, length, some, true, false, arith,
}
use e_llm.Exec.{ok, err, runtime_error}
use e_llm.Dict.{get, contains, put}
use e_llm.KvMap.{
  Key, KvMapEntry, TokenLayerKvMap, key_eq, ceil_div, empty, init, table, set_table,
  num_logical_blocks, num_filled,
}
use e_llm.KvMap.Blocks.{
  allocate_block, ref_count, set_ref_count, retain_block, free_block, put_entry, read_entry,
  reserve,
}
use e_llm.KvMap.Sequences.{
  admissible, allocate_sequence_with_evicted_prefix, append_token, fork_sequence, evict_prefix,
  share, open_block, extend_block, collect_cow, copy_tail, fill_tail, move_tail, release_cow,
  is_empty,
}
use e_llm.KvMap.Recompute.{release_layer_group_plan}
use e_llm.KvMap.Accounts.{ref_at, free_at}
use e_llm.KvMap.WellFormed.{IsWellFormed}
use e_llm.KvMap.WellFormed.Allocation.{Admissible, missing, Allocated}
use e_llm.KvMap.WellFormed.TailCopies.{tail_key}
use e_llm.KvMap.WellFormed.Eviction.{Evicted}
use e_llm.KvMap.Steps.{Call, Reachable, after}
use e_llm.KvMap.Guarantees.{
  Reachable-IsWellFormed, allocate-succeeds_iff_free, allocate-all_or_nothing, append-Exclusive,
  append-undone, fork-shares_blocks, evict_prefix-returns, release_layer_group_plan-returns,
}

abbrev start : TokenLayerKvMap
start = empty (record {
  num_layers = 4;
  block_size = 4;
  num_physical_blocks = 3;
  layer_group_size = 2;
  num_layer_groups = 2;
})

start_made : init 4 4 3 2 ≡ ok start
unfolding init
start_made = refl

-- A sequence of five tokens, and a fork of it.
abbrev loaded : TokenLayerKvMap
loaded = after (Call.allocate 7 5 0) start

abbrev forked : TokenLayerKvMap
forked = after (Call.fork 7 8) loaded

loaded-Reachable : Reachable start loaded
loaded-Reachable = Reachable.called start (Call.allocate 7 5 0) Reachable.new

forked-Reachable : Reachable start forked
forked-Reachable = Reachable.called loaded (Call.fork 7 8) loaded-Reachable

start-IsWellFormed : IsWellFormed start
start-IsWellFormed = Reachable-IsWellFormed 4 4 3 2 start start start_made Reachable.new

loaded-IsWellFormed : IsWellFormed loaded
loaded-IsWellFormed = Reachable-IsWellFormed 4 4 3 2 start loaded start_made loaded-Reachable

forked-IsWellFormed : IsWellFormed forked
forked-IsWellFormed = Reachable-IsWellFormed 4 4 3 2 start forked start_made forked-Reachable

Reachable-IsWellFormed_example : IsWellFormed forked
Reachable-IsWellFormed_example =
    Reachable-IsWellFormed 4 4 3 2 start forked start_made forked-Reachable

admits : Admissible start 7 5 0
unfolding empty contains
admits = (refl, omega arith, refl, omega arith)

allocate-succeeds_iff_free_example :
    ((s' : TokenLayerKvMap) × (allocate_sequence_with_evicted_prefix 7 5 0 start ≡ (ok tt, s')))
    ↔ ((g : ℕ) → g < 2 → missing start 5 0 ≤ length (free_at start g))
unfolding empty
allocate-succeeds_iff_free_example =
    allocate-succeeds_iff_free start 7 5 0 start-IsWellFormed admits

allocate-all_or_nothing_example : Allocated start 7 5 0
allocate-all_or_nothing_example = allocate-all_or_nothing start 7 5 0 start-IsWellFormed admits

-- The fork has the tail block shared, so the next token of sequence 8 moves to block 2.
abbrev grown : TokenLayerKvMap
grown = after (Call.append 8) forked

eight_known : get 8 forked.sequence_lengths ≡ some 5
unfolding empty get contains put allocate_sequence_with_evicted_prefix admissible num_logical_blocks
    num_filled reserve allocate_block put_entry ref_count set_ref_count table set_table
    fork_sequence share retain_block
eight_known = refl

moves_tail : append_token 8 forked ≡ (ok ((0, 1, 2) ∷ (1, 1, 2) ∷ []), grown)
unfolding empty get contains put allocate_sequence_with_evicted_prefix admissible num_logical_blocks
    num_filled reserve allocate_block put_entry ref_count set_ref_count table set_table
    fork_sequence share retain_block append_token open_block extend_block collect_cow copy_tail
    fill_tail move_tail free_block read_entry
moves_tail = refl

in_groups : 1 < grown.num_layer_groups
unfolding empty get contains put allocate_sequence_with_evicted_prefix admissible num_logical_blocks
    num_filled reserve allocate_block put_entry ref_count set_ref_count table set_table
    fork_sequence share retain_block append_token open_block extend_block collect_cow copy_tail
    fill_tail move_tail free_block read_entry
in_groups = omega arith

append-Exclusive_example :
    (grown.sequence_lengths ≡ put 8 6 forked.sequence_lengths)
    × ((e : KvMapEntry) × (get (tail_key 8 (ceil_div 6 forked.block_size - 1) 1) grown.entries
          ≡ some e)
        × (ref_at grown 1 e.physical_block_id ≡ 1))
append-Exclusive_example =
    append-Exclusive forked grown 8 5 1 ((0, 1, 2) ∷ (1, 1, 2) ∷ []) forked-IsWellFormed eight_known
      moves_tail in_groups

-- A full map: sequence 9 takes the last block of each group, and sequence 8 has a shared tail.
abbrev full : TokenLayerKvMap
full = after (Call.allocate 9 4 0) forked

full-IsWellFormed : IsWellFormed full
full-IsWellFormed =
    Reachable-IsWellFormed 4 4 3 2 start full start_made
      (Reachable.called forked (Call.allocate 9 4 0) forked-Reachable)

eight_in_full : get 8 full.sequence_lengths ≡ some 5
unfolding empty get contains put allocate_sequence_with_evicted_prefix admissible num_logical_blocks
    num_filled reserve allocate_block put_entry ref_count set_ref_count table set_table
    fork_sequence share retain_block
eight_in_full = refl

abbrev undone : TokenLayerKvMap
undone = after (Call.append 8) full

no_room : append_token 8 full ≡ (err runtime_error, undone)
unfolding empty get contains put allocate_sequence_with_evicted_prefix admissible num_logical_blocks
    num_filled reserve allocate_block put_entry ref_count set_ref_count table set_table
    fork_sequence share retain_block append_token open_block extend_block collect_cow copy_tail
    free_block read_entry release_cow
no_room = refl

append-undone_example :
    IsWellFormed undone
    × (undone.entries ≡ full.entries)
    × (undone.sequence_lengths ≡ full.sequence_lengths)
    × (undone.evicted_prefix_blocks ≡ full.evicted_prefix_blocks)
append-undone_example =
    append-undone full undone 8 5 runtime_error full-IsWellFormed eight_in_full no_room

-- The first block of each sequence in group 1.
abbrev of_seven : Key
of_seven = record { seq_id = 7; block = 0; group = 1 }

abbrev of_eight : Key
of_eight = record { seq_id = 8; block = 0; group = 1 }

abbrev first : ℕ → KvMapEntry
first seq = record {
  seq_id = seq;
  token_start = 0;
  layer_start = 2;
  logical_block_id = 0;
  physical_block_id = 0;
  num_filled = 4;
  temporary = false;
}

seven_there : get of_seven forked.entries ≡ some (first 7)
unfolding empty get contains put allocate_sequence_with_evicted_prefix admissible num_logical_blocks
    num_filled reserve allocate_block put_entry ref_count set_ref_count table set_table
    fork_sequence share retain_block
seven_there = refl

eight_there : get of_eight forked.entries ≡ some (first 8)
unfolding empty get contains put allocate_sequence_with_evicted_prefix admissible num_logical_blocks
    num_filled reserve allocate_block put_entry ref_count set_ref_count table set_table
    fork_sequence share retain_block
eight_there = refl

seven_loaded : get of_seven loaded.entries ≡ some (first 7)
unfolding empty get contains put allocate_sequence_with_evicted_prefix admissible num_logical_blocks
    num_filled reserve allocate_block put_entry ref_count set_ref_count table set_table
seven_loaded = refl

forks : fork_sequence 7 8 loaded ≡ (ok tt, forked)
unfolding empty get contains put allocate_sequence_with_evicted_prefix admissible num_logical_blocks
    num_filled reserve allocate_block put_entry ref_count set_ref_count table set_table
    fork_sequence share retain_block
forks = refl

fork-shares_blocks_example :
    (get 8 forked.sequence_lengths ≡ get 7 loaded.sequence_lengths)
    × (get of_seven forked.entries ≡ some (first 7))
    × (get of_eight forked.entries ≡ some (first 8))
fork-shares_blocks_example =
    fork-shares_blocks loaded forked 7 8 of_seven (first 7) loaded-IsWellFormed forks seven_loaded
      refl

idle : is_empty loaded.temporary_entries ≡ true
unfolding empty get contains put allocate_sequence_with_evicted_prefix admissible num_logical_blocks
    num_filled reserve allocate_block put_entry ref_count set_ref_count table set_table
idle = refl

seven_known : get 7 loaded.sequence_lengths ≡ some 5
unfolding empty get contains put allocate_sequence_with_evicted_prefix admissible num_logical_blocks
    num_filled reserve allocate_block put_entry ref_count set_ref_count table set_table
seven_known = refl

seven_prefix : get 7 loaded.evicted_prefix_blocks ≡ some 0
unfolding empty get contains put allocate_sequence_with_evicted_prefix admissible num_logical_blocks
    num_filled reserve allocate_block put_entry ref_count set_ref_count table set_table
seven_prefix = refl

evict_prefix-returns_example : Evicted loaded 7 5 4 (evict_prefix 7 4 loaded)
evict_prefix-returns_example =
    evict_prefix-returns loaded 7 5 0 4 loaded-IsWellFormed idle seven_known seven_prefix
      (omega arith)

release_layer_group_plan-returns_example :
    (s' : TokenLayerKvMap) × (release_layer_group_plan 1 (7 ∷ 8 ∷ []) forked ≡ (ok tt, s'))
    × IsWellFormed s'
    × (s'.entries ≡ forked.entries)
    × (s'.sequence_lengths ≡ forked.sequence_lengths)
release_layer_group_plan-returns_example =
    release_layer_group_plan-returns forked 1 (7 ∷ 8 ∷ []) forked-IsWellFormed
