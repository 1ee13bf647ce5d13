-- ===== src/EllmBlockManager.antt =====
-- vllm/core/ellm_block_manager.py: `ELLMBlockSpaceManager`, which the scheduler asks for memory, and
-- `AllocStatus` of vllm/core/interfaces.py. The swapping methods stand in the child Swap.
pub mod Swap
pub mod FreeCounts
pub mod Capacity
pub mod Reaches
mod Examples
use e_llm.Prelude.{
  ℕ, zero, suc, ◌+◌, ◌-◌, ◌*◌, ◌%◌, ◌≡◌, Bool, true, false, not, Option, none, some, List, [], ◌∷◌,
  ◌++◌, map, length, ltb, leb, nat_beq, if◌then◌else◌, range, replicate, set, get_or, get_elem?,
  min,
}
use e_llm.Dict.{Dict}
use e_llm.Exec.{
  Exec, Result, ok, err, pure, raise, modify, or_raise, raise_if, guarded, rethrow, ◌>>=◌, ◌>>◌,
  value_error, index_error, not_implemented, out_of_fuel, runtime_error,
}
use e_llm.KvMap.{TokenLayerKvMap, LayerGroupBlockPlan, ceil_div, init}
use e_llm.KvMap.Queries.{get_num_evicted_tokens, get_sequence_length, get_num_free_blocks}
use e_llm.KvMap.Sequences.{
  layer_groups, allocate_sequence, append_token, fork_sequence, sequence_needs_cow, evict_prefix,
  free_sequence,
}
use e_llm.KvMap.Recompute.{get_retained_block_table, build_layer_group_plans}
use e_llm.Sequence.{Sequence, SequenceStatus, get_len}
use e_llm.SequenceGroup.{SequenceGroup, get_seqs}

pub data AllocStatus : Type 0 where
  alloc_ok alloc_later alloc_never : AllocStatus

-- The length, the evicted tokens and the CPU blocks of a sequence that is swapped out.
pub record Swapped : Type 0 where
  pub sequence_length : ℕ
  pub evicted_tokens : ℕ
  pub cpu_tables : List (List ℕ)

pub record EllmBlockSpaceManager : Type 0 where
  pub block_size : ℕ
  pub num_total_gpu_blocks : ℕ
  pub num_total_cpu_blocks : ℕ
  pub num_layers : ℕ
  pub watermark_blocks : ℕ
  pub cache_map : TokenLayerKvMap
  pub free_cpu_blocks : List (List ℕ)
  pub swapped_sequences : Dict ℕ Swapped

-- `watermark_blocks` is int(watermark * num_gpu_blocks), a product of floats that the caller gives.
unfoldable pub new_manager : ℕ → ℕ → ℕ → ℕ → ℕ → ℕ → Bool → Bool → Result EllmBlockSpaceManager
new_manager block_size gpu cpu num_layers layer_group_size watermark_blocks sliding_window
      enable_caching =
    if sliding_window
    then err not_implemented
    else (if enable_caching
        then err not_implemented
        else made (init num_layers block_size gpu layer_group_size))
  where
    made : Result TokenLayerKvMap → Result EllmBlockSpaceManager
    made (err e) = err e
    made (ok cache_map) = ok (record {
      block_size = block_size;
      num_total_gpu_blocks = gpu;
      num_total_cpu_blocks = cpu;
      num_layers = num_layers;
      watermark_blocks = watermark_blocks;
      cache_map = cache_map;
      free_cpu_blocks = replicate cache_map.num_layer_groups (range 0 cpu);
      swapped_sequences = [];
    })

-- A call of a method of `self.cache_map`.
abbrev pub on_map {ℓ} : {A : Type ℓ} → Exec TokenLayerKvMap A → Exec EllmBlockSpaceManager A
on_map call m = let (r, s) = call m.cache_map in (r, record m { cache_map = s })

abbrev pub required_blocks : ℕ → Sequence → ℕ
required_blocks block_size seq = ceil_div (get_len seq) block_size

abbrev pub sum_required : ℕ → List Sequence → ℕ
sum_required block_size [] = 0
sum_required block_size (seq ∷ seqs) = required_blocks block_size seq + sum_required block_size seqs

-- self.cache_map.get_num_free_blocks(group) for group in ...
unfoldable pub free_counts : List ℕ → Exec TokenLayerKvMap (List ℕ)
unfolding get_num_free_blocks
free_counts [] = pure []
free_counts (g ∷ groups) = do n ← get_num_free_blocks g; rest ← free_counts groups; pure (n ∷ rest)

-- min(...), an error where there is nothing.
abbrev pub min_of : List ℕ → Option ℕ
min_of [] = none
min_of (n ∷ ns) = elim (min_of ns) [ none ↦ some n | some m ↦ some (min n m) ]

unfoldable pub get_num_free_gpu_blocks : Exec TokenLayerKvMap ℕ
unfolding free_counts
get_num_free_gpu_blocks s =
    (do counts ← free_counts (layer_groups s); or_raise value_error (min_of counts)) s

abbrev pub alloc_status : ℕ → ℕ → ℕ → AllocStatus
alloc_status required watermark_blocks min_free =
    if leb (required + watermark_blocks) min_free then alloc_ok else alloc_later

unfoldable pub can_allocate : SequenceGroup → Exec EllmBlockSpaceManager AllocStatus
unfolding get_num_free_gpu_blocks
can_allocate group m =
    let required : ℕ = sum_required m.block_size (get_seqs SequenceStatus.waiting group) in
    (if ltb m.num_total_gpu_blocks (required + m.watermark_blocks) then pure alloc_never else (do
      min_free ← on_map get_num_free_gpu_blocks
      pure (alloc_status required m.watermark_blocks min_free)))
      m

-- for seq_id in allocated: self.cache_map.free_sequence(seq_id)
unfoldable pub free_all : List ℕ → Exec TokenLayerKvMap (Unit {0})
free_all [] = pure tt
free_all (seq_id ∷ seq_ids) = do free_sequence seq_id; free_all seq_ids

unfoldable pub allocate_all : List Sequence → List ℕ → Exec TokenLayerKvMap (Unit {0})
unfolding allocate_sequence free_all
allocate_all [] allocated = pure tt
allocate_all (seq ∷ seqs) allocated = do
  guarded (allocate_sequence seq.seq_id (get_len seq)) (free_all allocated)
  allocate_all seqs (allocated ++ seq.seq_id ∷ [])

unfoldable pub allocate : SequenceGroup → Exec EllmBlockSpaceManager (Unit {0})
unfolding allocate_all
allocate group = on_map (allocate_all (get_seqs SequenceStatus.waiting group) [])

-- needs_by_group[group] += 1 where the tail block is shared
unfoldable pub count_cow : ℕ → List ℕ → List ℕ → Exec TokenLayerKvMap (List ℕ)
count_cow seq_id [] needs = pure needs
count_cow seq_id (g ∷ groups) needs = do
  shared ← sequence_needs_cow seq_id g
  count_cow seq_id groups (if shared then set needs g (get_or needs g 0 + 1) else needs)

unfoldable pub append_needs : ℕ → List Sequence → List ℕ → Exec TokenLayerKvMap (List ℕ)
unfolding count_cow get_sequence_length
append_needs block_size [] needs = pure needs
append_needs block_size (seq ∷ seqs) needs = do
  old_length ← get_sequence_length seq.seq_id
  more ←
      (if leb (get_len seq) old_length
        then pure needs
        else (if nat_beq (get_len seq % block_size) 1 then pure (map (λ n. n + 1) needs) else λ s.
            count_cow seq.seq_id (layer_groups s) needs s))
  append_needs block_size seqs more

-- all(free >= need for each group)
abbrev pub all_cover : List ℕ → List ℕ → Bool
all_cover (free ∷ frees) (need ∷ needs) =
    let rest = all_cover frees needs in if leb need free then rest else false
all_cover _ _ = true

unfoldable pub can_append_slots : SequenceGroup → ℕ → Exec EllmBlockSpaceManager Bool
unfolding append_needs free_counts
can_append_slots group num_lookahead_slots m =
    (if not (nat_beq num_lookahead_slots 0)
        then pure false
        else on_map λ s.
          (do
            needs ←
                append_needs m.block_size (get_seqs SequenceStatus.running group)
                  (replicate s.num_layer_groups 0)
            frees ← free_counts (layer_groups s)
            pure (all_cover frees needs))
            s)
      m

-- while get_sequence_length(seq_id) < length: ..., with the rounds bounded by the fuel
unfoldable pub grow : ℕ → ℕ → ℕ → List (ℕ × ℕ × ℕ) → Exec TokenLayerKvMap (List (ℕ × ℕ × ℕ))
unfolding get_sequence_length
grow zero seq_id length copies = do
  n ← get_sequence_length seq_id
  if ltb n length then raise out_of_fuel else pure copies
grow (suc fuel) seq_id length copies =
    let again = grow fuel seq_id length in
    (do
      n ← get_sequence_length seq_id
      if ltb n length then (do new ← append_token seq_id; again (copies ++ new)) else pure copies)

unfoldable pub append_slots : Sequence → ℕ → Exec EllmBlockSpaceManager (List (ℕ × ℕ × ℕ))
unfolding grow
append_slots seq num_lookahead_slots =
    if not (nat_beq num_lookahead_slots 0)
    then raise not_implemented
    else on_map (grow (get_len seq) seq.seq_id (get_len seq) [])

unfoldable pub tables_of : ℕ → List ℕ → Exec TokenLayerKvMap (List (List ℕ))
tables_of seq_id [] = pure []
tables_of seq_id (g ∷ groups) = do
  table ← get_retained_block_table seq_id g
  rest ← tables_of seq_id groups
  pure (table ∷ rest)

unfoldable pub get_layer_group_block_tables : ℕ → Exec TokenLayerKvMap (List (List ℕ))
unfolding tables_of
get_layer_group_block_tables seq_id s = tables_of seq_id (layer_groups s) s

-- The blocks at the front of a sequence that a ratio of cached layers gives up.
abbrev pub evicted_blocks : ℕ → ℕ → ℕ → ℕ
evicted_blocks num_blocks num_layers cached_layers =
    num_blocks - retained (ceil_div (num_blocks * min cached_layers num_layers) num_layers)
  where
    retained : ℕ → ℕ
    retained n = if ltb n 1 then 1 else n

unfoldable pub evict_to_cached_layer_ratio : Sequence → ℕ → Exec EllmBlockSpaceManager ℕ
evict_to_cached_layer_ratio seq cached_layers m =
    on_map
      (evict_prefix seq.seq_id (
        evicted_blocks (ceil_div (get_len seq) m.block_size) m.num_layers cached_layers
        * m.block_size))
      m

unfoldable pub build_partial_recompute_plans :
    List ℕ → Exec EllmBlockSpaceManager (List LayerGroupBlockPlan)
build_partial_recompute_plans seq_ids = on_map (build_layer_group_plans seq_ids)

unfoldable pub get_block_table : Sequence → Exec EllmBlockSpaceManager (List ℕ)
unfolding get_layer_group_block_tables
get_block_table seq = do
  tables ← on_map (get_layer_group_block_tables seq.seq_id)
  or_raise index_error (get_elem? tables 0)

abbrev pub join : List (List ℕ) → List ℕ
join [] = []
join (table ∷ tables) = table ++ join tables

unfoldable pub used_block_ids : List Sequence → Exec TokenLayerKvMap (List ℕ)
unfolding get_layer_group_block_tables
used_block_ids [] = pure []
used_block_ids (seq ∷ seqs) = do
  tables ← get_layer_group_block_tables seq.seq_id
  rest ← used_block_ids seqs
  pure (join tables ++ rest)

unfoldable pub get_seq_used_block_id : SequenceGroup → Exec EllmBlockSpaceManager (List ℕ)
unfolding used_block_ids
get_seq_used_block_id group = on_map (used_block_ids (get_seqs SequenceStatus.running group))

unfoldable pub free : Sequence → Exec EllmBlockSpaceManager (Unit {0})
free seq = on_map (free_sequence seq.seq_id)

unfoldable pub fork : Sequence → Sequence → Exec EllmBlockSpaceManager (Unit {0})
fork parent_seq child_seq = on_map (fork_sequence parent_seq.seq_id child_seq.seq_id)
