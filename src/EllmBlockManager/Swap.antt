-- ===== src/EllmBlockManager/Swap.antt =====
-- Swapping of `ELLMBlockSpaceManager`: whole sequences go to CPU blocks and come back, one table per
-- layer group.
use e_llm.Prelude.{
  ℕ, suc, ◌+◌, Bool, not, Option, none, some, List, [], ◌∷◌, ◌++◌, length, nat_beq, nat_eq,
  if◌then◌else◌, replicate, set, get_or,
}
use e_llm.Dict.{Dict, get, put, remove}
use e_llm.Exec.{
  Exec, Result, ok, err, pure, raise, modify, or_raise, raise_if, guarded, ◌>>=◌, ◌>>◌, key_error,
  index_error, not_implemented, runtime_error,
}
use e_llm.KvMap.{TokenLayerKvMap}
use e_llm.KvMap.Queries.{get_num_evicted_tokens, get_sequence_length}
use e_llm.KvMap.Sequences.{layer_groups, allocate_sequence_with_evicted_prefix, free_sequence}
use e_llm.Sequence.{Sequence, SequenceStatus}
use e_llm.SequenceGroup.{SequenceGroup, get_seqs}
use e_llm.EllmBlockManager.{
  EllmBlockSpaceManager, Swapped, AllocStatus, alloc_ok, alloc_later, alloc_never, on_map,
  get_layer_group_block_tables, free_counts, free_all, all_cover,
}

-- required_by_group[group] += len(table) for group, table in enumerate(tables)
abbrev pub add_lengths : List ℕ → List (List ℕ) → List ℕ
add_lengths (n ∷ ns) (table ∷ tables) = (n + length table) ∷ add_lengths ns tables
add_lengths ns [] = ns
add_lengths [] tables = []

-- The CPU blocks that the swapped sequences hold, `none` where one is not swapped out.
abbrev pub swapped_needs : List Sequence → Dict ℕ Swapped → List ℕ → Option (List ℕ)
swapped_needs [] swapped needs = some needs
swapped_needs (seq ∷ seqs) swapped needs = elim (get seq.seq_id swapped) [
  | none ↦ none
  | some state ↦ swapped_needs seqs swapped (add_lengths needs state.cpu_tables)
]

abbrev pub swap_in_status : Option (List ℕ) → Exec EllmBlockSpaceManager AllocStatus
swap_in_status none = pure alloc_never
swap_in_status (some needs) = do
  frees ← on_map (λ s. free_counts (layer_groups s) s)
  pure (if all_cover frees needs then alloc_ok else alloc_later)

unfoldable pub can_swap_in : SequenceGroup → ℕ → Exec EllmBlockSpaceManager AllocStatus
unfolding free_counts
can_swap_in group num_lookahead_slots m =
    (if not (nat_beq num_lookahead_slots 0)
        then pure alloc_never
        else swap_in_status (
            swapped_needs (get_seqs SequenceStatus.swapped group) m.swapped_sequences
              (replicate m.cache_map.num_layer_groups 0)))
      m

abbrev pub pair_up : ℕ → List ℕ → List ℕ → List (ℕ × ℕ × ℕ)
pair_up group (cpu_id ∷ cpu_table) (gpu_id ∷ gpu_table) =
    (group, cpu_id, gpu_id) ∷ pair_up group cpu_table gpu_table
pair_up group _ _ = []

-- enumerate(zip(cpu_tables, gpu_tables))
abbrev pub pair_tables : ℕ → List (List ℕ) → List (List ℕ) → List (ℕ × ℕ × ℕ)
pair_tables group (cpu ∷ cpus) (gpu ∷ gpus) =
    pair_up group cpu gpu ++ pair_tables (suc group) cpus gpus
pair_tables group _ _ = []

-- The `try` of `swap_in`: each sequence is allocated again, and its blocks are paired.
unfoldable pub restore_all :
    List Sequence → List ℕ → List (ℕ × ℕ × ℕ) → Exec EllmBlockSpaceManager (List (ℕ × ℕ × ℕ))
unfolding get_layer_group_block_tables
restore_all [] restored mappings = pure mappings
restore_all (seq ∷ seqs) restored mappings = do
  state ←
      guarded (λ m. or_raise key_error (get seq.seq_id m.swapped_sequences) m)
        (on_map (free_all restored))
  guarded
      (on_map (
        allocate_sequence_with_evicted_prefix seq.seq_id state.sequence_length
          state.evicted_tokens))
      (on_map (free_all restored))
  gpu_tables ← on_map (get_layer_group_block_tables seq.seq_id)
  restore_all seqs (restored ++ seq.seq_id ∷ [])
      (mappings ++ pair_tables 0 state.cpu_tables gpu_tables)

-- self._free_cpu_blocks[group].extend(table) for group, table in enumerate(tables)
abbrev pub give_back : List (List ℕ) → List (List ℕ) → List (List ℕ)
give_back (free ∷ frees) (table ∷ tables) = (free ++ table) ∷ give_back frees tables
give_back frees [] = frees
give_back [] tables = []

-- The loop after the `try`.
unfoldable pub forget_all : List Sequence → Exec EllmBlockSpaceManager (Unit {0})
forget_all [] = pure tt
forget_all (seq ∷ seqs) = do
  state ← λ m. or_raise key_error (get seq.seq_id m.swapped_sequences) m
  modify λ m. record m {
    swapped_sequences = remove seq.seq_id m.swapped_sequences;
    free_cpu_blocks = give_back m.free_cpu_blocks state.cpu_tables;
  }
  forget_all seqs

unfoldable pub swap_in : SequenceGroup → ℕ → Exec EllmBlockSpaceManager (List (ℕ × ℕ × ℕ))
unfolding restore_all forget_all
swap_in group num_lookahead_slots =
    if not (nat_beq num_lookahead_slots 0) then raise not_implemented else (do
      mappings ← restore_all (get_seqs SequenceStatus.swapped group) [] []
      forget_all (get_seqs SequenceStatus.swapped group)
      pure mappings)

unfoldable pub running_needs : List Sequence → List ℕ → Exec TokenLayerKvMap (List ℕ)
unfolding get_layer_group_block_tables
running_needs [] needs = pure needs
running_needs (seq ∷ seqs) needs = do
  tables ← get_layer_group_block_tables seq.seq_id
  running_needs seqs (add_lengths needs tables)

abbrev pub lengths : List (List ℕ) → List ℕ
lengths [] = []
lengths (blocks ∷ rest) = length blocks ∷ lengths rest

unfoldable pub can_swap_out : SequenceGroup → Exec EllmBlockSpaceManager Bool
unfolding running_needs
can_swap_out group m =
    (do
      needs ← on_map (
          running_needs (get_seqs SequenceStatus.running group)
            (replicate m.cache_map.num_layer_groups 0))
      pure (all_cover (lengths m.free_cpu_blocks) needs))
      m

-- The manager and the local variables of `swap_out`.
pub record SwapOut : Type 0 where
  pub manager : EllmBlockSpaceManager
  pub allocated : List (ℕ × ℕ)
  pub mappings : List (ℕ × ℕ × ℕ)
  pub states : Dict ℕ Swapped

abbrev pub in_manager {ℓ} : {A : Type ℓ} → Exec TokenLayerKvMap A → Exec SwapOut A
in_manager call t = let (r, m) = on_map call t.manager in (r, record t { manager = m })

-- cpu_id = self._free_cpu_blocks[group].popleft(), and where it is noted
abbrev pub take_block : ℕ → ℕ → List ℕ → Exec SwapOut ℕ
take_block group gpu_id [] t = (err index_error, t)
take_block group gpu_id (cpu_id ∷ left) t = (
  ok cpu_id,
  record t {
    manager = record t.manager { free_cpu_blocks = set t.manager.free_cpu_blocks group left };
    allocated = t.allocated ++ (group, cpu_id) ∷ [];
    mappings = t.mappings ++ (group, gpu_id, cpu_id) ∷ [];
  },
)

unfoldable pub take_table : ℕ → List ℕ → Exec SwapOut (List ℕ)
take_table group [] = pure []
take_table group (gpu_id ∷ gpu_table) = do
  cpu_id ← λ t. take_block group gpu_id (get_or t.manager.free_cpu_blocks group []) t
  rest ← take_table group gpu_table
  pure (cpu_id ∷ rest)

unfoldable pub take_tables : ℕ → List (List ℕ) → Exec SwapOut (List (List ℕ))
unfolding take_table
take_tables group [] = pure []
take_tables group (gpu_table ∷ gpu_tables) = do
  table ← take_table group gpu_table
  rest ← take_tables (suc group) gpu_tables
  pure (table ∷ rest)

unfoldable pub take_all : List Sequence → Exec SwapOut (Unit {0})
unfolding take_tables get_sequence_length get_num_evicted_tokens get_layer_group_block_tables
take_all [] = pure tt
take_all (seq ∷ seqs) = do
  gpu_tables ← in_manager (get_layer_group_block_tables seq.seq_id)
  cpu_tables ← take_tables 0 gpu_tables
  length ← in_manager (get_sequence_length seq.seq_id)
  evicted ← in_manager (get_num_evicted_tokens seq.seq_id)
  modify λ t. record t {
    states =
        put seq.seq_id
          (record { sequence_length = length; evicted_tokens = evicted; cpu_tables = cpu_tables })
          t.states;
  }
  take_all seqs

-- for group, cpu_id in allocated: self._free_cpu_blocks[group].append(cpu_id)
abbrev pub untake : List (ℕ × ℕ) → List (List ℕ) → List (List ℕ)
untake [] frees = frees
untake ((group, cpu_id) ∷ allocated) frees =
    untake allocated (set frees group (get_or frees group [] ++ cpu_id ∷ []))

-- The loop after the `try`.
unfoldable pub release_all : List Sequence → Dict ℕ Swapped → Exec EllmBlockSpaceManager (Unit {0})
release_all [] states = pure tt
release_all (seq ∷ seqs) states = do
  state ← or_raise key_error (get seq.seq_id states)
  modify λ m. record m { swapped_sequences = put seq.seq_id state m.swapped_sequences }
  on_map (free_sequence seq.seq_id)
  release_all seqs states

-- After the `try`: the exception is raised again with the CPU blocks given back, or the sequences go.
abbrev pub after_take :
    List Sequence → Result (Unit {0}) × SwapOut → Result (List (ℕ × ℕ × ℕ)) × EllmBlockSpaceManager
after_take seqs (err e, t) =
    (err e, record t.manager { free_cpu_blocks = untake t.allocated t.manager.free_cpu_blocks })
after_take seqs (ok _, t) = (release_all seqs t.states >> pure t.mappings) t.manager

unfoldable pub swap_out : SequenceGroup → Exec EllmBlockSpaceManager (List (ℕ × ℕ × ℕ))
unfolding can_swap_out take_all release_all
swap_out group = do
  enough ← can_swap_out group
  raise_if (not enough) runtime_error
  λ m. after_take (get_seqs SequenceStatus.running group) (
      take_all (get_seqs SequenceStatus.running group)
        (record { manager = m; allocated = []; mappings = []; states = [] }))
