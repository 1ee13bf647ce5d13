-- ===== src/KvMap/Sequences.antt =====
-- Sequences: allocation, growth by a token with copy-on-write, forks, eviction of a prefix, release.
use e_llm.Prelude.{
  ℕ, ◌+◌, ◌-◌, ◌*◌, ◌/◌, ◌%◌, Bool, true, false, not, Option, some, none, List, [], ◌∷◌, ◌++◌, ltb,
  leb, ◌==◌, nat_eq, if◌then◌else◌, keep, any, range, min,
}
use e_llm.Dict.{Dict, get, put, remove, contains}
use e_llm.Dict.Keys.{keys_of}
use e_llm.Exec.{
  Exec, pure, modify, or_raise, raise_if, guarded, ◌>>=◌, ◌>>◌, runtime_error, value_error,
  key_error,
}
use e_llm.KvMap.{
  Key, KvMapEntry, TokenLayerKvMap, Table, retained, transient, table, key_eq, num_logical_blocks,
  num_filled,
}
use e_llm.KvMap.Blocks.{
  allocate_block, retain_block, free_block, ref_count, put_entry, read_entry, pop_and_free_all,
  reserve,
}

-- The keys of a block in every layer group, in the order of the groups.
abbrev pub column : ℕ → ℕ → List ℕ → List Key
column seq block [] = []
column seq block (g ∷ groups) =
    record { seq_id = seq; block = block; group = g } ∷ column seq block groups

-- The keys of a run of blocks in one group.
abbrev pub row : ℕ → ℕ → List ℕ → List Key
row seq g [] = []
row seq g (b ∷ blocks) = record { seq_id = seq; block = b; group = g } ∷ row seq g blocks

-- for layer_group in groups: for logical_block_id in blocks
abbrev pub by_group : ℕ → List ℕ → List ℕ → List Key
by_group seq [] blocks = []
by_group seq (g ∷ groups) blocks = row seq g blocks ++ by_group seq groups blocks

-- for logical_block_id in blocks: for layer_group in groups
abbrev pub by_block : ℕ → List ℕ → List ℕ → List Key
by_block seq groups [] = []
by_block seq groups (b ∷ blocks) = column seq b groups ++ by_block seq groups blocks

abbrev pub of_seq : ℕ → Key → Bool
of_seq seq key = key.seq_id == seq

abbrev pub fresh_entry : TokenLayerKvMap → Bool → (Key → ℕ) → Key → ℕ → KvMapEntry
fresh_entry s temporary filled key block = record {
  seq_id = key.seq_id;
  token_start = key.block * s.block_size;
  layer_start = key.group * s.layer_group_size;
  logical_block_id = key.block;
  physical_block_id = block;
  num_filled = filled key;
  temporary = temporary;
}

abbrev pub layer_groups : TokenLayerKvMap → List ℕ
layer_groups s = range 0 s.num_layer_groups

abbrev pub set_sequence : ℕ → ℕ → ℕ → TokenLayerKvMap → TokenLayerKvMap
set_sequence seq length prefix s = record s {
  sequence_lengths = put seq length s.sequence_lengths;
  evicted_prefix_blocks = put seq prefix s.evicted_prefix_blocks;
}

-- The checks before the loop.
unfoldable pub admissible : ℕ → ℕ → ℕ → Exec TokenLayerKvMap (Unit {0})
admissible seq num_tokens num_evicted s =
    (do
      raise_if (contains seq s.sequence_lengths) value_error
      raise_if (leb num_tokens 0) value_error
      raise_if (not (num_evicted % s.block_size == 0)) value_error
      raise_if (ltb (num_logical_blocks s num_tokens) (num_evicted / s.block_size)) value_error)
      s

unfoldable pub allocate_sequence_with_evicted_prefix : ℕ → ℕ → ℕ → Exec TokenLayerKvMap (Unit {0})
unfolding admissible num_logical_blocks num_filled
allocate_sequence_with_evicted_prefix seq num_tokens num_evicted s =
    let prefix = num_evicted / s.block_size in
    let blocks = range prefix (num_logical_blocks s num_tokens - prefix) in
    (do
      admissible seq num_tokens num_evicted
      reserve retained (fresh_entry s false (λ key. num_filled s num_tokens key.block))
          (by_group seq (layer_groups s) blocks) []
      modify (set_sequence seq num_tokens prefix))
      s

unfoldable pub allocate_sequence : ℕ → ℕ → Exec TokenLayerKvMap (Unit {0})
unfolding allocate_sequence_with_evicted_prefix
allocate_sequence seq num_tokens = allocate_sequence_with_evicted_prefix seq num_tokens 0

-- for layer_group, physical_block_id in cow_blocks.items(): self._free_block(...)
unfoldable pub release_cow : Dict ℕ ℕ → Exec TokenLayerKvMap (Unit {0})
release_cow [] = pure tt
release_cow ((g, block) ∷ cow) = do free_block g block; release_cow cow

copy_if_shared : ℕ → ℕ → Exec TokenLayerKvMap (Option ℕ)
copy_if_shared g n = if ltb 1 n then (do block ← allocate_block g; pure (some block)) else pure none

-- A new block for the tail block in one group, where it is shared.
unfoldable pub copy_tail : ℕ → ℕ → ℕ → Exec TokenLayerKvMap (Option ℕ)
unfolding copy_if_shared
copy_tail seq block g = do
  entry ← read_entry retained (record { seq_id = seq; block = block; group = g })
  n ← ref_count g entry.physical_block_id
  copy_if_shared g n

abbrev pub add_cow : Dict ℕ ℕ → ℕ → Option ℕ → Dict ℕ ℕ
add_cow cow g none = cow
add_cow cow g (some block) = put g block cow

unfoldable pub collect_cow : ℕ → ℕ → List ℕ → Dict ℕ ℕ → Exec TokenLayerKvMap (Dict ℕ ℕ)
collect_cow seq block [] cow = pure cow
collect_cow seq block (g ∷ groups) cow = do
  new ← guarded (copy_tail seq block g) (release_cow cow)
  collect_cow seq block groups (add_cow cow g new)

-- The tail entry in one group, moved to its copy if there is one; the copy that it asks for.
unfoldable pub move_tail : Key → KvMapEntry → Option ℕ → Exec TokenLayerKvMap (List (ℕ × ℕ × ℕ))
move_tail key entry none = do
  modify (put_entry retained key (record entry { num_filled = entry.num_filled + 1 }))
  pure []
move_tail key entry (some block) = do
  free_block key.group entry.physical_block_id
  modify (
      put_entry retained key
        (record entry { physical_block_id = block; num_filled = entry.num_filled + 1 }))
  pure ((key.group, entry.physical_block_id, block) ∷ [])

unfoldable pub fill_tail :
    ℕ → ℕ → Dict ℕ ℕ → List ℕ → List (ℕ × ℕ × ℕ) → Exec TokenLayerKvMap (List (ℕ × ℕ × ℕ))
fill_tail seq block cow [] copies = pure copies
fill_tail seq block cow (g ∷ groups) copies = do
  let key : Key = record { seq_id = seq; block = block; group = g }
  entry ← read_entry retained key
  new ← move_tail key entry (get g cow)
  fill_tail seq block cow groups (copies ++ new)

-- The branch of a token that starts a block.
unfoldable pub open_block : ℕ → ℕ → Exec TokenLayerKvMap (List (ℕ × ℕ × ℕ))
open_block seq block s =
    (do
      reserve retained (fresh_entry s false (λ _. 1)) (column seq block (layer_groups s)) []
      pure [])
      s

-- The branch of a token that goes into the tail block.
unfoldable pub extend_block : ℕ → ℕ → Exec TokenLayerKvMap (List (ℕ × ℕ × ℕ))
extend_block seq block s =
    (do
      cow ← collect_cow seq block (layer_groups s) []
      fill_tail seq block cow (layer_groups s) [])
      s

unfoldable pub append_token : ℕ → Exec TokenLayerKvMap (List (ℕ × ℕ × ℕ))
unfolding num_logical_blocks open_block extend_block
append_token seq s =
    (do
      old ← or_raise key_error (get seq s.sequence_lengths)
      let block : ℕ = num_logical_blocks s (old + 1) - 1
      copies ←
          (if ltb (num_logical_blocks s old) (num_logical_blocks s (old + 1))
            then open_block seq block
            else extend_block seq block)
      modify (λ s'. record s' { sequence_lengths = put seq (old + 1) s'.sequence_lengths })
      pure copies)
      s

-- for key, entry in parent_entries: ...
unfoldable pub share : ℕ → List (Key × KvMapEntry) → Exec TokenLayerKvMap (Unit {0})
share child [] = pure tt
share child ((key, entry) ∷ items) = do
  retain_block key.group entry.physical_block_id
  modify (put_entry retained (record key { seq_id = child }) (record entry { seq_id = child }))
  share child items

abbrev pub items_of : ℕ → Dict Key KvMapEntry → List (Key × KvMapEntry)
items_of seq d = keep (λ item. of_seq seq (item.0)) d

unfoldable pub fork_sequence : ℕ → ℕ → Exec TokenLayerKvMap (Unit {0})
fork_sequence parent child s =
    (do
      raise_if (contains child s.sequence_lengths) value_error
      raise_if (any (of_seq parent) (keys_of s.temporary_entries)) runtime_error
      share child (items_of parent s.entries)
      length ← or_raise key_error (get parent s.sequence_lengths)
      modify (λ s'. record s' { sequence_lengths = put child length s'.sequence_lengths })
      prefix ← or_raise key_error (get parent s.evicted_prefix_blocks)
      modify
          (λ s'. record s' { evicted_prefix_blocks = put child prefix s'.evicted_prefix_blocks }))
      s

-- get_block_ref_count, and what sequence_needs_cow asks
unfoldable pub sequence_needs_cow : ℕ → ℕ → Exec TokenLayerKvMap Bool
sequence_needs_cow seq g s =
    (do
      num_tokens ← or_raise key_error (get seq s.sequence_lengths)
      if num_tokens % s.block_size == 0 then pure false else do
        entry ←
            read_entry retained
              (record { seq_id = seq; block = (num_tokens - 1) / s.block_size; group = g })
        n ← ref_count g entry.physical_block_id
        pure (ltb 1 n))
      s

abbrev pub is_empty {ℓ} : {A : Type ℓ} → List A → Bool
is_empty [] = true
is_empty (_ ∷ _) = false

unfoldable pub evict_prefix : ℕ → ℕ → Exec TokenLayerKvMap ℕ
evict_prefix seq num_tokens s =
    (do
      raise_if (not (is_empty s.temporary_entries)) runtime_error
      sequence_length ← or_raise key_error (get seq s.sequence_lengths)
      let new : ℕ = min num_tokens sequence_length / s.block_size
      old ← or_raise key_error (get seq s.evicted_prefix_blocks)
      raise_if (ltb new old) value_error
      pop_and_free_all retained (by_block seq (layer_groups s) (range old (new - old)))
      modify (λ s'. record s' { evicted_prefix_blocks = put seq new s'.evicted_prefix_blocks })
      pure (new * s.block_size))
      s

-- One round of the loop over the two dicts of entries.
unfoldable pub free_table : Table → ℕ → Exec TokenLayerKvMap (Unit {0})
unfolding table
free_table t seq s = pop_and_free_all t (keep (of_seq seq) (keys_of (table t s))) s

unfoldable pub free_sequence : ℕ → Exec TokenLayerKvMap (Unit {0})
unfolding free_table
free_sequence seq = do
  free_table retained seq
  free_table transient seq
  modify (λ s. record s {
    sequence_lengths = remove seq s.sequence_lengths;
    evicted_prefix_blocks = remove seq s.evicted_prefix_blocks;
  })
