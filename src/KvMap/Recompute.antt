-- ===== src/KvMap/Recompute.antt =====
-- Recomputation of an evicted prefix: temporary blocks for one layer group at a time, the block
-- tables and slots that the kernels read, and the plans for a batch.
use e_llm.Prelude.{
  ℕ, ◌+◌, ◌-◌, ◌*◌, ◌/◌, ◌%◌, Bool, true, not, ◌&&◌, Option, some, none, List, [], ◌∷◌, ◌++◌, map,
  ltb, leb, ◌==◌, nat_eq, if◌then◌else◌, keep, any, range, length, replicate, set,
}
use e_llm.Dict.{Dict, get}
use e_llm.Dict.Keys.{keys_of}
use e_llm.Exec.{
  Exec, Result, ok, err, pure, raise, or_raise, raise_if, ◌>>=◌, ◌>>◌, runtime_error, value_error,
  key_error, index_error,
}
use e_llm.KvMap.{
  Key, KvMapEntry, TokenLayerKvMap, LayerGroupBlockPlan, retained, transient, key_eq,
  num_logical_blocks,
}
use e_llm.KvMap.Blocks.{pop_and_free_all, read_entry, reserve}
use e_llm.KvMap.Sequences.{row, of_seq, fresh_entry, layer_groups}

abbrev pub of_seq_group : ℕ → ℕ → Key → Bool
of_seq_group seq g key = (key.seq_id == seq) && (key.group == g)

-- list.sort(key=...), which is stable.
insert_by {ℓ} : {A : Type ℓ} → (A → ℕ) → A → List A → List A
insert_by f a [] = a ∷ []
insert_by f a (b ∷ bs) =
    let rest = insert_by f a bs in if leb (f a) (f b) then a ∷ b ∷ bs else b ∷ rest

pub sort_by {ℓ} : {A : Type ℓ} → (A → ℕ) → List A → List A
unfolding insert_by
sort_by f [] = []
sort_by f (a ∷ xs) = insert_by f a (sort_by f xs)

-- The entries of one sequence in one group.
abbrev pub entries_of : ℕ → ℕ → Dict Key KvMapEntry → List KvMapEntry
entries_of seq g [] = []
entries_of seq g ((key, entry) ∷ d) =
    let rest = entries_of seq g d in if of_seq_group seq g key then entry ∷ rest else rest

unfoldable pub get_retained_block_table : ℕ → ℕ → Exec TokenLayerKvMap (List ℕ)
unfolding sort_by
get_retained_block_table seq g s = (
  ok (
      map (λ e. e.physical_block_id)
        (sort_by (λ e. e.logical_block_id) (entries_of seq g s.entries))),
  s,
)

-- table[entry.logical_block_id] = entry.physical_block_id
abbrev pub place : KvMapEntry → List (Option ℕ) → Exec TokenLayerKvMap (List (Option ℕ))
place e slots =
    if ltb e.logical_block_id (length slots)
    then pure (set slots e.logical_block_id (some e.physical_block_id))
    else raise index_error

unfoldable pub place_all :
    List KvMapEntry → List (Option ℕ) → Exec TokenLayerKvMap (List (Option ℕ))
place_all [] slots = pure slots
place_all (e ∷ es) slots = do slots' ← place e slots; place_all es slots'

-- `none` where a slot is empty.
abbrev pub all_some : List (Option ℕ) → Option (List ℕ)
all_some [] = some []
all_some (none ∷ slots) = none
all_some (some b ∷ slots) = elim (all_some slots) [ none ↦ none | some bs ↦ some (b ∷ bs) ]

unfoldable pub get_decode_block_table : ℕ → ℕ → Exec TokenLayerKvMap (List ℕ)
unfolding place_all num_logical_blocks
get_decode_block_table seq g s =
    (do
      n ← or_raise key_error (get seq s.sequence_lengths)
      slots ← place_all (entries_of seq g s.entries) (replicate (num_logical_blocks s n) none)
      slots' ← place_all (entries_of seq g s.temporary_entries) slots
      or_raise runtime_error (all_some slots'))
      s

-- The branch of `begin_recompute` that allocates.
unfoldable pub begin_prefix : ℕ → ℕ → ℕ → Exec TokenLayerKvMap (List ℕ)
unfolding get_decode_block_table
begin_prefix seq g prefix s =
    (do
      raise_if (any (of_seq seq) (keys_of s.temporary_entries)) runtime_error
      reserve transient (fresh_entry s true (λ _. s.block_size)) (row seq g (range 0 prefix)) []
      get_decode_block_table seq g)
      s

unfoldable pub begin_recompute : ℕ → ℕ → Exec TokenLayerKvMap (List ℕ)
unfolding begin_prefix get_retained_block_table
begin_recompute seq g s =
    (do
      raise_if (not (ltb g s.num_layer_groups)) value_error
      prefix ← or_raise key_error (get seq s.evicted_prefix_blocks)
      if prefix == 0 then get_retained_block_table seq g else begin_prefix seq g prefix)
      s

unfoldable pub end_recompute : ℕ → ℕ → Exec TokenLayerKvMap (Unit {0})
end_recompute seq g s =
    pop_and_free_all transient (keep (of_seq_group seq g) (keys_of s.temporary_entries)) s

-- The slots of the blocks that are left of the prefix.
unfoldable pub recompute_slots : ℕ → ℕ → List ℕ → List ℕ → Exec TokenLayerKvMap (List ℕ)
recompute_slots seq g [] slots s = (ok slots, s)
recompute_slots seq g (b ∷ blocks) slots s =
    (do
      entry ←
          or_raise runtime_error
            (get (record { seq_id = seq; block = b; group = g }) s.temporary_entries)
      recompute_slots seq g blocks
          (slots ++ range (entry.physical_block_id * s.block_size) s.block_size))
      s

unfoldable pub get_recompute_slot_mapping : ℕ → ℕ → Exec TokenLayerKvMap (List ℕ)
unfolding recompute_slots
get_recompute_slot_mapping seq g s =
    (do
      prefix ← or_raise key_error (get seq s.evicted_prefix_blocks)
      recompute_slots seq g (range 0 prefix) [])
      s

unfoldable pub get_decode_slot : ℕ → ℕ → Exec TokenLayerKvMap ℕ
unfolding read_entry
get_decode_slot seq g s =
    (do
      n ← or_raise key_error (get seq s.sequence_lengths)
      entry ←
          read_entry retained (record { seq_id = seq; block = (n - 1) / s.block_size; group = g })
      pure (entry.physical_block_id * s.block_size + (n - 1) % s.block_size))
      s

unfoldable pub get_layer_group : TokenLayerKvMap → ℕ → Result ℕ
get_layer_group s layer =
    if ltb layer s.num_layers then ok (layer / s.layer_group_size) else err value_error

-- What follows `begin_recompute` in the loop over the batch.
unfoldable pub slots_of : ℕ → ℕ → Exec TokenLayerKvMap (List ℕ × ℕ)
slots_of seq g = do
  slots ← get_recompute_slot_mapping seq g
  slot ← get_decode_slot seq g
  pure (slots, slot)

abbrev pub add_to_plan : LayerGroupBlockPlan → List ℕ → List ℕ → ℕ → LayerGroupBlockPlan
add_to_plan plan block_table slots slot = record {
  recompute_slot_mapping = plan.recompute_slot_mapping ++ slots;
  decode_slot_mapping = plan.decode_slot_mapping ++ slot ∷ [];
  decode_block_tables = plan.decode_block_tables ++ block_table ∷ [];
}

abbrev pub empty_plan : LayerGroupBlockPlan
empty_plan = record {
  recompute_slot_mapping = [];
  decode_slot_mapping = [];
  decode_block_tables = [];
}

-- The loop over the batch in its `try`: the result, the sequences that are active, the state.
unfoldable pub gather :
    ℕ
    → List ℕ
    → LayerGroupBlockPlan
    → List ℕ
    → TokenLayerKvMap
    → Result LayerGroupBlockPlan × List ℕ × TokenLayerKvMap
gather g [] plan active s = (ok plan, active, s)
gather g (seq ∷ seqs) plan active s =
    let (r, s1) = begin_recompute seq g s in
    elim r [
      | err e ↦ (err e, active, s1)
      | ok block_table ↦
          let (r2, s2) = slots_of seq g s1 in
          elim r2 [
            | err e ↦ (err e, active ++ seq ∷ [], s2)
            | ok found ↦
                gather g seqs (add_to_plan plan block_table found.0 found.1) (active ++ seq ∷ []) s2
          ]
    ]

unfoldable pub release_layer_group_plan : ℕ → List ℕ → Exec TokenLayerKvMap (Unit {0})
release_layer_group_plan g [] = pure tt
release_layer_group_plan g (seq ∷ seqs) = do end_recompute seq g; release_layer_group_plan g seqs

-- What was gathered, or the active sequences released and the exception raised again.
abbrev pub or_release :
    ℕ
    → Result LayerGroupBlockPlan × List ℕ × TokenLayerKvMap
    → Result LayerGroupBlockPlan × TokenLayerKvMap
or_release g (ok plan, active, s) = (ok plan, s)
or_release g (err e, active, s) = (release_layer_group_plan g active >> raise e) s

unfoldable pub acquire_layer_group_plan : List ℕ → ℕ → Exec TokenLayerKvMap LayerGroupBlockPlan
acquire_layer_group_plan seqs g s = or_release g (gather g seqs empty_plan [] s)

-- What was gathered, with the active sequences released in `finally`.
abbrev pub then_release :
    ℕ
    → Result LayerGroupBlockPlan × List ℕ × TokenLayerKvMap
    → Result LayerGroupBlockPlan × TokenLayerKvMap
then_release g (r, active, s) = (release_layer_group_plan g active >> λ s'. (r, s')) s

unfoldable pub plan_group : List ℕ → ℕ → Exec TokenLayerKvMap LayerGroupBlockPlan
plan_group seqs g s = then_release g (gather g seqs empty_plan [] s)

unfoldable pub plan_groups :
    List ℕ → List ℕ → List LayerGroupBlockPlan → Exec TokenLayerKvMap (List LayerGroupBlockPlan)
plan_groups seqs [] plans = pure plans
plan_groups seqs (g ∷ gs) plans = do
  plan ← plan_group seqs g
  plan_groups seqs gs (plans ++ plan ∷ [])

unfoldable pub build_layer_group_plans : List ℕ → Exec TokenLayerKvMap (List LayerGroupBlockPlan)
build_layer_group_plans seqs s = plan_groups seqs (layer_groups s) [] s
