-- ===== src/Sequence.antt =====
-- vllm/sequence.py: the status, the data and the logical blocks of a sequence. Log-probabilities
-- are left out, but for which tokens have one; so are text and LoRA fields.
pub mod Writes
pub mod Blocks
mod Examples
use e_llm.Prelude.{
  ℕ, zero, suc, ◌+◌, ◌-◌, ◌≡◌, Bool, true, false, not, Option, none, some, List, [], ◌∷◌, ◌++◌,
  length, take, drop, any, ltb, leb, nat_beq, nat_eq, if◌then◌else◌,
}
use e_llm.Exec.{
  Exec, Result, ok, err, pure, raise, raise_if, or_raise, modify, ◌>>=◌, ◌>>◌, assertion_error,
  index_error, out_of_fuel,
}
use e_llm.LogicalBlock.{LogicalTokenBlock, new_block, get_num_empty_slots, is_full, append_tokens}

pub data SequenceStatus : Type 0 where
  waiting running swapped finished_stopped finished_length_capped finished_aborted
        finished_ignored :
      SequenceStatus

abbrev pub is_finished_status : SequenceStatus → Bool
is_finished_status SequenceStatus.finished_stopped = true
is_finished_status SequenceStatus.finished_length_capped = true
is_finished_status SequenceStatus.finished_aborted = true
is_finished_status SequenceStatus.finished_ignored = true
is_finished_status _ = false

pub data FinishReason : Type 0 where
  stop length_limit abort : FinishReason

abbrev pub get_finished_reason : SequenceStatus → Option FinishReason
get_finished_reason SequenceStatus.finished_stopped = some FinishReason.stop
get_finished_reason SequenceStatus.finished_length_capped = some FinishReason.length_limit
get_finished_reason SequenceStatus.finished_aborted = some FinishReason.abort
get_finished_reason SequenceStatus.finished_ignored = some FinishReason.length_limit
get_finished_reason _ = none

pub data SequenceStage : Type 0 where
  prefill decode : SequenceStage

pub record SequenceData : Type 0 where
  pub prompt_token_ids : List ℕ
  pub output_token_ids : List ℕ
  pub num_computed_tokens : ℕ
  pub stage : SequenceStage

abbrev pub new_data : List ℕ → SequenceData
new_data prompt = record {
  prompt_token_ids = prompt;
  output_token_ids = [];
  num_computed_tokens = 0;
  stage = SequenceStage.prefill;
}

abbrev pub data_len : SequenceData → ℕ
data_len d = length d.output_token_ids + length d.prompt_token_ids

abbrev pub all_token_ids : SequenceData → List ℕ
all_token_ids d = d.prompt_token_ids ++ d.output_token_ids

abbrev pub get_prefix_token_ids : ℕ → SequenceData → List ℕ × Option (List ℕ)
get_prefix_token_ids num_tokens d =
    if ltb (length d.prompt_token_ids) num_tokens
    then (
      d.prompt_token_ids,
      some (take (num_tokens - length d.prompt_token_ids) d.output_token_ids),
    )
    else (take num_tokens d.prompt_token_ids, none)

abbrev pub get_num_uncomputed_tokens : SequenceData → ℕ
get_num_uncomputed_tokens d = data_len d - d.num_computed_tokens

-- The count is raised before the assertion is made.
unfoldable pub update_num_computed_tokens : ℕ → Exec SequenceData (Unit {0})
update_num_computed_tokens n = do
  modify λ d. record d { num_computed_tokens = d.num_computed_tokens + n }
  λ d. raise_if (ltb (data_len d) d.num_computed_tokens) assertion_error d
  modify λ d. record d {
    stage = if nat_beq (get_num_uncomputed_tokens d) 0 then SequenceStage.decode else d.stage;
  }

abbrev pub reset_data : SequenceData → SequenceData
reset_data d = record d { num_computed_tokens = 0; stage = SequenceStage.prefill }

pub record Sequence : Type 0 where
  pub seq_id : ℕ
  pub block_size : ℕ
  pub seq_data : SequenceData
  pub logical_token_blocks : List LogicalTokenBlock
  pub status : SequenceStatus

-- list[-1]
abbrev pub last_of {ℓ} : {A : Type ℓ} → List A → Option A
last_of [] = none
last_of (x ∷ []) = some x
last_of (x ∷ y ∷ xs) = last_of (y ∷ xs)

-- A change to list[-1]
abbrev pub set_last {ℓ} : {A : Type ℓ} → A → List A → List A
set_last a [] = []
set_last a (x ∷ []) = a ∷ []
set_last a (x ∷ y ∷ xs) = x ∷ set_last a (y ∷ xs)

abbrev pub append_logical_block : ℕ → List LogicalTokenBlock → List LogicalTokenBlock
append_logical_block block_size blocks = blocks ++ new_block (length blocks) block_size ∷ []

abbrev pub when_full :
    ℕ → Option LogicalTokenBlock → List LogicalTokenBlock → List LogicalTokenBlock
when_full block_size none blocks = blocks
when_full block_size (some last) blocks =
    if is_full last then append_logical_block block_size blocks else blocks

-- The blocks with room in the last one.
abbrev pub with_room : ℕ → List LogicalTokenBlock → List LogicalTokenBlock
with_room block_size [] =
    when_full block_size (some (new_block 0 block_size)) (append_logical_block block_size [])
with_room block_size (b ∷ blocks) = when_full block_size (last_of (b ∷ blocks)) (b ∷ blocks)

-- The loop; the fuel bounds its rounds.
unfoldable pub pour : ℕ → ℕ → List ℕ → ℕ → Exec (List LogicalTokenBlock) (Unit {0})
pour zero block_size token_ids cursor =
    if ltb cursor (length token_ids) then raise out_of_fuel else pure tt
pour (suc fuel) block_size token_ids cursor =
    let again = pour fuel block_size token_ids in
    if ltb cursor (length token_ids)
    then (do
      modify (with_room block_size)
      last_block ← λ blocks. or_raise index_error (last_of blocks) blocks
      written ← λ blocks. (
        append_tokens (take (get_num_empty_slots last_block) (drop cursor token_ids)) last_block,
        blocks,
      )
      modify (set_last written)
      again (cursor + get_num_empty_slots last_block))
    else pure tt

-- A round writes a token at least, where blocks have room for one.
unfoldable pub append_tokens_to_blocks : ℕ → List ℕ → Exec (List LogicalTokenBlock) (Unit {0})
unfolding pour
append_tokens_to_blocks block_size token_ids = pour (length token_ids) block_size token_ids 0

unfoldable pub new_sequence : ℕ → List ℕ → ℕ → Result Sequence
unfolding append_tokens_to_blocks
new_sequence seq_id prompt block_size = made (append_tokens_to_blocks block_size prompt [])
  where
    made : Result (Unit {0}) × List LogicalTokenBlock → Result Sequence
    made (err e, blocks) = err e
    made (ok _, blocks) = ok (record {
      seq_id = seq_id;
      block_size = block_size;
      seq_data = new_data prompt;
      logical_token_blocks = blocks;
      status = SequenceStatus.waiting;
    })

-- `logprobs` holds the token ids that have a log-probability.
unfoldable pub append_token_id : ℕ → List ℕ → Exec Sequence (Unit {0})
unfolding append_tokens_to_blocks
append_token_id token_id logprobs s =
    (do
      raise_if (not (any (nat_beq token_id) logprobs)) assertion_error
      λ s'.
          let (r, blocks) =
            append_tokens_to_blocks s'.block_size (token_id ∷ []) s'.logical_token_blocks in
          (r, record s' { logical_token_blocks = blocks })
      modify λ s'. record s' {
        seq_data = record s'.seq_data {
          output_token_ids = s'.seq_data.output_token_ids ++ token_id ∷ [];
        };
      })
      s

abbrev pub get_len : Sequence → ℕ
get_len s = data_len s.seq_data

abbrev pub is_finished : Sequence → Bool
is_finished s = is_finished_status s.status

abbrev pub fork : ℕ → Sequence → Sequence
fork new_seq_id s = record s { seq_id = new_seq_id }

abbrev pub get_num_new_tokens : Sequence → ℕ
get_num_new_tokens s = in_stage s.seq_data.stage
  where
    in_stage : SequenceStage → ℕ
    in_stage SequenceStage.decode = 1
    in_stage SequenceStage.prefill = get_num_uncomputed_tokens s.seq_data

abbrev pub is_prefill_stage : SequenceStage → Bool
is_prefill_stage SequenceStage.prefill = true
is_prefill_stage SequenceStage.decode = false

abbrev pub reset_state_for_recompute : Sequence → Sequence
reset_state_for_recompute s = record s { seq_data = reset_data s.seq_data }
