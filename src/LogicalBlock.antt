-- ===== src/LogicalBlock.antt =====
-- vllm/block.py: `LogicalTokenBlock`. A slot with the blank token id -1 is `none`.
use e_llm.Prelude.{
  ℕ, ◌+◌, ◌-◌, Bool, Option, none, some, List, ◌++◌, map, length, take, drop, replicate, get_elem?,
  leb, nat_beq, ltb, if◌then◌else◌,
}
use e_llm.Exec.{Result, ok, err, assertion_error, index_error}

pub record LogicalTokenBlock : Type 0 where
  pub block_number : ℕ
  pub block_size : ℕ
  pub token_ids : List (Option ℕ)
  pub num_tokens : ℕ

abbrev pub new_block : ℕ → ℕ → LogicalTokenBlock
new_block block_number block_size = record {
  block_number = block_number;
  block_size = block_size;
  token_ids = replicate block_size none;
  num_tokens = 0;
}

abbrev pub holds_nothing : LogicalTokenBlock → Bool
holds_nothing b = nat_beq b.num_tokens 0

abbrev pub get_num_empty_slots : LogicalTokenBlock → ℕ
get_num_empty_slots b = b.block_size - b.num_tokens

abbrev pub is_full : LogicalTokenBlock → Bool
is_full b = nat_beq b.num_tokens b.block_size

abbrev pub append_tokens : List ℕ → LogicalTokenBlock → Result LogicalTokenBlock
append_tokens token_ids b =
    if leb (length token_ids) (get_num_empty_slots b)
    then ok (record b {
      token_ids =
          take b.num_tokens b.token_ids
          ++ map some token_ids
          ++ drop (b.num_tokens + length token_ids) b.token_ids;
      num_tokens = b.num_tokens + length token_ids;
    })
    else err assertion_error

abbrev pub get_token_ids : LogicalTokenBlock → List (Option ℕ)
get_token_ids b = take b.num_tokens b.token_ids

-- The last token, `none` in a blank slot; an assertion guards an empty block.
abbrev pub get_last_token_id : LogicalTokenBlock → Result (Option ℕ)
get_last_token_id b =
    if ltb 0 b.num_tokens
    then slot (get_elem? b.token_ids (b.num_tokens - 1))
    else err assertion_error
  where
    slot : Option (Option ℕ) → Result (Option ℕ)
    slot none = err index_error
    slot (some t) = ok t
