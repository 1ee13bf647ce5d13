-- ===== src/Sequence/Examples.antt =====
-- A prompt of five tokens in blocks of four, and one more token.
use e_llm.Prelude.{◌≡◌, ◌++◌, List, [], ◌∷◌, map, some, Option, arith}
use e_llm.Exec.{ok}
use e_llm.LogicalBlock.{LogicalTokenBlock}
use e_llm.Sequence.{
  Sequence, SequenceStatus, new_sequence, append_tokens_to_blocks, all_token_ids, new_data,
}
use e_llm.Sequence.Blocks.{IsCoherent, append_tokens_to_blocks-writes, new_sequence-IsCoherent}
use e_llm.Sequence.Writes.{IsLaidOut, contents}

append_tokens_to_blocks-writes_example :
    (blocks' : List LogicalTokenBlock) × (append_tokens_to_blocks 4 (3 ∷ 1 ∷ 4 ∷ 1 ∷ 5 ∷ []) []
      ≡ (ok tt, blocks'))
    × IsLaidOut 4 0 blocks'
    × (contents blocks' ≡ contents [] ++ map some (3 ∷ 1 ∷ 4 ∷ 1 ∷ 5 ∷ []))
append_tokens_to_blocks-writes_example =
    append_tokens_to_blocks-writes 4 (3 ∷ 1 ∷ 4 ∷ 1 ∷ 5 ∷ []) [] (omega arith) tt

new_sequence-IsCoherent_example :
    (s : Sequence) × (new_sequence 7 (3 ∷ 1 ∷ 4 ∷ 1 ∷ 5 ∷ []) 4 ≡ ok s)
    × IsCoherent s
    × (all_token_ids s.seq_data ≡ 3 ∷ 1 ∷ 4 ∷ 1 ∷ 5 ∷ [])
    × (s.status ≡ SequenceStatus.waiting)
new_sequence-IsCoherent_example = new_sequence-IsCoherent 7 4 (3 ∷ 1 ∷ 4 ∷ 1 ∷ 5 ∷ []) (omega arith)

-- Two blocks of four slots, the second with a token.
abbrev two_blocks : List LogicalTokenBlock
two_blocks =
    record {
      block_number = 0;
      block_size = 4;
      token_ids = some 3 ∷ some 1 ∷ some 4 ∷ some 1 ∷ [];
      num_tokens = 4;
    }
    ∷ record {
      block_number = 1;
      block_size = 4;
      token_ids = some 5 ∷ Option.none ∷ Option.none ∷ Option.none ∷ [];
      num_tokens = 1;
    }
    ∷ []

abbrev five : Sequence
five = record {
  seq_id = 7;
  block_size = 4;
  seq_data = new_data (3 ∷ 1 ∷ 4 ∷ 1 ∷ 5 ∷ []);
  logical_token_blocks = two_blocks;
  status = SequenceStatus.running;
}
