-- ===== src/SequenceGroup/Examples.antt =====
-- A group with one sequence, and another that joins it.
use e_llm.Prelude.{ℕ, ◌+◌, ◌≡◌, refl, none, [], ◌∷◌, nat_eq, nat_beq, if◌then◌else◌}
use e_llm.Dict.{contains}
use e_llm.Exec.{ok, err, value_error}
use e_llm.Sequence.{Sequence, SequenceStatus, new_data}
use e_llm.SequenceGroup.{
  SequenceGroup, add_seq, remove_seq, find, num_seqs, num_finished_seqs, num_unfinished_seqs,
  group_finished, get_all_seqs,
}
use e_llm.SequenceGroup.Members.{add_seq-once, in_progress, group_finished-statuses}

abbrev member : ℕ → SequenceStatus → Sequence
member i status = record {
  seq_id = i;
  block_size = 4;
  seq_data = new_data (1 ∷ []);
  logical_token_blocks = [];
  status = status;
}

abbrev single : SequenceGroup
single = record {
  request_id = 0;
  arrival_time = 0;
  lora_int_id = 0;
  long_lora_max_len = 0;
  sampling_params = none;
  seqs_dict = (5, member 5 SequenceStatus.finished_stopped) ∷ [];
  cache_layers = 0;
}

add_seq-once_example :
    (g' : SequenceGroup) × (add_seq (member 6 SequenceStatus.waiting) single ≡ (ok tt, g'))
    × (find 5 g' ≡ (if nat_beq 6 5 then ok (member 6 SequenceStatus.waiting) else find 5 single))
    × (add_seq (member 6 SequenceStatus.running) g' ≡ (err value_error, g'))
    × (remove_seq 6 g' ≡ (ok tt, single))
    × (remove_seq 6 single ≡ (err value_error, single))
    × (find 6 single ≡ err value_error)
unfolding contains
add_seq-once_example =
    add_seq-once single (member 6 SequenceStatus.waiting) (member 6 SequenceStatus.running) 5 refl
      refl

group_finished-statuses_example :
    (num_finished_seqs single + in_progress (get_all_seqs single) ≡ num_seqs single)
    × (num_unfinished_seqs single ≡ in_progress (get_all_seqs single))
    × (group_finished single ≡ nat_beq (in_progress (get_all_seqs single)) 0)
group_finished-statuses_example = group_finished-statuses single
