-- ===== src/SequenceGroup.antt =====
-- vllm/sequence.py: `SequenceGroup`, the sequences of one request, by their ids. Of the
-- sampling parameters and metrics only what scheduling reads is kept; multi-modal data is left out.
pub mod Members
mod Examples
use e_llm.Prelude.{
  ℕ, ◌+◌, ◌≡◌, Bool, true, false, not, ◌&&◌, Option, none, some, List, [], ◌∷◌, map, keep, length,
  nat_eq, ltb, if◌then◌else◌,
}
use e_llm.Dict.{Dict, get, contains, put, remove}
use e_llm.Exec.{
  Exec, Result, ok, err, pure, modify, raise_if, or_raise, ◌>>=◌, ◌>>◌, value_error, index_error,
}
use e_llm.Sequence.{
  Sequence, SequenceData, SequenceStatus, is_finished, get_len, get_num_uncomputed_tokens,
  update_num_computed_tokens, is_prefill_stage,
}

pub record SamplingParams : Type 0 where
  pub use_beam_search : Bool
  pub best_of : ℕ

-- `request_id` is a number for a string; `long_lora_max_len` is that of the LoRA request, 0 for none.
pub record SequenceGroup : Type 0 where
  pub request_id : ℕ
  pub arrival_time : ℕ
  pub lora_int_id : ℕ
  pub long_lora_max_len : ℕ
  pub sampling_params : Option SamplingParams
  pub seqs_dict : Dict ℕ Sequence
  pub cache_layers : ℕ

abbrev pub status_beq : SequenceStatus → SequenceStatus → Bool
status_beq SequenceStatus.waiting SequenceStatus.waiting = true
status_beq SequenceStatus.running SequenceStatus.running = true
status_beq SequenceStatus.swapped SequenceStatus.swapped = true
status_beq SequenceStatus.finished_stopped SequenceStatus.finished_stopped = true
status_beq SequenceStatus.finished_length_capped SequenceStatus.finished_length_capped = true
status_beq SequenceStatus.finished_aborted SequenceStatus.finished_aborted = true
status_beq SequenceStatus.finished_ignored SequenceStatus.finished_ignored = true
status_beq _ _ = false

abbrev pub values : Dict ℕ Sequence → List Sequence
values [] = []
values ((_, s) ∷ d) = s ∷ values d

abbrev pub get_all_seqs : SequenceGroup → List Sequence
get_all_seqs g = values g.seqs_dict

abbrev pub get_seqs : SequenceStatus → SequenceGroup → List Sequence
get_seqs status g = keep (λ s. status_beq s.status status) (values g.seqs_dict)

abbrev pub get_unfinished_seqs : SequenceGroup → List Sequence
get_unfinished_seqs g = keep (λ s. not (is_finished s)) (values g.seqs_dict)

abbrev pub get_finished_seqs : SequenceGroup → List Sequence
get_finished_seqs g = keep is_finished (values g.seqs_dict)

abbrev pub num_seqs : SequenceGroup → ℕ
num_seqs g = length g.seqs_dict

abbrev pub num_unfinished_seqs : SequenceGroup → ℕ
num_unfinished_seqs g = length (get_unfinished_seqs g)

abbrev pub num_finished_seqs : SequenceGroup → ℕ
num_finished_seqs g = length (get_finished_seqs g)

abbrev pub get_max_num_running_seqs : SequenceGroup → ℕ
get_max_num_running_seqs g = limit g.sampling_params
  where
    limit : Option SamplingParams → ℕ
    limit none = num_unfinished_seqs g
    limit (some params) =
        if params.use_beam_search
        then params.best_of
        else (if ltb (num_seqs g) params.best_of then params.best_of else num_unfinished_seqs g)

abbrev pub sum_uncomputed : List Sequence → ℕ
sum_uncomputed [] = 0
sum_uncomputed (s ∷ seqs) =
    (if is_finished s then 0 else get_num_uncomputed_tokens s.seq_data) + sum_uncomputed seqs

abbrev pub group_uncomputed_tokens : SequenceGroup → ℕ
group_uncomputed_tokens g = sum_uncomputed (values g.seqs_dict)

-- The sequences before the one whose assertion fails stay updated.
abbrev pub advance : ℕ → Sequence → Result (Unit {0}) × Sequence
advance n s =
    if is_finished s
    then (ok tt, s)
    else (let (r, d) = update_num_computed_tokens n s.seq_data in (r, record s { seq_data = d }))

unfoldable pub advance_all : ℕ → Dict ℕ Sequence → Result (Unit {0}) × Dict ℕ Sequence
advance_all n [] = (ok tt, [])
advance_all n ((i, s) ∷ d) =
    let (r, s') = advance n s in
    let (r2, d') = advance_all n d in
    elim r [ err e ↦ (err e, (i, s') ∷ d) | ok _ ↦ (r2, (i, s') ∷ d') ]

unfoldable pub update_group : ℕ → Exec SequenceGroup (Unit {0})
unfolding advance_all
update_group n g = let (r, d) = advance_all n g.seqs_dict in (r, record g { seqs_dict = d })

unfoldable pub find : ℕ → SequenceGroup → Result Sequence
find seq_id g = found (get seq_id g.seqs_dict)
  where
    found : Option Sequence → Result Sequence
    found none = err value_error
    found (some s) = ok s

unfoldable pub add_seq : Sequence → Exec SequenceGroup (Unit {0})
add_seq seq g =
    (do
      raise_if (contains seq.seq_id g.seqs_dict) value_error
      modify λ g'. record g' { seqs_dict = put seq.seq_id seq g'.seqs_dict })
      g

unfoldable pub remove_seq : ℕ → Exec SequenceGroup (Unit {0})
remove_seq seq_id g =
    (do
      raise_if (not (contains seq_id g.seqs_dict)) value_error
      modify λ g'. record g' { seqs_dict = remove seq_id g'.seqs_dict })
      g

abbrev pub all_finished : List Sequence → Bool
all_finished [] = true
all_finished (s ∷ seqs) = is_finished s && all_finished seqs

abbrev pub group_finished : SequenceGroup → Bool
group_finished g = all_finished (values g.seqs_dict)

abbrev pub group_prefill : SequenceGroup → Result Bool
group_prefill g = first (values g.seqs_dict)
  where
    first : List Sequence → Result Bool
    first [] = err index_error
    first (s ∷ _) = ok (is_prefill_stage s.seq_data.stage)

abbrev pub sum_len : List Sequence → ℕ
sum_len [] = 0
sum_len (s ∷ seqs) = get_len s + sum_len seqs

abbrev pub group_len : SequenceGroup → ℕ
group_len g = sum_len (values g.seqs_dict)

abbrev pub update_cache_layers : ℕ → SequenceGroup → SequenceGroup
update_cache_layers layers g = record g { cache_layers = layers }
