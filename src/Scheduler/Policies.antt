-- ===== src/Scheduler/Policies.antt =====
-- vllm/core/policy.py: the priorities of requests, and sorting by them.
pub mod Counts
pub mod Arrival
use e_llm.Prelude.{
  ℕ, ◌+◌, ◌-◌, ◌*◌, Bool, Option, none, some, List, [], ◌∷◌, length, leb, if◌then◌else◌,
}
use e_llm.Exec.{Exec, Result, ok, err, index_error, key_error}
use e_llm.SchedulingBudget.{Counter}
use e_llm.Sequence.{Sequence}
use e_llm.SequenceGroup.{SequenceGroup, get_all_seqs}
use e_llm.Scheduler.{PolicyName, fcfs_name, dllm_name, other_policy}

-- A priority may be negative: it is kept as a difference. p ≤ q
abbrev pub at_most : Counter → Counter → Bool
at_most p q = leb (p.added + q.subtracted) (q.added + p.subtracted)

abbrev pub fcfs_priority : ℕ → SequenceGroup → Counter
fcfs_priority now group = record { added = now; subtracted = group.arrival_time }

-- The priority times the square of the weight's denominator: (now - arrival) * (d - w) multiplied
-- out, where the weight may be above 1.
abbrev pub dllm_scaled : ℕ × ℕ → ℕ → ℕ → ℕ → Counter
dllm_scaled (w, d) now arrival prompt_length = record {
  added = w * (now * d + arrival * w) * prompt_length;
  subtracted = w * (arrival * d + now * w) * prompt_length;
}

abbrev pub first_prompt : List Sequence → Result ℕ
first_prompt [] = err index_error
first_prompt (seq ∷ _) = ok (length seq.seq_data.prompt_token_ids)

abbrev pub get_priority : PolicyName → ℕ × ℕ → ℕ → SequenceGroup → Result Counter
get_priority fcfs_name weight now group = ok (fcfs_priority now group)
get_priority dllm_name weight now group = elim (first_prompt (get_all_seqs group)) [
  | ok n ↦ ok (dllm_scaled weight now group.arrival_time n)
  | err e ↦ err e
]
-- A name that the registry does not have.
get_priority other_policy weight now group = err key_error

-- The new group came before all of the list's: it goes before those whose priority is no larger.
abbrev pub insert_priority :
    Counter × SequenceGroup → List (Counter × SequenceGroup) → List (Counter × SequenceGroup)
insert_priority (p, group) [] = (p, group) ∷ []
insert_priority (p, group) ((q, other) ∷ rest) =
    let later = insert_priority (p, group) rest in
    if at_most q p then (p, group) ∷ (q, other) ∷ rest else (q, other) ∷ later

unfoldable pub sort_pairs : List (Counter × SequenceGroup) → List (Counter × SequenceGroup)
sort_pairs [] = []
sort_pairs (pair ∷ pairs) = insert_priority pair (sort_pairs pairs)

abbrev pub groups_of : List (Counter × SequenceGroup) → List SequenceGroup
groups_of [] = []
groups_of ((_, group) ∷ pairs) = group ∷ groups_of pairs

-- The keys are computed before anything is sorted.
unfoldable pub with_keys :
    (SequenceGroup → Result Counter) → List SequenceGroup → Result (List (Counter × SequenceGroup))
with_keys key [] = ok []
with_keys key (group ∷ groups) = elim (key group) [
  | err e ↦ err e
  | ok p ↦ elim (with_keys key groups) [ err e ↦ err e | ok rest ↦ ok ((p, group) ∷ rest) ]
]

-- sorted(seq_groups, key=…, reverse=True), which is stable.
unfoldable pub sort_by_priority :
    PolicyName → ℕ × ℕ → ℕ → List SequenceGroup → Result (List SequenceGroup)
unfolding sort_pairs with_keys
sort_by_priority name weight now groups = elim (with_keys (get_priority name weight now) groups) [
  | err e ↦ err e
  | ok pairs ↦ ok (groups_of (sort_pairs pairs))
]
