-- ===== src/Scheduler/Policies/Counts.antt =====
-- Sorting a queue by priority ends, and gives the same requests.
use e_llm.Prelude.{
  ℕ, ◌+◌, ◌≡◌, refl, ap, ◌∙◌, List, [], ◌∷◌, ◌⊎◌, inl, inr, List-cases, arith, nat_beq,
  if◌then◌else◌,
}
use e_llm.Exec.{Result, ok, err, Error, Result-cases}
use e_llm.Exec.Outcomes.{Ends, Stops, ok-Ends, err-Ends}
use e_llm.SchedulingBudget.{Counter}
use e_llm.SequenceGroup.{SequenceGroup, values}
use e_llm.Scheduler.{PolicyName, fcfs_name, dllm_name, other_policy, Turn}
use e_llm.Scheduler.Laws.{of_groups}
use e_llm.Scheduler.Running.{lift_result}
use e_llm.Scheduler.Policies.{
  get_priority, insert_priority, sort_pairs, groups_of, with_keys, sort_by_priority, first_prompt,
}

insert_priority-tally :
    (r : ℕ) (p : Counter) (group : SequenceGroup) (pairs : List (Counter × SequenceGroup))
    → of_groups r (groups_of (insert_priority (p, group) pairs))
      ≡ of_groups r (group ∷ groups_of pairs)
insert_priority-tally r p group [] = refl
insert_priority-tally r p group ((q, other) ∷ rest) =
    ground (arith, insert_priority-tally r p group rest)

sort_pairs-tally :
    (r : ℕ) (pairs : List (Counter × SequenceGroup))
    → of_groups r (groups_of (sort_pairs pairs)) ≡ of_groups r (groups_of pairs)
unfolding sort_pairs
sort_pairs-tally r [] = refl
sort_pairs-tally r ((p, group) ∷ pairs) =
    insert_priority-tally r p group (sort_pairs pairs)
    ∙ ap (λ n. (if nat_beq group.request_id r then 1 else 0) + n) (sort_pairs-tally r pairs)

-- Either all keys are there, beside their groups, or an exception of the source comes out.
with_keys-groups :
    (key : SequenceGroup → Result Counter) (groups : List SequenceGroup)
    → ((group : SequenceGroup) (e : Error) → key group ≡ err e → Stops e)
    → ((pairs : List (Counter × SequenceGroup)) × (with_keys key groups ≡ ok pairs)
        × (groups_of pairs ≡ groups))
      ⊎ ((e : Error) × (with_keys key groups ≡ err e) × Stops e)
unfolding with_keys
with_keys-groups key [] stops = inl ([], refl, refl)
with_keys-groups key (group ∷ groups) stops = elim (Result-cases (key group)) [
  | inr (e, is) ↦ inr (e, rw (with_keys, is) refl, stops group e is)
  | inl (p, is) ↦ elim (with_keys-groups key groups stops) [
    | inr (e, rest, halts) ↦ inr (e, rw (with_keys, is, rest) refl, halts)
    | inl (pairs, rest, same) ↦
        inl ((p, group) ∷ pairs, rw (with_keys, is, rest) refl, ap (◌∷◌ group) same)
  ]
]

get_priority-Stops :
    (name : PolicyName) (weight : ℕ × ℕ) (now : ℕ) (group : SequenceGroup) (e : Error)
    → get_priority name weight now group ≡ err e
    → Stops e
get_priority-Stops fcfs_name weight now group e h = absurd (cc)
get_priority-Stops dllm_name weight now group e h = elim (List-cases (values group.seqs_dict)) [
  | inl is ↦ (let raised = rw (get_priority, first_prompt, is) at h in λ endless. cc)
  | inr (seq, rest, is) ↦ (let never = rw (get_priority, first_prompt, is) at h in absurd (cc))
]
get_priority-Stops other_policy weight now group e h = λ is. cc

module _ {M : Type 0} where
  pub sort_by_priority-Ends :
      (r : ℕ) (name : PolicyName) (weight : ℕ × ℕ) (now : ℕ) (groups : List SequenceGroup)
      (t : Turn M)
      → Ends
          (λ sorted u. (of_groups r sorted ≡ of_groups r groups) × (u ≡ t))
          Stops
          (lift_result (sort_by_priority name weight now groups) t)
  unfolding sort_by_priority
  sort_by_priority-Ends r name weight now groups t =
      elim (with_keys-groups (get_priority name weight now) groups
        (get_priority-Stops name weight now)) [
          | inl (pairs, is, same) ↦
              rw (sort_by_priority, is)
                (ok-Ends (groups_of (sort_pairs pairs)) t
                  (sort_pairs-tally r pairs ∙ ap (of_groups r) same, refl))
          | inr (e, is, halts) ↦ rw (sort_by_priority, is) (err-Ends e t halts)
        ]
