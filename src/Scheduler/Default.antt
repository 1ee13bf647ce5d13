-- ===== src/Scheduler/Default.antt =====
-- vllm/core/scheduler.py: `_schedule_default` and `_schedule_chunked_prefill`, made of the three
-- passes. The number of sequences that `_schedule_default` takes off `batch_sizes_arr` is an argument.
pub mod Balance
pub mod Chunked
use e_llm.Prelude.{
  ℕ, zero, suc, ◌+◌, ◌≡◌, Bool, true, false, not, ◌&&◌, Option, none, some, List, [], ◌∷◌, ◌++◌,
  length, map, any, ltb, leb, nat_beq, nat_eq, if◌then◌else◌,
}
use e_llm.Exec.{Exec, ok, pure, gets, modify, raise_if, ◌>>=◌, ◌>>◌, assertion_error, key_error}
use e_llm.SchedulingBudget.{SchedulingBudget, Counter, new_budget, add_num_seqs}
use e_llm.SequenceGroup.{SequenceGroup, get_max_num_running_seqs}
use e_llm.Scheduler.{
  Setting, Scheduler, Turn, ScheduledSequenceGroup, PolicyName, fcfs_name, dllm_name, other_policy,
  now,
}
use e_llm.Scheduler.Policies.{sort_by_priority}
use e_llm.Scheduler.Admission.{extendleft}
use e_llm.Scheduler.Running.{SchedulerRunningOutputs, schedule_running, queue_empty, lift_result}
use e_llm.Scheduler.Prefills.{SchedulerPrefillOutputs, schedule_prefills}
use e_llm.Scheduler.Swapped.{SchedulerSwappedInOutputs, schedule_swapped}
use e_llm.Scheduler.Outputs.{
  SchedulerOutputs, no_prefills, none_running, none_swapped_in, is_registered, count_running,
  running_loras, num_preempted, finish_default, finish_chunked, default_outputs, chunked_outputs,
  post_init,
}

module _ {M Move : Type 0} (setting : Setting M Move) where
  unfoldable pub prefills_if :
      Bool → List SequenceGroup → Exec (Turn M) (List SequenceGroup × SchedulerPrefillOutputs)
  unfolding schedule_prefills
  prefills_if b queue =
      if b then schedule_prefills setting queue false else pure (queue, no_prefills)

  unfoldable pub running_if :
      Bool → List SequenceGroup → Exec (Turn M) (List SequenceGroup × SchedulerRunningOutputs Move)
  unfolding schedule_running
  running_if b queue =
      if b
      then schedule_running setting queue setting.config.scheduling_policy false
      else pure (queue, none_running)

  unfoldable pub swapped_if :
      Bool
      → List SequenceGroup
      → Exec (Turn M) (List SequenceGroup × SchedulerSwappedInOutputs Move)
  unfolding schedule_swapped
  swapped_if b queue =
      if b
      then schedule_swapped setting queue setting.config.scheduling_policy false
      else pure (queue, none_swapped_in)

  -- self.waiting = scheduling_policy.sort_by_priority(time.time(), self.waiting, wt_weight)
  unfoldable pub sort_waiting : Exec (Turn M) (List SequenceGroup)
  sort_waiting = do
    λ t. raise_if (not (is_registered setting.config.scheduling_policy)) key_error t
    time ← now setting
    waiting ← gets λ t. t.scheduler.waiting
    sorted ←
        lift_result
          (sort_by_priority setting.config.scheduling_policy setting.config.wt_weight time waiting)
    modify λ t. record t { scheduler = record t.scheduler { waiting = sorted } }
    pure sorted

  -- The assertions on the budget.
  unfoldable pub check_budget : Exec (Turn M) (Unit {0})
  check_budget = do
    λ t.
        raise_if
          (ltb (setting.config.max_num_batched_tokens + t.budget.num_batched_tokens.subtracted)
            t.budget.num_batched_tokens.added)
          assertion_error t
    λ t.
        raise_if
          (ltb (setting.config.max_num_seqs + t.budget.num_curr_seqs.subtracted)
            t.budget.num_curr_seqs.added)
          assertion_error t

  -- The passes and what follows them.
  unfoldable pub default_passes : Exec (Turn M) (SchedulerOutputs Move)
  unfolding prefills_if running_if swapped_if sort_waiting check_budget
  default_passes = do
    before ← gets λ t. t.scheduler
    prefilled ← prefills_if (queue_empty before.swapped) before.waiting
    sorted ← sort_waiting
    ran ← running_if (nat_beq (length (prefilled.1).seq_groups) 0) before.running
    back ←
        swapped_if
          (nat_beq (length (prefilled.1).seq_groups) 0 && nat_beq (num_preempted (ran.1)) 0)
          before.swapped
    check_budget
    modify (finish_default (prefilled.0) (ran.0) (back.0) (prefilled.1) (ran.1) (back.1))
    raise_if (not (nat_beq (length (ran.1).prefill_seq_groups) 0)) assertion_error
    raise_if (not (nat_beq (length (back.1).prefill_seq_groups) 0)) assertion_error
    post_init (default_outputs (prefilled.1) (ran.1) (back.1))

  unfoldable pub chunked_passes : Exec (Turn M) (SchedulerOutputs Move)
  unfolding swapped_if sort_waiting check_budget schedule_running schedule_prefills
  chunked_passes = do
    before ← gets λ t. t.scheduler
    sorted ← sort_waiting
    ran ← schedule_running setting before.running setting.config.scheduling_policy true
    back ← swapped_if (nat_beq (num_preempted (ran.1)) 0) before.swapped
    prefilled ← schedule_prefills setting sorted true
    check_budget
    modify (finish_chunked (prefilled.0) (ran.0) (back.0) (prefilled.1) (ran.1) (back.1))
    post_init (chunked_outputs (prefilled.1) (ran.1) (back.1))

  -- The turn's scheduler is the new state; its budget and LoRAs are local variables.
  abbrev pub run_turn :
      {A : Type 0} → SchedulingBudget ℕ → Option (List ℕ) → Exec (Turn M) A → Exec (Scheduler M) A
  run_turn budget loras passes s =
      let (r, t) = passes (record { scheduler = s; budget = budget; curr_loras = loras }) in
      (r, t.scheduler)

  unfoldable pub schedule_default : ℕ → Exec (Scheduler M) (SchedulerOutputs Move)
  unfolding default_passes count_running
  schedule_default max_num_seqs s =
      run_turn
        (count_running s.running (new_budget setting.config.max_num_batched_tokens max_num_seqs))
        (elim setting.config.max_loras [ none ↦ none | some _ ↦ some (running_loras s.running) ])
        default_passes s

  unfoldable pub schedule_chunked_prefill : Exec (Scheduler M) (SchedulerOutputs Move)
  unfolding chunked_passes
  schedule_chunked_prefill s =
      run_turn (new_budget setting.config.max_num_batched_tokens setting.config.max_num_seqs)
        (some []) chunked_passes s

  unfoldable pub schedule_queues : ℕ → Exec (Scheduler M) (SchedulerOutputs Move)
  unfolding schedule_default schedule_chunked_prefill
  schedule_queues max_num_seqs =
      if setting.config.chunked_prefill_enabled
      then schedule_chunked_prefill
      else schedule_default max_num_seqs
