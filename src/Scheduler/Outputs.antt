-- ===== src/Scheduler/Outputs.antt =====
-- vllm/core/scheduler.py: the outputs of `_schedule`, put together from those of the three passes.
use e_llm.Exec.{Exec, pure, raise_if, ◌>>◌, assertion_error}
use e_llm.Prelude.{
  ℕ, ◌+◌, Bool, true, false, not, ◌&&◌, List, [], ◌∷◌, ◌++◌, length, any, ltb, nat_beq, nat_eq,
  if◌then◌else◌,
}
use e_llm.SchedulingBudget.{SchedulingBudget, Counter, add_num_seqs}
use e_llm.SequenceGroup.{SequenceGroup, get_max_num_running_seqs}
use e_llm.Scheduler.{Turn, ScheduledSequenceGroup, PolicyName, fcfs_name, dllm_name, other_policy}
use e_llm.Scheduler.Admission.{extendleft}
use e_llm.Scheduler.Running.{SchedulerRunningOutputs}
use e_llm.Scheduler.Prefills.{SchedulerPrefillOutputs}
use e_llm.Scheduler.Swapped.{SchedulerSwappedInOutputs}

pub record SchedulerOutputs (Move : Type 0) : Type 0 where
  pub scheduled_seq_groups : List ScheduledSequenceGroup
  pub num_prefill_groups : ℕ
  pub num_batched_tokens : Counter
  pub blocks_to_swap_in : List Move
  pub blocks_to_swap_out : List Move
  pub blocks_to_copy : List Move
  pub total_block_ids : List ℕ
  pub ignored_seq_groups : List SequenceGroup
  pub num_lookahead_slots : ℕ
  pub running_queue_size : ℕ
  pub preempted : ℕ

-- The methods `create_empty` of the outputs of the passes.
abbrev pub no_prefills : SchedulerPrefillOutputs
no_prefills = record {
  seq_groups = [];
  total_block_ids = [];
  ignored_seq_groups = [];
  num_lookahead_slots = 0;
}

abbrev pub none_running : {Move : Type 0} → SchedulerRunningOutputs Move
none_running = record {
  decode_seq_groups = [];
  prefill_seq_groups = [];
  preempted = [];
  swapped_out = [];
  blocks_to_swap_out = [];
  blocks_to_copy = [];
  total_block_ids = [];
  num_lookahead_slots = 0;
}

abbrev pub none_swapped_in : {Move : Type 0} → SchedulerSwappedInOutputs Move
none_swapped_in = record {
  decode_seq_groups = [];
  prefill_seq_groups = [];
  blocks_to_swap_in = [];
  blocks_to_copy = [];
  total_block_ids = [];
  num_lookahead_slots = 0;
  infeasible_seq_groups = [];
}

-- [s.seq_group for s in scheduled]
abbrev pub groups_in : List ScheduledSequenceGroup → List SequenceGroup
groups_in [] = []
groups_in (s ∷ scheduled) = s.seq_group ∷ groups_in scheduled

-- PolicyFactory.get_policy: is the name in the registry?
abbrev pub is_registered : PolicyName → Bool
is_registered fcfs_name = true
is_registered dllm_name = true
is_registered other_policy = false

-- The budget with the running groups.
unfoldable pub count_running : List SequenceGroup → SchedulingBudget ℕ → SchedulingBudget ℕ
unfolding add_num_seqs
count_running [] b = b
count_running (group ∷ groups) b =
    count_running groups (add_num_seqs group.request_id (get_max_num_running_seqs group) b)

-- set(lora_int_id for the running groups that have one)
abbrev pub running_loras : List SequenceGroup → List ℕ
running_loras [] = []
running_loras (group ∷ groups) =
    let rest = running_loras groups in
    if ltb 0 group.lora_int_id && not (any (nat_beq group.lora_int_id) rest)
    then group.lora_int_id ∷ rest
    else rest

abbrev pub num_preempted : {Move : Type 0} → SchedulerRunningOutputs Move → ℕ
num_preempted out = length out.preempted + length out.swapped_out

abbrev pub both : {A : Type 0} → List A → List A → Bool
both [] ys = false
both (x ∷ xs) [] = false
both (x ∷ xs) (y ∷ ys) = true

-- SchedulerOutputs.__post_init__, without the order by LoRA ids.
abbrev pub post_init :
    {M Move : Type 0} → (Turn M → SchedulerOutputs Move) → Exec (Turn M) (SchedulerOutputs Move)
post_init outputs t =
    (do
      raise_if (both (outputs t).blocks_to_swap_in (outputs t).blocks_to_swap_out) assertion_error
      pure (outputs t))
      t

module _ {M Move : Type 0} where
  abbrev pub finish_default :
      List SequenceGroup
      → List SequenceGroup
      → List SequenceGroup
      → SchedulerPrefillOutputs
      → SchedulerRunningOutputs Move
      → SchedulerSwappedInOutputs Move
      → Turn M
      → Turn M
  finish_default waiting running swapped prefills scheduled swapped_in t = record t {
    scheduler = record t.scheduler {
      waiting = extendleft scheduled.preempted waiting;
      running =
          running
          ++ groups_in prefills.seq_groups
          ++ groups_in scheduled.decode_seq_groups
          ++ groups_in swapped_in.decode_seq_groups;
      swapped = swapped ++ scheduled.swapped_out;
    };
  }

  abbrev pub finish_chunked :
      List SequenceGroup
      → List SequenceGroup
      → List SequenceGroup
      → SchedulerPrefillOutputs
      → SchedulerRunningOutputs Move
      → SchedulerSwappedInOutputs Move
      → Turn M
      → Turn M
  finish_chunked waiting running swapped prefills scheduled swapped_in t = record t {
    scheduler = record t.scheduler {
      waiting = extendleft scheduled.preempted waiting;
      running =
          running
          ++ groups_in prefills.seq_groups
          ++ groups_in scheduled.decode_seq_groups
          ++ groups_in scheduled.prefill_seq_groups
          ++ groups_in swapped_in.decode_seq_groups
          ++ groups_in swapped_in.prefill_seq_groups;
      swapped = swapped ++ scheduled.swapped_out;
    };
  }

  abbrev pub default_outputs :
      SchedulerPrefillOutputs
      → SchedulerRunningOutputs Move
      → SchedulerSwappedInOutputs Move
      → Turn M
      → SchedulerOutputs Move
  default_outputs prefills scheduled swapped_in t = record {
    scheduled_seq_groups =
        prefills.seq_groups ++ scheduled.decode_seq_groups ++ swapped_in.decode_seq_groups;
    num_prefill_groups = length prefills.seq_groups;
    num_batched_tokens = t.budget.num_batched_tokens;
    blocks_to_swap_in = swapped_in.blocks_to_swap_in;
    blocks_to_swap_out = scheduled.blocks_to_swap_out;
    blocks_to_copy = scheduled.blocks_to_copy ++ swapped_in.blocks_to_copy;
    total_block_ids =
        scheduled.total_block_ids ++ swapped_in.total_block_ids ++ prefills.total_block_ids;
    ignored_seq_groups = prefills.ignored_seq_groups ++ swapped_in.infeasible_seq_groups;
    num_lookahead_slots = scheduled.num_lookahead_slots;
    running_queue_size = length t.scheduler.running;
    preempted = num_preempted scheduled;
  }

  abbrev pub chunked_outputs :
      SchedulerPrefillOutputs
      → SchedulerRunningOutputs Move
      → SchedulerSwappedInOutputs Move
      → Turn M
      → SchedulerOutputs Move
  chunked_outputs prefills scheduled swapped_in t = record {
    scheduled_seq_groups =
        prefills.seq_groups ++ scheduled.prefill_seq_groups ++ swapped_in.prefill_seq_groups
        ++ scheduled.decode_seq_groups ++ swapped_in.decode_seq_groups;
    num_prefill_groups =
        length prefills.seq_groups
        + length swapped_in.prefill_seq_groups
        + length scheduled.prefill_seq_groups;
    num_batched_tokens = t.budget.num_batched_tokens;
    blocks_to_swap_in = swapped_in.blocks_to_swap_in;
    blocks_to_swap_out = scheduled.blocks_to_swap_out;
    blocks_to_copy = scheduled.blocks_to_copy ++ swapped_in.blocks_to_copy;
    total_block_ids =
        scheduled.total_block_ids ++ swapped_in.total_block_ids ++ prefills.total_block_ids;
    ignored_seq_groups = prefills.ignored_seq_groups;
    num_lookahead_slots = scheduled.num_lookahead_slots;
    running_queue_size = length t.scheduler.running;
    preempted = num_preempted scheduled;
  }
