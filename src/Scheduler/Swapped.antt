-- ===== src/Scheduler/Swapped.antt =====
-- vllm/core/scheduler.py: `_schedule_swapped`, with its local variables as a record. Logging and the
-- count of swapped-in tokens, which is only logged, are left out.
pub mod Moves
pub mod Fairness
use e_llm.Prelude.{
  ℕ, zero, suc, ◌+◌, ◌≡◌, Bool, true, false, Option, none, some, List, [], ◌∷◌, ◌++◌, length,
  nat_eq, if◌then◌else◌,
}
use e_llm.Exec.{Exec, pure, raise, modify, or_raise, ◌>>=◌, ◌>>◌, index_error, out_of_fuel}
use e_llm.EllmBlockManager.{AllocStatus, alloc_ok, alloc_later, alloc_never}
use e_llm.Sequence.{SequenceStatus}
use e_llm.SequenceGroup.{SequenceGroup, group_prefill, get_max_num_running_seqs}
use e_llm.Scheduler.{
  Setting, Scheduler, Turn, ScheduledSequenceGroup, PolicyName, on_manager, num_new_tokens, now,
  get_num_lookahead_slots,
}
use e_llm.Scheduler.Policies.{sort_by_priority}
use e_llm.Scheduler.Groups.{set_status_all, swap_in_group, append_group}
use e_llm.Scheduler.Admission.{extendleft, fits_budget, count_in, lora_of, lora_waits}
use e_llm.Scheduler.Running.{queue_empty, front, behind, add_lora, lift_result}

-- The local variables of the pass.
pub record SwappedPass (Move : Type 0) : Type 0 where
  pub swapped_queue : List SequenceGroup
  pub leftover_swapped : List SequenceGroup
  pub decode_seq_groups : List ScheduledSequenceGroup
  pub prefill_seq_groups : List ScheduledSequenceGroup
  pub infeasible_seq_groups : List SequenceGroup
  pub blocks_to_swap_in : List Move
  pub blocks_to_copy : List Move
  pub total_block_ids : List ℕ

pub record SchedulerSwappedInOutputs (Move : Type 0) : Type 0 where
  pub decode_seq_groups : List ScheduledSequenceGroup
  pub prefill_seq_groups : List ScheduledSequenceGroup
  pub blocks_to_swap_in : List Move
  pub blocks_to_copy : List Move
  pub total_block_ids : List ℕ
  pub num_lookahead_slots : ℕ
  pub infeasible_seq_groups : List SequenceGroup

module _ {Move : Type 0} where
  abbrev pub start_swapped : List SequenceGroup → SwappedPass Move
  start_swapped queue = record {
    swapped_queue = queue;
    leftover_swapped = [];
    decode_seq_groups = [];
    prefill_seq_groups = [];
    infeasible_seq_groups = [];
    blocks_to_swap_in = [];
    blocks_to_copy = [];
    total_block_ids = [];
  }

  -- The first group can never be swapped in.
  abbrev pub fail_first : SequenceGroup → SwappedPass Move → SwappedPass Move
  fail_first group pass = record pass {
    infeasible_seq_groups =
        pass.infeasible_seq_groups ++ set_status_all SequenceStatus.finished_ignored group ∷ [];
    swapped_queue = behind pass.swapped_queue;
  }

  -- The first group is left over: it stays swapped out.
  abbrev pub leave_swapped : SequenceGroup → SwappedPass Move → SwappedPass Move
  leave_swapped group pass = record pass {
    leftover_swapped = group ∷ pass.leftover_swapped;
    swapped_queue = behind pass.swapped_queue;
  }

  abbrev pub keep_swapped : Bool → SequenceGroup → ℕ → SwappedPass Move → SwappedPass Move
  keep_swapped true group num_new_tokens pass = record pass {
    prefill_seq_groups =
        pass.prefill_seq_groups
        ++ record { seq_group = group; token_chunk_size = num_new_tokens } ∷ [];
    swapped_queue = behind pass.swapped_queue;
  }
  keep_swapped false group num_new_tokens pass = record pass {
    decode_seq_groups =
        pass.decode_seq_groups ++ record { seq_group = group; token_chunk_size = 1 } ∷ [];
    swapped_queue = behind pass.swapped_queue;
  }

  abbrev pub with_moves : List Move × List ℕ → List Move → SwappedPass Move → SwappedPass Move
  with_moves (moves, ids) copies pass = record pass {
    blocks_to_swap_in = moves;
    blocks_to_copy = copies;
    total_block_ids = ids;
  }

module _ {M Move : Type 0} (setting : Setting M Move) where
  -- The group is swapped in.
  unfoldable pub resume_group :
      SequenceGroup → ℕ → SwappedPass Move → Exec (Turn M) (Bool × SwappedPass Move)
  unfolding count_in
  resume_group group num_new_tokens pass = do
    modify (add_lora (lora_of setting group))
    swapped ← swap_in_group setting group pass.blocks_to_swap_in pass.total_block_ids
    copies ← append_group setting (swapped.0) pass.blocks_to_copy
    is_prefill ← lift_result (group_prefill (swapped.0))
    count_in group num_new_tokens (get_max_num_running_seqs group)
    pure (
      true,
      with_moves (swapped.1, swapped.2) copies
          (keep_swapped is_prefill (swapped.0) num_new_tokens pass),
    )

  -- From the test for its LoRA on.
  unfoldable pub offer_swapped :
      Bool → SequenceGroup → SwappedPass Move → Exec (Turn M) (Bool × SwappedPass Move)
  unfolding lora_waits fits_budget resume_group
  offer_swapped enable_chunking group pass = do
    waits ← lora_waits setting group
    if waits then pure (true, leave_swapped group pass) else (do
      n ← num_new_tokens group SequenceStatus.swapped enable_chunking
      fits ← fits_budget n (get_max_num_running_seqs group)
      if fits then resume_group group n pass else pure (false, pass))

  unfoldable pub on_swap_status :
      AllocStatus
      → Bool
      → SequenceGroup
      → SwappedPass Move
      → Exec (Turn M) (Bool × SwappedPass Move)
  unfolding offer_swapped
  on_swap_status alloc_later enable_chunking group pass = pure (false, pass)
  on_swap_status alloc_never enable_chunking group pass = pure (true, fail_first group pass)
  on_swap_status alloc_ok enable_chunking group pass = offer_swapped enable_chunking group pass

  -- A round ends the loop, or takes a group off the queue.
  unfoldable pub swapped_loop : ℕ → Bool → SwappedPass Move → Exec (Turn M) (SwappedPass Move)
  unfolding on_swap_status
  swapped_loop zero enable_chunking pass = raise out_of_fuel
  swapped_loop (suc fuel) enable_chunking pass =
      if queue_empty pass.swapped_queue then pure pass else (do
        group ← or_raise index_error (front pass.swapped_queue)
        status ← on_manager (setting.manager.can_swap_in group)
        round ← on_swap_status status enable_chunking group pass
        if round.0 then swapped_loop fuel enable_chunking (round.1) else pure (round.1))

  abbrev pub swapped_outputs : SwappedPass Move → SchedulerSwappedInOutputs Move
  swapped_outputs pass = record {
    decode_seq_groups = pass.decode_seq_groups;
    prefill_seq_groups = pass.prefill_seq_groups;
    blocks_to_swap_in = pass.blocks_to_swap_in;
    blocks_to_copy = pass.blocks_to_copy;
    total_block_ids = pass.total_block_ids;
    num_lookahead_slots = get_num_lookahead_slots setting false;
    infeasible_seq_groups = pass.infeasible_seq_groups;
  }

  -- The weight is the default of `sort_by_priority`, 0.5.
  unfoldable pub schedule_swapped :
      List SequenceGroup
      → PolicyName
      → Bool
      → Exec (Turn M) (List SequenceGroup × SchedulerSwappedInOutputs Move)
  unfolding swapped_loop
  schedule_swapped swapped_queue policy enable_chunking = do
    time ← now setting
    sorted ← lift_result (sort_by_priority policy (1, 2) time swapped_queue)
    pass ← swapped_loop (suc (length sorted)) enable_chunking (start_swapped sorted)
    pure (extendleft pass.leftover_swapped pass.swapped_queue, swapped_outputs pass)
