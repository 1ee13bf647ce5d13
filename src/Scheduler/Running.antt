-- ===== src/Scheduler/Running.antt =====
-- vllm/core/scheduler.py: `_schedule_running`, with its local variables as a record. Logging and the
-- count of swapped-out tokens, which is only logged, are left out.
pub mod Tallies
pub mod Rooms
pub mod Conserved
pub mod Priority
pub mod Evictions
pub mod Victims
use e_llm.Prelude.{
  ℕ, zero, suc, ◌+◌, ◌≡◌, Bool, true, false, ◌&&◌, not, Option, none, some, List, [], ◌∷◌, ◌++◌,
  length, any, ltb, nat_beq, nat_eq, keep, if◌then◌else◌,
}
use e_llm.Exec.{
  Exec, pure, raise, modify, raise_if, ◌>>=◌, ◌>>◌, key_error, index_error, out_of_fuel, or_raise,
  Result, ok, err,
}
use e_llm.SchedulingBudget.{
  add_num_batched_tokens, add_num_seqs, subtract_num_batched_tokens, subtract_num_seqs,
}
use e_llm.Sequence.{Sequence, SequenceStatus}
use e_llm.SequenceGroup.{SequenceGroup, group_prefill, get_max_num_running_seqs}
use e_llm.Scheduler.{
  Setting, Scheduler, Turn, PreemptionMode, ScheduledSequenceGroup, PolicyName, on_manager,
  set_budget, can_append, num_new_tokens, now, get_num_lookahead_slots,
}
use e_llm.Scheduler.Policies.{sort_by_priority}
use e_llm.Scheduler.Groups.{preempt, append_group}

-- The local variables of the pass.
pub record RunningPass (Move : Type 0) : Type 0 where
  pub running_queue : List SequenceGroup
  pub decode_seq_groups : List ScheduledSequenceGroup
  pub prefill_seq_groups : List ScheduledSequenceGroup
  pub preempted : List SequenceGroup
  pub swapped_out : List SequenceGroup
  pub blocks_to_swap_out : List Move
  pub blocks_to_copy : List Move

pub record SchedulerRunningOutputs (Move : Type 0) : Type 0 where
  pub decode_seq_groups : List ScheduledSequenceGroup
  pub prefill_seq_groups : List ScheduledSequenceGroup
  pub preempted : List SequenceGroup
  pub swapped_out : List SequenceGroup
  pub blocks_to_swap_out : List Move
  pub blocks_to_copy : List Move
  pub total_block_ids : List ℕ
  pub num_lookahead_slots : ℕ

abbrev pub queue_empty : List SequenceGroup → Bool
queue_empty [] = true
queue_empty (_ ∷ _) = false

-- queue[0]
abbrev pub front : List SequenceGroup → Option SequenceGroup
front [] = none
front (group ∷ _) = some group

-- The queue after popleft().
abbrev pub behind : List SequenceGroup → List SequenceGroup
behind [] = []
behind (_ ∷ rest) = rest

-- deque.pop(), or the group itself where there is no other.
abbrev pub victim : SequenceGroup → List SequenceGroup → SequenceGroup
victim group [] = group
victim group (x ∷ xs) = victim x xs

-- The queue after deque.pop().
abbrev pub without_last : List SequenceGroup → List SequenceGroup
without_last [] = []
without_last (x ∷ []) = []
without_last (x ∷ y ∷ ys) = x ∷ without_last (y ∷ ys)

-- An exception of a property, as one of the method that reads it.
abbrev pub lift_result {ℓ} : {A : Type ℓ} {S : Type 0} → Result A → Exec S A
lift_result (ok a) = pure a
lift_result (err e) = raise e

module _ {M : Type 0} where
  abbrev pub without_lora : ℕ → List ℕ → Turn M → Turn M
  without_lora lora loras t = record t {
    curr_loras = some (keep (λ l. not (nat_beq lora l)) loras);
  }

  -- curr_loras.remove(lora_int_id), if there are LoRAs and the group has one.
  unfoldable pub drop_lora : SequenceGroup → Option (List ℕ) → Exec (Turn M) (Unit {0})
  drop_lora group none = pure tt
  drop_lora group (some loras) =
      if ltb 0 group.lora_int_id
      then (do
        raise_if (not (any (nat_beq group.lora_int_id) loras)) key_error
        modify (without_lora group.lora_int_id loras))
      else pure tt

  -- curr_loras.add(lora_int_id), if there are LoRAs and the group has one.
  abbrev pub add_lora : ℕ → Turn M → Turn M
  add_lora lora t = record t {
    curr_loras = elim t.curr_loras [
      | none ↦ none
      | some loras ↦
          some (if ltb 0 lora && not (any (nat_beq lora) loras) then lora ∷ loras else loras)
    ];
  }

  -- The group does not fit: its share of the budget is given back.
  unfoldable pub withdraw : SequenceGroup → ℕ → Exec (Turn M) (Unit {0})
  unfolding drop_lora
  withdraw group num_running_tokens = do
    set_budget (subtract_num_batched_tokens group.request_id num_running_tokens)
    set_budget (subtract_num_seqs group.request_id (get_max_num_running_seqs group))
    λ t. drop_lora group t.curr_loras t

module _ {Move : Type 0} where
  abbrev pub put_away :
      PreemptionMode → SequenceGroup → List Move → RunningPass Move → RunningPass Move
  put_away PreemptionMode.recompute victim moves pass = record pass {
    preempted = pass.preempted ++ victim ∷ [];
    blocks_to_swap_out = moves;
  }
  put_away PreemptionMode.swap victim moves pass = record pass {
    swapped_out = pass.swapped_out ++ victim ∷ [];
    blocks_to_swap_out = moves;
  }

  abbrev pub keep_running :
      Bool → SequenceGroup → ℕ → List Move → RunningPass Move → RunningPass Move
  keep_running true group num_running_tokens moves pass = record pass {
    prefill_seq_groups =
        pass.prefill_seq_groups
        ++ record { seq_group = group; token_chunk_size = num_running_tokens } ∷ [];
    blocks_to_copy = moves;
  }
  keep_running false group num_running_tokens moves pass = record pass {
    decode_seq_groups =
        pass.decode_seq_groups ++ record { seq_group = group; token_chunk_size = 1 } ∷ [];
    blocks_to_copy = moves;
  }

  abbrev pub start_running : List SequenceGroup → RunningPass Move
  start_running queue = record {
    running_queue = queue;
    decode_seq_groups = [];
    prefill_seq_groups = [];
    preempted = [];
    swapped_out = [];
    blocks_to_swap_out = [];
    blocks_to_copy = [];
  }

module _ {M Move : Type 0} (setting : Setting M Move) where
  unfoldable pub preempt_group : SequenceGroup → RunningPass Move → Exec (Turn M) (RunningPass Move)
  preempt_group victim pass = do
    done ← preempt setting victim pass.blocks_to_swap_out
    pure (put_away (done.0) (done.1) (done.2) pass)

  -- The inner loop; true where it ends without `break`.
  unfoldable pub make_room :
      ℕ → SequenceGroup → ℕ → RunningPass Move → Exec (Turn M) (Bool × RunningPass Move)
  unfolding withdraw preempt_group
  make_room zero group num_running_tokens pass = raise out_of_fuel
  make_room (suc fuel) group num_running_tokens pass = do
    room ← can_append setting group
    if room then pure (true, pass) else (do
      withdraw group num_running_tokens
      pass' ←
          preempt_group (victim group pass.running_queue)
            (record pass { running_queue = without_last pass.running_queue })
      if queue_empty pass.running_queue
          then pure (false, pass')
          else make_room fuel group num_running_tokens pass')

  -- The `else` of the inner loop.
  unfoldable pub run_group :
      Bool → SequenceGroup → ℕ → RunningPass Move → Exec (Turn M) (RunningPass Move)
  run_group enable_chunking group num_running_tokens pass = do
    moves ← append_group setting group pass.blocks_to_copy
    is_prefill ← lift_result (group_prefill group)
    set_budget (add_num_batched_tokens group.request_id num_running_tokens)
    set_budget (
        if enable_chunking
        then add_num_seqs group.request_id (get_max_num_running_seqs group)
        else λ b. b)
    modify (add_lora group.lora_int_id)
    pure (keep_running is_prefill group num_running_tokens moves pass)

  -- The outer loop.
  unfoldable pub run_queue : ℕ → Bool → RunningPass Move → Exec (Turn M) (RunningPass Move)
  unfolding make_room run_group
  run_queue zero enable_chunking pass = raise out_of_fuel
  run_queue (suc fuel) enable_chunking pass =
      if queue_empty pass.running_queue then pure pass else (do
        group ← or_raise index_error (front pass.running_queue)
        n ← num_new_tokens group SequenceStatus.running enable_chunking
        if nat_beq n 0 then pure pass else (do
          made ←
              make_room (length pass.running_queue) group n
                (record pass { running_queue = behind pass.running_queue })
          next ← (if made.0 then run_group enable_chunking group n (made.1) else pure (made.1))
          run_queue fuel enable_chunking next))

  unfoldable pub used_blocks : List ScheduledSequenceGroup → Exec (Turn M) (List ℕ)
  used_blocks [] = pure []
  used_blocks (s ∷ scheduled) = do
    ids ← on_manager (setting.manager.get_seq_used_block_id s.seq_group)
    rest ← used_blocks scheduled
    pure (ids ++ rest)

  abbrev pub running_outputs : RunningPass Move → List ℕ → SchedulerRunningOutputs Move
  running_outputs pass total_block_ids = record {
    decode_seq_groups = pass.decode_seq_groups;
    prefill_seq_groups = pass.prefill_seq_groups;
    preempted = pass.preempted;
    swapped_out = pass.swapped_out;
    blocks_to_swap_out = pass.blocks_to_swap_out;
    blocks_to_copy = pass.blocks_to_copy;
    total_block_ids = total_block_ids;
    num_lookahead_slots = get_num_lookahead_slots setting false;
  }

  -- A round of the outer loop takes a group off the queue. The weight is the default of
  -- `sort_by_priority`, 0.5.
  unfoldable pub schedule_running :
      List SequenceGroup
      → PolicyName
      → Bool
      → Exec (Turn M) (List SequenceGroup × SchedulerRunningOutputs Move)
  unfolding run_queue used_blocks
  schedule_running running_queue policy enable_chunking = do
    time ← now setting
    sorted ← lift_result (sort_by_priority policy (1, 2) time running_queue)
    pass ← run_queue (suc (length sorted)) enable_chunking (start_running sorted)
    decode_ids ← used_blocks pass.decode_seq_groups
    prefill_ids ← used_blocks pass.prefill_seq_groups
    pure (pass.running_queue, running_outputs pass (decode_ids ++ prefill_ids))
