-- ===== src/Scheduler/Prefills.antt =====
-- vllm/core/scheduler.py: `_schedule_prefills` and what it asks, with its local variables as a record.
pub mod Moves
pub mod Fairness
use e_llm.Prelude.{
  ℕ, zero, suc, ◌+◌, ◌-◌, ◌*◌, ◌≡◌, min, Bool, true, false, not, ◌&&◌, ◌||◌, Option, none, some,
  List, [], ◌∷◌, ◌++◌, length, ltb, leb, nat_beq, nat_eq, if◌then◌else◌,
}
use e_llm.Exec.{
  Exec, pure, raise, gets, modify, or_raise, raise_if, ◌>>=◌, ◌>>◌, assertion_error, index_error,
  out_of_fuel,
}
use e_llm.EllmBlockManager.{AllocStatus, alloc_ok, alloc_later, alloc_never}
use e_llm.Sequence.{Sequence, SequenceStatus, get_len}
use e_llm.SequenceGroup.{SequenceGroup, get_seqs, get_max_num_running_seqs}
use e_llm.Scheduler.{
  Setting, Scheduler, SchedulerConfig, Turn, ScheduledSequenceGroup, on_manager, num_new_tokens,
  now, get_num_lookahead_slots,
}
use e_llm.Scheduler.Groups.{set_status, allocate_and_set_running}
use e_llm.Scheduler.Admission.{extendleft, fits_budget, count_in, lora_of, lora_waits}
use e_llm.Scheduler.Running.{queue_empty, front, behind, add_lora, used_blocks}

-- The local variables of the pass.
pub record PrefillPass : Type 0 where
  pub waiting_queue : List SequenceGroup
  pub leftover_waiting_sequences : List SequenceGroup
  pub seq_groups : List ScheduledSequenceGroup
  pub ignored_seq_groups : List SequenceGroup

pub record SchedulerPrefillOutputs : Type 0 where
  pub seq_groups : List ScheduledSequenceGroup
  pub total_block_ids : List ℕ
  pub ignored_seq_groups : List SequenceGroup
  pub num_lookahead_slots : ℕ

abbrev pub start_prefills : List SequenceGroup → PrefillPass
start_prefills queue = record {
  waiting_queue = queue;
  leftover_waiting_sequences = [];
  seq_groups = [];
  ignored_seq_groups = [];
}

-- The first group is ignored: it cannot ever be scheduled.
abbrev pub ignore_first : SequenceGroup → PrefillPass → PrefillPass
ignore_first group pass = record pass {
  ignored_seq_groups =
      pass.ignored_seq_groups
      ++ set_status SequenceStatus.waiting SequenceStatus.finished_ignored group ∷ [];
  waiting_queue = behind pass.waiting_queue;
}

-- The first group is left over: it stays waiting.
abbrev pub leave_first : SequenceGroup → PrefillPass → PrefillPass
leave_first group pass = record pass {
  leftover_waiting_sequences = group ∷ pass.leftover_waiting_sequences;
  waiting_queue = behind pass.waiting_queue;
}

abbrev pub take_first : SequenceGroup → ℕ → PrefillPass → PrefillPass
take_first group num_new_tokens pass = record pass {
  seq_groups =
      pass.seq_groups ++ record { seq_group = group; token_chunk_size = num_new_tokens } ∷ [];
  waiting_queue = behind pass.waiting_queue;
}

abbrev pub first_len : List Sequence → Option ℕ
first_len [] = none
first_len (seq ∷ _) = some (get_len seq)

-- min(e.metrics.arrival_time for e in groups)
abbrev pub earliest : SequenceGroup → List SequenceGroup → ℕ
earliest group [] = group.arrival_time
earliest group (other ∷ groups) = min group.arrival_time (earliest other groups)

module _ {M Move : Type 0} (setting : Setting M Move) where
  -- now - earliest > delay_factor * last_prompt_latency, times the factor's denominator.
  abbrev pub waited : ℕ → ℕ → ℕ → Bool
  waited time arrival latency =
      let (factor, unit) = setting.config.delay_factor in
      ltb (arrival * unit + factor * latency) (time * unit)

  abbrev pub delay_over : ℕ → List SequenceGroup → Scheduler M → Bool
  delay_over time [] s = true
  delay_over time (group ∷ groups) s =
      if ltb 0 (setting.config.delay_factor.0)
      then waited time (earliest group groups) s.last_prompt_latency || queue_empty s.running
      else true

  abbrev pub note_time : ℕ → Turn M → Turn M
  note_time time t = record t {
    scheduler = record t.scheduler {
      last_prompt_latency =
          if t.scheduler.prev_prompt
          then time - t.scheduler.prev_time
          else t.scheduler.last_prompt_latency;
      prev_time = time;
      prev_prompt = false;
    };
  }

  unfoldable pub passed_delay : Exec (Turn M) Bool
  passed_delay = do
    time ← now setting
    modify (note_time time)
    gets λ t. delay_over time t.scheduler.waiting t.scheduler

  abbrev pub config_limit : ℕ
  config_limit =
      if setting.config.chunked_prefill_enabled
      then setting.config.max_model_len
      else min setting.config.max_model_len setting.config.max_num_batched_tokens

  unfoldable pub get_prompt_limit : SequenceGroup → Exec (Turn M) ℕ
  get_prompt_limit group = if nat_beq group.long_lora_max_len 0 then pure config_limit else (do
    raise_if (ltb group.long_lora_max_len config_limit) assertion_error
    pure group.long_lora_max_len)

  -- The group is scheduled.
  unfoldable pub start_prompt : SequenceGroup → ℕ → PrefillPass → Exec (Turn M) (Bool × PrefillPass)
  unfolding count_in
  start_prompt group num_new_tokens pass = do
    modify (add_lora (lora_of setting group))
    group' ← allocate_and_set_running setting group
    count_in group num_new_tokens (get_max_num_running_seqs group)
    pure (true, take_first group' num_new_tokens pass)

  -- From the test for its LoRA on.
  unfoldable pub offer_prompt : SequenceGroup → ℕ → PrefillPass → Exec (Turn M) (Bool × PrefillPass)
  unfolding lora_waits fits_budget start_prompt
  offer_prompt group num_new_tokens pass = do
    waits ← lora_waits setting group
    if waits then pure (true, leave_first group pass) else (do
      fits ← fits_budget num_new_tokens (get_max_num_running_seqs group)
      if fits then start_prompt group num_new_tokens pass else pure (false, pass))

  unfoldable pub on_allocation :
      AllocStatus → SequenceGroup → ℕ → PrefillPass → Exec (Turn M) (Bool × PrefillPass)
  unfolding offer_prompt
  on_allocation alloc_later group num_new_tokens pass = pure (false, pass)
  on_allocation alloc_never group num_new_tokens pass = pure (true, ignore_first group pass)
  on_allocation alloc_ok group num_new_tokens pass = offer_prompt group num_new_tokens pass

  unfoldable pub check_whole : Bool → List Sequence → ℕ → Exec (Turn M) (Unit {0})
  check_whole enable_chunking waiting_seqs n = if enable_chunking then pure tt else (do
    num_prompt_tokens ← or_raise index_error (first_len waiting_seqs)
    raise_if (not (nat_beq n num_prompt_tokens)) assertion_error)

  -- A round for the first group of the queue; false for `break`.
  unfoldable pub prefill_round :
      Bool → SequenceGroup → PrefillPass → Exec (Turn M) (Bool × PrefillPass)
  unfolding get_prompt_limit on_allocation check_whole
  prefill_round enable_chunking group pass = do
    raise_if (not (nat_beq (length (get_seqs SequenceStatus.waiting group)) 1)) assertion_error
    n ← num_new_tokens group SequenceStatus.waiting enable_chunking
    check_whole enable_chunking (get_seqs SequenceStatus.waiting group) n
    prompt_limit ← get_prompt_limit group
    if ltb prompt_limit n then pure (true, ignore_first group pass) else (do
      status ← on_manager (setting.manager.can_allocate group)
      on_allocation status group n pass)

  unfoldable pub prefill_loop : ℕ → Bool → PrefillPass → Exec (Turn M) PrefillPass
  unfolding passed_delay prefill_round
  prefill_loop zero enable_chunking pass = raise out_of_fuel
  prefill_loop (suc fuel) enable_chunking pass = do
    passed ← passed_delay
    if not passed || queue_empty pass.waiting_queue then pure pass else (do
      group ← or_raise index_error (front pass.waiting_queue)
      round ← prefill_round enable_chunking group pass
      if round.0 then prefill_loop fuel enable_chunking (round.1) else pure (round.1))

  abbrev pub note_prompt : PrefillPass → Turn M → Turn M
  note_prompt pass t = record t {
    scheduler = record t.scheduler {
      prev_prompt = if ltb 0 (length pass.seq_groups) then true else t.scheduler.prev_prompt;
    };
  }

  -- A round takes a group off the queue or is the last.
  unfoldable pub schedule_prefills :
      List SequenceGroup → Bool → Exec (Turn M) (List SequenceGroup × SchedulerPrefillOutputs)
  unfolding prefill_loop
  schedule_prefills waiting_queue enable_chunking = do
    pass ← prefill_loop (suc (length waiting_queue)) enable_chunking (start_prefills waiting_queue)
    modify (note_prompt pass)
    total_block_ids ← used_blocks setting pass.seq_groups
    pure (
      extendleft pass.leftover_waiting_sequences pass.waiting_queue,
      record {
        seq_groups = pass.seq_groups;
        total_block_ids = total_block_ids;
        ignored_seq_groups = pass.ignored_seq_groups;
        num_lookahead_slots = get_num_lookahead_slots setting true;
      },
    )
