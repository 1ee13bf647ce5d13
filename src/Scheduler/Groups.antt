-- ===== src/Scheduler/Groups.antt =====
-- vllm/core/scheduler.py: what a pass does to one sequence group: allocation, new slots, preemption
-- and swapping. A method that changes the sequences of its argument returns the group.
pub mod Identity
use e_llm.Prelude.{
  ℕ, suc, ◌+◌, ◌≡◌, Bool, true, false, not, Option, none, some, List, [], ◌∷◌, ◌++◌, map, length,
  nat_beq, if◌then◌else◌,
}
use e_llm.Dict.{Dict}
use e_llm.Exec.{
  Exec, pure, raise, gets, modify, raise_if, ◌>>=◌, ◌>>◌, assertion_error, runtime_error,
}
use e_llm.Sequence.{Sequence, SequenceStatus, reset_state_for_recompute}
use e_llm.SequenceGroup.{
  SequenceGroup, get_seqs, get_all_seqs, status_beq, get_max_num_running_seqs,
}
use e_llm.Scheduler.{
  Setting, Scheduler, Turn, ModeName, recompute_name, swap_name, other_name, PreemptionMode,
  on_manager, get_num_lookahead_slots,
}

-- for seq in seq_group.get_seqs(status=old): seq.status = new
abbrev pub restatus : SequenceStatus → SequenceStatus → Dict ℕ Sequence → Dict ℕ Sequence
restatus old new [] = []
restatus old new ((i, seq) ∷ d) =
    (i, if status_beq seq.status old then record seq { status = new } else seq) ∷ restatus old new d

abbrev pub set_status : SequenceStatus → SequenceStatus → SequenceGroup → SequenceGroup
set_status old new group = record group { seqs_dict = restatus old new group.seqs_dict }

-- for seq in seq_group.get_seqs(): seq.status = new
abbrev pub restatus_all : SequenceStatus → Dict ℕ Sequence → Dict ℕ Sequence
restatus_all new [] = []
restatus_all new ((i, seq) ∷ d) = (i, record seq { status = new }) ∷ restatus_all new d

abbrev pub set_status_all : SequenceStatus → SequenceGroup → SequenceGroup
set_status_all new group = record group { seqs_dict = restatus_all new group.seqs_dict }

module _ {M Move : Type 0} (setting : Setting M Move) where
  abbrev pub free_one : Sequence → Exec (Turn M) (Unit {0})
  free_one seq = on_manager (setting.manager.free seq)

  unfoldable pub allocate_and_set_running : SequenceGroup → Exec (Turn M) SequenceGroup
  allocate_and_set_running group = do
    on_manager (setting.manager.allocate group)
    pure (set_status SequenceStatus.waiting SequenceStatus.running group)

  unfoldable pub append_each : List Sequence → List Move → Exec (Turn M) (List Move)
  append_each [] blocks_to_copy = pure blocks_to_copy
  append_each (seq ∷ seqs) blocks_to_copy = do
    cows ← on_manager (setting.manager.append_slots seq (get_num_lookahead_slots setting false))
    append_each seqs (blocks_to_copy ++ cows)

  -- The list of blocks to copy, extended.
  unfoldable pub append_group : SequenceGroup → List Move → Exec (Turn M) (List Move)
  unfolding append_each
  append_group group = append_each (get_seqs SequenceStatus.running group)

  -- The body of the loop of `_preempt_by_recompute`.
  unfoldable pub restart_one : Sequence → Exec (Turn M) Sequence
  restart_one seq = do
    free_one (record seq { status = SequenceStatus.waiting })
    pure (reset_state_for_recompute (record seq { status = SequenceStatus.waiting }))

  -- The sequences with status RUNNING start again.
  unfoldable pub restart : Dict ℕ Sequence → Exec (Turn M) (Dict ℕ Sequence)
  unfolding restart_one
  restart [] = pure []
  restart ((i, seq) ∷ d) = do
    seq' ← (if status_beq seq.status SequenceStatus.running then restart_one seq else pure seq)
    rest ← restart d
    pure ((i, seq') ∷ rest)

  unfoldable pub preempt_by_recompute : SequenceGroup → Exec (Turn M) SequenceGroup
  unfolding restart
  preempt_by_recompute group = do
    raise_if (not (nat_beq (length (get_seqs SequenceStatus.running group)) 1)) assertion_error
    d ← restart group.seqs_dict
    pure (record group { seqs_dict = d })

  unfoldable pub swap_out_group :
      SequenceGroup → List Move → Exec (Turn M) (SequenceGroup × List Move)
  swap_out_group group blocks_to_swap_out = do
    can ← on_manager (setting.manager.can_swap_out group)
    raise_if (not can) runtime_error
    mapping ← on_manager (setting.manager.swap_out group)
    pure (
      set_status SequenceStatus.running SequenceStatus.swapped group,
      blocks_to_swap_out ++ mapping,
    )

  abbrev pub preempt_by_swap : SequenceGroup → List Move → Exec (Turn M) (SequenceGroup × List Move)
  preempt_by_swap group blocks_to_swap_out = swap_out_group group blocks_to_swap_out

  -- The group, the blocks to swap in and all block ids.
  unfoldable pub swap_in_group :
      SequenceGroup → List Move → List ℕ → Exec (Turn M) (SequenceGroup × List Move × List ℕ)
  swap_in_group group blocks_to_swap_in total_block_ids = do
    mapping ← on_manager (setting.manager.swap_in group)
    pure (
      set_status SequenceStatus.swapped SequenceStatus.running group,
      blocks_to_swap_in ++ mapping,
      total_block_ids ++ map setting.manager.last_entry mapping,
    )

  unfoldable pub choose_mode : Option ModeName → SequenceGroup → Exec (Turn M) PreemptionMode
  choose_mode none group = pure (
      if nat_beq (get_max_num_running_seqs group) 1
      then PreemptionMode.recompute
      else PreemptionMode.swap)
  choose_mode (some recompute_name) group = pure PreemptionMode.recompute
  choose_mode (some swap_name) group = pure PreemptionMode.swap
  choose_mode (some other_name) group = raise assertion_error

  unfoldable pub preempt_in :
      PreemptionMode → SequenceGroup → List Move → Exec (Turn M) (SequenceGroup × List Move)
  unfolding preempt_by_recompute swap_out_group
  preempt_in PreemptionMode.recompute group moves = do
    group' ← preempt_by_recompute group
    pure (group', moves)
  preempt_in PreemptionMode.swap group moves = preempt_by_swap group moves

  abbrev pub count_preemption : Turn M → Turn M
  count_preemption t = record t {
    scheduler = record t.scheduler {
      num_cumulative_preemption = suc t.scheduler.num_cumulative_preemption;
    };
  }

  -- The mode, the group and the blocks to swap out.
  unfoldable pub preempt :
      SequenceGroup → List Move → Exec (Turn M) (PreemptionMode × SequenceGroup × List Move)
  unfolding choose_mode preempt_in
  preempt group blocks_to_swap_out = do
    mode ← choose_mode setting.config.preemption_mode group
    modify count_preemption
    done ← preempt_in mode group blocks_to_swap_out
    pure (mode, done.0, done.1)
