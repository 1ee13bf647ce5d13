-- ===== src/Scheduler/Default/Chunked.antt =====
-- `_schedule_chunked_prefill`, and a call of `_schedule` for both of its modes.
use e_llm.Prelude.{
  ℕ, ◌+◌, ◌≤◌, ◌≡◌, refl, ap, ◌∙◌, Bool, true, List, [], ◌++◌, nat_beq, nat_eq, arith, Option,
}
use e_llm.Exec.{Exec, Result, ok, err, modify, ◌>>◌, assertion_error}
use e_llm.Exec.Outcomes.{Ends, Stops, raise_if-Ends, ok-Ends, err-Ends, bind-Ends, Ends-weaken}
use e_llm.SchedulingBudget.{SchedulingBudget}
use e_llm.SequenceGroup.{SequenceGroup}
use e_llm.Scheduler.{Setting, Scheduler, Turn}
use e_llm.Scheduler.Laws.{AlwaysHalts, of_groups, of_scheduled}
use e_llm.Scheduler.Running.{SchedulerRunningOutputs, schedule_running}
use e_llm.Scheduler.Running.Conserved.{schedule_running-conserves}
use e_llm.Scheduler.Prefills.{SchedulerPrefillOutputs, schedule_prefills}
use e_llm.Scheduler.Prefills.Fairness.{schedule_prefills-fair}
use e_llm.Scheduler.Prefills.Moves.{extendleft-tally}
use e_llm.Scheduler.Swapped.{SchedulerSwappedInOutputs}
use e_llm.Scheduler.Default.{
  swapped_if, sort_waiting, check_budget, default_passes, chunked_passes, run_turn,
  schedule_default, schedule_chunked_prefill,
}
use e_llm.Scheduler.Outputs.{
  groups_in, num_preempted, finish_chunked, chunked_outputs, post_init, both,
}
use e_llm.Scheduler.Default.Balance.{
  held, default_sum, groups_in-tally, groups-append, swapped_if-counts, sort_waiting-counts,
  check_budget-Ends, default_passes-balance,
}

module _ {M Move : Type 0} (r : ℕ) (waiting running swapped : List SequenceGroup)
    (prefills : SchedulerPrefillOutputs) (scheduled : SchedulerRunningOutputs Move)
    (swapped_in : SchedulerSwappedInOutputs Move) (t : Turn M) where
  running-parts :
      of_groups r (
        running
        ++ groups_in prefills.seq_groups
        ++ groups_in scheduled.decode_seq_groups
        ++ groups_in scheduled.prefill_seq_groups
        ++ groups_in swapped_in.decode_seq_groups
        ++ groups_in swapped_in.prefill_seq_groups)
      ≡ of_groups r running
        + of_scheduled r prefills.seq_groups
        + of_scheduled r scheduled.decode_seq_groups
        + of_scheduled r scheduled.prefill_seq_groups
        + of_scheduled r swapped_in.decode_seq_groups
        + of_scheduled r swapped_in.prefill_seq_groups
  running-parts = simp (groups-append, groups_in-tally) refl

  finish_chunked-held :
      held r (finish_chunked waiting running swapped prefills scheduled swapped_in t).scheduler
        + of_groups r prefills.ignored_seq_groups
        + of_groups r swapped_in.infeasible_seq_groups
      ≡ default_sum r waiting running swapped prefills scheduled swapped_in
  finish_chunked-held = omega (
    arith,
    running-parts,
    extendleft-tally r scheduled.preempted waiting,
    groups-append r swapped scheduled.swapped_out,
  )

-- Nothing is held twice, and where no group was swapped out nothing is lost.
abbrev pub Accounted : ℕ → ℕ → List SequenceGroup → Type 0
Accounted after before swapped = (after ≤ before) × (swapped ≡ [] → after ≡ before)

module _ {M Move : Type 0} (setting : Setting M Move) (laws : AlwaysHalts setting.manager)
    (r : ℕ) where
  -- What follows the passes.
  finishing :
      (waiting running swapped : List SequenceGroup) (prefills : SchedulerPrefillOutputs)
      (scheduled : SchedulerRunningOutputs Move) (swapped_in : SchedulerSwappedInOutputs Move)
      (before : Scheduler M) (t : Turn M)
      → default_sum r waiting running swapped prefills scheduled swapped_in ≡ held r before
      → (before.swapped ≡ [] → of_groups r swapped_in.infeasible_seq_groups ≡ 0)
      → Ends
          (λ out u.
            Accounted
              (held r u.scheduler + of_groups r out.ignored_seq_groups)
              (held r before)
              before.swapped)
          Stops
          ((check_budget setting
              >> (modify (finish_chunked waiting running swapped prefills scheduled swapped_in)
                  >> post_init (chunked_outputs prefills scheduled swapped_in)))
            t)
  finishing waiting running swapped prefills scheduled swapped_in before t sums feasible =
      bind-Ends (check_budget setting) _ t (
        Ends-weaken _
          (λ _ u _.
            let parts =
              finish_chunked-held r waiting running swapped prefills scheduled swapped_in u in
            raise_if-Ends (both swapped_in.blocks_to_swap_in scheduled.blocks_to_swap_out)
              assertion_error _
              (finish_chunked waiting running swapped prefills scheduled swapped_in u) (λ _ e. cc)
              λ _.
                ok-Ends _ _
                  (omega (arith, parts, sums), λ none. omega (arith, parts, sums, feasible none)))
          (check_budget-Ends setting laws r t))

  chunked_passes-accounts :
      (t : Turn M)
      → Ends
          (λ out u.
            Accounted
              (held r u.scheduler + of_groups r out.ignored_seq_groups)
              (held r t.scheduler)
              t.scheduler.swapped)
          Stops
          (chunked_passes setting t)
  unfolding chunked_passes
  chunked_passes-accounts t = bind-Ends (sort_waiting setting) _ t (
      Ends-weaken _
        (λ sorted u s.
          bind-Ends
            (schedule_running setting t.scheduler.running setting.config.scheduling_policy true) _ u
            (Ends-weaken _
              (λ ran v q.
                let calm : Bool = nat_beq (num_preempted (ran.1)) 0 in
                bind-Ends (swapped_if setting calm t.scheduler.swapped) _ v (
                  Ends-weaken _
                    (λ back w b. bind-Ends (schedule_prefills setting sorted true) _ w (
                      Ends-weaken _
                        (λ prefilled x p.
                          finishing (prefilled.0) (ran.0) (back.0) (prefilled.1) (ran.1) (back.1)
                            t.scheduler x (omega (arith, s, p.0, q.0, b.0))
                            (λ none. omega (arith, b.0, ap (of_groups r) none)))
                        (schedule_prefills-fair setting laws r true sorted w)))
                    (swapped_if-counts setting laws r calm t.scheduler.swapped v)))
              (schedule_running-conserves setting laws r setting.config.scheduling_policy true
                t.scheduler.running u)))
        (sort_waiting-counts setting laws r t))

  -- A turn of the scheduler, when its passes end.
  run_turn-Ends :
      {A : Type 0} {P : A → Scheduler M → Type 0} (budget : SchedulingBudget ℕ)
      (loras : Option (List ℕ)) (passes : Exec (Turn M) A) (s : Scheduler M)
      → ((t : Turn M) → t.scheduler ≡ s → Ends (λ a u. P a u.scheduler) Stops (passes t))
      → Ends P Stops (run_turn setting budget loras passes s)
  run_turn-Ends {A = A} {P = P} budget loras passes s ends =
      by_result (passes (record { scheduler = s; budget = budget; curr_loras = loras }))
        (ends (record { scheduler = s; budget = budget; curr_loras = loras }) refl)
    where
      by_result :
          (ran : Result A × Turn M)
          → Ends (λ a u. P a u.scheduler) Stops ran
          → Ends P Stops (ran.0, (ran.1).scheduler)
      by_result (ok a, t) h = ok-Ends a _ h.outcome_of
      by_result (err e, t) h = err-Ends e _ h.outcome_of

  -- When no method of the block manager loops without end, neither does a call of
  -- `_schedule_default`. When it returns, each request is as often in the three queues and the
  -- ignored groups of the output together as it was in the three queues before.
  pub schedule_default-balances :
      (max_num_seqs : ℕ) (s : Scheduler M)
      → Ends
          (λ out s'. held r s' + of_groups r out.ignored_seq_groups ≡ held r s)
          Stops
          (schedule_default setting max_num_seqs s)
  unfolding schedule_default
  schedule_default-balances max_num_seqs s = run_turn-Ends _ _ (default_passes setting) s λ t is.
      Ends-weaken _ (λ out u h. h ∙ ap (held r) is) (default_passes-balance setting laws r t)

  -- When no method of the block manager loops without end, neither does a call of
  -- `_schedule_chunked_prefill`. When it returns, no request is more often in the three queues and
  -- the ignored groups of the output together than it was in the three queues before; and where no
  -- group was swapped out before, it is as often there.
  pub schedule_chunked_prefill-accounts :
      (s : Scheduler M)
      → Ends
          (λ out s'.
            Accounted (held r s' + of_groups r out.ignored_seq_groups) (held r s) s.swapped)
          Stops
          (schedule_chunked_prefill setting s)
  unfolding schedule_chunked_prefill
  schedule_chunked_prefill-accounts s = run_turn-Ends _ _ (chunked_passes setting) s λ t is.
      Ends-weaken _
        (λ out u h. (
          omega (arith, h.0, ap (held r) is),
          λ none. h.1 (ap (λ x. x.swapped) is ∙ none) ∙ ap (held r) is,
        ))
        (chunked_passes-accounts t)
