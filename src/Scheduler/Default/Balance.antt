-- ===== src/Scheduler/Default/Balance.antt =====
-- A call of `_schedule` ends, and neither loses nor duplicates a request.
use e_llm.Prelude.{
  ℕ, ◌+◌, ◌≡◌, refl, ◌∙◌, Bool, true, false, not, ◌&&◌, List, [], ◌∷◌, ◌++◌, length, ltb, nat_beq,
  nat_eq, arith, Bool-cases, inl, inr,
}
use e_llm.Exec.{modify, raise_if, ◌>>◌, assertion_error, key_error}
use e_llm.Exec.Outcomes.{Ends, Stops, ok-Ends, err-Ends, bind-Ends, raise_if-Ends, Ends-weaken}
use e_llm.SequenceGroup.{SequenceGroup}
use e_llm.Scheduler.{Setting, Scheduler, Turn, ScheduledSequenceGroup, now}
use e_llm.Scheduler.Policies.{sort_by_priority}
use e_llm.Scheduler.Policies.Counts.{sort_by_priority-Ends}
use e_llm.Scheduler.Laws.{AlwaysHalts, QueuesKept, unmoved, tally-append, of_groups, of_scheduled}
use e_llm.Scheduler.Running.{SchedulerRunningOutputs, queue_empty, lift_result}
use e_llm.Scheduler.Running.Conserved.{schedule_running-conserves}
use e_llm.Scheduler.Prefills.{SchedulerPrefillOutputs}
use e_llm.Scheduler.Prefills.Fairness.{schedule_prefills-fair}
use e_llm.Scheduler.Prefills.Moves.{extendleft-tally}
use e_llm.Scheduler.Swapped.{SchedulerSwappedInOutputs}
use e_llm.Scheduler.Swapped.Fairness.{schedule_swapped-conserves}
use e_llm.Scheduler.Default.{
  prefills_if, running_if, swapped_if, sort_waiting, check_budget, default_passes,
}
use e_llm.Scheduler.Outputs.{
  groups_in, is_registered, num_preempted, finish_default, default_outputs, post_init, both,
}

pub groups_in-tally :
    (r : ℕ) (scheduled : List ScheduledSequenceGroup)
    → of_groups r (groups_in scheduled) ≡ of_scheduled r scheduled
groups_in-tally r [] = refl
groups_in-tally r (s ∷ scheduled) = omega (arith, groups_in-tally r scheduled)

pub groups-append :
    (r : ℕ) (xs ys : List SequenceGroup) → of_groups r (xs ++ ys) ≡ of_groups r xs + of_groups r ys
groups-append r xs ys = tally-append (λ g. g.request_id) r xs ys

-- How often the request r is in a queue of the scheduler.
abbrev pub held : {M : Type 0} → ℕ → Scheduler M → ℕ
held r s = of_groups r s.waiting + of_groups r s.running + of_groups r s.swapped

none_scheduled :
    (r : ℕ) (scheduled : List ScheduledSequenceGroup)
    → not (nat_beq (length scheduled) 0) ≡ false
    → of_scheduled r scheduled ≡ 0
none_scheduled r [] h = refl
none_scheduled r (s ∷ scheduled) h = absurd (ground arith)

-- Where the request r is after the passes of `_schedule_default`.
abbrev pub default_sum :
    {Move : Type 0}
    → ℕ
    → List SequenceGroup
    → List SequenceGroup
    → List SequenceGroup
    → SchedulerPrefillOutputs
    → SchedulerRunningOutputs Move
    → SchedulerSwappedInOutputs Move
    → ℕ
default_sum r waiting running swapped prefills scheduled swapped_in =
    (of_groups r waiting
      + (of_scheduled r prefills.seq_groups + of_groups r prefills.ignored_seq_groups))
    + (of_groups r running
        + (of_scheduled r scheduled.decode_seq_groups
            + of_scheduled r scheduled.prefill_seq_groups
            + of_groups r scheduled.preempted
            + of_groups r scheduled.swapped_out))
    + (of_groups r swapped
        + (of_scheduled r swapped_in.decode_seq_groups
            + of_scheduled r swapped_in.prefill_seq_groups
            + of_groups r swapped_in.infeasible_seq_groups))

module _ {M Move : Type 0} (r : ℕ) (waiting running swapped : List SequenceGroup)
    (prefills : SchedulerPrefillOutputs) (scheduled : SchedulerRunningOutputs Move)
    (swapped_in : SchedulerSwappedInOutputs Move) (t : Turn M) where
  running-parts :
      of_groups r (
        running
        ++ groups_in prefills.seq_groups
        ++ groups_in scheduled.decode_seq_groups
        ++ groups_in swapped_in.decode_seq_groups)
      ≡ of_groups r running
        + of_scheduled r prefills.seq_groups
        + of_scheduled r scheduled.decode_seq_groups
        + of_scheduled r swapped_in.decode_seq_groups
  running-parts = simp (groups-append, groups_in-tally) refl

  finish_default-held :
      of_scheduled r scheduled.prefill_seq_groups ≡ 0
      → of_scheduled r swapped_in.prefill_seq_groups ≡ 0
      → held r (finish_default waiting running swapped prefills scheduled swapped_in t).scheduler
          + of_groups r (prefills.ignored_seq_groups ++ swapped_in.infeasible_seq_groups)
        ≡ default_sum r waiting running swapped prefills scheduled swapped_in
  finish_default-held none_ran none_back = omega (
    arith,
    none_ran,
    none_back,
    running-parts,
    extendleft-tally r scheduled.preempted waiting,
    groups-append r swapped scheduled.swapped_out,
    groups-append r prefills.ignored_seq_groups swapped_in.infeasible_seq_groups,
  )

module _ {M Move : Type 0} (setting : Setting M Move) (laws : AlwaysHalts setting.manager)
    (r : ℕ) where
  prefills_if-counts :
      (b : Bool) (queue : List SequenceGroup) (t : Turn M)
      → Ends
          (λ done u.
            (of_groups r (done.0)
                + (of_scheduled r (done.1).seq_groups + of_groups r (done.1).ignored_seq_groups)
              ≡ of_groups r queue)
            × QueuesKept t u)
          Stops
          (prefills_if setting b queue t)
  unfolding prefills_if
  prefills_if-counts false queue t = ok-Ends _ t (omega arith, unmoved refl refl refl)
  prefills_if-counts true queue t =
      Ends-weaken _ (λ done u h. (h.0, h.2)) (schedule_prefills-fair setting laws r false queue t)

  running_if-counts :
      (b : Bool) (queue : List SequenceGroup) (t : Turn M)
      → Ends
          (λ done u.
            (of_groups r (done.0)
                + (of_scheduled r (done.1).decode_seq_groups
                    + of_scheduled r (done.1).prefill_seq_groups
                    + of_groups r (done.1).preempted
                    + of_groups r (done.1).swapped_out)
              ≡ of_groups r queue)
            × QueuesKept t u)
          Stops
          (running_if setting b queue t)
  unfolding running_if
  running_if-counts false queue t = ok-Ends _ t (omega arith, unmoved refl refl refl)
  running_if-counts true queue t =
      Ends-weaken _ (λ done u h. (h.0, h.2))
        (schedule_running-conserves setting laws r setting.config.scheduling_policy false queue t)

  pub swapped_if-counts :
      (b : Bool) (queue : List SequenceGroup) (t : Turn M)
      → Ends
          (λ done u.
            (of_groups r (done.0)
                + (of_scheduled r (done.1).decode_seq_groups
                    + of_scheduled r (done.1).prefill_seq_groups
                    + of_groups r (done.1).infeasible_seq_groups)
              ≡ of_groups r queue)
            × QueuesKept t u)
          Stops
          (swapped_if setting b queue t)
  unfolding swapped_if
  swapped_if-counts false queue t = ok-Ends _ t (omega arith, unmoved refl refl refl)
  swapped_if-counts true queue t =
      Ends-weaken _ (λ done u h. (h.0, h.1))
        (schedule_swapped-conserves setting laws r setting.config.scheduling_policy false queue t)

  pub sort_waiting-counts :
      (t : Turn M)
      → Ends
          (λ sorted u. of_groups r sorted ≡ of_groups r t.scheduler.waiting)
          Stops
          (sort_waiting setting t)
  unfolding sort_waiting
  sort_waiting-counts t =
      raise_if-Ends (not (is_registered setting.config.scheduling_policy)) key_error _ t (λ _ e. cc)
        λ _.
          bind-Ends
            (lift_result (
              sort_by_priority setting.config.scheduling_policy setting.config.wt_weight
                (setting.clock t.scheduler.clock_reads) t.scheduler.waiting))
            _ ((now setting t).1)
            (Ends-weaken _ (λ sorted u h. ok-Ends sorted _ (h.0))
              (sort_by_priority-Ends r setting.config.scheduling_policy setting.config.wt_weight
                (setting.clock t.scheduler.clock_reads) t.scheduler.waiting ((now setting t).1)))

  pub check_budget-Ends : (t : Turn M) → Ends (λ _ u. u ≡ t) Stops (check_budget setting t)
  unfolding check_budget
  check_budget-Ends t =
      raise_if-Ends
        (ltb (setting.config.max_num_batched_tokens + t.budget.num_batched_tokens.subtracted)
          t.budget.num_batched_tokens.added)
        assertion_error _ t (λ _ e. cc)
        λ _.
          elim (Bool-cases (
            ltb (setting.config.max_num_seqs + t.budget.num_curr_seqs.subtracted)
              t.budget.num_curr_seqs.added)) [
                | inl over ↦ rw over (err-Ends assertion_error t λ e. cc)
                | inr within ↦ rw within (ok-Ends tt t refl)
              ]

  -- What follows the passes.
  finishing :
      (waiting running swapped : List SequenceGroup) (prefills : SchedulerPrefillOutputs)
      (scheduled : SchedulerRunningOutputs Move) (swapped_in : SchedulerSwappedInOutputs Move)
      (before : ℕ) (t : Turn M)
      → default_sum r waiting running swapped prefills scheduled swapped_in ≡ before
      → Ends
          (λ out u. held r u.scheduler + of_groups r out.ignored_seq_groups ≡ before)
          Stops
          ((check_budget setting
              >> (modify (finish_default waiting running swapped prefills scheduled swapped_in)
                  >> (raise_if
                        (not (nat_beq (length scheduled.prefill_seq_groups) 0))
                        assertion_error
                      >> (raise_if
                            (not (nat_beq (length swapped_in.prefill_seq_groups) 0))
                            assertion_error
                          >> post_init (default_outputs prefills scheduled swapped_in)))))
            t)
  finishing waiting running swapped prefills scheduled swapped_in before t sums =
      bind-Ends (check_budget setting) _ t (
        Ends-weaken _
          (λ _ u _.
            raise_if-Ends (not (nat_beq (length scheduled.prefill_seq_groups) 0)) assertion_error _
              (finish_default waiting running swapped prefills scheduled swapped_in u) (λ _ e. cc)
              λ no_prefill.
                raise_if-Ends (not (nat_beq (length swapped_in.prefill_seq_groups) 0))
                  assertion_error _
                  (finish_default waiting running swapped prefills scheduled swapped_in u)
                  (λ _ e. cc)
                  λ no_prefill_back.
                    raise_if-Ends (both swapped_in.blocks_to_swap_in scheduled.blocks_to_swap_out)
                      assertion_error _
                      (finish_default waiting running swapped prefills scheduled swapped_in u)
                      (λ _ e. cc)
                      λ _. ok-Ends _ _ (
                        finish_default-held r waiting running swapped prefills scheduled swapped_in
                          u (none_scheduled r scheduled.prefill_seq_groups no_prefill)
                          (none_scheduled r swapped_in.prefill_seq_groups no_prefill_back)
                        ∙ sums))
          (check_budget-Ends t))

  pub default_passes-balance :
      (t : Turn M)
      → Ends
          (λ out u. held r u.scheduler + of_groups r out.ignored_seq_groups ≡ held r t.scheduler)
          Stops
          (default_passes setting t)
  unfolding default_passes
  default_passes-balance t =
      bind-Ends (prefills_if setting (queue_empty t.scheduler.swapped) t.scheduler.waiting) _ t (
        Ends-weaken _
          (λ prefilled u p. bind-Ends (sort_waiting setting) _ u (
            Ends-weaken _
              (λ sorted v _.
                let first : Bool = nat_beq (length (prefilled.1).seq_groups) 0 in
                bind-Ends (running_if setting first t.scheduler.running) _ v (
                  Ends-weaken _
                    (λ ran w q.
                      let calm : Bool = first && nat_beq (num_preempted (ran.1)) 0 in
                      bind-Ends (swapped_if setting calm t.scheduler.swapped) _ w (
                        Ends-weaken _
                          (λ back x b.
                            finishing (prefilled.0) (ran.0) (back.0) (prefilled.1) (ran.1) (back.1)
                              (held r t.scheduler) x (omega (arith, p.0, q.0, b.0)))
                          (swapped_if-counts calm t.scheduler.swapped w)))
                    (running_if-counts first t.scheduler.running v)))
              (sort_waiting-counts u)))
          (prefills_if-counts (queue_empty t.scheduler.swapped) t.scheduler.waiting t))
