-- ===== src/Scheduler/Swapped/Fairness.antt =====
-- `_schedule_swapped` ends, loses no request, and keeps the budget.
use e_llm.Prelude.{
  ℕ, zero, suc, ◌+◌, ◌<◌, ◌≡◌, refl, ◌∙◌, Bool, true, false, some, List, length, nat_eq, arith,
}
use e_llm.Exec.{ok, pure, or_raise, index_error}
use e_llm.Exec.Outcomes.{
  Ends, Stops, ok-Ends, bind-Ends, if-Ends, or_raise-Ends, Ends-weaken, read-Ends,
}
use e_llm.EllmBlockManager.{AllocStatus, alloc_ok, alloc_later, alloc_never}
use e_llm.SchedulingBudget.{can_schedule}
use e_llm.SchedulingBudget.Limits.{IsWithin}
use e_llm.Sequence.{SequenceStatus}
use e_llm.SequenceGroup.{SequenceGroup, group_prefill, get_max_num_running_seqs}
use e_llm.Scheduler.{Setting, Turn, PolicyName, now, on_manager, num_new_tokens}
use e_llm.Scheduler.Policies.{sort_by_priority}
use e_llm.Scheduler.Policies.Counts.{sort_by_priority-Ends}
use e_llm.Scheduler.Laws.{
  AlwaysHalts, QueuesKept, unmoved, on_manager-Keeps, num_new_tokens-Ends, of_groups, of_scheduled,
  Kept-trans,
}
use e_llm.Scheduler.Groups.{swap_in_group, append_group}
use e_llm.Scheduler.Groups.Identity.{swap_in_group-SameRequest, append_group-Keeps}
use e_llm.Scheduler.Admission.{fits_budget, count_in, lora_waits, lora_of}
use e_llm.Scheduler.Admission.Limits.{
  Advances, Advances-trans, Kept-Advances, same_Advances, fits_budget-Ends, count_in-Advances,
  lora_waits-Ends,
}
use e_llm.Scheduler.Running.{queue_empty, front, add_lora, lift_result}
use e_llm.Scheduler.Running.Tallies.{group_prefill-Ends}
use e_llm.Scheduler.Swapped.{
  SwappedPass, start_swapped, fail_first, leave_swapped, keep_swapped, with_moves, resume_group,
  offer_swapped, on_swap_status, swapped_loop, schedule_swapped,
}
use e_llm.Scheduler.Swapped.Moves.{
  swapped_total, SwapRounds, stop-SwapRounds, leave-SwapRounds, fail-SwapRounds, keep-SwapRounds,
}

module _ {M Move : Type 0} (setting : Setting M Move) (laws : AlwaysHalts setting.manager)
    (r : ℕ) where
  resume_group-SwapRounds :
      (group : SequenceGroup) (n : ℕ) (pass : SwappedPass Move) (t : Turn M)
      → front pass.swapped_queue ≡ some group
      → can_schedule n (get_max_num_running_seqs group) t.budget ≡ (ok true, t.budget)
      → Ends
          (λ round u. SwapRounds r pass round × Advances t u)
          Stops
          (resume_group setting group n pass t)
  unfolding resume_group
  resume_group-SwapRounds group n pass t is fits =
      let t1 : Turn M = add_lora (lora_of setting group) t in
      let seqs : ℕ = get_max_num_running_seqs group in
      bind-Ends (swap_in_group setting group pass.blocks_to_swap_in pass.total_block_ids) _ t1 (
        Ends-weaken _
          (λ swapped u h. bind-Ends (append_group setting (swapped.0) pass.blocks_to_copy) _ u (
            Ends-weaken _
              (λ copies v k.
                read-Ends (lift_result (group_prefill (swapped.0))) _ v
                  (Ends-weaken _ (λ _ w same. (same, tt)) (group_prefill-Ends (swapped.0) v))
                  λ is_prefill _.
                    let next : SwappedPass Move =
                      with_moves (swapped.1, swapped.2) copies
                        (keep_swapped is_prefill (swapped.0) n pass) in
                    bind-Ends (count_in group n seqs) (λ _. pure (true, next)) v
                      (Ends-weaken _
                        (λ _ w a.
                          ok-Ends (true, next) w
                            (
                              keep-SwapRounds r pass group is is_prefill (swapped.0) n
                                  (swapped.1, swapped.2) copies (h.0),
                              Advances-trans t v w
                                  (Advances-trans t t1 v (unmoved refl refl refl, λ w'. w')
                                    (Kept-Advances t1 v (Kept-trans t1 u v (h.1) k)))
                                  a,
                            ))
                        (count_in-Advances group n seqs t v (k.budget_kept ∙ h.1.budget_kept)
                          fits)))
              (append_group-Keeps setting laws (swapped.0) pass.blocks_to_copy u)))
          (swap_in_group-SameRequest setting laws group pass.blocks_to_swap_in pass.total_block_ids
            t1))

  offer_swapped-SwapRounds :
      (chunking : Bool) (group : SequenceGroup) (pass : SwappedPass Move) (t : Turn M)
      → front pass.swapped_queue ≡ some group
      → Ends
          (λ round u. SwapRounds r pass round × Advances t u)
          Stops
          (offer_swapped setting chunking group pass t)
  unfolding offer_swapped
  offer_swapped-SwapRounds chunking group pass t is =
      read-Ends (lora_waits setting group) _ t
        (Ends-weaken _ (λ _ u same. (same, tt)) (lora_waits-Ends setting group t))
        λ waits _.
          if-Ends waits (pure (true, leave_swapped group pass)) _ t
            (λ _.
              ok-Ends (true, leave_swapped group pass) t
                (leave-SwapRounds r pass group is, same_Advances t t refl))
            λ _.
              read-Ends (num_new_tokens group SequenceStatus.swapped chunking) _ t
                (Ends-weaken _ (λ _ u h. (h.0, tt))
                  (num_new_tokens-Ends group SequenceStatus.swapped chunking t))
                λ n _.
                  read-Ends (fits_budget n (get_max_num_running_seqs group)) _ t
                    (fits_budget-Ends n (get_max_num_running_seqs group) t)
                    λ fits fitting.
                      if-Ends fits (resume_group setting group n pass) (pure (false, pass)) t
                        (λ h. resume_group-SwapRounds group n pass t is (fitting h))
                        (λ _.
                          ok-Ends (false, pass) t
                            (stop-SwapRounds r pass group is, same_Advances t t refl))

  on_swap_status-SwapRounds :
      (status : AllocStatus) (chunking : Bool) (group : SequenceGroup) (pass : SwappedPass Move)
      (t : Turn M)
      → front pass.swapped_queue ≡ some group
      → Ends
          (λ round u. SwapRounds r pass round × Advances t u)
          Stops
          (on_swap_status setting status chunking group pass t)
  unfolding on_swap_status
  on_swap_status-SwapRounds alloc_ok chunking group pass t is =
      offer_swapped-SwapRounds chunking group pass t is
  on_swap_status-SwapRounds alloc_later chunking group pass t is =
      ok-Ends (false, pass) t (stop-SwapRounds r pass group is, same_Advances t t refl)
  on_swap_status-SwapRounds alloc_never chunking group pass t is =
      ok-Ends (true, fail_first group pass) t
        (fail-SwapRounds r pass group is, same_Advances t t refl)

  swapped_loop-total :
      (fuel : ℕ) (chunking : Bool) (pass : SwappedPass Move) (t : Turn M)
      → length pass.swapped_queue < fuel
      → Ends
          (λ next u. (swapped_total r next ≡ swapped_total r pass) × Advances t u)
          Stops
          (swapped_loop setting fuel chunking pass t)
  unfolding swapped_loop
  swapped_loop-total zero chunking pass t enough = absurd (omega arith)
  swapped_loop-total (suc fuel) chunking pass t enough =
      if-Ends (queue_empty pass.swapped_queue) (pure pass) _ t
        (λ _. ok-Ends pass t (refl, same_Advances t t refl))
        λ _. bind-Ends (or_raise index_error (front pass.swapped_queue)) _ t (
          or_raise-Ends (front pass.swapped_queue) index_error t (λ e. cc)
            λ group is. bind-Ends (on_manager (setting.manager.can_swap_in group)) _ t (
              Ends-weaken _
                (λ status u k. bind-Ends (on_swap_status setting status chunking group pass) _ u (
                  Ends-weaken _
                    (λ round v h.
                      let done = Advances-trans t u v (Kept-Advances t u k) (h.1) in
                      if-Ends (round.0) (swapped_loop setting fuel chunking (round.1))
                        (pure (round.1)) v
                        (λ again.
                          Ends-weaken _
                            (λ next w rest. (rest.0 ∙ h.0.0, Advances-trans t v w done (rest.1)))
                            (swapped_loop-total fuel chunking (round.1) v
                              (omega (arith, h.0.1 again))))
                        (λ _. ok-Ends (round.1) v (h.0.0, done)))
                    (on_swap_status-SwapRounds status chunking group pass u is)))
                (on_manager-Keeps (setting.manager.can_swap_in group) (laws.can_swap_in-Halts group)
                  t)))

  -- When no method of the block manager loops without end, neither does a pass over swapped-out
  -- requests; it leaves the scheduler's own queues alone, and a budget within its limits stays
  -- within them. When it returns, each request of the queue that it was given is as often in the
  -- queue that it returns and the three lists of its outputs together.
  pub schedule_swapped-conserves :
      (policy : PolicyName) (chunking : Bool) (queue : List SequenceGroup) (t : Turn M)
      → Ends
          (λ (left, out) u.
            (of_groups r left
                + (of_scheduled r out.decode_seq_groups
                    + of_scheduled r out.prefill_seq_groups
                    + of_groups r out.infeasible_seq_groups)
              ≡ of_groups r queue)
            × QueuesKept t u
            × (IsWithin t.budget → IsWithin u.budget))
          Stops
          (schedule_swapped setting queue policy chunking t)
  unfolding schedule_swapped
  schedule_swapped-conserves policy chunking queue t =
      let time : ℕ = setting.clock t.scheduler.clock_reads in
      let t1 : Turn M = (now setting t).1 in
      bind-Ends (lift_result (sort_by_priority policy (1, 2) time queue)) _ t1 (
        Ends-weaken _
          (λ sorted u same.
            bind-Ends (swapped_loop setting (suc (length sorted)) chunking (start_swapped sorted)) _
              u
              (Ends-weaken _
                (λ pass v h.
                  let moved : Advances t v =
                    Advances-trans t u v
                      (Advances-trans t t1 u (unmoved refl refl refl, λ w. w)
                        (same_Advances t1 u (same.1)))
                      (h.1) in
                  ok-Ends _ v (omega (arith, h.0, same.0), moved.0, moved.1))
                (swapped_loop-total (suc (length sorted)) chunking (start_swapped sorted) u
                  (omega arith))))
          (sort_by_priority-Ends r policy (1, 2) time queue t1))
