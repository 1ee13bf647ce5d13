-- ===== src/Scheduler/Prefills/Fairness.antt =====
-- `_schedule_prefills` ends, loses no request, reorders none that stays waiting, and keeps the budget.
use e_llm.Prelude.{
  ℕ, zero, suc, ◌+◌, ◌<◌, ◌≡◌, refl, ap, ◌∙◌, Bool, Bool-cases, inl, inr, true, false, not, ◌||◌,
  some, List, length, ltb, nat_beq, nat_eq, arith, Sublist, Sublist-refl, Sublist-trans,
}
use e_llm.Exec.{ok, pure, or_raise, assertion_error, index_error}
use e_llm.Exec.Outcomes.{
  Ends, Stops, ok-Ends, err-Ends, bind-Ends, if-Ends, or_raise-Ends, raise_if-Ends, Ends-weaken,
  read-Ends,
}
use e_llm.EllmBlockManager.{AllocStatus, alloc_ok, alloc_later, alloc_never}
use e_llm.SchedulingBudget.{can_schedule}
use e_llm.SchedulingBudget.Limits.{IsWithin}
use e_llm.Sequence.{Sequence, SequenceStatus}
use e_llm.SequenceGroup.{SequenceGroup, get_seqs, get_max_num_running_seqs}
use e_llm.Scheduler.{Setting, Turn, now, on_manager, num_new_tokens}
use e_llm.Scheduler.Laws.{
  AlwaysHalts, QueuesKept, unmoved, on_manager-Keeps, num_new_tokens-Ends, of_groups, of_scheduled,
}
use e_llm.Scheduler.Groups.{allocate_and_set_running}
use e_llm.Scheduler.Groups.Identity.{allocate_and_set_running-SameRequest}
use e_llm.Scheduler.Admission.{fits_budget, count_in, lora_waits, lora_of}
use e_llm.Scheduler.Admission.Limits.{
  Advances, Advances-trans, Kept-Advances, fits_budget-Ends, count_in-Advances, lora_waits-Ends,
  same_Advances,
}
use e_llm.Scheduler.Running.{queue_empty, front, add_lora, used_blocks}
use e_llm.Scheduler.Running.Conserved.{used_blocks-Keeps}
use e_llm.Scheduler.Prefills.{
  PrefillPass, start_prefills, ignore_first, leave_first, take_first, delay_over, note_time,
  get_prompt_limit, config_limit, start_prompt, offer_prompt, on_allocation, check_whole,
  prefill_round, prefill_loop, schedule_prefills, first_len, note_prompt,
}
use e_llm.Scheduler.Prefills.Moves.{
  left_waiting, Onward, Rounds, stop-Rounds, leave-Rounds, ignore-Rounds, take-Rounds,
}

module _ {M Move : Type 0} (setting : Setting M Move) (laws : AlwaysHalts setting.manager)
    (r : ℕ) where
  start_prompt-Rounds :
      (group : SequenceGroup) (n : ℕ) (pass : PrefillPass) (t : Turn M)
      → front pass.waiting_queue ≡ some group
      → can_schedule n (get_max_num_running_seqs group) t.budget ≡ (ok true, t.budget)
      → Ends
          (λ round u. Rounds r pass round × Advances t u)
          Stops
          (start_prompt setting group n pass t)
  unfolding start_prompt
  start_prompt-Rounds group n pass t is fits =
      let t1 : Turn M = add_lora (lora_of setting group) t in
      bind-Ends (allocate_and_set_running setting group) _ t1 (
        Ends-weaken _
          (λ group' u h. bind-Ends (count_in group n (get_max_num_running_seqs group)) _ u (
            Ends-weaken _
              (λ _ v k.
                ok-Ends (true, take_first group' n pass) v
                  (
                    take-Rounds r pass group is group' n (h.0),
                    Advances-trans t u v
                        (Advances-trans t t1 u (unmoved refl refl refl, λ w. w)
                          (Kept-Advances t1 u (h.1)))
                        k,
                  ))
              (count_in-Advances group n (get_max_num_running_seqs group) t u (h.1.budget_kept)
                fits)))
          (allocate_and_set_running-SameRequest setting laws group t1))

  offer_prompt-Rounds :
      (group : SequenceGroup) (n : ℕ) (pass : PrefillPass) (t : Turn M)
      → front pass.waiting_queue ≡ some group
      → Ends
          (λ round u. Rounds r pass round × Advances t u)
          Stops
          (offer_prompt setting group n pass t)
  unfolding offer_prompt
  offer_prompt-Rounds group n pass t is =
      read-Ends (lora_waits setting group) _ t
        (Ends-weaken _ (λ _ u same. (same, tt)) (lora_waits-Ends setting group t))
        λ waits _.
          if-Ends waits (pure (true, leave_first group pass)) _ t
            (λ _.
              ok-Ends (true, leave_first group pass) t
                (leave-Rounds r pass group is, same_Advances t t refl))
            λ _.
              read-Ends (fits_budget n (get_max_num_running_seqs group)) _ t
                (fits_budget-Ends n (get_max_num_running_seqs group) t)
                λ fits fitting.
                  if-Ends fits (start_prompt setting group n pass) (pure (false, pass)) t
                    (λ h. start_prompt-Rounds group n pass t is (fitting h))
                    (λ _.
                      ok-Ends (false, pass) t (stop-Rounds r pass group is, same_Advances t t refl))

  on_allocation-Rounds :
      (status : AllocStatus) (group : SequenceGroup) (n : ℕ) (pass : PrefillPass) (t : Turn M)
      → front pass.waiting_queue ≡ some group
      → Ends
          (λ round u. Rounds r pass round × Advances t u)
          Stops
          (on_allocation setting status group n pass t)
  unfolding on_allocation
  on_allocation-Rounds alloc_ok group n pass t is = offer_prompt-Rounds group n pass t is
  on_allocation-Rounds alloc_later group n pass t is =
      ok-Ends (false, pass) t (stop-Rounds r pass group is, same_Advances t t refl)
  on_allocation-Rounds alloc_never group n pass t is =
      ok-Ends (true, ignore_first group pass) t
        (ignore-Rounds r pass group is, same_Advances t t refl)

  check_whole-Ends :
      (chunking : Bool) (seqs : List Sequence) (n : ℕ) (t : Turn M)
      → Ends
          (λ _ u. (u ≡ t) × (chunking ≡ false → first_len seqs ≡ some n))
          Stops
          (check_whole setting chunking seqs n t)
  unfolding check_whole
  check_whole-Ends chunking seqs n t =
      if-Ends chunking (pure tt) _ t (λ h. ok-Ends tt t (refl, λ no_chunks. absurd (cc)))
        (λ _. bind-Ends (or_raise index_error (first_len seqs)) _ t (
          or_raise-Ends (first_len seqs) index_error t (λ is. cc)
            λ num_prompt_tokens is. elim (Bool-cases (nat_beq n num_prompt_tokens)) [
              | inl whole ↦ rw whole (ok-Ends tt t (refl, λ _. is ∙ ap some (ground arith)))
              | inr part ↦ rw part (err-Ends assertion_error t λ e. cc)
            ]))

  get_prompt_limit-Ends :
      (group : SequenceGroup) (t : Turn M)
      → Ends (λ _ u. u ≡ t) Stops (get_prompt_limit setting group t)
  unfolding get_prompt_limit
  get_prompt_limit-Ends group t =
      if-Ends (nat_beq group.long_lora_max_len 0) (pure (config_limit setting)) _ t
        (λ _. ok-Ends (config_limit setting) t refl)
        (λ _.
          raise_if-Ends (ltb group.long_lora_max_len (config_limit setting)) assertion_error
            (λ _. pure group.long_lora_max_len) t (λ _ is. cc)
            λ _. ok-Ends group.long_lora_max_len t refl)

  prefill_round-Rounds :
      (chunking : Bool) (group : SequenceGroup) (pass : PrefillPass) (t : Turn M)
      → front pass.waiting_queue ≡ some group
      → Ends
          (λ round u. Rounds r pass round × Advances t u)
          Stops
          (prefill_round setting chunking group pass t)
  unfolding prefill_round
  prefill_round-Rounds chunking group pass t is =
      raise_if-Ends (not (nat_beq (length (get_seqs SequenceStatus.waiting group)) 1))
        assertion_error _ t (λ _ e. cc)
        λ _.
          read-Ends (num_new_tokens group SequenceStatus.waiting chunking) _ t
            (Ends-weaken _ (λ _ u h. (h.0, tt))
              (num_new_tokens-Ends group SequenceStatus.waiting chunking t))
            λ n _.
              read-Ends (check_whole setting chunking (get_seqs SequenceStatus.waiting group) n) _ t
                (check_whole-Ends chunking (get_seqs SequenceStatus.waiting group) n t)
                λ _ _.
                  read-Ends (get_prompt_limit setting group) _ t
                    (Ends-weaken _ (λ _ u same. (same, tt)) (get_prompt_limit-Ends group t))
                    λ prompt_limit _.
                      if-Ends (ltb prompt_limit n) (pure (true, ignore_first group pass)) _ t
                        (λ _.
                          ok-Ends (true, ignore_first group pass) t
                            (ignore-Rounds r pass group is, same_Advances t t refl))
                        λ _. bind-Ends (on_manager (setting.manager.can_allocate group)) _ t (
                          Ends-weaken _
                            (λ status u k.
                              Ends-weaken _
                                (λ _ v h. (h.0, Advances-trans t u v (Kept-Advances t u k) (h.1)))
                                (on_allocation-Rounds status group n pass u is))
                            (on_manager-Keeps (setting.manager.can_allocate group)
                              (laws.can_allocate-Halts group) t))

  prefill_loop-Onward :
      (fuel : ℕ) (chunking : Bool) (pass : PrefillPass) (t : Turn M)
      → length pass.waiting_queue < fuel
      → Ends
          (λ next u. Onward r pass next × Advances t u)
          Stops
          (prefill_loop setting fuel chunking pass t)
  unfolding prefill_loop
  prefill_loop-Onward zero chunking pass t enough = absurd (omega arith)
  prefill_loop-Onward (suc fuel) chunking pass t enough =
      let time : ℕ = setting.clock t.scheduler.clock_reads in
      let u : Turn M = note_time setting time ((now setting t).1) in
      let k : Advances t u = (unmoved refl refl refl, λ w. w) in
      if-Ends
        (not (delay_over setting time u.scheduler.waiting u.scheduler)
          || queue_empty pass.waiting_queue)
        (pure pass) _ u (λ _. ok-Ends pass u ((refl, Sublist-refl (left_waiting pass)), k))
        λ _. bind-Ends (or_raise index_error (front pass.waiting_queue)) _ u (
          or_raise-Ends (front pass.waiting_queue) index_error u (λ e. cc)
            λ group is. bind-Ends (prefill_round setting chunking group pass) _ u (
              Ends-weaken _
                (λ round v h.
                  if-Ends (round.0) (prefill_loop setting fuel chunking (round.1)) (pure (round.1))
                    v
                    (λ again.
                      Ends-weaken _
                        (λ next w rest. (
                          (rest.0.0 ∙ h.0.0.0, Sublist-trans (h.0.0.1) (rest.0.1)),
                          Advances-trans t v w (Advances-trans t u v k (h.1)) (rest.1),
                        ))
                        (prefill_loop-Onward fuel chunking (round.1) v
                          (omega (arith, h.0.1 again))))
                    (λ _. ok-Ends (round.1) v (h.0.0, Advances-trans t u v k (h.1))))
                (prefill_round-Rounds chunking group pass u is)))

  -- When no method of the block manager loops without end, neither does a pass over waiting
  -- requests; it leaves the scheduler's own queues alone, and a budget within its limits stays
  -- within them. When it returns, each request of the queue that it was given is as often in the
  -- queue that it returns, the scheduled groups and the ignored ones together; and the queue that
  -- it returns is the given one with some requests left out, so that none overtakes another.
  pub schedule_prefills-fair :
      (chunking : Bool) (queue : List SequenceGroup) (t : Turn M)
      → Ends
          (λ (left, out) u.
            (of_groups r left + (of_scheduled r out.seq_groups + of_groups r out.ignored_seq_groups)
              ≡ of_groups r queue)
            × Sublist left queue
            × QueuesKept t u
            × (IsWithin t.budget → IsWithin u.budget))
          Stops
          (schedule_prefills setting queue chunking t)
  unfolding schedule_prefills
  schedule_prefills-fair chunking queue t =
      bind-Ends (prefill_loop setting (suc (length queue)) chunking (start_prefills queue)) _ t (
        Ends-weaken _
          (λ pass u h.
            bind-Ends (used_blocks setting pass.seq_groups) _ (note_prompt setting pass u) (
              Ends-weaken _
                (λ ids v k.
                  let moved : Advances t v = Advances-trans t u v (h.1) (
                    Advances-trans u (note_prompt setting pass u) v (unmoved refl refl refl, λ w. w)
                      (Kept-Advances (note_prompt setting pass u) v k)) in
                  ok-Ends _ v (omega (arith, h.0.0), h.0.1, moved.0, moved.1))
                (used_blocks-Keeps setting laws pass.seq_groups (note_prompt setting pass u))))
          (prefill_loop-Onward (suc (length queue)) chunking (start_prefills queue) t
            (omega arith)))
