-- ===== src/Scheduler/Running/Rooms.antt =====
-- The inner loop of `_schedule_running` ends, and each request that it preempts is in one of its lists.
use e_llm.Prelude.{
  ℕ, zero, suc, ◌+◌, ◌≡◌, refl, ap, ◌∙◌, ◌<◌, ◌-◌, true, false, List, length, nat_eq, if◌then◌else◌,
  arith,
}
use e_llm.Exec.{pure, ◌>>=◌}
use e_llm.Exec.Outcomes.{Ends, Stops, ok-Ends, bind-Ends, if-Ends, Ends-weaken}
use e_llm.SequenceGroup.{SequenceGroup}
use e_llm.Scheduler.{Setting, Turn, PreemptionMode, can_append}
use e_llm.Scheduler.Laws.{AlwaysHalts, Kept, QueuesKept, QueuesKept-trans, can_append-Keeps}
use e_llm.Scheduler.Groups.{preempt}
use e_llm.Scheduler.Groups.Identity.{SameRequest, preempt-SameRequest}
use e_llm.Scheduler.Running.{
  RunningPass, victim, queue_empty, without_last, withdraw, put_away, preempt_group, make_room,
}
use e_llm.Scheduler.Running.Tallies.{
  hit, placed, length-without_last, length-queue_empty, HasRoom, preempted-total, tally-joined,
  withdraw-QueuesKept,
}

module _ {M Move : Type 0} (setting : Setting M Move) (laws : AlwaysHalts setting.manager) where
  preempt_group-counts :
      (r : ℕ) (victim : SequenceGroup) (pass : RunningPass Move) (t : Turn M)
      → Ends
          (λ pass' u.
            (pass'.running_queue ≡ pass.running_queue)
            × (placed r pass' ≡ placed r pass + hit r victim)
            × Kept t u)
          Stops
          (preempt_group setting victim pass t)
  unfolding preempt_group
  preempt_group-counts r victim pass t =
      bind-Ends (preempt setting victim pass.blocks_to_swap_out) _ t (
        Ends-weaken _ (λ done u h. counted done u h)
          (preempt-SameRequest setting laws victim pass.blocks_to_swap_out t))
    where
      counted :
          (done : PreemptionMode × SequenceGroup × List Move) (u : Turn M)
          → SameRequest victim (done.1) × Kept t u
          → Ends
              (λ pass' v.
                (pass'.running_queue ≡ pass.running_queue)
                × (placed r pass' ≡ placed r pass + hit r victim)
                × Kept t v)
              Stops
              (pure (put_away (done.0) (done.1) (done.2) pass) u)
      counted (PreemptionMode.recompute, victim', moves) u (is, k) =
          ok-Ends _ u (refl, omega (arith, tally-joined r pass.preempted victim' victim is), k)
      counted (PreemptionMode.swap, victim', moves) u (is, k) =
          ok-Ends _ u (refl, omega (arith, tally-joined r pass.swapped_out victim' victim is), k)

  preempting-counts :
      (r fuel : ℕ) (group : SequenceGroup) (n : ℕ) (pass : RunningPass Move) (t v : Turn M)
      → QueuesKept t v
      → length pass.running_queue < suc fuel
      → ((pass' : RunningPass Move) (w : Turn M)
          → length pass'.running_queue < fuel
          → Ends
              (λ made u. HasRoom r group pass' made × QueuesKept w u)
              Stops
              (make_room setting fuel group n pass' w))
      → Ends
          (λ made u. HasRoom r group pass made × QueuesKept t u)
          Stops
          ((preempt_group setting
                (victim group pass.running_queue)
                (record pass { running_queue = without_last pass.running_queue })
              >>= λ pass'.
                  if queue_empty pass.running_queue
                  then pure (false, pass')
                  else make_room setting fuel group n pass')
            v)
  preempting-counts r fuel group n pass t v k enough again =
      let short : length (without_last pass.running_queue) ≡ length pass.running_queue - 1 =
        length-without_last pass.running_queue in
      bind-Ends
        (preempt_group setting (victim group pass.running_queue)
          (record pass { running_queue = without_last pass.running_queue }))
        _ v
        (Ends-weaken _
          (λ pass' w h.
            let shorter : length pass'.running_queue ≡ length pass.running_queue - 1 =
              ap length (h.0) ∙ short in
            let counted = preempted-total r group pass pass' (h.0) (h.1) in
            if-Ends (queue_empty pass.running_queue) (pure (false, pass'))
              (make_room setting fuel group n pass') w
              (λ alone.
                ok-Ends (false, pass') w
                  (
                    (omega (arith, shorter), ground (arith, alone, counted)),
                    QueuesKept-trans t v w k (h.2.queues_kept),
                  ))
              (λ others.
                Ends-weaken _
                  (λ made x m. (
                    (omega (arith, shorter, m.0.0), ground (arith, others, counted, m.0.1)),
                    QueuesKept-trans t w x (QueuesKept-trans t v w k (h.2.queues_kept)) (m.1),
                  ))
                  (again pass' w
                    (omega (arith, shorter, length-queue_empty pass.running_queue others)))))
          (preempt_group-counts r (victim group pass.running_queue)
            (record pass { running_queue = without_last pass.running_queue }) v))

  pub make_room-counts :
      (r fuel : ℕ) (group : SequenceGroup) (n : ℕ) (pass : RunningPass Move) (t : Turn M)
      → length pass.running_queue < fuel
      → Ends
          (λ made u. HasRoom r group pass made × QueuesKept t u)
          Stops
          (make_room setting fuel group n pass t)
  unfolding make_room
  make_room-counts r zero group n pass t enough = absurd (omega arith)
  make_room-counts r (suc fuel) group n pass t enough = bind-Ends (can_append setting group) _ t (
      Ends-weaken _
        (λ room u k.
          if-Ends room (pure (true, pass)) _ u
            (λ _. ok-Ends (true, pass) u ((omega arith, refl), k.queues_kept))
            (λ _. bind-Ends (withdraw group n) _ u (
              Ends-weaken _
                (λ _ v k'.
                  preempting-counts r fuel group n pass t v
                    (QueuesKept-trans t u v k.queues_kept k') enough
                    (λ pass' w. make_room-counts r fuel group n pass' w))
                (withdraw-QueuesKept group n u))))
        (can_append-Keeps setting laws group t))
