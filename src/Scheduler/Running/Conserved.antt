-- ===== src/Scheduler/Running/Conserved.antt =====
-- `_schedule_running` ends, and each request of its queue is in one of its outputs.
use e_llm.Prelude.{
  ℕ, zero, suc, ◌+◌, ◌≡◌, refl, ap, ◌≤◌, ◌<◌, Bool, true, false, List, [], ◌∷◌, ◌++◌, length,
  nat_beq, nat_eq, if◌then◌else◌, arith,
}
use e_llm.Exec.{Exec, ◌>>=◌, pure, or_raise, index_error}
use e_llm.Exec.Outcomes.{Ends, Stops, ok-Ends, bind-Ends, if-Ends, Ends-weaken, or_raise-Ends}
use e_llm.Sequence.{SequenceStatus}
use e_llm.SequenceGroup.{group_prefill, SequenceGroup}
use e_llm.Scheduler.{
  Setting, Turn, ScheduledSequenceGroup, PolicyName, now, on_manager, num_new_tokens,
}
use e_llm.Scheduler.Laws.{
  AlwaysHalts, Keeps, QueuesKept, unmoved, same-QueuesKept, QueuesKept-trans, on_manager-Keeps,
  num_new_tokens-Ends, of_groups, of_scheduled,
}
use e_llm.Scheduler.Policies.{sort_by_priority}
use e_llm.Scheduler.Policies.Counts.{sort_by_priority-Ends}
use e_llm.Scheduler.Groups.{append_group}
use e_llm.Scheduler.Groups.Identity.{append_group-Keeps, chained, same_state}
use e_llm.Scheduler.Running.{
  RunningPass, front, behind, queue_empty, make_room, run_group, run_queue, used_blocks,
  start_running, running_outputs, schedule_running, keep_running, lift_result,
}
use e_llm.Scheduler.Running.Tallies.{
  hit, total, HasRoom, keep_running-queue, keep_running-total, queue_empty-nil, front-behind,
  group_prefill-Ends,
}
use e_llm.Scheduler.Running.Rooms.{make_room-counts}

module _ {M Move : Type 0} (setting : Setting M Move) (laws : AlwaysHalts setting.manager) where
  run_group-counts :
      (r : ℕ) (chunking : Bool) (group : SequenceGroup) (n : ℕ) (pass : RunningPass Move)
      (t : Turn M)
      → Ends
          (λ pass' u.
            (pass'.running_queue ≡ pass.running_queue)
            × (total r pass' ≡ total r pass + hit r group)
            × QueuesKept t u)
          Stops
          (run_group setting chunking group n pass t)
  unfolding run_group
  run_group-counts r chunking group n pass t =
      bind-Ends (append_group setting group pass.blocks_to_copy) _ t (
        Ends-weaken _
          (λ moves u k. bind-Ends (lift_result (group_prefill group)) _ u (
            Ends-weaken _
              (λ is_prefill v same. ok-Ends (keep_running is_prefill group n moves pass) _ (
                keep_running-queue is_prefill group n moves pass,
                keep_running-total r is_prefill group n moves pass,
                QueuesKept-trans t v _ (QueuesKept-trans t u v k.queues_kept (same-QueuesKept same))
                    (unmoved refl refl refl),
              ))
              (group_prefill-Ends group u)))
          (append_group-Keeps setting laws group pass.blocks_to_copy t))

  served-counts :
      (r : ℕ) (chunking : Bool) (group : SequenceGroup) (n : ℕ) (pass : RunningPass Move)
      (made : Bool × RunningPass Move) (t : Turn M)
      → HasRoom r group pass made
      → Ends
          (λ next u.
            (length next.running_queue ≤ length pass.running_queue)
            × (total r next ≡ total r pass + hit r group)
            × QueuesKept t u)
          Stops
          ((if made.0 then run_group setting chunking group n (made.1) else pure (made.1)) t)
  served-counts r chunking group n pass (true, pass') t (short, counted) =
      Ends-weaken _
        (λ next u h. (omega (arith, short, ap length (h.0)), omega (arith, counted, h.1), h.2))
        (run_group-counts r chunking group n pass' t)
  served-counts r chunking group n pass (false, pass') t (short, counted) =
      ok-Ends pass' t (short, omega (arith, counted), unmoved refl refl refl)

  -- Room for the first group of a queue, its round, and what follows.
  serve-counts :
      (r : ℕ) (chunking : Bool) (group : SequenceGroup) (n fuel : ℕ) (pass : RunningPass Move)
      (t : Turn M) {A : Type 0} {P : A → Turn M → Type 0}
      (after : RunningPass Move → Exec (Turn M) A)
      → length pass.running_queue < fuel
      → ((next : RunningPass Move) (u : Turn M)
          → length next.running_queue ≤ length pass.running_queue
          → total r next ≡ total r pass + hit r group
          → QueuesKept t u
          → Ends P Stops (after next u))
      → Ends P Stops (
          (do
            made ← make_room setting fuel group n pass
            next ← if made.0 then run_group setting chunking group n (made.1) else pure (made.1)
            after next)
            t)
  serve-counts r chunking group n fuel pass t after enough onward =
      bind-Ends (make_room setting fuel group n pass) _ t (
        Ends-weaken _
          (λ made u room.
            bind-Ends
              (if made.0 then run_group setting chunking group n (made.1) else pure (made.1)) after
              u
              (Ends-weaken _
                (λ next v done.
                  onward next v (done.0) (done.1) (QueuesKept-trans t u v (room.1) (done.2)))
                (served-counts r chunking group n pass made u (room.0))))
          (make_room-counts setting laws r fuel group n pass t enough))

  run_queue-counts :
      (r fuel : ℕ) (chunking : Bool) (pass : RunningPass Move) (t : Turn M)
      → length pass.running_queue < fuel
      → Ends
          (λ pass' u.
            (total r pass' ≡ total r pass)
            × (chunking ≡ false → pass'.running_queue ≡ [])
            × QueuesKept t u)
          Stops
          (run_queue setting fuel chunking pass t)
  unfolding run_queue
  run_queue-counts r zero chunking pass t enough = absurd (omega arith)
  run_queue-counts r (suc fuel) chunking pass t enough =
      if-Ends (queue_empty pass.running_queue) (pure pass) _ t
        (λ none_left.
          ok-Ends pass t
            (refl, (λ _. queue_empty-nil pass.running_queue none_left), unmoved refl refl refl))
        (λ some_left. bind-Ends (or_raise index_error (front pass.running_queue)) _ t (
          or_raise-Ends (front pass.running_queue) index_error t (λ is. cc)
            (λ group is.
              let split = ap (of_groups r) (front-behind pass.running_queue group is) in
              let longer = ap length (front-behind pass.running_queue group is) in
              bind-Ends (num_new_tokens group SequenceStatus.running chunking) _ t (
                Ends-weaken _
                  (λ n t' new.
                    let same : QueuesKept t t' = same-QueuesKept (new.0) in
                    if-Ends (nat_beq n 0) (pure pass) _ t'
                      (λ no_tokens.
                        ok-Ends pass t'
                          (refl, (λ whole. absurd (ground (arith, new, no_tokens, whole))), same))
                      (λ tokens.
                        serve-counts r chunking group n (length pass.running_queue)
                          (record pass { running_queue = behind pass.running_queue }) t' _
                          (omega (arith, longer))
                          (λ next v shorter counted kept.
                            Ends-weaken _
                              (λ last w rest. (
                                omega (arith, rest.0, counted, split),
                                rest.1,
                                QueuesKept-trans t t' w same
                                    (QueuesKept-trans t' v w kept (rest.2)),
                              ))
                              (run_queue-counts r fuel chunking next v
                                (omega (arith, shorter, longer))))))
                  (num_new_tokens-Ends group SequenceStatus.running chunking t)))))

  pub used_blocks-Keeps :
      (scheduled : List ScheduledSequenceGroup) → Keeps (used_blocks setting scheduled)
  unfolding used_blocks
  used_blocks-Keeps [] t = ok-Ends [] t (same_state t)
  used_blocks-Keeps (s ∷ scheduled) t =
      chained (on_manager (setting.manager.get_seq_used_block_id s.seq_group)) _ t
        (on_manager-Keeps (setting.manager.get_seq_used_block_id s.seq_group)
          (laws.get_seq_used_block_id-Halts s.seq_group))
        λ ids u.
          chained (used_blocks setting scheduled) (λ rest. pure (ids ++ rest)) u
            (used_blocks-Keeps scheduled) λ rest v. ok-Ends (ids ++ rest) v (same_state v)

  -- When no method of the block manager loops without end, neither does a pass over running
  -- requests; it leaves the scheduler's own queues alone. When it returns, each request of the queue
  -- that it was given is as often in what it returns, the rest of the queue and the four lists of its
  -- outputs together, as in that queue; and without chunking nothing of the queue is left.
  pub schedule_running-conserves :
      (r : ℕ) (policy : PolicyName) (chunking : Bool) (queue : List SequenceGroup) (t : Turn M)
      → Ends
          (λ (left, out) u.
            (of_groups r left
                + (of_scheduled r out.decode_seq_groups
                    + of_scheduled r out.prefill_seq_groups
                    + of_groups r out.preempted
                    + of_groups r out.swapped_out)
              ≡ of_groups r queue)
            × (chunking ≡ false → left ≡ [])
            × QueuesKept t u)
          Stops
          (schedule_running setting queue policy chunking t)
  unfolding schedule_running
  schedule_running-conserves r policy chunking queue t =
      bind-Ends (lift_result (sort_by_priority policy (1, 2) time queue)) _ (after_reading t) (
        Ends-weaken _
          (λ sorted u same.
            bind-Ends (run_queue setting (suc (length sorted)) chunking (start_running sorted)) _ u
              (Ends-weaken _
                (λ pass v h. bind-Ends (used_blocks setting pass.decode_seq_groups) _ v (
                  Ends-weaken _
                    (λ decode_ids w k. bind-Ends (used_blocks setting pass.prefill_seq_groups) _ w (
                      Ends-weaken _
                        (λ prefill_ids x k'.
                          ok-Ends
                            (
                              pass.running_queue,
                              running_outputs setting pass (decode_ids ++ prefill_ids),
                            )
                            x
                            (
                              omega (arith, h.0, same.0),
                              h.1,
                              QueuesKept-trans t u x
                                  (QueuesKept-trans t (after_reading t) u (unmoved refl refl refl)
                                    (same-QueuesKept (same.1)))
                                  (QueuesKept-trans u v x (h.2)
                                    (QueuesKept-trans v w x k.queues_kept k'.queues_kept)),
                            ))
                        (used_blocks-Keeps pass.prefill_seq_groups w)))
                    (used_blocks-Keeps pass.decode_seq_groups v)))
                (run_queue-counts r (suc (length sorted)) chunking (start_running sorted) u
                  (omega arith))))
          (sort_by_priority-Ends r policy (1, 2) time queue (after_reading t)))
    where
      time : ℕ
      time = setting.clock t.scheduler.clock_reads

      after_reading : Turn M → Turn M
      after_reading t' = (now setting t').1
