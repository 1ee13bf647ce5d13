-- ===== src/Scheduler/Running/Evictions.antt =====
-- The rounds of _schedule_running: what make_room preempts, and what the queue becomes.
use e_llm.Prelude.{
  ℕ, zero, suc, ◌+◌, ◌<◌, ◌≤◌, ◌≡◌, refl, sym, ap, ◌∙◌, subst, Bool, true, false, List, [], ◌∷◌,
  ◌++◌, length, count, nat_beq, nat_eq, if◌then◌else◌, arith,
}
use e_llm.Exec.{Result, ok, pure, or_raise, index_error}
use e_llm.Exec.Outcomes.{Ends, Stops, ok-Ends, bind-Ends, if-Ends, or_raise-Ends, Ends-weaken}
use e_llm.Sequence.{SequenceStatus}
use e_llm.SequenceGroup.{SequenceGroup, group_prefill}
use e_llm.Scheduler.{Setting, Turn, PreemptionMode, can_append, num_new_tokens}
use e_llm.Scheduler.Laws.{
  AlwaysHalts, tally-append, of_groups, of_scheduled, can_append-Keeps, num_new_tokens-Ends,
}
use e_llm.Scheduler.Groups.{preempt, append_group}
use e_llm.Scheduler.Groups.Identity.{SameRequest, preempt-SameRequest, append_group-Keeps}
use e_llm.Scheduler.Running.{
  RunningPass, front, behind, victim, queue_empty, without_last, withdraw, put_away, preempt_group,
  make_room, run_group, run_queue, keep_running, lift_result, SchedulerRunningOutputs,
}
use e_llm.Scheduler.Running.Tallies.{
  tally-joined, front-behind, length-queue_empty, length-without_last, withdraw-QueuesKept,
  group_prefill-Ends,
}
use e_llm.Scheduler.Running.Priority.{ids_of, evict-Split, Split, Evicts, Serves, Serves-Split}

module _ {Move : Type 0} where
  put_away-Evicts :
      (mode : PreemptionMode) (group group' : SequenceGroup) (moves : List Move)
      (pass : RunningPass Move)
      → SameRequest group group'
      → Evicts group pass (put_away mode group' moves pass)
  put_away-Evicts PreemptionMode.recompute group group' moves pass same = record {
    same_queue = refl;
    same_decode = refl;
    same_prefill = refl;
    one_more = λ r. omega (arith, tally-joined r pass.preempted group' group same);
  }
  put_away-Evicts PreemptionMode.swap group group' moves pass same = record {
    same_queue = refl;
    same_decode = refl;
    same_prefill = refl;
    one_more = λ r. omega (arith, tally-joined r pass.swapped_out group' group same);
  }

  keep_running-Serves :
      (is_prefill : Bool) (group : SequenceGroup) (n : ℕ) (moves : List Move)
      (pass : RunningPass Move)
      → Serves group pass (keep_running is_prefill group n moves pass)
  keep_running-Serves true group n moves pass = record {
    queue_same = refl;
    preempted_same = refl;
    swapped_same = refl;
    scheduled_more = λ r. omega (
      arith,
      tally-append (λ s. s.seq_group.request_id) r pass.prefill_seq_groups
          (record { seq_group = group; token_chunk_size = n } ∷ []),
    );
  }
  keep_running-Serves false group n moves pass = record {
    queue_same = refl;
    preempted_same = refl;
    swapped_same = refl;
    scheduled_more = λ r. omega (
      arith,
      tally-append (λ s. s.seq_group.request_id) r pass.decode_seq_groups
          (record { seq_group = group; token_chunk_size = 1 } ∷ []),
    );
  }

-- After the inner loop: what lies between the served and the preempted requests.
abbrev MadeRoom :
    {Move : Type 0} → List ℕ → SequenceGroup → RunningPass Move → Bool × RunningPass Move → Type 0
MadeRoom sorted group pass (room, pass') =
    (length pass'.running_queue ≤ length pass.running_queue)
    × Split sorted ((if room then group.request_id ∷ [] else []) ++ ids_of pass'.running_queue)
        pass'

module _ {M Move : Type 0} (setting : Setting M Move) (laws : AlwaysHalts setting.manager)
    (sorted : List ℕ) where
  preempt_group-Evicts :
      (group : SequenceGroup) (pass : RunningPass Move) (t : Turn M)
      → Ends (λ pass' _. Evicts group pass pass') Stops (preempt_group setting group pass t)
  unfolding preempt_group
  preempt_group-Evicts group pass t =
      bind-Ends (preempt setting group pass.blocks_to_swap_out) _ t (
        Ends-weaken _
          (λ done u h. ok-Ends _ u (put_away-Evicts (done.0) group (done.1) (done.2) pass (h.0)))
          (preempt-SameRequest setting laws group pass.blocks_to_swap_out t))

  run_group-Serves :
      (chunking : Bool) (group : SequenceGroup) (n : ℕ) (pass : RunningPass Move) (t : Turn M)
      → Ends (λ pass' _. Serves group pass pass') Stops (run_group setting chunking group n pass t)
  unfolding run_group
  run_group-Serves chunking group n pass t =
      bind-Ends (append_group setting group pass.blocks_to_copy) _ t (
        Ends-weaken _
          (λ moves u k. bind-Ends (lift_result (group_prefill group)) _ u (
            Ends-weaken _
              (λ is_prefill v same.
                ok-Ends (keep_running is_prefill group n moves pass) _
                  (keep_running-Serves is_prefill group n moves pass))
              (group_prefill-Ends group u)))
          (append_group-Keeps setting laws group pass.blocks_to_copy t))

  make_room-MadeRoom :
      (fuel : ℕ) (group : SequenceGroup) (n : ℕ) (pass : RunningPass Move) (t : Turn M)
      → length pass.running_queue < fuel
      → Split sorted (group.request_id ∷ ids_of pass.running_queue) pass
      → Ends
          (λ made _. MadeRoom sorted group pass made)
          Stops
          (make_room setting fuel group n pass t)
  unfolding make_room
  make_room-MadeRoom zero group n pass t enough split = absurd (omega arith)
  make_room-MadeRoom (suc fuel) group n pass t enough split =
      let shrunk : RunningPass Move = record pass {
        running_queue = without_last pass.running_queue;
      } in
      let last : SequenceGroup = victim group pass.running_queue in
      let short = length-without_last pass.running_queue in
      bind-Ends (can_append setting group) _ t (
        Ends-weaken _
          (λ room u k.
            if-Ends room (pure (true, pass)) _ u (λ _. ok-Ends (true, pass) u (omega arith, split))
              (λ _. bind-Ends (withdraw group n) _ u (
                Ends-weaken _
                  (λ _ v _. bind-Ends (preempt_group setting last shrunk) _ v (
                    Ends-weaken _
                      (λ pass' w e.
                        let shorter = ap length e.same_queue ∙ short in
                        let after =
                          evict-Split sorted group pass.running_queue shrunk pass' refl e split in
                        if-Ends (queue_empty pass.running_queue) (pure (false, pass'))
                          (make_room setting fuel group n pass') w
                          (λ alone.
                            ok-Ends (false, pass') w (omega (arith, shorter), rw alone at after))
                          (λ others.
                            Ends-weaken _ (λ made x m. (omega (arith, shorter, m.0), m.1))
                              (make_room-MadeRoom fuel group n pass' w
                                (omega
                                  (arith, shorter, length-queue_empty pass.running_queue others))
                                (rw others at after))))
                      (preempt_group-Evicts last shrunk v)))
                  (withdraw-QueuesKept group n u))))
          (can_append-Keeps setting laws group t))

  served-Split :
      (chunking : Bool) (group : SequenceGroup) (n : ℕ) (pass : RunningPass Move)
      (made : Bool × RunningPass Move) (t : Turn M)
      → MadeRoom sorted group pass made
      → Ends
          (λ next _.
            (length next.running_queue ≤ length pass.running_queue)
            × Split sorted (ids_of next.running_queue) next)
          Stops
          ((if made.0 then run_group setting chunking group n (made.1) else pure (made.1)) t)
  served-Split chunking group n pass (true, pass') t (short, split) =
      Ends-weaken _
        (λ next u s. (
          omega (arith, short, ap length s.queue_same),
          subst (λ q. Split sorted (ids_of q) next) (sym s.queue_same)
              (Serves-Split sorted (ids_of pass'.running_queue) group pass' next s split),
        ))
        (run_group-Serves chunking group n pass' t)
  served-Split chunking group n pass (false, pass') t (short, split) =
      ok-Ends pass' t (short, split)

  pub run_queue-Split :
      (fuel : ℕ) (chunking : Bool) (pass : RunningPass Move) (t : Turn M)
      → length pass.running_queue < fuel
      → Split sorted (ids_of pass.running_queue) pass
      → Ends
          (λ pass' _. Split sorted (ids_of pass'.running_queue) pass')
          Stops
          (run_queue setting fuel chunking pass t)
  unfolding run_queue
  run_queue-Split zero chunking pass t enough split = absurd (omega arith)
  run_queue-Split (suc fuel) chunking pass t enough split =
      if-Ends (queue_empty pass.running_queue) (pure pass) _ t (λ _. ok-Ends pass t split)
        λ _. bind-Ends (or_raise index_error (front pass.running_queue)) _ t (
          or_raise-Ends (front pass.running_queue) index_error t (λ e. cc)
            λ group is.
              let queue = front-behind pass.running_queue group is in
              let longer = ap length queue in
              let rest : RunningPass Move = record pass {
                running_queue = behind pass.running_queue;
              } in
              let split' : Split sorted (group.request_id ∷ ids_of (behind pass.running_queue))
                  pass =
                subst (λ q. Split sorted (ids_of q) pass) queue split in
              bind-Ends (num_new_tokens group SequenceStatus.running chunking) _ t (
                Ends-weaken _
                  (λ n t' new.
                    if-Ends (nat_beq n 0) (pure pass) _ t' (λ _. ok-Ends pass t' split)
                      λ _.
                        bind-Ends (make_room setting (length pass.running_queue) group n rest) _ t'
                          (Ends-weaken _
                            (λ made u room.
                              bind-Ends
                                (if made.0
                                  then run_group setting chunking group n (made.1)
                                  else pure (made.1))
                                _ u
                                (Ends-weaken _
                                  (λ next v done.
                                    run_queue-Split fuel chunking next v
                                      (omega (arith, done.0, longer)) (done.1))
                                  (served-Split chunking group n rest made u room)))
                            (make_room-MadeRoom (length pass.running_queue) group n rest t'
                              (omega (arith, longer)) split')))
                  (num_new_tokens-Ends group SequenceStatus.running chunking t)))

-- The requests served and preempted, as parts of the queue in the order of the policy.
abbrev pub SplitsQueue :
    {Move : Type 0}
    → Result (List SequenceGroup)
    → List SequenceGroup
    → SchedulerRunningOutputs Move
    → Type 0
SplitsQueue sort left out =
    (sorted : List SequenceGroup) × (sort ≡ ok sorted)
    × (served : List ℕ) × (evicted : List ℕ) × (ids_of sorted ≡ served ++ (ids_of left ++ evicted))
    × ((r : ℕ)
        → count r served
          ≡ of_scheduled r out.decode_seq_groups + of_scheduled r out.prefill_seq_groups)
    × ((r : ℕ) → count r evicted ≡ of_groups r out.preempted + of_groups r out.swapped_out)
