-- ===== src/Scheduler/Running/Victims.antt =====
-- `_schedule_running` serves the first requests in the order of the policy and preempts the last.
use e_llm.Prelude.{ℕ, suc, ◌≡◌, refl, sym, Bool, List, [], ◌++◌, length, nat_eq, arith, inl, inr}
use mathlib.Core.List.{append-nil}
use e_llm.Exec.{Result-cases, ok}
use e_llm.Exec.Outcomes.{Ends, Stops, ok-Ends, err-Ends, bind-Ends, Ends-weaken}
use e_llm.SequenceGroup.{SequenceGroup}
use e_llm.Scheduler.{Setting, Turn, PolicyName, now}
use e_llm.Scheduler.Policies.{sort_by_priority}
use e_llm.Scheduler.Policies.Counts.{sort_by_priority-Ends}
use e_llm.Scheduler.Laws.{AlwaysHalts}
use e_llm.Scheduler.Running.{
  front, run_queue, lift_result, start_running, used_blocks, running_outputs, schedule_running,
}
use e_llm.Scheduler.Running.Conserved.{used_blocks-Keeps}
use e_llm.Scheduler.Running.Priority.{ids_of}
use e_llm.Scheduler.Running.Evictions.{run_queue-Split, SplitsQueue}

module _ {M Move : Type 0} (setting : Setting M Move) (laws : AlwaysHalts setting.manager) where
  sorted-Ends :
      (policy : PolicyName) (time : ℕ) (queue : List SequenceGroup) (t : Turn M)
      → Ends
          (λ sorted u. (u ≡ t) × (sort_by_priority policy (1, 2) time queue ≡ ok sorted))
          Stops
          (lift_result (sort_by_priority policy (1, 2) time queue) t)
  sorted-Ends policy time queue t =
      let halts = sort_by_priority-Ends 0 policy (1, 2) time queue t in
      elim (Result-cases (sort_by_priority policy (1, 2) time queue)) [
        | inl (sorted, is) ↦ rw is (ok-Ends sorted t (refl, refl))
        | inr (e, is) ↦ rw is (err-Ends e t (rw is at halts).outcome_of)
      ]

  -- When no method of the block manager loops without end, a pass over running requests serves the
  -- first requests and preempts the last: when it returns, the queue sorted by the policy is a list
  -- of requests, the requests that are left, and another list; the scheduled requests are those of
  -- the first list, and the preempted and swapped-out ones those of the last, each as often.
  pub schedule_running-preempts_last :
      (policy : PolicyName) (chunking : Bool) (queue : List SequenceGroup) (t : Turn M)
      → Ends
          (λ (left, out) _.
            SplitsQueue
              (sort_by_priority policy (1, 2) (setting.clock t.scheduler.clock_reads) queue)
              left
              out)
          Stops
          (schedule_running setting queue policy chunking t)
  unfolding schedule_running
  schedule_running-preempts_last policy chunking queue t =
      let time : ℕ = setting.clock t.scheduler.clock_reads in
      let t1 : Turn M = (now setting t).1 in
      bind-Ends (lift_result (sort_by_priority policy (1, 2) time queue)) _ t1 (
        Ends-weaken _
          (λ sorted u is.
            bind-Ends (run_queue setting (suc (length sorted)) chunking (start_running sorted)) _ u
              (Ends-weaken _
                (λ pass v (served, evicted, parts, front, back).
                  bind-Ends (used_blocks setting pass.decode_seq_groups) _ v (
                    Ends-weaken _
                      (λ decode_ids w _.
                        bind-Ends (used_blocks setting pass.prefill_seq_groups) _ w (
                          Ends-weaken _
                            (λ prefill_ids x _.
                              ok-Ends
                                (
                                  pass.running_queue,
                                  running_outputs setting pass (decode_ids ++ prefill_ids),
                                )
                                x (sorted, is.1, served, evicted, parts, front, back))
                            (used_blocks-Keeps setting laws pass.prefill_seq_groups w)))
                      (used_blocks-Keeps setting laws pass.decode_seq_groups v)))
                (run_queue-Split setting laws (ids_of sorted) (suc (length sorted)) chunking
                  (start_running sorted) u (omega arith)
                  ([], [], sym (append-nil (ids_of sorted)), λ r. refl, λ r. refl))))
          (sorted-Ends policy time queue t1))
