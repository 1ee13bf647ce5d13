-- ===== src/Scheduler/Examples.antt =====
-- Runs of the scheduler, and its theorems at concrete states.
use e_llm.Prelude.{
  ℕ, ◌+◌, ◌≡◌, refl, false, some, List, [], ◌∷◌, nat_eq, if◌then◌else◌, nat_beq, any, min, Sublist,
}
use e_llm.Exec.{ok}
use e_llm.Exec.Outcomes.{Ends, Stops}
use e_llm.Scheduler.Groups.{append_group, swap_in_group, preempt}
use e_llm.SchedulingBudget.{subtract_num_seqs, subtract_num_batched_tokens}
use e_llm.SchedulingBudget.Limits.{IsWithin}
use e_llm.SequenceGroup.{SequenceGroup}
use e_llm.Dict.{contains, put}
use e_llm.Scheduler.{num_new_tokens, can_append, on_manager, fcfs_name}
use e_llm.Scheduler.Laws.{QueuesKept, of_groups, of_scheduled}
use e_llm.Scheduler.Policies.{sort_by_priority}
use e_llm.Scheduler.Policies.Arrival.{InArrivalOrder, arrived_at, fcfs-InArrivalOrder}
use e_llm.Scheduler.Running.{schedule_running}
use e_llm.Scheduler.Running.Conserved.{schedule_running-conserves}
use e_llm.Scheduler.Running.Victims.{schedule_running-preempts_last}
use e_llm.Scheduler.Running.Evictions.{SplitsQueue}
use e_llm.Scheduler.Prefills.{schedule_prefills}
use e_llm.Scheduler.Prefills.Fairness.{schedule_prefills-fair}
use e_llm.Scheduler.Swapped.{schedule_swapped}
use e_llm.Scheduler.Swapped.Fairness.{schedule_swapped-conserves}
use e_llm.Scheduler.Queues.{abort_seq_group}
use e_llm.Scheduler.Queues.Aborts.{AllFinished, abort_seq_group-removes}
use e_llm.Scheduler.Default.{schedule_default, schedule_chunked_prefill}
use e_llm.Scheduler.Default.Balance.{held}
use e_llm.Scheduler.Default.Chunked.{
  Accounted, schedule_default-balances, schedule_chunked_prefill-accounts,
}
use e_llm.Scheduler.Counting.{
  counting-AlwaysHalts, toy, newcomer, decoding, parked, later, starting, turn, queues,
}

-- With free blocks the swapped-out request comes back; without one the last to arrive is preempted.
default_with_room : queues (schedule_default toy 4 (starting 3)) ≡ some (1 ∷ [], 2 ∷ 4 ∷ 3 ∷ [], [])
unfolding schedule_default sort_by_priority num_new_tokens can_append on_manager append_group
    contains put swap_in_group
default_with_room = refl

default_without_room :
    queues (schedule_default toy 4 (starting 0)) ≡ some (4 ∷ 1 ∷ [], 2 ∷ [], 3 ∷ [])
unfolding schedule_default sort_by_priority num_new_tokens can_append on_manager preempt
    append_group contains subtract_num_seqs subtract_num_batched_tokens put
default_without_room = refl

schedule_default-balances_example :
    Ends
      (λ out s'. held 4 s' + of_groups 4 out.ignored_seq_groups ≡ held 4 (starting 0))
      Stops
      (schedule_default toy 4 (starting 0))
schedule_default-balances_example =
    schedule_default-balances toy counting-AlwaysHalts 4 4 (starting 0)

schedule_chunked_prefill-accounts_example :
    Ends
      (λ out s'.
        Accounted
          (held 3 s' + of_groups 3 out.ignored_seq_groups)
          (held 3 (starting 3))
          (parked ∷ []))
      Stops
      (schedule_chunked_prefill toy (starting 3))
schedule_chunked_prefill-accounts_example =
    schedule_chunked_prefill-accounts toy counting-AlwaysHalts 3 (starting 3)

schedule_running-conserves_example :
    Ends
      (λ (left, out) u.
        (of_groups 2 left
            + (of_scheduled 2 out.decode_seq_groups
                + of_scheduled 2 out.prefill_seq_groups
                + of_groups 2 out.preempted
                + of_groups 2 out.swapped_out)
          ≡ 1)
        × (false ≡ false → left ≡ [])
        × QueuesKept (turn 0) u)
      Stops
      (schedule_running toy (later ∷ decoding ∷ []) fcfs_name false (turn 0))
schedule_running-conserves_example =
    schedule_running-conserves toy counting-AlwaysHalts 2 fcfs_name false (later ∷ decoding ∷ [])
      (turn 0)

schedule_prefills-fair_example :
    Ends
      (λ (left, out) u.
        (of_groups 1 left + (of_scheduled 1 out.seq_groups + of_groups 1 out.ignored_seq_groups)
          ≡ 1)
        × Sublist left (newcomer ∷ [])
        × QueuesKept (turn 3) u
        × (IsWithin (turn 3).budget → IsWithin u.budget))
      Stops
      (schedule_prefills toy (newcomer ∷ []) false (turn 3))
schedule_prefills-fair_example =
    schedule_prefills-fair toy counting-AlwaysHalts 1 false (newcomer ∷ []) (turn 3)

schedule_swapped-conserves_example :
    Ends
      (λ (left, out) u.
        (of_groups 3 left
            + (of_scheduled 3 out.decode_seq_groups
                + of_scheduled 3 out.prefill_seq_groups
                + of_groups 3 out.infeasible_seq_groups)
          ≡ 1)
        × QueuesKept (turn 3) u
        × (IsWithin (turn 3).budget → IsWithin u.budget))
      Stops
      (schedule_swapped toy (parked ∷ []) fcfs_name false (turn 3))
schedule_swapped-conserves_example =
    schedule_swapped-conserves toy counting-AlwaysHalts 3 fcfs_name false (parked ∷ []) (turn 3)

fcfs-InArrivalOrder_example :
    (sorted : List SequenceGroup) × (sort_by_priority fcfs_name
        (1, 2)
        100
        (later ∷ decoding ∷ parked ∷ [])
      ≡ ok sorted)
    × InArrivalOrder sorted
    × ((time : ℕ) → arrived_at time sorted ≡ arrived_at time (later ∷ decoding ∷ parked ∷ []))
fcfs-InArrivalOrder_example = fcfs-InArrivalOrder (1, 2) 100 (later ∷ decoding ∷ parked ∷ [])

abort_seq_group-removes_example :
    Ends
      (λ aborted s'.
        AllFinished aborted
        × (of_groups 3 aborted
            ≡ min (if any (nat_beq 3) (3 ∷ 9 ∷ []) then 1 else 0) (held 3 (starting 1)))
        × (of_groups 3 aborted + held 3 s' ≡ held 3 (starting 1)))
      Stops
      (abort_seq_group toy (3 ∷ 9 ∷ []) (starting 1))
abort_seq_group-removes_example =
    abort_seq_group-removes toy counting-AlwaysHalts 3 (3 ∷ 9 ∷ []) (starting 1)

schedule_running-preempts_last_example :
    Ends
      (λ (left, out) _.
        SplitsQueue (sort_by_priority fcfs_name (1, 2) 100 (later ∷ decoding ∷ [])) left out)
      Stops
      (schedule_running toy (later ∷ decoding ∷ []) fcfs_name false (turn 0))
schedule_running-preempts_last_example =
    schedule_running-preempts_last toy counting-AlwaysHalts fcfs_name false (later ∷ decoding ∷ [])
      (turn 0)
