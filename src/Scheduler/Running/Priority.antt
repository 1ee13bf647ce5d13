-- ===== src/Scheduler/Running/Priority.antt =====
-- Which requests `_schedule_running` preempts: the last ones in the order of the policy.
use e_llm.Prelude.{
  ℕ, ◌+◌, ◌≡◌, refl, sym, ap, ◌∙◌, subst, false, List, [], ◌∷◌, ◌++◌, count, count-append, nat_eq,
  if◌then◌else◌, arith,
}
use mathlib.Core.List.{append_assoc}
use e_llm.SequenceGroup.{SequenceGroup}
use e_llm.Scheduler.{ScheduledSequenceGroup}
use e_llm.Scheduler.Laws.{of_groups, of_scheduled}
use e_llm.Scheduler.Running.{RunningPass, queue_empty, victim, without_last}
use e_llm.Scheduler.Running.Tallies.{hit}

abbrev pub ids_of : List SequenceGroup → List ℕ
ids_of [] = []
ids_of (group ∷ groups) = group.request_id ∷ ids_of groups

ids_of-without_last :
    (group : SequenceGroup) (queue : List SequenceGroup)
    → queue_empty queue ≡ false
    → ids_of queue ≡ ids_of (without_last queue) ++ (victim group queue).request_id ∷ []
ids_of-without_last group [] h = absurd (cc)
ids_of-without_last group (x ∷ []) h = refl
ids_of-without_last group (x ∷ y ∷ ys) h =
    ap (◌∷◌ x.request_id) (ids_of-without_last x (y ∷ ys) refl)

-- The sorted queue is the requests that were served, those in between, and those that were preempted.
abbrev pub Split : {Move : Type 0} → List ℕ → List ℕ → RunningPass Move → Type 0
Split sorted middle pass =
    (served : List ℕ) × (evicted : List ℕ) × (sorted ≡ served ++ (middle ++ evicted))
    × ((r : ℕ)
        → count r served
          ≡ of_scheduled r pass.decode_seq_groups + of_scheduled r pass.prefill_seq_groups)
    × ((r : ℕ) → count r evicted ≡ of_groups r pass.preempted + of_groups r pass.swapped_out)

-- One more group was preempted, and nothing was scheduled.
pub record Evicts {Move : Type 0} (group : SequenceGroup) (pass pass' : RunningPass Move)
    : Type 0 where
  pub same_queue : pass'.running_queue ≡ pass.running_queue
  pub same_decode : pass'.decode_seq_groups ≡ pass.decode_seq_groups
  pub same_prefill : pass'.prefill_seq_groups ≡ pass.prefill_seq_groups
  pub one_more :
      (r : ℕ)
      → of_groups r pass'.preempted + of_groups r pass'.swapped_out
        ≡ of_groups r pass.preempted + of_groups r pass.swapped_out + hit r group

-- One more group was scheduled, and nothing was preempted.
pub record Serves {Move : Type 0} (group : SequenceGroup) (pass pass' : RunningPass Move)
    : Type 0 where
  pub queue_same : pass'.running_queue ≡ pass.running_queue
  pub preempted_same : pass'.preempted ≡ pass.preempted
  pub swapped_same : pass'.swapped_out ≡ pass.swapped_out
  pub scheduled_more :
      (r : ℕ)
      → of_scheduled r pass'.decode_seq_groups + of_scheduled r pass'.prefill_seq_groups
        ≡ of_scheduled r pass.decode_seq_groups
          + of_scheduled r pass.prefill_seq_groups
          + hit r group

module _ {Move : Type 0} (sorted middle : List ℕ) (group : SequenceGroup)
    (pass pass' : RunningPass Move) where
  pub Evicts-Split :
      Evicts group pass pass'
      → Split sorted (middle ++ group.request_id ∷ []) pass
      → Split sorted middle pass'
  Evicts-Split e (served, evicted, parts, front, back) = (
    served,
    group.request_id ∷ evicted,
    parts ∙ ap (λ xs. served ++ xs) (append_assoc middle (group.request_id ∷ []) evicted),
    λ r. front r ∙ ap2 (sym e.same_decode) (sym e.same_prefill) r,
    λ r. omega (arith, back r, e.one_more r),
  )
    where
      ap2 :
          {xs xs' ys ys' : List ScheduledSequenceGroup}
          → xs ≡ xs'
          → ys ≡ ys'
          → (r : ℕ)
          → of_scheduled r xs + of_scheduled r ys ≡ of_scheduled r xs' + of_scheduled r ys'
      ap2 h k r = omega (arith, ap (of_scheduled r) h, ap (of_scheduled r) k)

  pub Serves-Split :
      Serves group pass pass'
      → Split sorted (group.request_id ∷ middle) pass
      → Split sorted middle pass'
  Serves-Split e (served, evicted, parts, front, back) = (
    served ++ group.request_id ∷ [],
    evicted,
    parts ∙ sym (append_assoc served (group.request_id ∷ []) (middle ++ evicted)),
    λ r. omega (arith, count-append r served (group.request_id ∷ []), front r, e.scheduled_more r),
    λ r. omega (arith, back r, ap (of_groups r) e.preempted_same, ap (of_groups r) e.swapped_same),
  )

-- The middle after the last group of the queue, or the group itself, was preempted.
pub evict-Split :
    {Move : Type 0} (sorted : List ℕ) (group : SequenceGroup) (queue : List SequenceGroup)
    (pass pass' : RunningPass Move)
    → pass.running_queue ≡ without_last queue
    → Evicts (victim group queue) pass pass'
    → Split sorted (group.request_id ∷ ids_of queue) pass
    → Split sorted
        ((if queue_empty queue then [] else group.request_id ∷ []) ++ ids_of pass'.running_queue)
        pass'
evict-Split sorted group [] pass pass' left e split =
    subst (λ q. Split sorted (ids_of q) pass') (sym (e.same_queue ∙ left))
      (Evicts-Split sorted [] group pass pass' e split)
evict-Split sorted group (x ∷ xs) pass pass' left e split =
    subst (λ q. Split sorted (group.request_id ∷ ids_of q) pass') (sym (e.same_queue ∙ left))
      (Evicts-Split sorted (group.request_id ∷ ids_of (without_last (x ∷ xs))) (victim x xs) pass
        pass' e
        (subst (λ m. Split sorted (group.request_id ∷ m) pass)
          (ids_of-without_last group (x ∷ xs) refl) split))
