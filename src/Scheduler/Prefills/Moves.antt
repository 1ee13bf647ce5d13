-- ===== src/Scheduler/Prefills/Moves.antt =====
-- What a round of _schedule_prefills does to its first group: where the group goes, and that the queue gets shorter.
use e_llm.Prelude.{
  ℕ, ◌+◌, ◌<◌, ◌≡◌, refl, sym, ap, ◌∙◌, subst, Bool, true, false, some, List, [], ◌∷◌, ◌++◌, length,
  nat_eq, arith, Sublist, skips, takes, Sublist-refl,
}
use e_llm.Sequence.{SequenceStatus}
use e_llm.SequenceGroup.{SequenceGroup}
use e_llm.Scheduler.{ScheduledSequenceGroup}
use e_llm.Scheduler.Laws.{tally-append, of_groups, of_scheduled}
use e_llm.Scheduler.Groups.{set_status}
use e_llm.Scheduler.Groups.Identity.{SameRequest}
use e_llm.Scheduler.Admission.{extendleft}
use e_llm.Scheduler.Running.{front, behind}
use e_llm.Scheduler.Running.Tallies.{front-behind, tally-joined}
use e_llm.Scheduler.Prefills.{PrefillPass, ignore_first, leave_first, take_first}

extendleft-Sublist :
    (groups : List SequenceGroup) {xs ys : List SequenceGroup}
    → Sublist xs ys
    → Sublist (extendleft groups xs) (extendleft groups ys)
extendleft-Sublist [] h = h
extendleft-Sublist (g ∷ groups) h = extendleft-Sublist groups (takes g h)

pub extendleft-tally :
    (r : ℕ) (groups queue : List SequenceGroup)
    → of_groups r (extendleft groups queue) ≡ of_groups r groups + of_groups r queue
extendleft-tally r [] queue = omega arith
extendleft-tally r (g ∷ groups) queue = omega (arith, extendleft-tally r groups (g ∷ queue))

-- The requests that stay waiting, in the order in which they come back.
abbrev pub left_waiting : PrefillPass → List SequenceGroup
left_waiting pass = extendleft pass.leftover_waiting_sequences pass.waiting_queue

abbrev pub prefill_total : ℕ → PrefillPass → ℕ
prefill_total r pass =
    of_groups r (left_waiting pass)
    + (of_scheduled r pass.seq_groups + of_groups r pass.ignored_seq_groups)

abbrev pub Onward : ℕ → PrefillPass → PrefillPass → Type 0
Onward r pass next =
    (prefill_total r next ≡ prefill_total r pass) × Sublist (left_waiting next) (left_waiting pass)

-- A round that is not the last takes a group off the queue.
abbrev pub Rounds : ℕ → PrefillPass → Bool × PrefillPass → Type 0
Rounds r pass (again, next) =
    Onward r pass next × (again ≡ true → length next.waiting_queue < length pass.waiting_queue)

pub scheduled-joined :
    (r : ℕ) (scheduled : List ScheduledSequenceGroup) (group' : SequenceGroup) (n : ℕ)
    (group : SequenceGroup)
    → SameRequest group group'
    → of_scheduled r (scheduled ++ record { seq_group = group'; token_chunk_size = n } ∷ [])
      ≡ of_scheduled r scheduled + of_groups r (group ∷ [])
scheduled-joined r scheduled group' n group same =
    tally-append (λ s. s.seq_group.request_id) r scheduled
      (record { seq_group = group'; token_chunk_size = n } ∷ [])
    ∙ rw same refl

module _ (r : ℕ) (pass : PrefillPass) (group : SequenceGroup)
    (is : front pass.waiting_queue ≡ some group) where
  pub stop-Rounds : Rounds r pass (false, pass)
  stop-Rounds = ((refl, Sublist-refl (left_waiting pass)), λ h. absurd (cc))

  shorter : length (behind pass.waiting_queue) < length pass.waiting_queue
  shorter = omega (arith, ap length (front-behind pass.waiting_queue group is))

  split : of_groups r pass.waiting_queue ≡ of_groups r (group ∷ behind pass.waiting_queue)
  split = ap (of_groups r) (front-behind pass.waiting_queue group is)

  dropped :
      Sublist
        (extendleft pass.leftover_waiting_sequences (behind pass.waiting_queue))
        (left_waiting pass)
  dropped =
      subst
        (λ q.
          Sublist (extendleft pass.leftover_waiting_sequences (behind pass.waiting_queue))
            (extendleft pass.leftover_waiting_sequences q))
        (sym (front-behind pass.waiting_queue group is))
        (extendleft-Sublist pass.leftover_waiting_sequences (skips group (Sublist-refl _)))

  pub leave-Rounds : Rounds r pass (true, leave_first group pass)
  leave-Rounds = (
    (
      omega (
        arith,
        split,
        extendleft-tally r pass.leftover_waiting_sequences pass.waiting_queue,
        extendleft-tally r pass.leftover_waiting_sequences (group ∷ behind pass.waiting_queue),
      ),
      subst
          (λ q.
            Sublist (extendleft pass.leftover_waiting_sequences (group ∷ behind pass.waiting_queue))
              (extendleft pass.leftover_waiting_sequences q))
          (sym (front-behind pass.waiting_queue group is)) (Sublist-refl _),
    ),
    λ _. shorter,
  )

  pub ignore-Rounds : Rounds r pass (true, ignore_first group pass)
  ignore-Rounds = (
    (
      omega (
        arith,
        split,
        extendleft-tally r pass.leftover_waiting_sequences pass.waiting_queue,
        extendleft-tally r pass.leftover_waiting_sequences (behind pass.waiting_queue),
        tally-joined r pass.ignored_seq_groups
            (set_status SequenceStatus.waiting SequenceStatus.finished_ignored group) group refl,
      ),
      dropped,
    ),
    λ _. shorter,
  )

  pub take-Rounds :
      (group' : SequenceGroup) (n : ℕ)
      → SameRequest group group'
      → Rounds r pass (true, take_first group' n pass)
  take-Rounds group' n same = (
    (
      omega (
        arith,
        split,
        extendleft-tally r pass.leftover_waiting_sequences pass.waiting_queue,
        extendleft-tally r pass.leftover_waiting_sequences (behind pass.waiting_queue),
        scheduled-joined r pass.seq_groups group' n group same,
      ),
      dropped,
    ),
    λ _. shorter,
  )
