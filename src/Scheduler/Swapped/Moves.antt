-- ===== src/Scheduler/Swapped/Moves.antt =====
-- What a round of _schedule_swapped does to its first group: where the group goes, and that the queue gets shorter.
use e_llm.Prelude.{
  ℕ, ◌+◌, ◌<◌, ◌≡◌, refl, ap, Bool, true, false, some, List, [], ◌∷◌, length, nat_eq, arith,
}
use e_llm.Sequence.{SequenceStatus}
use e_llm.SequenceGroup.{SequenceGroup}
use e_llm.Scheduler.Laws.{of_groups, of_scheduled}
use e_llm.Scheduler.Groups.{set_status_all}
use e_llm.Scheduler.Groups.Identity.{SameRequest}
use e_llm.Scheduler.Admission.{extendleft}
use e_llm.Scheduler.Running.{front, behind}
use e_llm.Scheduler.Running.Tallies.{front-behind, tally-joined}
use e_llm.Scheduler.Prefills.Moves.{extendleft-tally, scheduled-joined}
use e_llm.Scheduler.Swapped.{SwappedPass, fail_first, leave_swapped, keep_swapped, with_moves}

-- How often the request r is in the queue that comes back and in the outputs.
abbrev pub swapped_total : {Move : Type 0} → ℕ → SwappedPass Move → ℕ
swapped_total r pass =
    of_groups r (extendleft pass.leftover_swapped pass.swapped_queue)
    + (of_scheduled r pass.decode_seq_groups
        + of_scheduled r pass.prefill_seq_groups
        + of_groups r pass.infeasible_seq_groups)

-- A round that is not the last takes a group off the queue.
abbrev pub SwapRounds : {Move : Type 0} → ℕ → SwappedPass Move → Bool × SwappedPass Move → Type 0
SwapRounds r pass (again, next) =
    (swapped_total r next ≡ swapped_total r pass)
    × (again ≡ true → length next.swapped_queue < length pass.swapped_queue)

module _ {Move : Type 0} (r : ℕ) (pass : SwappedPass Move) (group : SequenceGroup)
    (is : front pass.swapped_queue ≡ some group) where
  pub stop-SwapRounds : SwapRounds r pass (false, pass)
  stop-SwapRounds = (refl, λ h. absurd (cc))

  shorter : length (behind pass.swapped_queue) < length pass.swapped_queue
  shorter = omega (arith, ap length (front-behind pass.swapped_queue group is))

  -- The queue that comes back, counted before the round, and after it without the group.
  split :
      of_groups r (extendleft pass.leftover_swapped pass.swapped_queue)
      ≡ of_groups r (group ∷ [])
        + of_groups r (extendleft pass.leftover_swapped (behind pass.swapped_queue))
  split = omega (
    arith,
    ap (of_groups r) (front-behind pass.swapped_queue group is),
    extendleft-tally r pass.leftover_swapped pass.swapped_queue,
    extendleft-tally r pass.leftover_swapped (behind pass.swapped_queue),
  )

  pub leave-SwapRounds : SwapRounds r pass (true, leave_swapped group pass)
  leave-SwapRounds = (
    omega (
      arith,
      split,
      extendleft-tally r pass.leftover_swapped (behind pass.swapped_queue),
      extendleft-tally r pass.leftover_swapped (group ∷ behind pass.swapped_queue),
    ),
    λ _. shorter,
  )

  pub fail-SwapRounds : SwapRounds r pass (true, fail_first group pass)
  fail-SwapRounds = (
    omega (
      arith,
      split,
      tally-joined r pass.infeasible_seq_groups
          (set_status_all SequenceStatus.finished_ignored group) group refl,
    ),
    λ _. shorter,
  )

  pub keep-SwapRounds :
      (is_prefill : Bool) (group' : SequenceGroup) (n : ℕ) (moves : List Move × List ℕ)
      (copies : List Move)
      → SameRequest group group'
      → SwapRounds r pass (true, with_moves moves copies (keep_swapped is_prefill group' n pass))
  keep-SwapRounds true group' n moves copies same = (
    omega (arith, split, scheduled-joined r pass.prefill_seq_groups group' n group same),
    λ _. shorter,
  )
  keep-SwapRounds false group' n moves copies same = (
    omega (arith, split, scheduled-joined r pass.decode_seq_groups group' 1 group same),
    λ _. shorter,
  )
