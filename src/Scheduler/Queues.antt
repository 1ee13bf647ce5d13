-- ===== src/Scheduler/Queues.antt =====
-- vllm/core/scheduler.py: the methods that the engine calls between two steps. Groups are told apart
-- by their request ids.
pub mod Aborts
use e_llm.Prelude.{
  ℕ, ◌+◌, ◌≡◌, Bool, true, false, not, ◌&&◌, ◌||◌, List, [], ◌∷◌, ◌++◌, length, any, keep, nat_beq,
  nat_eq, if◌then◌else◌,
}
use e_llm.Dict.{Dict}
use e_llm.Exec.{Exec, pure, modify, gets, ◌>>=◌, ◌>>◌}
use e_llm.Sequence.{Sequence, SequenceStatus, is_finished}
use e_llm.SequenceGroup.{SequenceGroup, group_finished}
use e_llm.Scheduler.{Setting, Scheduler}
use e_llm.Scheduler.Running.{queue_empty}

module _ {M : Type 0} where
  unfoldable pub add_seq_group : SequenceGroup → Scheduler M → Scheduler M
  add_seq_group group s = record s { waiting = s.waiting ++ group ∷ [] }

  abbrev pub has_unfinished_seqs : Scheduler M → Bool
  has_unfinished_seqs s =
      not (queue_empty s.waiting) || not (queue_empty s.running) || not (queue_empty s.swapped)

  abbrev pub get_num_unfinished_seq_groups : Scheduler M → ℕ
  get_num_unfinished_seq_groups s = length s.waiting + length s.running + length s.swapped

  unfoldable pub free_finished_seq_groups : Scheduler M → Scheduler M
  free_finished_seq_groups s = record s { running = keep (λ g. not (group_finished g)) s.running }

-- A request id taken out of the set.
abbrev pub discard : ℕ → List ℕ → List ℕ
discard id ids = keep (λ j. not (nat_beq id j)) ids

-- The groups of a queue to abort, the groups that stay, and the ids that were not met. A group is
-- removed where the first of its id stands, since its id leaves the set there.
unfoldable pub pick_aborted :
    List ℕ → List SequenceGroup → List SequenceGroup × List SequenceGroup × List ℕ
pick_aborted request_ids [] = ([], [], request_ids)
pick_aborted request_ids (group ∷ groups) =
    let (aborted, stay, ids) = pick_aborted (discard group.request_id request_ids) groups in
    let (aborted', stay', ids') = pick_aborted request_ids groups in
    if any (nat_beq group.request_id) request_ids
    then (group ∷ aborted, stay, ids)
    else (aborted', group ∷ stay', ids')

module _ {M Move : Type 0} (setting : Setting M Move) where
  unfoldable pub free_aborted : Sequence → Exec (Scheduler M) (Unit {0})
  free_aborted seq s =
      let (r, m) = setting.manager.free seq s.block_manager in (r, record s { block_manager = m })

  abbrev pub fork_child : Sequence → Sequence → Exec (Scheduler M) (Unit {0})
  fork_child parent child s =
      let (r, m) = setting.manager.fork parent child s.block_manager in
      (r, record s { block_manager = m })

  -- The sequences that are not finished, aborted and freed.
  unfoldable pub abort_seqs : Dict ℕ Sequence → Exec (Scheduler M) (Dict ℕ Sequence)
  unfolding free_aborted
  abort_seqs [] = pure []
  abort_seqs ((i, seq) ∷ d) =
      let aborted : Sequence = record seq { status = SequenceStatus.finished_aborted } in
      if is_finished seq
      then (do rest ← abort_seqs d; pure ((i, seq) ∷ rest))
      else (do free_aborted aborted; rest ← abort_seqs d; pure ((i, aborted) ∷ rest))

  unfoldable pub abort_groups : List SequenceGroup → Exec (Scheduler M) (List SequenceGroup)
  unfolding abort_seqs
  abort_groups [] = pure []
  abort_groups (group ∷ groups) = do
    d ← abort_seqs group.seqs_dict
    rest ← abort_groups groups
    pure (record group { seqs_dict = d } ∷ rest)

  -- The queues in turn; the groups that were aborted come back.
  unfoldable pub abort_seq_group : List ℕ → Exec (Scheduler M) (List SequenceGroup)
  unfolding pick_aborted abort_groups
  abort_seq_group request_ids s =
      let (first, waiting, ids) = pick_aborted request_ids s.waiting in
      let (second, running, ids') = pick_aborted ids s.running in
      let (third, swapped, ids'') = pick_aborted ids' s.swapped in
      (do
        modify λ s'. record s' { waiting = waiting }
        a ← abort_groups first
        modify λ s'. record s' { running = running }
        b ← abort_groups second
        modify λ s'. record s' { swapped = swapped }
        c ← abort_groups third
        pure (a ++ b ++ c))
        s
