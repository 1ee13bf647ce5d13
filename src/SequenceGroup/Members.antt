-- ===== src/SequenceGroup/Members.antt =====
-- The group as a finite map, and how its two views of progress agree.
use e_llm.Prelude.{
  ap, ◌∙◌, Bool, List, ℕ, ◌+◌, ◌≡◌, refl, false, not, [], ◌∷◌, length, keep, nat_eq, nat_beq, arith,
  if◌then◌else◌, inl, inr, Bool-cases,
}
use e_llm.Dict.{Dict, contains, put}
use e_llm.Dict.Laws.{get-put, remove-put, contains-put_same, get-none}
use e_llm.Exec.{ok, err, value_error}
use e_llm.Sequence.{Sequence, SequenceStatus, is_finished, is_finished_status}
use e_llm.SequenceGroup.{
  SequenceGroup, add_seq, remove_seq, find, num_seqs, num_unfinished_seqs, num_finished_seqs,
  group_finished, all_finished, values, status_beq, get_all_seqs,
}

-- A sequence whose id is new to the group is added without an error; `find` then returns it for its id
-- and for every other id what it returned before. Any sequence with that id is then refused with a
-- value error that leaves the group as it is. Removing the id gives the first group again, and there
-- removing it is refused, and `find` raises for it.
pub add_seq-once :
    (g : SequenceGroup) (seq again : Sequence) (i : ℕ)
    → contains seq.seq_id g.seqs_dict ≡ false
    → again.seq_id ≡ seq.seq_id
    → (g' : SequenceGroup) × (add_seq seq g ≡ (ok tt, g'))
      × (find i g' ≡ (if nat_beq seq.seq_id i then ok seq else find i g))
      × (add_seq again g' ≡ (err value_error, g'))
      × (remove_seq seq.seq_id g' ≡ (ok tt, g))
      × (remove_seq seq.seq_id g ≡ (err value_error, g))
      × (find seq.seq_id g ≡ err value_error)
unfolding add_seq find remove_seq
add_seq-once g seq again i new same = (
  record g { seqs_dict = put seq.seq_id seq g.seqs_dict },
  rw new refl,
  rw (get-put seq.seq_id i seq g.seqs_dict) (elim (Bool-cases (nat_beq seq.seq_id i)) [
    | inl hit ↦ rw hit refl
    | inr miss ↦ rw miss refl
  ]),
  rw same (rw (contains-put_same seq.seq_id seq g.seqs_dict) refl),
  rw (contains-put_same seq.seq_id seq g.seqs_dict)
      (rw (remove-put seq.seq_id seq g.seqs_dict new) refl),
  rw new refl,
  rw (get-none seq.seq_id g.seqs_dict new) refl,
)

-- How many of the sequences are in a status.
abbrev pub in_status : SequenceStatus → List Sequence → ℕ
in_status status seqs = length (keep (λ s. status_beq s.status status) seqs)

abbrev pub in_progress : List Sequence → ℕ
in_progress seqs =
    in_status SequenceStatus.waiting seqs
    + in_status SequenceStatus.running seqs
    + in_status SequenceStatus.swapped seqs

abbrev one : Bool → ℕ
one b = if b then 1 else 0

length-keep :
    (f : Sequence → Bool) (s : Sequence) (seqs : List Sequence)
    → length (keep f (s ∷ seqs)) ≡ one (f s) + length (keep f seqs)
length-keep f s seqs = elim (Bool-cases (f s)) [
  | inl kept ↦ rw kept (omega arith)
  | inr left ↦ rw left (omega arith)
]

not_finished :
    (status : SequenceStatus)
    → one (not (is_finished_status status))
      ≡ one (status_beq status SequenceStatus.waiting)
        + one (status_beq status SequenceStatus.running)
        + one (status_beq status SequenceStatus.swapped)
not_finished SequenceStatus.waiting = refl
not_finished SequenceStatus.running = refl
not_finished SequenceStatus.swapped = refl
not_finished SequenceStatus.finished_stopped = refl
not_finished SequenceStatus.finished_length_capped = refl
not_finished SequenceStatus.finished_aborted = refl
not_finished SequenceStatus.finished_ignored = refl

unfinished :
    (seqs : List Sequence) → length (keep (λ s. not (is_finished s)) seqs) ≡ in_progress seqs
unfinished [] = refl
unfinished (s ∷ seqs) = omega (
  arith,
  length-keep (λ s. not (is_finished s)) s seqs,
  length-keep (λ s. status_beq s.status SequenceStatus.waiting) s seqs,
  length-keep (λ s. status_beq s.status SequenceStatus.running) s seqs,
  length-keep (λ s. status_beq s.status SequenceStatus.swapped) s seqs,
  not_finished s.status,
  unfinished seqs,
)

counted :
    (d : Dict ℕ Sequence)
    → (length (keep is_finished (values d)) + length (keep (λ s. not (is_finished s)) (values d))
        ≡ length d)
      × (all_finished (values d) ≡ nat_beq (length (keep (λ s. not (is_finished s)) (values d))) 0)
counted [] = (refl, refl)
counted ((i, s) ∷ d) =
    let (total, all) = counted d in
    elim (Bool-cases (is_finished s)) [
      | inl done ↦ rw done (omega (arith, total), all)
      | inr going ↦ rw going (omega (arith, total), ground arith)
    ]

-- The sequences of a group that are not counted as finished are exactly the waiting, the running and
-- the swapped-out ones together, which are those counted as unfinished; and the group is finished
-- exactly when it has none of these.
pub group_finished-statuses :
    (g : SequenceGroup)
    → (num_finished_seqs g + in_progress (get_all_seqs g) ≡ num_seqs g)
      × (num_unfinished_seqs g ≡ in_progress (get_all_seqs g))
      × (group_finished g ≡ nat_beq (in_progress (get_all_seqs g)) 0)
group_finished-statuses g =
    let same = unfinished (get_all_seqs g) in
    let (total, all) = counted g.seqs_dict in
    (omega (arith, total, same), same, all ∙ ap (λ n. nat_beq n 0) same)
