-- ===== src/Scheduler/Policies/Arrival.antt =====
-- First come, first served: the order of a sorted queue.
use e_llm.Prelude.{
  ℕ, ◌≤◌, ◌≡◌, refl, ap, ◌∙◌, List, [], ◌∷◌, keep, leb, nat_beq, arith, if◌then◌else◌, Bool-cases,
  inl, inr,
}
use e_llm.Exec.{ok}
use e_llm.SchedulingBudget.{Counter}
use e_llm.SequenceGroup.{SequenceGroup}
use e_llm.Scheduler.{fcfs_name}
use e_llm.Scheduler.Policies.{
  fcfs_priority, get_priority, insert_priority, sort_pairs, groups_of, with_keys, sort_by_priority,
}

-- No group has one behind it that arrived before it.
abbrev pub AllAfter : ℕ → List SequenceGroup → Type 0
AllAfter time [] = Unit {0}
AllAfter time (group ∷ groups) = (time ≤ group.arrival_time) × AllAfter time groups

abbrev pub InArrivalOrder : List SequenceGroup → Type 0
InArrivalOrder [] = Unit {0}
InArrivalOrder (group ∷ groups) = AllAfter group.arrival_time groups × InArrivalOrder groups

-- The groups that arrived at a time, in the order of the queue.
abbrev pub arrived_at : ℕ → List SequenceGroup → List SequenceGroup
arrived_at time groups = keep (λ g. nat_beq g.arrival_time time) groups

-- The groups with their priorities.
abbrev tagged : ℕ → List SequenceGroup → List (Counter × SequenceGroup)
tagged now [] = []
tagged now (group ∷ groups) = (fcfs_priority now group, group) ∷ tagged now groups

-- Sorting by the time of arrival, said of the groups alone.
abbrev insert_arrival : SequenceGroup → List SequenceGroup → List SequenceGroup
insert_arrival group [] = group ∷ []
insert_arrival group (other ∷ rest) =
    let later = insert_arrival group rest in
    if leb group.arrival_time other.arrival_time then group ∷ other ∷ rest else other ∷ later

abbrev by_arrival : List SequenceGroup → List SequenceGroup
by_arrival [] = []
by_arrival (group ∷ groups) = insert_arrival group (by_arrival groups)

with_keys-tagged :
    (weight : ℕ × ℕ) (now : ℕ) (groups : List SequenceGroup)
    → with_keys (get_priority fcfs_name weight now) groups ≡ ok (tagged now groups)
unfolding with_keys
with_keys-tagged weight now [] = refl
with_keys-tagged weight now (group ∷ groups) =
    rw (with_keys, with_keys-tagged weight now groups) refl

insert_priority-tagged :
    (now : ℕ) (group : SequenceGroup) (groups : List SequenceGroup)
    → insert_priority (fcfs_priority now group, group) (tagged now groups)
      ≡ tagged now (insert_arrival group groups)
insert_priority-tagged now group [] = refl
insert_priority-tagged now group (other ∷ rest) =
    ground (arith, insert_priority-tagged now group rest)

sort_pairs-tagged :
    (now : ℕ) (groups : List SequenceGroup)
    → sort_pairs (tagged now groups) ≡ tagged now (by_arrival groups)
unfolding sort_pairs
sort_pairs-tagged now [] = refl
sort_pairs-tagged now (group ∷ groups) =
    ap (insert_priority (fcfs_priority now group, group)) (sort_pairs-tagged now groups)
    ∙ insert_priority-tagged now group (by_arrival groups)

groups_of-tagged : (now : ℕ) (groups : List SequenceGroup) → groups_of (tagged now groups) ≡ groups
groups_of-tagged now [] = refl
groups_of-tagged now (group ∷ groups) = ap (◌∷◌ group) (groups_of-tagged now groups)

AllAfter-weaken :
    (a b : ℕ) (groups : List SequenceGroup) → a ≤ b → AllAfter b groups → AllAfter a groups
AllAfter-weaken a b [] le h = tt
AllAfter-weaken a b (g ∷ groups) le h = (omega (arith, h.0), AllAfter-weaken a b groups le (h.1))

insert_arrival-AllAfter :
    (time : ℕ) (group : SequenceGroup) (groups : List SequenceGroup)
    → time ≤ group.arrival_time
    → AllAfter time groups
    → AllAfter time (insert_arrival group groups)
insert_arrival-AllAfter time group [] le h = (le, tt)
insert_arrival-AllAfter time group (other ∷ rest) le h =
    elim (Bool-cases (leb group.arrival_time other.arrival_time)) [
      | inl first ↦ rw first (le, h)
      | inr later ↦ rw later (h.0, insert_arrival-AllAfter time group rest le (h.1))
    ]

insert_arrival-InArrivalOrder :
    (group : SequenceGroup) (groups : List SequenceGroup)
    → InArrivalOrder groups
    → InArrivalOrder (insert_arrival group groups)
insert_arrival-InArrivalOrder group [] h = (tt, tt)
insert_arrival-InArrivalOrder group (other ∷ rest) h =
    elim (Bool-cases (leb group.arrival_time other.arrival_time)) [
      | inl first ↦ rw first (
        (
          ground arith,
          AllAfter-weaken group.arrival_time other.arrival_time rest (ground arith) (h.0),
        ),
        h,
      )
      | inr later ↦ rw later (
        insert_arrival-AllAfter other.arrival_time group rest (ground arith) (h.0),
        insert_arrival-InArrivalOrder group rest (h.1),
      )
    ]

by_arrival-InArrivalOrder : (groups : List SequenceGroup) → InArrivalOrder (by_arrival groups)
by_arrival-InArrivalOrder [] = tt
by_arrival-InArrivalOrder (group ∷ groups) =
    insert_arrival-InArrivalOrder group (by_arrival groups) (by_arrival-InArrivalOrder groups)

insert_arrival-stable :
    (time : ℕ) (group : SequenceGroup) (groups : List SequenceGroup)
    → arrived_at time (insert_arrival group groups) ≡ arrived_at time (group ∷ groups)
insert_arrival-stable time group [] = refl
insert_arrival-stable time group (other ∷ rest) =
    ground (arith, insert_arrival-stable time group rest)

by_arrival-stable :
    (time : ℕ) (groups : List SequenceGroup)
    → arrived_at time (by_arrival groups) ≡ arrived_at time groups
by_arrival-stable time [] = refl
by_arrival-stable time (group ∷ groups) =
    ground
      (arith, by_arrival-stable time groups, insert_arrival-stable time group (by_arrival groups))

-- First come, first served always sorts a queue: each request comes before those that arrived later,
-- and the requests that arrived at one time are those of the queue, in the queue's order.
pub fcfs-InArrivalOrder :
    (weight : ℕ × ℕ) (now : ℕ) (groups : List SequenceGroup)
    → (sorted : List SequenceGroup) × (sort_by_priority fcfs_name weight now groups ≡ ok sorted)
      × InArrivalOrder sorted
      × ((time : ℕ) → arrived_at time sorted ≡ arrived_at time groups)
unfolding sort_by_priority
fcfs-InArrivalOrder weight now groups = (
  by_arrival groups,
  rw (sort_by_priority, with_keys-tagged weight now groups)
      (ap ok
        (ap groups_of (sort_pairs-tagged now groups) ∙ groups_of-tagged now (by_arrival groups))),
  by_arrival-InArrivalOrder groups,
  λ time. by_arrival-stable time groups,
)
