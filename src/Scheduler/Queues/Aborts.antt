-- ===== src/Scheduler/Queues/Aborts.antt =====
-- `abort_seq_group` takes the requests named out of the queues, and no other.
use e_llm.Prelude.{
  ℕ, ◌+◌, ◌≡◌, refl, sym, min, ap, nat_beq_iff, ◌∙◌, Bool, true, List, [], ◌∷◌, ◌++◌, any, nat_beq,
  nat_eq, if◌then◌else◌, arith, Bool-cases, inl, inr,
}
use e_llm.Dict.{Dict}
use e_llm.Exec.{Result, ok, err, pure, ◌>>=◌}
use e_llm.Exec.Outcomes.{Ends, Stops, ok-Ends, err-Ends, bind-Ends, if-Ends, Ends-weaken}
use e_llm.Sequence.{Sequence, SequenceStatus, is_finished}
use e_llm.SequenceGroup.{SequenceGroup, group_finished, all_finished, values}
use e_llm.Scheduler.{Setting, Scheduler}
use e_llm.Scheduler.Laws.{AlwaysHalts, of_groups}
use e_llm.Scheduler.Default.Balance.{held, groups-append}
use e_llm.Scheduler.Queues.{
  discard, pick_aborted, free_aborted, abort_seqs, abort_groups, abort_seq_group,
}

-- Is the request r among those named?
abbrev named : ℕ → List ℕ → Bool
named r ids = any (nat_beq r) ids

-- 1 for a request that is named
abbrev flag : ℕ → List ℕ → ℕ
flag r ids = if named r ids then 1 else 0

flag-discard :
    (r id : ℕ) (ids : List ℕ) → flag r (discard id ids) ≡ (if nat_beq id r then 0 else flag r ids)
flag-discard r id [] = ground arith
flag-discard r id (j ∷ ids) = ground (arith, flag-discard r id ids)

-- One group of a request that is named is picked, if it has one, and the request is then named no
-- longer; the other groups stay.
abbrev Picked :
    ℕ → List ℕ → List SequenceGroup → List SequenceGroup × List SequenceGroup × List ℕ → Type 0
Picked r ids queue (aborted, stay, left) =
    (of_groups r aborted ≡ min (flag r ids) (of_groups r queue))
    × (of_groups r aborted + of_groups r stay ≡ of_groups r queue)
    × (flag r left + of_groups r aborted ≡ flag r ids)

named-same : (r id : ℕ) (ids : List ℕ) → nat_beq id r ≡ true → named id ids ≡ named r ids
named-same r id ids h = ap (λ x. named x ids) ((nat_beq_iff id r).0 h)

pick_aborted-Picked :
    (r : ℕ) (ids : List ℕ) (queue : List SequenceGroup)
    → Picked r ids queue (pick_aborted ids queue)
unfolding pick_aborted
pick_aborted-Picked r ids [] = (ground arith, refl, ground arith)
pick_aborted-Picked r ids (group ∷ groups) =
    let id : ℕ = group.request_id in
    let without = pick_aborted-Picked r (discard id ids) groups in
    let others = pick_aborted-Picked r ids groups in
    let one = flag-discard r id ids in
    elim (Bool-cases (any (nat_beq id) ids)) [
      | inl picks ↦ elim (Bool-cases (nat_beq id r)) [
        | inl same ↦
            let found = sym (named-same r id ids same) ∙ picks in
            rw picks (
              ground (arith, without, one),
              ground (arith, without, one),
              ground (arith, without, one),
            )
        | inr differs ↦ rw picks (
          ground (arith, without, one),
          ground (arith, without, one),
          ground (arith, without, one),
        )
      ]
      | inr stays ↦ elim (Bool-cases (nat_beq id r)) [
        | inl same ↦
            let missing = sym (named-same r id ids same) ∙ stays in
            rw stays (ground (arith, others), ground (arith, others), ground (arith, others))
        | inr differs ↦
            rw stays (ground (arith, others), ground (arith, others), ground (arith, others))
      ]
    ]

-- Every group of the list is finished.
abbrev pub AllFinished : List SequenceGroup → Type 0
AllFinished [] = Unit {0}
AllFinished (group ∷ groups) = (group_finished group ≡ true) × AllFinished groups

AllFinished-append :
    (xs ys : List SequenceGroup) → AllFinished xs → AllFinished ys → AllFinished (xs ++ ys)
AllFinished-append [] ys h k = k
AllFinished-append (x ∷ xs) ys h k = (h.0, AllFinished-append xs ys (h.1) k)

-- The queues are what they were.
record SameQueues {M : Type 0} (s s' : Scheduler M) : Type 0 where
  same_waiting : s'.waiting ≡ s.waiting
  same_running : s'.running ≡ s.running
  same_swapped : s'.swapped ≡ s.swapped

module _ {M : Type 0} where
  same_queues : (s : Scheduler M) → SameQueues s s
  same_queues s = record { same_waiting = refl; same_running = refl; same_swapped = refl }

  SameQueues-trans : (s u v : Scheduler M) → SameQueues s u → SameQueues u v → SameQueues s v
  SameQueues-trans s u v h k = record {
    same_waiting = k.same_waiting ∙ h.same_waiting;
    same_running = k.same_running ∙ h.same_running;
    same_swapped = k.same_swapped ∙ h.same_swapped;
  }

module _ {M Move : Type 0} (setting : Setting M Move) (laws : AlwaysHalts setting.manager) where
  free_aborted-SameQueues :
      (seq : Sequence) (s : Scheduler M)
      → Ends (λ _ s'. SameQueues s s') Stops (free_aborted setting seq s)
  unfolding free_aborted
  free_aborted-SameQueues seq s =
      by_result (setting.manager.free seq s.block_manager) (laws.free-Halts seq s.block_manager)
    where
      by_result :
          (ran : Result (Unit {0}) × M)
          → Ends (λ _ _. Unit {0}) Stops ran
          → Ends (λ _ s'. SameQueues s s') Stops (ran.0, record s { block_manager = ran.1 })
      by_result (ok a, m) h =
          ok-Ends a _ (record { same_waiting = refl; same_running = refl; same_swapped = refl })
      by_result (err e, m) h = err-Ends e _ h.outcome_of

  abort_seqs-finished :
      (d : Dict ℕ Sequence) (s : Scheduler M)
      → Ends
          (λ d' s'. (all_finished (values d') ≡ true) × SameQueues s s')
          Stops
          (abort_seqs setting d s)
  unfolding abort_seqs
  abort_seqs-finished [] s = ok-Ends [] s (refl, same_queues s)
  abort_seqs-finished ((i, seq) ∷ d) s =
      let aborted : Sequence = record seq { status = SequenceStatus.finished_aborted } in
      if-Ends (is_finished seq) _ _ s
        (λ over.
          bind-Ends (abort_seqs setting d) (λ rest. pure ((i, seq) ∷ rest)) s
            (Ends-weaken _ (λ rest u h. ok-Ends ((i, seq) ∷ rest) u (rw over (h.0), h.1))
              (abort_seqs-finished d s)))
        (λ _.
          bind-Ends (free_aborted setting aborted)
            (λ _. abort_seqs setting d >>= λ rest. pure ((i, aborted) ∷ rest)) s
            (Ends-weaken _
              (λ _ u k.
                bind-Ends (abort_seqs setting d) (λ rest. pure ((i, aborted) ∷ rest)) u
                  (Ends-weaken _
                    (λ rest v h.
                      ok-Ends ((i, aborted) ∷ rest) v (h.0, SameQueues-trans s u v k (h.1)))
                    (abort_seqs-finished d u)))
              (free_aborted-SameQueues aborted s)))

  abort_groups-finished :
      (r : ℕ) (groups : List SequenceGroup) (s : Scheduler M)
      → Ends
          (λ out s'. (of_groups r out ≡ of_groups r groups) × AllFinished out × SameQueues s s')
          Stops
          (abort_groups setting groups s)
  unfolding abort_groups
  abort_groups-finished r [] s = ok-Ends [] s (refl, tt, same_queues s)
  abort_groups-finished r (group ∷ groups) s = bind-Ends (abort_seqs setting group.seqs_dict) _ s (
      Ends-weaken _
        (λ d u h.
          bind-Ends (abort_groups setting groups)
            (λ rest. pure (record group { seqs_dict = d } ∷ rest)) u
            (Ends-weaken _
              (λ rest v k.
                ok-Ends (record group { seqs_dict = d } ∷ rest) v
                  (omega (arith, k.0), (h.0, k.1), SameQueues-trans s u v (h.1) (k.2)))
              (abort_groups-finished r groups u)))
        (abort_seqs-finished group.seqs_dict s))

  -- When no method of the block manager loops without end, aborting requests ends too. When it
  -- returns, all sequences of the groups taken out are finished; of a request that is named one
  -- group is taken out, if the queues held one, and of another request none; and the queues hold
  -- what they held but for the groups taken out.
  pub abort_seq_group-removes :
      (r : ℕ) (request_ids : List ℕ) (s : Scheduler M)
      → Ends
          (λ aborted s'.
            AllFinished aborted
            × (of_groups r aborted ≡ min (if any (nat_beq r) request_ids then 1 else 0) (held r s))
            × (of_groups r aborted + held r s' ≡ held r s))
          Stops
          (abort_seq_group setting request_ids s)
  unfolding abort_seq_group
  abort_seq_group-removes r request_ids s =
      let one = pick_aborted request_ids s.waiting in
      let two = pick_aborted (one.2) s.running in
      let three = pick_aborted (two.2) s.swapped in
      let p = pick_aborted-Picked r request_ids s.waiting in
      let q = pick_aborted-Picked r (one.2) s.running in
      let o = pick_aborted-Picked r (two.2) s.swapped in
      bind-Ends (abort_groups setting (one.0)) _ (record s { waiting = one.1 })
        (Ends-weaken _
          (λ a u h.
            bind-Ends (abort_groups setting (two.0)) _ (record u { running = two.1 })
              (Ends-weaken _
                (λ b v k.
                  bind-Ends (abort_groups setting (three.0)) (λ c. pure (a ++ b ++ c))
                    (record v { swapped = three.1 })
                    (Ends-weaken _
                      (λ c x l.
                        let waiting =
                          ap (of_groups r)
                            (l.2.same_waiting ∙ k.2.same_waiting ∙ h.2.same_waiting) in
                        let running = ap (of_groups r) (l.2.same_running ∙ k.2.same_running) in
                        let swapped = ap (of_groups r) l.2.same_swapped in
                        let joined = groups-append r (a ++ b) c in
                        let joined' = groups-append r a b in
                        ok-Ends (a ++ b ++ c) x (
                          AllFinished-append (a ++ b) c (AllFinished-append a b (h.1) (k.1)) (l.1),
                          omega (arith, joined, joined', h.0, k.0, l.0, p, q, o),
                          omega (
                            arith, joined, joined', h.0, k.0, l.0, p, q, o, waiting, running,
                            swapped,
                          ),
                        ))
                      (abort_groups-finished r (three.0) (record v { swapped = three.1 }))))
                (abort_groups-finished r (two.0) (record u { running = two.1 }))))
          (abort_groups-finished r (one.0) (record s { waiting = one.1 })))
