-- ===== src/Scheduler/Groups/Identity.antt =====
-- What is done to a group keeps its request, the scheduler's queues and the budget.
use e_llm.Prelude.{
  ℕ, ◌≡◌, refl, not, Option, none, some, List, [], ◌∷◌, ◌++◌, length, nat_beq, if◌then◌else◌,
}
use e_llm.Dict.{Dict}
use e_llm.Exec.{Exec, pure, ◌>>=◌, assertion_error, runtime_error}
use e_llm.Exec.Outcomes.{
  Ends, Stops, ok-Ends, err-Ends, bind-Ends, if-Ends, raise_if-Ends, Ends-weaken,
}
use e_llm.Sequence.{reset_state_for_recompute, Sequence, SequenceStatus}
use e_llm.SequenceGroup.{SequenceGroup, get_seqs, status_beq}
use e_llm.Scheduler.{Setting, Turn, PreemptionMode, ModeName, recompute_name, swap_name, other_name}
use e_llm.Scheduler.Laws.{AlwaysHalts, Keeps, Kept, kept, Kept-trans, on_manager-Keeps}
use e_llm.Scheduler.Groups.{
  free_one, restart, restart_one, preempt, preempt_in, count_preemption, preempt_by_recompute,
  swap_out_group, swap_in_group, choose_mode, append_group, append_each, allocate_and_set_running,
}

-- The group is that of the same request.
abbrev pub SameRequest : SequenceGroup → SequenceGroup → Type 0
SameRequest g g' = g'.request_id ≡ g.request_id

module _ {M : Type 0} where
  -- A call that keeps queues and budget, then what follows it.
  pub after_call :
      {A B : Type 0} {P : B → Type 0} (m : Exec (Turn M) A) (f : A → Exec (Turn M) B) (t : Turn M)
      → Keeps m
      → ((a : A) (u : Turn M) → Ends (λ b v. P b × Kept u v) Stops (f a u))
      → Ends (λ b v. P b × Kept t v) Stops ((m >>= f) t)
  after_call m f t first after = bind-Ends m f t (
      Ends-weaken _ (λ a u k. Ends-weaken _ (λ b v h. (h.0, Kept-trans t u v k (h.1))) (after a u))
        (first t))

  pub chained :
      {A B : Type 0} (m : Exec (Turn M) A) (f : A → Exec (Turn M) B) (t : Turn M)
      → Keeps m
      → ((a : A) → Keeps (f a))
      → Ends (λ _ v. Kept t v) Stops ((m >>= f) t)
  chained m f t first after = bind-Ends m f t (
      Ends-weaken _ (λ a u k. Ends-weaken _ (λ _ v k'. Kept-trans t u v k k') (after a u))
        (first t))

  pub same_state : (t : Turn M) → Kept t t
  same_state t = kept refl refl refl refl

module _ {M Move : Type 0} (setting : Setting M Move) (laws : AlwaysHalts setting.manager) where
  restart_one-Keeps : (seq : Sequence) → Keeps (restart_one setting seq)
  unfolding restart_one
  restart_one-Keeps seq t =
      let waiting : Sequence = record seq { status = SequenceStatus.waiting } in
      chained (free_one setting waiting) (λ _. pure (reset_state_for_recompute waiting)) t
        (on_manager-Keeps (setting.manager.free waiting) (laws.free-Halts waiting))
        λ _ u. ok-Ends (reset_state_for_recompute waiting) u (same_state u)

  restart-Keeps : (d : Dict ℕ Sequence) → Keeps (restart setting d)
  unfolding restart
  restart-Keeps [] t = ok-Ends [] t (same_state t)
  restart-Keeps ((i, seq) ∷ d) t =
      chained
        (if status_beq seq.status SequenceStatus.running then restart_one setting seq else pure seq)
        _ t
        (λ t'.
          if-Ends (status_beq seq.status SequenceStatus.running) (restart_one setting seq)
            (pure seq) t' (λ _. restart_one-Keeps seq t') (λ _. ok-Ends seq t' (same_state t')))
        λ seq' u.
          chained (restart setting d) (λ rest. pure ((i, seq') ∷ rest)) u (restart-Keeps d)
            λ rest v. ok-Ends ((i, seq') ∷ rest) v (same_state v)

  pub swap_out_group-SameRequest :
      (group : SequenceGroup) (moves : List Move) (t : Turn M)
      → Ends
          (λ r u. SameRequest group (r.0) × Kept t u)
          Stops
          (swap_out_group setting group moves t)
  unfolding swap_out_group
  swap_out_group-SameRequest group moves t =
      after_call _ _ t (on_manager-Keeps _ (laws.can_swap_out-Halts group)) λ can u.
        raise_if-Ends (not can) runtime_error _ u (λ _ is. cc)
          λ _.
            after_call _ _ u (on_manager-Keeps _ (laws.swap_out-Halts group))
              λ mapping v. ok-Ends _ v (refl, same_state v)

  pub swap_in_group-SameRequest :
      (group : SequenceGroup) (moves : List Move) (ids : List ℕ) (t : Turn M)
      → Ends
          (λ r u. SameRequest group (r.0) × Kept t u)
          Stops
          (swap_in_group setting group moves ids t)
  unfolding swap_in_group
  swap_in_group-SameRequest group moves ids t =
      after_call _ _ t (on_manager-Keeps _ (laws.swap_in-Halts group))
        λ mapping v. ok-Ends _ v (refl, same_state v)

  pub allocate_and_set_running-SameRequest :
      (group : SequenceGroup) (t : Turn M)
      → Ends
          (λ g u. SameRequest group g × Kept t u)
          Stops
          (allocate_and_set_running setting group t)
  unfolding allocate_and_set_running
  allocate_and_set_running-SameRequest group t =
      after_call _ _ t (on_manager-Keeps _ (laws.allocate-Halts group))
        λ _ v. ok-Ends _ v (refl, same_state v)

  append_each-Keeps :
      (seqs : List Sequence) (moves : List Move) → Keeps (append_each setting seqs moves)
  unfolding append_each
  append_each-Keeps [] moves t = ok-Ends moves t (same_state t)
  append_each-Keeps (seq ∷ seqs) moves t =
      chained _ _ t (on_manager-Keeps _ (laws.append_slots-Halts seq _))
        λ cows. append_each-Keeps seqs (moves ++ cows)

  pub append_group-Keeps :
      (group : SequenceGroup) (moves : List Move) → Keeps (append_group setting group moves)
  unfolding append_group
  append_group-Keeps group moves = append_each-Keeps (get_seqs SequenceStatus.running group) moves

  preempt_by_recompute-SameRequest :
      (group : SequenceGroup) (t : Turn M)
      → Ends (λ g u. SameRequest group g × Kept t u) Stops (preempt_by_recompute setting group t)
  unfolding preempt_by_recompute
  preempt_by_recompute-SameRequest group t =
      raise_if-Ends (not (nat_beq (length (get_seqs SequenceStatus.running group)) 1))
        assertion_error
        (λ _. restart setting group.seqs_dict >>= λ d. pure (record group { seqs_dict = d })) t
        (λ _ is. cc)
        λ _.
          after_call _ _ t (restart-Keeps group.seqs_dict)
            λ d u. ok-Ends (record group { seqs_dict = d }) u (refl, same_state u)

  preempt_in-SameRequest :
      (mode : PreemptionMode) (group : SequenceGroup) (moves : List Move) (t : Turn M)
      → Ends
          (λ r u. SameRequest group (r.0) × Kept t u)
          Stops
          (preempt_in setting mode group moves t)
  unfolding preempt_in
  preempt_in-SameRequest PreemptionMode.swap group moves t =
      swap_out_group-SameRequest group moves t
  preempt_in-SameRequest PreemptionMode.recompute group moves t =
      bind-Ends (preempt_by_recompute setting group) _ t
        (Ends-weaken _ (λ g u h. ok-Ends (g, moves) u h) (preempt_by_recompute-SameRequest group t))

  choose_mode-Keeps :
      (name : Option ModeName) (group : SequenceGroup) → Keeps (choose_mode setting name group)
  unfolding choose_mode
  choose_mode-Keeps none group t = ok-Ends _ t (same_state t)
  choose_mode-Keeps (some recompute_name) group t = ok-Ends _ t (same_state t)
  choose_mode-Keeps (some swap_name) group t = ok-Ends _ t (same_state t)
  choose_mode-Keeps (some other_name) group t = err-Ends assertion_error t λ is. cc

  pub preempt-SameRequest :
      (group : SequenceGroup) (moves : List Move) (t : Turn M)
      → Ends (λ r u. SameRequest group (r.1) × Kept t u) Stops (preempt setting group moves t)
  unfolding preempt
  preempt-SameRequest group moves t =
      after_call _ _ t (choose_mode-Keeps setting.config.preemption_mode group) λ mode u.
        bind-Ends (preempt_in setting mode group moves) _ (count_preemption setting u) (
          Ends-weaken _
            (λ r v h. ok-Ends _ v (h.0, Kept-trans u _ v (kept refl refl refl refl) (h.1)))
            (preempt_in-SameRequest mode group moves (count_preemption setting u)))
