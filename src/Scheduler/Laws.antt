-- ===== src/Scheduler/Laws.antt =====
-- What the passes rely on: a block manager whose methods end, and counts of requests in lists.
use e_llm.Prelude.{
  ℕ, ◌+◌, ◌≡◌, refl, ap, ◌∙◌, ◌<◌, ◌-◌, min, nat_eq, Bool, false, ◌&&◌, List, [], ◌∷◌, ◌++◌, length,
  nat_beq, ltb, if◌then◌else◌, arith,
}
use e_llm.SchedulingBudget.{Counter, remaining_token_budget}
use e_llm.Exec.{Exec, pure, Result, ok, err, assertion_error, negative_tokens}
use e_llm.Exec.Outcomes.{Ends, Stops, ok-Ends, err-Ends, if-Ends, raise_if-Ends, Ends-weaken}
use e_llm.Sequence.{Sequence, SequenceStatus}
use e_llm.SequenceGroup.{SequenceGroup, get_seqs}
use e_llm.Scheduler.{
  sum_new_tokens, Setting, Turn, BlockSpaceManager, ScheduledSequenceGroup, on_manager, can_append,
  num_new_tokens, cut_to,
}

-- The call returns or raises an exception of the source.
abbrev pub Halts {ℓ} : {S A : Type ℓ} → Exec S A → Type ℓ
Halts {S = S} m = (s : S) → Ends (λ _ _. Unit {0}) Stops (m s)

-- No method of the block manager loops without end.
pub record AlwaysHalts {M Move : Type 0} (manager : BlockSpaceManager M Move) : Type 0 where
  pub can_allocate-Halts : (g : SequenceGroup) → Halts (manager.can_allocate g)
  pub allocate-Halts : (g : SequenceGroup) → Halts (manager.allocate g)
  pub can_append_slots-Halts : (g : SequenceGroup) (n : ℕ) → Halts (manager.can_append_slots g n)
  pub append_slots-Halts : (s : Sequence) (n : ℕ) → Halts (manager.append_slots s n)
  pub can_swap_in-Halts : (g : SequenceGroup) → Halts (manager.can_swap_in g)
  pub swap_in-Halts : (g : SequenceGroup) → Halts (manager.swap_in g)
  pub can_swap_out-Halts : (g : SequenceGroup) → Halts (manager.can_swap_out g)
  pub swap_out-Halts : (g : SequenceGroup) → Halts (manager.swap_out g)
  pub free-Halts : (s : Sequence) → Halts (manager.free s)
  pub get_seq_used_block_id-Halts : (g : SequenceGroup) → Halts (manager.get_seq_used_block_id g)

-- How many of a list's elements stand for the request r.
abbrev pub tally : {A : Type 0} → (A → ℕ) → ℕ → List A → ℕ
tally f r [] = 0
tally f r (x ∷ xs) = (if nat_beq (f x) r then 1 else 0) + tally f r xs

abbrev pub of_groups : ℕ → List SequenceGroup → ℕ
of_groups r groups = tally (λ g. g.request_id) r groups

abbrev pub of_scheduled : ℕ → List ScheduledSequenceGroup → ℕ
of_scheduled r scheduled = tally (λ s. s.seq_group.request_id) r scheduled

module _ {A : Type 0} (f : A → ℕ) (r : ℕ) where
  pub tally-append : (xs ys : List A) → tally f r (xs ++ ys) ≡ tally f r xs + tally f r ys
  tally-append [] ys = omega arith
  tally-append (x ∷ xs) ys = omega (arith, tally-append xs ys)

-- The queues of the scheduler are what they were, and so is the budget.
pub record QueuesKept {M : Type 0} (t t' : Turn M) : Type 0 where
  pub waiting_kept : t'.scheduler.waiting ≡ t.scheduler.waiting
  pub running_kept : t'.scheduler.running ≡ t.scheduler.running
  pub swapped_kept : t'.scheduler.swapped ≡ t.scheduler.swapped

pub record Kept {M : Type 0} (t t' : Turn M) : Type 0 where
  pub queues_kept : QueuesKept t t'
  pub budget_kept : t'.budget ≡ t.budget

module _ {M : Type 0} where
  pub kept :
      {t t' : Turn M}
      → t'.scheduler.waiting ≡ t.scheduler.waiting
      → t'.scheduler.running ≡ t.scheduler.running
      → t'.scheduler.swapped ≡ t.scheduler.swapped
      → t'.budget ≡ t.budget
      → Kept t t'
  kept w r s b = record {
    queues_kept = record { waiting_kept = w; running_kept = r; swapped_kept = s };
    budget_kept = b;
  }

  pub unmoved :
      {t t' : Turn M}
      → t'.scheduler.waiting ≡ t.scheduler.waiting
      → t'.scheduler.running ≡ t.scheduler.running
      → t'.scheduler.swapped ≡ t.scheduler.swapped
      → QueuesKept t t'
  unmoved w r s = record { waiting_kept = w; running_kept = r; swapped_kept = s }

  pub same-QueuesKept : {t t' : Turn M} → t' ≡ t → QueuesKept t t'
  same-QueuesKept is = record {
    waiting_kept = ap (λ x. x.scheduler.waiting) is;
    running_kept = ap (λ x. x.scheduler.running) is;
    swapped_kept = ap (λ x. x.scheduler.swapped) is;
  }

  pub QueuesKept-trans : (t u v : Turn M) → QueuesKept t u → QueuesKept u v → QueuesKept t v
  QueuesKept-trans t u v h k = record {
    waiting_kept = k.waiting_kept ∙ h.waiting_kept;
    running_kept = k.running_kept ∙ h.running_kept;
    swapped_kept = k.swapped_kept ∙ h.swapped_kept;
  }

  pub Kept-trans : (t u v : Turn M) → Kept t u → Kept u v → Kept t v
  Kept-trans t u v h k = record {
    queues_kept = QueuesKept-trans t u v h.queues_kept k.queues_kept;
    budget_kept = k.budget_kept ∙ h.budget_kept;
  }

module _ {M : Type 0} {A : Type 0} where
  -- The call of a method of the manager changes the manager only.
  pub on_manager-Ends :
      {P : A → Turn M → Type 0} (call : Exec M A) (t : Turn M)
      → Ends (λ _ _. Unit {0}) Stops (call t.scheduler.block_manager)
      → ((a : A) (t' : Turn M) → Kept t t' → P a t')
      → Ends P Stops (on_manager call t)
  unfolding on_manager
  on_manager-Ends {P = P} call t ends good = by_result (call t.scheduler.block_manager) ends
    where
      by_result :
          (ran : Result A × M)
          → Ends (λ _ _. Unit {0}) Stops ran
          → Ends P Stops
              (ran.0, record t { scheduler = record t.scheduler { block_manager = ran.1 } })
      by_result (ok a, m) ends = ok-Ends a _ (good a _ (kept refl refl refl refl))
      by_result (err e, m) ends = err-Ends e _ ends.outcome_of

-- The call returns or raises an exception of the source, and keeps queues and budget.
abbrev pub Keeps : {M A : Type 0} → Exec (Turn M) A → Type 0
Keeps {M = M} m = (t : Turn M) → Ends (λ _ t'. Kept t t') Stops (m t)

module _ {M : Type 0} {A : Type 0} where
  pub on_manager-Keeps : (call : Exec M A) → Halts call → Keeps (on_manager call)
  on_manager-Keeps call halts t =
      on_manager-Ends call t (halts t.scheduler.block_manager) λ _ _ k. k

module _ {M Move : Type 0} (setting : Setting M Move) (laws : AlwaysHalts setting.manager) where
  pub can_append-Keeps : (group : SequenceGroup) → Keeps (can_append setting group)
  unfolding can_append
  can_append-Keeps group t =
      if-Ends setting.config.enable_artificial_preemption _ _ t
        (λ _.
          if-Ends (setting.drawn t.scheduler.draws && ltb 0 t.scheduler.artificial_preempt_cnt) _ _
            _ (λ _. ok-Ends false _ (kept refl refl refl refl))
            (λ _.
              Ends-weaken _ (λ _ _ k. Kept-trans _ _ _ (kept refl refl refl refl) k)
                (on_manager-Keeps _ (laws.can_append_slots-Halts group _) _)))
        (λ _. on_manager-Keeps _ (laws.can_append_slots-Halts group _) t)

module _ {M : Type 0} where
  cut_to-Ends :
      (n : ℕ) (remaining : Counter) (t : Turn M)
      → Ends (λ _ t'. t' ≡ t) Stops (cut_to n remaining t)
  unfolding cut_to
  cut_to-Ends n remaining t =
      raise_if-Ends (ltb remaining.added remaining.subtracted) negative_tokens
        (λ _. pure (min n (remaining.added - remaining.subtracted))) t (λ _ is. cc)
        (λ _. ok-Ends _ t refl)

  pub num_new_tokens-Ends :
      (group : SequenceGroup) (status : SequenceStatus) (chunking : Bool) (t : Turn M)
      → Ends
          (λ n t'.
            (t' ≡ t)
            × (0 < sum_new_tokens (get_seqs status group))
            × (chunking ≡ false → n ≡ sum_new_tokens (get_seqs status group)))
          Stops
          (num_new_tokens group status chunking t)
  unfolding num_new_tokens
  num_new_tokens-Ends group status chunking t =
      let seqs : List Sequence = get_seqs status group in
      raise_if-Ends (nat_beq (sum_new_tokens seqs) 0) assertion_error _ t (λ _ is. cc)
        (λ some_token.
          if-Ends (chunking && nat_beq (length seqs) 1) _ _ t
            (λ cuts.
              Ends-weaken _
                (λ n t' is. (is, ground arith, λ whole. absurd (ground (arith, cuts, whole))))
                (cut_to-Ends (sum_new_tokens seqs) (remaining_token_budget t.budget) t))
            (λ _. ok-Ends _ t (refl, ground arith, λ _. refl)))
