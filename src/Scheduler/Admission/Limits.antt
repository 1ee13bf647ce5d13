-- ===== src/Scheduler/Admission/Limits.antt =====
-- Admission keeps a budget within its limits.
use e_llm.Prelude.{
  ℕ, ◌≡◌, refl, ap, sym, ◌⊎◌, ◌&&◌, inl, inr, Bool, Bool-cases, true, false, Option, none, some,
  nat_beq, nat_eq, subst,
}
use e_llm.Exec.{ok, err, pure, or_raise, assertion_error}
use e_llm.Exec.Outcomes.{Ends, Stops, ok-Ends, err-Ends, bind-Ends, if-Ends, or_raise-Ends}
use e_llm.SchedulingBudget.{SchedulingBudget, fits, can_schedule}
use e_llm.SchedulingBudget.Limits.{IsWithin, admitted-IsWithin}
use e_llm.SequenceGroup.{SequenceGroup}
use e_llm.Scheduler.{Setting, Turn}
use e_llm.Scheduler.Laws.{QueuesKept, QueuesKept-trans, unmoved, Kept, same-QueuesKept}
use e_llm.Scheduler.Admission.{on_budget, fits_budget, count_in, lora_check, lora_waits}

-- The queues are kept, and so is a budget within its limits.
abbrev pub Advances : {M : Type 0} (t u : Turn M) → Type 0
Advances t u = QueuesKept t u × (IsWithin t.budget → IsWithin u.budget)

can_schedule-cases :
    (n seqs : ℕ) (b : SchedulingBudget ℕ)
    → ((answer : Bool) × (can_schedule n seqs b ≡ (ok answer, b)))
      ⊎ (can_schedule n seqs b ≡ (err assertion_error, b))
unfolding can_schedule
can_schedule-cases n seqs b = elim (Bool-cases (nat_beq n 0)) [
  | inl none_new ↦ inr (rw (can_schedule, none_new) refl)
  | inr new ↦ elim (Bool-cases (nat_beq seqs 0)) [
    | inl no_seq ↦ inr (rw (can_schedule, new, no_seq) refl)
    | inr some_seq ↦ inl (
      fits b.num_batched_tokens n b.token_budget && fits b.num_curr_seqs seqs b.max_num_seqs,
      rw (can_schedule, new, some_seq) refl,
    )
  ]
]

module _ {M : Type 0} where
  pub Advances-trans : (t u v : Turn M) → Advances t u → Advances u v → Advances t v
  Advances-trans t u v h k = (QueuesKept-trans t u v (h.0) (k.0), λ w. k.1 (h.1 w))

  pub same_Advances : (t u : Turn M) → u ≡ t → Advances t u
  same_Advances t u is = (same-QueuesKept is, λ w. subst (λ x. IsWithin x.budget) (sym is) w)

  pub Kept-Advances : (t u : Turn M) → Kept t u → Advances t u
  Kept-Advances t u k = (k.queues_kept, λ w. subst IsWithin (sym k.budget_kept) w)

  -- The answer of the budget to a number of tokens and of sequences; it does not change.
  pub fits_budget-Ends :
      (n seqs : ℕ) (t : Turn M)
      → Ends
          (λ answer u.
            (u ≡ t) × (answer ≡ true → can_schedule n seqs t.budget ≡ (ok true, t.budget)))
          Stops
          (fits_budget n seqs t)
  unfolding fits_budget on_budget
  fits_budget-Ends n seqs t =
      if-Ends (nat_beq n 0) (pure false) _ t (λ _. ok-Ends false t (refl, λ h. absurd (cc)))
        (λ some_token. elim (can_schedule-cases n seqs t.budget) [
          | inl (answer, is) ↦
              rw (on_budget, is) (ok-Ends answer t (refl, ap λ b. (ok b, t.budget)))
          | inr is ↦ rw (on_budget, is) (err-Ends assertion_error t λ e. cc)
        ])

  pub count_in-Advances :
      (group : SequenceGroup) (n seqs : ℕ) (t u : Turn M)
      → u.budget ≡ t.budget
      → can_schedule n seqs t.budget ≡ (ok true, t.budget)
      → Ends (λ _ v. Advances u v) Stops (count_in group n seqs u)
  unfolding count_in
  count_in-Advances group n seqs t u same fits = ok-Ends tt _ (
    unmoved refl refl refl,
    λ _. admitted-IsWithin u.budget group.request_id n seqs (rw same fits),
  )

module _ {M Move : Type 0} (setting : Setting M Move) where
  pub lora_waits-Ends :
      (group : SequenceGroup) (t : Turn M) → Ends (λ _ u. u ≡ t) Stops (lora_waits setting group t)
  unfolding lora_waits
  lora_waits-Ends group t = checked setting.config.max_loras
    where
      checked : (m : Option ℕ) → Ends (λ _ u. u ≡ t) Stops (lora_check setting m group t)
      checked none = ok-Ends false t refl
      checked (some max_loras) =
          bind-Ends (λ t'. or_raise assertion_error t'.curr_loras t') _ t
            (or_raise-Ends t.curr_loras assertion_error t (λ is. cc) λ loras is. ok-Ends _ t refl)
