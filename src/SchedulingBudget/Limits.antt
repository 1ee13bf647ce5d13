-- ===== src/SchedulingBudget/Limits.antt =====
-- A request that `can_schedule` admits stays within the budget, and withdrawing it restores the
-- budget.
use e_llm.Prelude.{ℕ, ◌+◌, ◌≡◌, refl, ◌≤◌, true, false, Eq, arith}
use e_llm.Dict.{contains}
use e_llm.Dict.Laws.{contains-put_same, remove-put}
use e_llm.Exec.{ok}
use e_llm.SchedulingBudget.{
  SchedulingBudget, can_schedule, add_num_batched_tokens, subtract_num_batched_tokens, add_num_seqs,
  subtract_num_seqs,
}

-- Neither counter is above its limit.
abbrev pub IsWithin {ℓ} : {K : Type ℓ} → SchedulingBudget K → Type 0
IsWithin s =
    (s.num_batched_tokens.added ≤ s.token_budget + s.num_batched_tokens.subtracted)
    × (s.num_curr_seqs.added ≤ s.max_num_seqs + s.num_curr_seqs.subtracted)

module _ {ℓ} {K : Type ℓ} ⦃e : Eq K⦄ where
  -- When `can_schedule` says yes to a number of tokens and of sequences, adding them for a request
  -- leaves both counters within their limits, also when the request was counted before.
  pub admitted-IsWithin :
      (s : SchedulingBudget K) (req_id : K) (tokens seqs : ℕ)
      → can_schedule tokens seqs s ≡ (ok true, s)
      → IsWithin (add_num_seqs req_id seqs (add_num_batched_tokens req_id tokens s))
  unfolding can_schedule add_num_batched_tokens add_num_seqs
  admitted-IsWithin s req_id tokens seqs h = ground (arith, h)

  -- Subtracting a request's tokens and sequences that were just added for it gives back both
  -- balances and both sets of request ids, if the request was counted in neither set before.
  pub withdrawn-restores :
      (s : SchedulingBudget K) (req_id : K) (tokens seqs : ℕ)
      → contains req_id s.request_ids_num_batched_tokens ≡ false
      → contains req_id s.request_ids_num_curr_seqs ≡ false
      → (t : SchedulingBudget K) × (subtract_num_seqs req_id seqs (
            subtract_num_batched_tokens req_id tokens
              (add_num_seqs req_id seqs (add_num_batched_tokens req_id tokens s)))
          ≡ t)
        × (t.request_ids_num_batched_tokens ≡ s.request_ids_num_batched_tokens)
        × (t.request_ids_num_curr_seqs ≡ s.request_ids_num_curr_seqs)
        × (t.num_batched_tokens.added + s.num_batched_tokens.subtracted
            ≡ s.num_batched_tokens.added + t.num_batched_tokens.subtracted)
        × (t.num_curr_seqs.added + s.num_curr_seqs.subtracted
            ≡ s.num_curr_seqs.added + t.num_curr_seqs.subtracted)
  unfolding add_num_batched_tokens add_num_seqs subtract_num_batched_tokens subtract_num_seqs
  withdrawn-restores s req_id tokens seqs new_tokens new_seqs = (
    record s {
      num_batched_tokens = record {
        added = s.num_batched_tokens.added + tokens;
        subtracted = s.num_batched_tokens.subtracted + tokens;
      };
      num_curr_seqs = record {
        added = s.num_curr_seqs.added + seqs;
        subtracted = s.num_curr_seqs.subtracted + seqs;
      };
    },
    rw new_tokens (
        rw new_seqs (
          rw (contains-put_same req_id tt s.request_ids_num_batched_tokens) (
            rw (contains-put_same req_id tt s.request_ids_num_curr_seqs) (
              rw (remove-put req_id tt s.request_ids_num_batched_tokens new_tokens)
                (rw (remove-put req_id tt s.request_ids_num_curr_seqs new_seqs) refl))))),
    refl,
    refl,
    omega arith,
    omega arith,
  )
