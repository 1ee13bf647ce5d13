-- ===== src/SchedulingBudget.antt =====
-- vllm/core/scheduler.py: `SchedulingBudget`. A counter that the source adds to and subtracts from
-- is an integer; it is kept as what was added and what was subtracted.
pub mod Limits
mod Examples
use e_llm.Prelude.{
  ℕ, ◌+◌, ◌*◌, ◌≡◌, Bool, true, false, ◌&&◌, List, [], leb, nat_beq, Eq, if◌then◌else◌,
}
use e_llm.Dict.{Dict, contains, put, remove}
use e_llm.Exec.{Exec, pure, modify, raise_if, ◌>>=◌, ◌>>◌, assertion_error}

-- added - subtracted
pub record Counter : Type 0 where
  pub added : ℕ
  pub subtracted : ℕ

-- The sets of request ids are dicts to nothing.
pub record SchedulingBudget {ℓ} (K : Type ℓ) : Type ℓ where
  pub token_budget : ℕ
  pub max_num_seqs : ℕ
  pub request_ids_num_batched_tokens : Dict K (Unit {0})
  pub request_ids_num_curr_seqs : Dict K (Unit {0})
  pub num_batched_tokens : Counter
  pub num_curr_seqs : Counter

abbrev pub increase : Counter → ℕ → Counter
increase c n = record c { added = c.added + n }

abbrev pub decrease : Counter → ℕ → Counter
decrease c n = record c { subtracted = c.subtracted + n }

-- c + n ≤ limit
abbrev pub fits : Counter → ℕ → ℕ → Bool
fits c n limit = leb (c.added + n) (limit + c.subtracted)

module _ {ℓ} {K : Type ℓ} ⦃e : Eq K⦄ where
  abbrev pub new_budget : ℕ → ℕ → SchedulingBudget K
  new_budget token_budget max_num_seqs = record {
    token_budget = token_budget;
    max_num_seqs = max_num_seqs;
    request_ids_num_batched_tokens = [];
    request_ids_num_curr_seqs = [];
    num_batched_tokens = record { added = 0; subtracted = 0 };
    num_curr_seqs = record { added = 0; subtracted = 0 };
  }

  unfoldable pub can_schedule : ℕ → ℕ → Exec (SchedulingBudget K) Bool
  can_schedule num_new_tokens num_new_seqs s =
      (do
        raise_if (nat_beq num_new_tokens 0) assertion_error
        raise_if (nat_beq num_new_seqs 0) assertion_error
        pure (
            fits s.num_batched_tokens num_new_tokens s.token_budget
            && fits s.num_curr_seqs num_new_seqs s.max_num_seqs))
        s

  -- token_budget - num_batched_tokens
  abbrev pub remaining_token_budget : SchedulingBudget K → Counter
  remaining_token_budget s = record {
    added = s.token_budget + s.num_batched_tokens.subtracted;
    subtracted = s.num_batched_tokens.added;
  }

  unfoldable pub add_num_batched_tokens : K → ℕ → SchedulingBudget K → SchedulingBudget K
  add_num_batched_tokens req_id n s =
      if contains req_id s.request_ids_num_batched_tokens then s else record s {
        request_ids_num_batched_tokens = put req_id tt s.request_ids_num_batched_tokens;
        num_batched_tokens = increase s.num_batched_tokens n;
      }

  unfoldable pub subtract_num_batched_tokens : K → ℕ → SchedulingBudget K → SchedulingBudget K
  subtract_num_batched_tokens req_id n s =
      if contains req_id s.request_ids_num_batched_tokens
      then record s {
        request_ids_num_batched_tokens = remove req_id s.request_ids_num_batched_tokens;
        num_batched_tokens = decrease s.num_batched_tokens n;
      }
      else s

  unfoldable pub add_num_seqs : K → ℕ → SchedulingBudget K → SchedulingBudget K
  add_num_seqs req_id n s = if contains req_id s.request_ids_num_curr_seqs then s else record s {
    request_ids_num_curr_seqs = put req_id tt s.request_ids_num_curr_seqs;
    num_curr_seqs = increase s.num_curr_seqs n;
  }

  unfoldable pub subtract_num_seqs : K → ℕ → SchedulingBudget K → SchedulingBudget K
  subtract_num_seqs req_id n s =
      if contains req_id s.request_ids_num_curr_seqs
      then record s {
        request_ids_num_curr_seqs = remove req_id s.request_ids_num_curr_seqs;
        num_curr_seqs = decrease s.num_curr_seqs n;
      }
      else s
