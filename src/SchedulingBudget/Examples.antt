-- ===== src/SchedulingBudget/Examples.antt =====
-- A budget of 100 tokens and 2 sequences; requests are numbers here.
use e_llm.Prelude.{ℕ, ◌+◌, ◌≡◌, refl, nat_eq, true}
use e_llm.Dict.{contains, put}
use e_llm.Exec.{ok}
use e_llm.SchedulingBudget.{
  SchedulingBudget, new_budget, can_schedule, add_num_batched_tokens, subtract_num_batched_tokens,
  add_num_seqs, subtract_num_seqs,
}
use e_llm.SchedulingBudget.Limits.{IsWithin, admitted-IsWithin, withdrawn-restores}

abbrev busy : SchedulingBudget ℕ
busy = add_num_seqs 1 1 (add_num_batched_tokens 1 60 (new_budget 100 2))

room : can_schedule 40 1 busy ≡ (ok true, busy)
unfolding can_schedule add_num_seqs add_num_batched_tokens contains put
room = refl

admitted-IsWithin_example : IsWithin (add_num_seqs 2 1 (add_num_batched_tokens 2 40 busy))
admitted-IsWithin_example = admitted-IsWithin busy 2 40 1 room

withdrawn-restores_example :
    (t : SchedulingBudget ℕ) × (subtract_num_seqs 2 1
        (subtract_num_batched_tokens 2 40 (add_num_seqs 2 1 (add_num_batched_tokens 2 40 busy)))
      ≡ t)
    × (t.request_ids_num_batched_tokens ≡ busy.request_ids_num_batched_tokens)
    × (t.request_ids_num_curr_seqs ≡ busy.request_ids_num_curr_seqs)
    × (t.num_batched_tokens.added + busy.num_batched_tokens.subtracted
        ≡ busy.num_batched_tokens.added + t.num_batched_tokens.subtracted)
    × (t.num_curr_seqs.added + busy.num_curr_seqs.subtracted
        ≡ busy.num_curr_seqs.added + t.num_curr_seqs.subtracted)
unfolding contains put add_num_batched_tokens add_num_seqs
withdrawn-restores_example = withdrawn-restores busy 2 40 1 refl refl
