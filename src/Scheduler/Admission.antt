-- ===== src/Scheduler/Admission.antt =====
-- vllm/core/scheduler.py: the tests that `_schedule_prefills` and `_schedule_swapped` make of a group,
-- and what they do for one that passes.
pub mod Limits
use e_llm.Prelude.{
  ℕ, ◌≡◌, Bool, true, false, not, ◌&&◌, Option, none, some, List, [], ◌∷◌, length, any, ltb, leb,
  nat_beq, nat_eq, if◌then◌else◌,
}
use e_llm.Exec.{Exec, pure, gets, modify, or_raise, ◌>>=◌, ◌>>◌, assertion_error}
use e_llm.SchedulingBudget.{SchedulingBudget, can_schedule, add_num_batched_tokens, add_num_seqs}
use e_llm.SequenceGroup.{SequenceGroup, get_max_num_running_seqs}
use e_llm.Scheduler.{Setting, Scheduler, Turn, set_budget}

-- queue.extendleft(groups): each one in turn goes to the front.
abbrev pub extendleft : List SequenceGroup → List SequenceGroup → List SequenceGroup
extendleft [] queue = queue
extendleft (group ∷ groups) queue = extendleft groups (group ∷ queue)

module _ {M : Type 0} where
  -- A call of a method of the budget.
  unfoldable pub on_budget : {A : Type 0} → Exec (SchedulingBudget ℕ) A → Exec (Turn M) A
  on_budget call t = let (r, b) = call t.budget in (r, record t { budget = b })

  -- num_new_tokens != 0 and budget.can_schedule(...)
  unfoldable pub fits_budget : ℕ → ℕ → Exec (Turn M) Bool
  unfolding on_budget can_schedule
  fits_budget num_new_tokens num_new_seqs =
      if nat_beq num_new_tokens 0
      then pure false
      else on_budget (can_schedule num_new_tokens num_new_seqs)

  -- The budget with the group.
  unfoldable pub count_in : SequenceGroup → ℕ → ℕ → Exec (Turn M) (Unit {0})
  unfolding add_num_batched_tokens add_num_seqs
  count_in group num_new_tokens num_new_seqs = set_budget λ b.
      add_num_seqs group.request_id num_new_seqs
        (add_num_batched_tokens group.request_id num_new_tokens b)

module _ {M Move : Type 0} (setting : Setting M Move) where
  -- seq_group.lora_int_id where LoRA is enabled, else 0.
  abbrev pub lora_of : SequenceGroup → ℕ
  lora_of group = elim setting.config.max_loras [ none ↦ 0 | some _ ↦ group.lora_int_id ]

  abbrev pub lacks_lora : ℕ → ℕ → List ℕ → Bool
  lacks_lora lora max_loras loras =
      ltb 0 lora && not (any (nat_beq lora) loras) && leb max_loras (length loras)

  abbrev pub lora_check : Option ℕ → SequenceGroup → Exec (Turn M) Bool
  lora_check none group = pure false
  lora_check (some max_loras) group = do
    loras ← λ t. or_raise assertion_error t.curr_loras t
    pure (lacks_lora group.lora_int_id max_loras loras)

  -- Is the group to wait, since there is no space for its LoRA?
  unfoldable pub lora_waits : SequenceGroup → Exec (Turn M) Bool
  lora_waits = lora_check setting.config.max_loras
