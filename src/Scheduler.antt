-- ===== src/Scheduler.antt =====
-- vllm/core/scheduler.py: the state of the scheduler, its queues and the calls it makes of a block
-- manager. The children model the three passes over the queues and the steps made of them.
pub mod Laws
pub mod Policies
pub mod Groups
pub mod Admission
pub mod Running
pub mod Prefills
pub mod Swapped
pub mod Outputs
pub mod Default
pub mod Queues
pub mod Counting
mod Examples
use e_llm.Prelude.{
  ℕ, suc, ◌+◌, ◌-◌, ◌*◌, ◌≡◌, min, Bool, true, false, not, ◌&&◌, ◌||◌, Option, none, some, List, [],
  ◌∷◌, ◌++◌, length, ltb, nat_beq, nat_eq, if◌then◌else◌,
}
use e_llm.Exec.{
  Exec, ok, pure, gets, modify, raise_if, ◌>>=◌, ◌>>◌, assertion_error, negative_tokens,
}
use e_llm.EllmBlockManager.{AllocStatus}
use e_llm.SchedulingBudget.{SchedulingBudget, Counter, remaining_token_budget}
use e_llm.Sequence.{Sequence, SequenceStatus, get_num_new_tokens}
use e_llm.SequenceGroup.{SequenceGroup, get_seqs}

-- The methods of vllm/core/interfaces.py: `BlockSpaceManager` that the scheduler calls. `Move` is an
-- entry of a list of blocks to copy or to swap.
pub record BlockSpaceManager (M Move : Type 0) : Type 0 where
  pub can_allocate : SequenceGroup → Exec M AllocStatus
  pub allocate : SequenceGroup → Exec M (Unit {0})
  pub can_append_slots : SequenceGroup → ℕ → Exec M Bool
  pub append_slots : Sequence → ℕ → Exec M (List Move)
  pub can_swap_in : SequenceGroup → Exec M AllocStatus
  pub swap_in : SequenceGroup → Exec M (List Move)
  pub can_swap_out : SequenceGroup → Exec M Bool
  pub swap_out : SequenceGroup → Exec M (List Move)
  pub free : Sequence → Exec M (Unit {0})
  pub fork : Sequence → Sequence → Exec M (Unit {0})
  pub get_seq_used_block_id : SequenceGroup → Exec M (List ℕ)
  -- entry[-1]
  pub last_entry : Move → ℕ

-- A string of the configuration: 'recompute', 'swap' or another.
pub data ModeName : Type 0 where
  recompute_name swap_name other_name : ModeName

pub data PolicyName : Type 0 where
  fcfs_name dllm_name other_policy : PolicyName

-- A factor of the configuration is a fraction; `max_loras` is there when LoRA is enabled.
pub record SchedulerConfig : Type 0 where
  pub max_num_batched_tokens : ℕ
  pub max_num_seqs : ℕ
  pub max_model_len : ℕ
  pub num_lookahead_slots : ℕ
  pub chunked_prefill_enabled : Bool
  pub delay_factor : ℕ × ℕ
  pub preemption_mode : Option ModeName
  pub scheduling_policy : PolicyName
  pub wt_weight : ℕ × ℕ
  pub max_loras : Option ℕ
  pub enable_artificial_preemption : Bool

pub data PreemptionMode : Type 0 where
  swap recompute : PreemptionMode

pub record ScheduledSequenceGroup : Type 0 where
  pub seq_group : SequenceGroup
  pub token_chunk_size : ℕ

-- What is outside the scheduler: the manager's class, the configuration, the readings of time.time()
-- and the draws of random.uniform that are below the probability.
pub record Setting (M Move : Type 0) : Type 0 where
  pub manager : BlockSpaceManager M Move
  pub config : SchedulerConfig
  pub clock : ℕ → ℕ
  pub drawn : ℕ → Bool

-- `clock_reads` and `draws` count the readings and the draws that were made.
pub record Scheduler (M : Type 0) : Type 0 where
  pub waiting : List SequenceGroup
  pub running : List SequenceGroup
  pub swapped : List SequenceGroup
  pub block_manager : M
  pub prev_time : ℕ
  pub prev_prompt : Bool
  pub last_prompt_latency : ℕ
  pub num_cumulative_preemption : ℕ
  pub artificial_preempt_cnt : ℕ
  pub clock_reads : ℕ
  pub draws : ℕ

-- The scheduler during a call of schedule(), with the local variables that its passes change.
pub record Turn (M : Type 0) : Type 0 where
  pub scheduler : Scheduler M
  pub budget : SchedulingBudget ℕ
  pub curr_loras : Option (List ℕ)

module _ {M : Type 0} where
  -- A call of a method of `self.block_manager`.
  unfoldable pub on_manager : {A : Type 0} → Exec M A → Exec (Turn M) A
  on_manager call t =
      let (r, m) = call t.scheduler.block_manager in
      (r, record t { scheduler = record t.scheduler { block_manager = m } })

  abbrev pub set_budget : (SchedulingBudget ℕ → SchedulingBudget ℕ) → Exec (Turn M) (Unit {0})
  set_budget f = modify λ t. record t { budget = f t.budget }

module _ {M Move : Type 0} (setting : Setting M Move) where
  -- time.time()
  abbrev pub now : Exec (Turn M) ℕ
  now t = (
    ok (setting.clock t.scheduler.clock_reads),
    record t { scheduler = record t.scheduler { clock_reads = suc t.scheduler.clock_reads } },
  )

  abbrev pub get_num_lookahead_slots : Bool → ℕ
  get_num_lookahead_slots is_prefill = if is_prefill then 0 else setting.config.num_lookahead_slots

  -- random.uniform(0, 1) < ARTIFICIAL_PREEMPTION_PROB
  abbrev pub unlucky : Exec (Turn M) Bool
  unlucky t = (
    ok (setting.drawn t.scheduler.draws),
    record t { scheduler = record t.scheduler { draws = suc t.scheduler.draws } },
  )

  abbrev pub use_artificial : Turn M → Turn M
  use_artificial t = record t {
    scheduler = record t.scheduler {
      artificial_preempt_cnt = t.scheduler.artificial_preempt_cnt - 1;
    };
  }

  -- The manager's answer, but for the preemptions that a test asks for.
  unfoldable pub can_append : SequenceGroup → Exec (Turn M) Bool
  can_append group =
      if setting.config.enable_artificial_preemption
      then (do
        luck ← unlucky
        left ← gets λ t. t.scheduler.artificial_preempt_cnt
        if luck && ltb 0 left then (do modify use_artificial; pure false) else ask)
      else ask
    where
      ask : Exec (Turn M) Bool
      ask = on_manager (setting.manager.can_append_slots group (get_num_lookahead_slots false))

abbrev pub sum_new_tokens : List Sequence → ℕ
sum_new_tokens [] = 0
sum_new_tokens (seq ∷ seqs) = get_num_new_tokens seq + sum_new_tokens seqs

module _ {M : Type 0} where
  -- min(n, remaining): the remaining budget may be negative.
  unfoldable pub cut_to : ℕ → Counter → Exec (Turn M) ℕ
  cut_to n remaining = do
    raise_if (ltb remaining.added remaining.subtracted) negative_tokens
    pure (min n (remaining.added - remaining.subtracted))

  unfoldable pub num_new_tokens : SequenceGroup → SequenceStatus → Bool → Exec (Turn M) ℕ
  num_new_tokens group status enable_chunking t =
      let seqs = get_seqs status group in
      (do
        raise_if (nat_beq (sum_new_tokens seqs) 0) assertion_error
        if enable_chunking && nat_beq (length seqs) 1
            then cut_to (sum_new_tokens seqs) (remaining_token_budget t.budget)
            else pure (sum_new_tokens seqs))
        t
