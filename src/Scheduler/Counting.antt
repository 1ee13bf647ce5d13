-- ===== src/Scheduler/Counting.antt =====
-- A scheduler over a block manager that only counts its free blocks, one to a request, with a running,
-- a waiting and a swapped-out request.
use e_llm.Prelude.{
  ℕ, zero, suc, ◌+◌, true, false, Option, none, some, List, [], ◌∷◌, nat_eq, if◌then◌else◌, ltb,
}
use e_llm.Exec.{Exec, Result, ok, err, pure, ◌>>◌, no_free_blocks}
use e_llm.Exec.Outcomes.{ok-Ends, err-Ends}
use e_llm.EllmBlockManager.{alloc_ok, alloc_later}
use e_llm.SchedulingBudget.{new_budget}
use e_llm.Sequence.{SequenceStatus, SequenceStage}
use e_llm.SequenceGroup.{SequenceGroup}
use e_llm.Scheduler.{BlockSpaceManager, SchedulerConfig, fcfs_name, Setting, Scheduler, Turn}
use e_llm.Scheduler.Laws.{AlwaysHalts, Halts}

abbrev use_block : Exec ℕ (Unit {0})
use_block zero = (err no_free_blocks, zero)
use_block (suc free) = (ok tt, free)

-- A swap is the pair of a CPU and a GPU block.
abbrev counting : BlockSpaceManager ℕ (ℕ × ℕ)
counting = record {
  can_allocate = λ group free. (ok (if ltb 0 free then alloc_ok else alloc_later), free);
  allocate = λ group. use_block;
  can_append_slots = λ group n free. (ok (ltb 0 free), free);
  append_slots = λ seq n. pure [];
  can_swap_in = λ group free. (ok (if ltb 0 free then alloc_ok else alloc_later), free);
  swap_in = λ group. use_block >> pure ((7, 8) ∷ []);
  can_swap_out = λ group. pure true;
  swap_out = λ group free. (ok ((8, 7) ∷ []), suc free);
  free = λ seq free. (ok tt, suc free);
  fork = λ parent child. pure tt;
  get_seq_used_block_id = λ group. pure (8 ∷ []);
  last_entry = λ move. move.1;
}

use_block-Halts : Halts use_block
use_block-Halts zero = err-Ends no_free_blocks zero λ e. cc
use_block-Halts (suc free) = ok-Ends tt free tt

swap_in-Halts : Halts {A = List (ℕ × ℕ)} (use_block >> pure ((7, 8) ∷ []))
swap_in-Halts zero = err-Ends no_free_blocks zero λ e. cc
swap_in-Halts (suc free) = ok-Ends ((7, 8) ∷ []) free tt

pub counting-AlwaysHalts : AlwaysHalts counting
counting-AlwaysHalts = record {
  can_allocate-Halts = λ g s. ok-Ends _ s tt;
  allocate-Halts = λ g. use_block-Halts;
  can_append_slots-Halts = λ g n s. ok-Ends _ s tt;
  append_slots-Halts = λ q n s. ok-Ends _ s tt;
  can_swap_in-Halts = λ g s. ok-Ends _ s tt;
  swap_in-Halts = λ g. swap_in-Halts;
  can_swap_out-Halts = λ g s. ok-Ends _ s tt;
  swap_out-Halts = λ g s. ok-Ends _ (suc s) tt;
  free-Halts = λ q s. ok-Ends _ (suc s) tt;
  get_seq_used_block_id-Halts = λ g s. ok-Ends _ s tt;
}

abbrev small : SchedulerConfig
small = record {
  max_num_batched_tokens = 8;
  max_num_seqs = 4;
  max_model_len = 8;
  num_lookahead_slots = 0;
  chunked_prefill_enabled = false;
  delay_factor = (0, 1);
  preemption_mode = none;
  scheduling_policy = fcfs_name;
  wt_weight = (1, 2);
  max_loras = none;
  enable_artificial_preemption = false;
}

abbrev pub toy : Setting ℕ (ℕ × ℕ)
toy = record { manager = counting; config = small; clock = λ n. 100 + n; drawn = λ n. false }

abbrev with_one : ℕ → ℕ → SequenceStatus → SequenceStage → SequenceGroup
with_one id arrival status stage = record {
  request_id = id;
  arrival_time = arrival;
  lora_int_id = 0;
  long_lora_max_len = 0;
  sampling_params = none;
  seqs_dict =
      (
        id,
        record {
          seq_id = id;
          block_size = 4;
          seq_data = record {
            prompt_token_ids = 5 ∷ 6 ∷ [];
            output_token_ids = [];
            num_computed_tokens = 0;
            stage = stage;
          };
          logical_token_blocks = [];
          status = status;
        },
      )
      ∷ [];
  cache_layers = 0;
}

abbrev pub newcomer : SequenceGroup
newcomer = with_one 1 30 SequenceStatus.waiting SequenceStage.prefill

abbrev pub decoding : SequenceGroup
decoding = with_one 2 20 SequenceStatus.running SequenceStage.decode

abbrev pub parked : SequenceGroup
parked = with_one 3 10 SequenceStatus.swapped SequenceStage.decode

abbrev pub later : SequenceGroup
later = with_one 4 40 SequenceStatus.running SequenceStage.decode

-- With a number of free blocks.
abbrev pub starting : ℕ → Scheduler ℕ
starting free = record {
  waiting = newcomer ∷ [];
  running = later ∷ decoding ∷ [];
  swapped = parked ∷ [];
  block_manager = free;
  prev_time = 0;
  prev_prompt = false;
  last_prompt_latency = 0;
  num_cumulative_preemption = 0;
  artificial_preempt_cnt = 0;
  clock_reads = 0;
  draws = 0;
}

abbrev pub turn : ℕ → Turn ℕ
turn free = record { scheduler = starting free; budget = new_budget 8 4; curr_loras = none }

abbrev ids : List SequenceGroup → List ℕ
ids [] = []
ids (g ∷ groups) = g.request_id ∷ ids groups

abbrev pub queues : {A : Type 0} → Result A × Scheduler ℕ → Option (List ℕ × List ℕ × List ℕ)
queues (err e, s) = none
queues (ok a, s) = some (ids s.waiting, ids s.running, ids s.swapped)
