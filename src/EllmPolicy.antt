-- ===== src/EllmPolicy.antt =====
-- vllm/core/ellm_policy.py: the choice of a batch size and of a number of cached layers. The order of
-- throughputs, which are floats, is a parameter.
pub mod Feasible
mod Examples
use e_llm.Prelude.{
  ℕ, zero, suc, ◌+◌, ◌-◌, ◌*◌, ◌/◌, ◌≡◌, Bool, true, false, ◌&&◌, ◌||◌, Option, none, some, List,
  [], ◌∷◌, ◌++◌, map, length, take, range, min, ltb, leb, nat_beq, any, if◌then◌else◌,
}
use e_llm.Exec.{Result, ok, err, value_error, runtime_error, index_error}
use e_llm.KvMap.{ceil_div}
use e_llm.Sequence.{last_of}

-- `work` is the estimate before its conversion to a float.
pub record PolicyDecision : Type 0 where
  pub batch_size : ℕ
  pub cached_layers : ℕ
  pub recompute_layers : ℕ
  pub resident_token_layers : ℕ
  pub temporary_token_layers : ℕ
  pub work : ℕ

abbrev pub round_tokens : ℕ → ℕ → ℕ
round_tokens num_tokens block_size = ceil_div num_tokens block_size * block_size

abbrev pub sum_rounded : ℕ → List ℕ → ℕ
sum_rounded block_size [] = 0
sum_rounded block_size (n ∷ lengths) = round_tokens n block_size + sum_rounded block_size lengths

abbrev pub sum_work : ℕ → ℕ → List ℕ → ℕ
sum_work recompute cached [] = 0
sum_work recompute cached (n ∷ lengths) =
    (recompute * n * n + cached * n) + sum_work recompute cached lengths

-- range(group_size, num_layers + 1, group_size)
abbrev pub multiples : ℕ → ℕ → List ℕ
multiples group_size num_layers = map (λ k. k * group_size) (range 1 (num_layers / group_size))

abbrev pub close_choices : ℕ → List ℕ → Option ℕ → Result (List ℕ)
close_choices num_layers choices none = err index_error
close_choices num_layers choices (some last) =
    if nat_beq last num_layers then ok choices else ok (choices ++ num_layers ∷ [])

abbrev pub layer_choices : ℕ → ℕ → Result (List ℕ)
layer_choices group_size num_layers =
    close_choices num_layers (multiples group_size num_layers)
      (last_of (multiples group_size num_layers))

-- The sizes that the search keeps fixed.
pub record Setting : Type 0 where
  pub request_lengths : List ℕ
  pub num_layers : ℕ
  pub block_size : ℕ
  pub group_size : ℕ
  pub capacity : ℕ

abbrev pub candidate : Setting → ℕ → ℕ → PolicyDecision
candidate s batch_size cached_layers =
    let lengths : List ℕ = take batch_size s.request_lengths in
    let recompute : ℕ = s.num_layers - cached_layers in
    record {
      batch_size = batch_size;
      cached_layers = cached_layers;
      recompute_layers = recompute;
      resident_token_layers = sum_rounded s.block_size lengths * cached_layers;
      temporary_token_layers = sum_rounded s.block_size lengths * min s.group_size recompute;
      work = sum_work recompute cached_layers lengths;
    }

module _ {ℓ} {F : Type ℓ} (throughput : ℕ → ℕ → F) (above same : F → F → Bool) where
  -- rank > best[0], for the ranks (throughput, batch_size, cached_layers); `throughput b w` is
  -- b / max(float(w), 1.0)
  abbrev pub outranks : PolicyDecision → PolicyDecision → Bool
  outranks d best =
      above (throughput d.batch_size d.work) (throughput best.batch_size best.work)
      || (same (throughput d.batch_size d.work) (throughput best.batch_size best.work)
          && (ltb best.batch_size d.batch_size
              || (nat_beq best.batch_size d.batch_size && ltb best.cached_layers d.cached_layers)))

  abbrev pub better : PolicyDecision → Option PolicyDecision → Option PolicyDecision
  better d none = some d
  better d (some best) = if outranks d best then some d else some best

  abbrev pub consider : Setting → ℕ → ℕ → Option PolicyDecision → Option PolicyDecision
  consider s batch_size cached_layers best =
      let d : PolicyDecision = candidate s batch_size cached_layers in
      if ltb s.capacity (d.resident_token_layers + d.temporary_token_layers)
      then best
      else better d best

  abbrev pub over_choices : Setting → ℕ → List ℕ → Option PolicyDecision → Option PolicyDecision
  over_choices s batch_size [] best = best
  over_choices s batch_size (c ∷ choices) best =
      over_choices s batch_size choices (consider s batch_size c best)

  abbrev pub over_batches :
      Setting → List ℕ → List ℕ → Option PolicyDecision → Option PolicyDecision
  over_batches s choices [] best = best
  over_batches s choices (b ∷ batches) best =
      over_batches s choices batches (over_choices s b choices best)

  abbrev pub chosen : Option PolicyDecision → Result PolicyDecision
  chosen none = err runtime_error
  chosen (some d) = ok d

  abbrev pub search : Setting → ℕ → Result (List ℕ) → Result PolicyDecision
  search s max_batch (err e) = err e
  search s max_batch (ok choices) = chosen (over_batches s choices (range 1 max_batch) none)

  unfoldable pub select_ellm_policy : List ℕ → ℕ → ℕ → ℕ → ℕ → ℕ → Result PolicyDecision
  select_ellm_policy request_lengths max_batch_size num_layers num_gpu_blocks block_size
        layer_group_size =
      if nat_beq (length request_lengths) 0
      then err value_error
      else (if any (λ n. leb n 0) request_lengths
          then err value_error
          else (if leb max_batch_size 0 || leb num_layers 0
              then err value_error
              else (if leb num_gpu_blocks 0 || leb block_size 0
                  then err value_error
                  else (if leb layer_group_size 0
                      then err value_error
                      else search
                          (record {
                            request_lengths = request_lengths;
                            num_layers = num_layers;
                            block_size = block_size;
                            group_size = min layer_group_size num_layers;
                            capacity = num_gpu_blocks * block_size * num_layers;
                          })
                          (min max_batch_size (length request_lengths))
                          (layer_choices (min layer_group_size num_layers) num_layers)))))
