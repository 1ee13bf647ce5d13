-- ===== src/EllmPolicy/Feasible.antt =====
-- The decision fits into the cache and is one of the candidates.
use e_llm.Prelude.{
  ℕ, zero, suc, ◌+◌, ◌*◌, ◌≡◌, refl, ◌≤◌, ◌<◌, Bool, ◌||◌, Option, none, some, List, [], ◌∷◌,
  length, range, min, ltb, leb, nat_beq, any, arith, inl, inr, subst, Bool-cases, ltb_false→le,
}
use e_llm.Exec.{Result, ok, err, value_error}
use e_llm.EllmPolicy.{
  PolicyDecision, Setting, candidate, outranks, better, consider, over_choices, over_batches,
  chosen, search, select_ellm_policy, layer_choices,
}

-- A candidate of that many requests at most that fits into the capacity.
abbrev pub IsFeasible : Setting → ℕ → PolicyDecision → Type 0
IsFeasible s max_batch d =
    (0 < d.batch_size)
    × (d.batch_size ≤ max_batch)
    × (d.resident_token_layers + d.temporary_token_layers ≤ s.capacity)
    × (d ≡ candidate s d.batch_size d.cached_layers)

abbrev AllFeasible : Setting → ℕ → Option PolicyDecision → Type 0
AllFeasible s max_batch none = Unit {0}
AllFeasible s max_batch (some d) = IsFeasible s max_batch d

module _ {ℓ} {F : Type ℓ} (throughput : ℕ → ℕ → F) (above same : F → F → Bool) where
  better-AllFeasible :
      (s : Setting) (max_batch : ℕ) (d : PolicyDecision) (best : Option PolicyDecision)
      → IsFeasible s max_batch d
      → AllFeasible s max_batch best
      → AllFeasible s max_batch (better throughput above same d best)
  better-AllFeasible s m d none f b = f
  better-AllFeasible s m d (some best) f b =
      elim (Bool-cases (outranks throughput above same d best)) [
        | inl up ↦ rw up f
        | inr down ↦ rw down b
      ]

  consider-AllFeasible :
      (s : Setting) (max_batch b c : ℕ) (best : Option PolicyDecision)
      → 0 < b
      → b ≤ max_batch
      → AllFeasible s max_batch best
      → AllFeasible s max_batch (consider throughput above same s b c best)
  consider-AllFeasible s m b c best low high f =
      let d : PolicyDecision = candidate s b c in
      elim (Bool-cases (ltb s.capacity (d.resident_token_layers + d.temporary_token_layers))) [
        | inl over ↦ rw over f
        | inr fits ↦
            rw fits (better-AllFeasible s m d best (low, high, ltb_false→le _ _ fits, refl) f)
      ]

  over_choices-AllFeasible :
      (s : Setting) (max_batch b : ℕ) (choices : List ℕ) (best : Option PolicyDecision)
      → 0 < b
      → b ≤ max_batch
      → AllFeasible s max_batch best
      → AllFeasible s max_batch (over_choices throughput above same s b choices best)
  over_choices-AllFeasible s m b [] best low high f = f
  over_choices-AllFeasible s m b (c ∷ choices) best low high f =
      over_choices-AllFeasible s m b choices (consider throughput above same s b c best) low high
        (consider-AllFeasible s m b c best low high f)

  over_batches-AllFeasible :
      (s : Setting) (max_batch : ℕ) (choices : List ℕ) (lo n : ℕ) (best : Option PolicyDecision)
      → 0 < lo
      → lo + n ≤ max_batch + 1
      → AllFeasible s max_batch best
      → AllFeasible s max_batch (over_batches throughput above same s choices (range lo n) best)
  over_batches-AllFeasible s m choices lo zero best low high f = f
  over_batches-AllFeasible s m choices lo (suc n) best low high f =
      over_batches-AllFeasible s m choices (suc lo) n
        (over_choices throughput above same s lo choices best) (omega arith) (omega arith)
        (over_choices-AllFeasible s m lo choices best low (omega arith) f)

  search-IsFeasible :
      (s : Setting) (max_batch : ℕ) (choices : Result (List ℕ)) (d : PolicyDecision)
      → search throughput above same s max_batch choices ≡ ok d
      → IsFeasible s max_batch d
  search-IsFeasible s m (err e) d h = absurd (cc)
  search-IsFeasible s m (ok choices) d h =
      found (over_batches throughput above same s choices (range 1 m) none)
        (over_batches-AllFeasible s m choices 1 m none (omega arith) (omega arith) tt) h
    where
      found :
          (best : Option PolicyDecision)
          → AllFeasible s m best
          → chosen throughput above same best ≡ ok d
          → IsFeasible s m d
      found none f h = absurd (cc)
      found (some best) f h =
          let same_decision : best ≡ d = cc in subst (IsFeasible s m) same_decision f

  -- A decision of `select_ellm_policy` batches one request at least, and no more than asked for or
  -- waiting; the token-layers that it keeps and that it needs for a while fit into the cache; and its
  -- figures are those of its batch size and number of cached layers.
  pub select_ellm_policy-IsFeasible :
      (request_lengths : List ℕ)
      (max_batch_size num_layers num_gpu_blocks block_size layer_group_size : ℕ)
      (d : PolicyDecision)
      → select_ellm_policy throughput above same request_lengths max_batch_size num_layers
          num_gpu_blocks block_size layer_group_size
        ≡ ok d
      → IsFeasible
          (record {
            request_lengths = request_lengths;
            num_layers = num_layers;
            block_size = block_size;
            group_size = min layer_group_size num_layers;
            capacity = num_gpu_blocks * block_size * num_layers;
          })
          (min max_batch_size (length request_lengths))
          d
  unfolding select_ellm_policy
  select_ellm_policy-IsFeasible lengths mb nl gpu bs lg d h =
      elim (Bool-cases (nat_beq (length lengths) 0)) [
        | inl bad ↦ absurd (no (rw bad at h))
        | inr c1 ↦ elim (Bool-cases (any (λ n. leb n 0) lengths)) [
          | inl bad ↦ absurd (no (rw bad at (rw c1 at h)))
          | inr c2 ↦ elim (Bool-cases (leb mb 0 || leb nl 0)) [
            | inl bad ↦ absurd (no (rw bad at (rw c2 at (rw c1 at h))))
            | inr c3 ↦ elim (Bool-cases (leb gpu 0 || leb bs 0)) [
              | inl bad ↦ absurd (no (rw bad at (rw c3 at (rw c2 at (rw c1 at h)))))
              | inr c4 ↦ elim (Bool-cases (leb lg 0)) [
                | inl bad ↦ absurd (no (rw bad at (rw c4 at (rw c3 at (rw c2 at (rw c1 at h))))))
                | inr c5 ↦
                    search-IsFeasible _ (min mb (length lengths)) (layer_choices (min lg nl) nl) d
                      (rw c5 at (rw c4 at (rw c3 at (rw c2 at (rw c1 at h)))))
              ]
            ]
          ]
        ]
      ]
    where
      no : err value_error ≡ ok d → ⊥
      no e = cc
