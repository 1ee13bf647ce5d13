-- ===== src/EllmPolicy/Examples.antt =====
-- Two requests of three and five tokens, on four layers in groups of two; throughputs are compared
-- exactly here, by cross multiplication.
use e_llm.Prelude.{ℕ, ◌*◌, ◌≡◌, refl, Bool, [], ◌∷◌, ltb, nat_beq, min}
use e_llm.Exec.{ok}
use e_llm.EllmPolicy.{Setting, candidate, select_ellm_policy}
use e_llm.EllmPolicy.Feasible.{IsFeasible, select_ellm_policy-IsFeasible}

abbrev ratio : ℕ → ℕ → ℕ × ℕ
ratio batch_size work = (batch_size, work)

abbrev above : ℕ × ℕ → ℕ × ℕ → Bool
above (b, w) (b', w') = ltb (b' * w) (b * w')

abbrev same : ℕ × ℕ → ℕ × ℕ → Bool
same (b, w) (b', w') = nat_beq (b' * w) (b * w')

abbrev setting : Setting
setting = record {
  request_lengths = 3 ∷ 5 ∷ [];
  num_layers = 4;
  block_size = 4;
  group_size = min 2 4;
  capacity = 2 * 4 * 4;
}

selects : select_ellm_policy ratio above same (3 ∷ 5 ∷ []) 2 4 2 4 2 ≡ ok (candidate setting 1 4)
unfolding select_ellm_policy
selects = refl

select_ellm_policy-IsFeasible_example : IsFeasible setting (min 2 2) (candidate setting 1 4)
select_ellm_policy-IsFeasible_example =
    select_ellm_policy-IsFeasible ratio above same (3 ∷ 5 ∷ []) 2 4 2 4 2 (candidate setting 1 4)
      selects
