-- ===== src/KvMap/Accounts/Pools.antt =====
-- How the methods on single blocks move the books.
use e_llm.Prelude.{
  set-get_or, ℕ, zero, suc, ◌+◌, ◌-◌, ◌≡◌, refl, sym, ap, ◌∙◌, ◌<◌, ◌≤◌, ◌⊎◌, inl, inr, List, [],
  ◌∷◌, ◌++◌, nat_eq, nat_beq, get_or, get_elem?, length, count, ltb, if◌then◌else◌, arith, some,
  get_elem?-get_or, get_elem?-above, ltb_false→le, ltb→lt, Bool-cases, count-append, length-append,
}
use e_llm.Exec.{ok, err, runtime_error}
use e_llm.KvMap.{TokenLayerKvMap, key_eq}
use e_llm.KvMap.Blocks.{allocate_block, retain_block, free_block, set_ref_count, ref_count}
use e_llm.KvMap.Accounts.{Accounts, Same, ref_at, free_at, plus}
use e_llm.KvMap.Accounts.Moves.{
  ref_in_range, ref_count_lem, move, move-Same, move-ref_at, move-free_at, move-Accounts,
}

-- What `_allocate_block` does to the books.
abbrev pub Allocates : (ℕ → ℕ → ℕ) → TokenLayerKvMap → ℕ → Type 0
Allocates x s g =
    ((allocate_block g s ≡ (err runtime_error, s)) × (free_at s g ≡ []))
    ⊎ ((b : ℕ) × (t : TokenLayerKvMap) × (allocate_block g s ≡ (ok b, t))
        × Accounts (plus x g b) t
        × Same s t
        × ((g' : ℕ)
            → length (free_at s g') ≡ length (free_at t g') + (if nat_beq g g' then 1 else 0))
        × (ref_at t g b ≡ 1))

-- `_free_block` never raises where a reference is accounted for.
abbrev pub Frees : (ℕ → ℕ → ℕ) → TokenLayerKvMap → ℕ → ℕ → Type 0
Frees x s g b =
    (t : TokenLayerKvMap) × (free_block g b s ≡ (ok tt, t))
    × Accounts x t
    × Same s t
    × ((g' : ℕ) → length (free_at s g') ≤ length (free_at t g'))

-- A free block is in range and has no reference.
module _ {x : ℕ → ℕ → ℕ} {s : TokenLayerKvMap} (a : Accounts x s) where
  free_head :
      (g b : ℕ) (rest : List ℕ)
      → free_at s g ≡ b ∷ rest
      → (g < s.num_layer_groups) × (b < s.num_physical_blocks) × (ref_at s g b ≡ 0)
  free_head g b rest e = ground (arith, a.free g b, ap (count b) e)

  allocate-some :
      (g b : ℕ) (rest : List ℕ)
      → free_at s g ≡ b ∷ rest
      → allocate_block g s ≡ (ok b, move s g b 1 rest)
  unfolding allocate_block move
  allocate-some g b rest e =
      let (hg, hb, z) = free_head g b rest e in
      let rows : get_elem? s.block_ref_counts g ≡ some (get_or s.block_ref_counts g []) =
        get_elem?-get_or s.block_ref_counts g [] (omega (arith, a.refs_length)) in
      let cell : get_elem? (get_or s.block_ref_counts g []) b ≡ some 0 =
        get_elem?-get_or (get_or s.block_ref_counts g []) b 0 (omega (arith, a.row_length g hg))
        ∙ ap some z in
      let frees : get_elem? s.free_blocks g ≡ some (b ∷ rest) =
        get_elem?-get_or s.free_blocks g [] (omega (arith, a.free_length)) ∙ ap some e in
      rw frees (rw (rows, cell))

  allocate-none : (g : ℕ) → free_at s g ≡ [] → allocate_block g s ≡ (err runtime_error, s)
  unfolding allocate_block
  allocate-none g e = elim (Bool-cases (ltb g (length s.free_blocks))) [
    | inl in_g ↦ rw (get_elem?-get_or s.free_blocks g [] (ltb→lt _ _ in_g), e)
    | inr out ↦ rw (get_elem?-above s.free_blocks g (ltb_false→le _ _ out))
  ]

  allocate_cases : (g : ℕ) (fs : List ℕ) → free_at s g ≡ fs → Allocates x s g
  allocate_cases g [] e = inl (allocate-none g e, e)
  allocate_cases g (b ∷ rest) e =
      let (hg, hb, z) = free_head g b rest e in
      inr (
        b,
        move s g b 1 rest,
        allocate-some g b rest e,
        move-Accounts a g b 1 rest hg hb (plus x g b) (ground arith) (λ g' b' h. ground arith)
            (λ b'. ground (arith, a.free g b', ap (count b') e)),
        move-Same s g b 1 rest,
        λ g'. ground (arith, move-free_at a g b 1 rest hg hb g', ap (length {A = ℕ}) e),
        ground (arith, move-ref_at a g b 1 rest hg hb g b),
      )

  pub allocate_lem : (g : ℕ) → Allocates x s g
  allocate_lem g = allocate_cases g (free_at s g) refl

  pub read-ref : (g b : ℕ) → 0 < ref_at s g b → ref_count g b s ≡ (ok (ref_at s g b), s)
  read-ref g b h = let (hg, hb) = ref_in_range a g b h in ref_count_lem a g b hg hb

  keep_free :
      (g b n : ℕ) → g < s.num_layer_groups → set_ref_count g b n s ≡ move s g b n (free_at s g)
  unfolding move
  keep_free g b n hg =
      ap (λ (fs : List (List ℕ)). set_ref_count g b n (record s { free_blocks = fs }))
        (sym (set-get_or s.free_blocks g [] (omega (arith, a.free_length))))

  -- `_retain_block` takes one more reference to a block that is in use.
  pub retain_lem :
      (g b : ℕ)
      → 0 < ref_at s g b
      → (t : TokenLayerKvMap) × (retain_block g b s ≡ (ok tt, t))
        × Accounts (plus x g b) t
        × Same s t
  retain_lem g b h =
      let (hg, hb) = ref_in_range a g b h in
      let n : ℕ = ref_at s g b - 1 in
      let e : ref_at s g b ≡ suc n = omega arith in
      (
        move s g b (suc n + 1) (free_at s g),
        run n e ∙ ap (λ (t : TokenLayerKvMap). (ok tt, t)) (keep_free g b (suc n + 1) hg),
        move-Accounts a g b (suc n + 1) (free_at s g) hg hb (plus x g b) (ground arith)
            (λ g' b' h. ground arith) (λ b'. ground (arith, a.free g b)),
        move-Same s g b (suc n + 1) (free_at s g),
      )
    where
      run :
          (n : ℕ)
          → ref_at s g b ≡ suc n
          → retain_block g b s ≡ (ok tt, set_ref_count g b (suc n + 1) s)
      run n e = unfold retain_block in rw (read-ref g b h, e)

module _ (x : ℕ → ℕ → ℕ) {s : TokenLayerKvMap} (g b : ℕ) (a : Accounts (plus x g b) s) where
  in_use : 0 < ref_at s g b
  in_use = ground (arith, a.refs g b)

  free_cases : (n : ℕ) → ref_at s g b ≡ n → Frees x s g b
  free_cases zero e = absurd (omega (arith, in_use))
  free_cases (suc zero) e =
      let (hg, hb) = ref_in_range a g b in_use in
      let fs : List ℕ = free_at s g ++ b ∷ [] in
      (
        move s g b 0 fs,
        unfold free_block move in rw (read-ref a g b in_use, e),
        move-Accounts a g b 0 fs hg hb x (ground arith) (λ g' b' h. ground arith)
            (λ b'. ground (arith, a.free g b, count-append b' (free_at s g) (b ∷ []))),
        move-Same s g b 0 fs,
        λ g'.
            ground (arith, move-free_at a g b 0 fs hg hb g', length-append (free_at s g) (b ∷ [])),
      )
  free_cases (suc (suc n)) e =
      let (hg, hb) = ref_in_range a g b in_use in
      (
        move s g b (suc n) (free_at s g),
        unfold free_block in
            rw (read-ref a g b in_use, e)
              (ap (λ (t : TokenLayerKvMap). (ok tt, t)) (keep_free a g b (suc n) hg)),
        move-Accounts a g b (suc n) (free_at s g) hg hb x (ground arith) (λ g' b' h. ground arith)
            (λ b'. ground (arith, a.free g b)),
        move-Same s g b (suc n) (free_at s g),
        λ g'. ground (arith, move-free_at a g b (suc n) (free_at s g) hg hb g'),
      )

  pub free_lem : Frees x s g b
  free_lem = free_cases (ref_at s g b) refl
