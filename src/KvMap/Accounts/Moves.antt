-- ===== src/KvMap/Accounts/Moves.antt =====
-- What a change of one reference count and one free list does to the books.
use e_llm.Prelude.{
  false, ℕ, ◌+◌, ◌≡◌, refl, ap, ◌∙◌, ◌<◌, ◌&&◌, inl, inr, List, [], nat_eq, nat_beq, get_or, set,
  length, count, ltb, if◌then◌else◌, arith, get_or-set, length-set, get_elem?-get_or, get_or-above,
  ltb_false→le, ltb→lt, Bool-cases,
}
use e_llm.Exec.{ok}
use e_llm.KvMap.{TokenLayerKvMap, key_eq}
use e_llm.KvMap.Blocks.{set_ref_count, ref_count}
use e_llm.KvMap.Accounts.{Accounts, Same, held, ref_at, free_at, available}

module _ {x : ℕ → ℕ → ℕ} {s : TokenLayerKvMap} (a : Accounts x s) where
  -- A block with a reference lies in the pools.
  pub ref_in_range :
      (g b : ℕ) → 0 < ref_at s g b → (g < s.num_layer_groups) × (b < s.num_physical_blocks)
  ref_in_range g b h = elim (Bool-cases (ltb g s.num_layer_groups)) [
    | inl in_g ↦ elim (Bool-cases (ltb b s.num_physical_blocks)) [
      | inl in_b ↦ (ltb→lt _ _ in_g, ltb→lt _ _ in_b)
      | inr out ↦ absurd (
          omega (
            arith,
            get_or-above (get_or s.block_ref_counts g []) b 0
                (omega (arith, a.row_length g (ltb→lt _ _ in_g), ltb_false→le _ _ out)),
          ))
    ]
    | inr out ↦ absurd (
        omega (
          arith,
          ap (λ (r : List ℕ). get_or r b 0)
              (get_or-above s.block_ref_counts g []
                (omega (arith, a.refs_length, ltb_false→le _ _ out))),
        ))
  ]

  pub ref_count_lem :
      (g b : ℕ)
      → g < s.num_layer_groups
      → b < s.num_physical_blocks
      → ref_count g b s ≡ (ok (ref_at s g b), s)
  unfolding ref_count
  ref_count_lem g b hg hb =
      rw (get_elem?-get_or s.block_ref_counts g [] (omega (arith, a.refs_length))) (
        rw (
          get_elem?-get_or (get_or s.block_ref_counts g []) b 0 (omega (arith, a.row_length g hg))))

module _ (s : TokenLayerKvMap) (g b n : ℕ) (hg : g < length s.block_ref_counts) where
  rows-set :
      (g' : ℕ)
      → get_or (set_ref_count g b n s).block_ref_counts g' [] ≡ (
          if nat_beq g g'
          then set (get_or s.block_ref_counts g []) b n
          else get_or s.block_ref_counts g' [])
  unfolding set_ref_count
  rows-set g' = get_or-set s.block_ref_counts g g' _ [] hg

  ref_at-set :
      (g' b' : ℕ)
      → b < length (get_or s.block_ref_counts g [])
      → ref_at (set_ref_count g b n s) g' b'
        ≡ (if nat_beq g g' && nat_beq b b' then n else ref_at s g' b')
  ref_at-set g' b' hb =
      ground (arith, rows-set g', get_or-set (get_or s.block_ref_counts g []) b b' n 0 hb)

-- A new count for one block, and a new free list for its group.
unfoldable pub move : TokenLayerKvMap → ℕ → ℕ → ℕ → List ℕ → TokenLayerKvMap
unfolding set_ref_count
move s g b n fs = set_ref_count g b n (record s { free_blocks = set s.free_blocks g fs })

pub move-Same : (s : TokenLayerKvMap) (g b n : ℕ) (fs : List ℕ) → Same s (move s g b n fs)
unfolding move
move-Same s g b n fs = record {
  dims = refl;
  entries = refl;
  temporary_entries = refl;
  sequence_lengths = refl;
  evicted_prefix_blocks = refl;
}

module _ {x : ℕ → ℕ → ℕ} {s : TokenLayerKvMap} (a : Accounts x s) (g b n : ℕ) (fs : List ℕ)
    (hg : g < s.num_layer_groups) (hb : b < s.num_physical_blocks) where
  in_refs : g < length s.block_ref_counts
  in_refs = omega (arith, a.refs_length)

  in_row : b < length (get_or s.block_ref_counts g [])
  in_row = omega (arith, a.row_length g hg)

  pub move-ref_at :
      (g' b' : ℕ)
      → ref_at (move s g b n fs) g' b'
        ≡ (if nat_beq g g' && nat_beq b b' then n else ref_at s g' b')
  unfolding move
  move-ref_at g' b' =
      ref_at-set (record s { free_blocks = set s.free_blocks g fs }) g b n in_refs g' b' in_row

  pub move-free_at :
      (g' : ℕ) → free_at (move s g b n fs) g' ≡ (if nat_beq g g' then fs else free_at s g')
  unfolding move set_ref_count
  move-free_at g' = get_or-set s.free_blocks g g' fs [] (omega (arith, a.free_length))

  move-row :
      (g' : ℕ)
      → length (get_or (move s g b n fs).block_ref_counts g' [])
        ≡ length (get_or s.block_ref_counts g' [])
  unfolding move
  move-row g' = ground (
    arith,
    rows-set (record s { free_blocks = set s.free_blocks g fs }) g b n in_refs g',
    length-set (get_or s.block_ref_counts g []) b n,
  )

  pub move-Accounts :
      (x' : ℕ → ℕ → ℕ)
      → n + x g b ≡ x' g b + ref_at s g b
      → ((g' b' : ℕ) → (nat_beq g g' && nat_beq b b') ≡ false → x' g' b' ≡ x g' b')
      → ((b' : ℕ)
          → count b' fs
            ≡ (if nat_beq b b' then (if nat_beq n 0 then 1 else 0) else count b' (free_at s g)))
      → Accounts x' (move s g b n fs)
  move-Accounts x' own others listed = record {
    free_length = unfold move set_ref_count in length-set s.free_blocks g fs ∙ a.free_length;
    refs_length = unfold move set_ref_count in length-set s.block_ref_counts g _ ∙ a.refs_length;
    row_length = unfold move set_ref_count in rows_ok;
    distinct = unfold move set_ref_count in a.distinct;
    distinct_temporary = unfold move set_ref_count in a.distinct_temporary;
    refs = λ g' b'. unfold move set_ref_count in refs_ok g' b';
    free = λ g' b'. unfold move set_ref_count in free_ok g' b';
  }
    where
      rows_ok :
          (g' : ℕ)
          → g' < s.num_layer_groups
          → length (get_or (move s g b n fs).block_ref_counts g' []) ≡ s.num_physical_blocks
      rows_ok g' h = move-row g' ∙ a.row_length g' h

      refs_ok :
          (g' b' : ℕ)
          → ref_at (move s g b n fs) g' b'
            ≡ x' g' b' + held g' b' s.entries + held g' b' s.temporary_entries
      refs_ok g' b' = ground (arith, move-ref_at g' b', others g' b', a.refs g' b')

      free_ok :
          (g' b' : ℕ)
          → count b' (free_at (move s g b n fs) g')
            ≡ available s.num_layer_groups s.num_physical_blocks g' b'
                (ref_at (move s g b n fs) g' b')
      free_ok g' b' = ground (arith, move-ref_at g' b', move-free_at g', listed b', a.free g' b')
