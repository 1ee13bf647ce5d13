-- ===== src/KvMap/WellFormed/Allocation.antt =====
-- Allocation of a sequence: when it succeeds, what it changes, and that a failure changes nothing.
use e_llm.Prelude.{
  ℕ, ◌+◌, ◌-◌, ◌/◌, ◌%◌, ◌≡◌, refl, ap, ◌≤◌, ◌<◌, ◌⊎◌, inl, inr, false, ltb, leb, nat_eq, nat_beq,
  if◌then◌else◌, arith, List, [], length, range, Bool-cases,
}
use e_llm.Exec.{ok, err, value_error, runtime_error}
use e_llm.Dict.{contains, put}
use e_llm.KvMap.{
  Key, KvMapEntry, TokenLayerKvMap, key_eq, retained, table, ceil_div, num_logical_blocks,
  num_filled,
}
use e_llm.KvMap.Blocks.{reserve}
use e_llm.KvMap.Sequences.{
  by_group, layer_groups, fresh_entry, set_sequence, admissible,
  allocate_sequence_with_evicted_prefix,
}
use e_llm.KvMap.KeyLists.{needs-by_group-range}
use e_llm.KvMap.Accounts.{nothing, free_at}
use e_llm.KvMap.Accounts.Loops.{needs, Reserves, reserve_lem}
use e_llm.KvMap.Accounts.Entries.{Frame}
use e_llm.KvMap.WellFormed.{IsWellFormed}
use e_llm.KvMap.WellFormed.NewSequence.{
  Undone-IsWellFormed, keys, keys-Unique, keys-Absent, allocated-IsWellFormed,
}

-- What `allocate_sequence_with_evicted_prefix` asks of its arguments.
abbrev pub Admissible : TokenLayerKvMap → ℕ → ℕ → ℕ → Type 0
Admissible s seq n evicted =
    (contains seq s.sequence_lengths ≡ false)
    × (0 < n)
    × (evicted % s.block_size ≡ 0)
    × (evicted / s.block_size ≤ ceil_div n s.block_size)

abbrev pub missing : TokenLayerKvMap → ℕ → ℕ → ℕ
missing s n evicted = ceil_div n s.block_size - evicted / s.block_size

-- The blocks came from every group, or one group had too few and nothing has changed.
abbrev pub Allocated : TokenLayerKvMap → ℕ → ℕ → ℕ → Type 0
Allocated s seq n evicted =
    ((s' : TokenLayerKvMap) × (allocate_sequence_with_evicted_prefix seq n evicted s ≡ (ok tt, s'))
      × IsWellFormed s'
      × (s'.dims ≡ s.dims)
      × (s'.sequence_lengths ≡ put seq n s.sequence_lengths)
      × (s'.evicted_prefix_blocks ≡ put seq (evicted / s.block_size) s.evicted_prefix_blocks)
      × ((g : ℕ)
          → length (free_at s g)
            ≡ length (free_at s' g)
              + (if ltb g s.num_layer_groups then missing s n evicted else 0)))
    ⊎ ((s' : TokenLayerKvMap) × (allocate_sequence_with_evicted_prefix seq n evicted s
          ≡ (err runtime_error, s'))
        × IsWellFormed s'
        × Frame retained s s'
        × (s'.entries ≡ s.entries)
        × ((g : ℕ) × (g < s.num_layer_groups) × (length (free_at s g) < missing s n evicted)))

module _ (s : TokenLayerKvMap) (w : IsWellFormed s) (seq n evicted : ℕ)
    (adm : Admissible s seq n evicted) where
  admissible-ok : admissible seq n evicted s ≡ (ok tt, s)
  unfolding admissible num_logical_blocks
  admissible-ok = ground arith

  prefix : ℕ
  prefix = evicted / s.block_size

  make : Key → ℕ → KvMapEntry
  make = fresh_entry s false (λ key. num_filled s n key.block)

  make-names : (k : Key) (b : ℕ) → (make k b).physical_block_id ≡ b
  unfolding make
  make-names k b = refl

  ks : List Key
  ks = by_group seq (layer_groups s) (range prefix (ceil_div n s.block_size - prefix))

  needs-ks : (g : ℕ) → needs g ks ≡ (if ltb g s.num_layer_groups then missing s n evicted else 0)
  unfolding ks prefix
  needs-ks g = needs-by_group-range seq g s.num_layer_groups prefix _

  conclude :
      Reserves nothing retained make make-names s [] ks s (reserve retained make ks [] s)
      → Allocated s seq n evicted
  unfolding allocate_sequence_with_evicted_prefix make ks prefix table keys
  conclude (inl (s', ran, entered, left)) = inl (
    set_sequence seq n prefix s',
    rw admissible-ok (rw ran),
    allocated-IsWellFormed s w seq n prefix adm.0 adm.1 adm.3 make make-names s' entered,
    entered.frame.dims,
    ap (put seq n) entered.frame.sequence_lengths,
    ap (put seq prefix) entered.frame.evicted_prefix_blocks,
    λ g. omega (arith, left g, needs-ks g),
  )
  conclude (inr (s', ran, (a, f, e), (g, short))) = inr (
    s',
    rw admissible-ok (rw ran),
    Undone-IsWellFormed retained w a f e,
    f,
    e,
    (g, ground (arith, needs-ks g), ground (arith, needs-ks g)),
  )

  pub allocate_lem : Allocated s seq n evicted
  unfolding ks prefix table keys
  allocate_lem = conclude (
      reserve_lem nothing retained make make-names s w.accounts
        (keys-Unique s w seq n prefix adm.0 adm.1 adm.3)
        (keys-Absent s w seq n prefix adm.0 adm.1 adm.3))

-- The checks fail with a `ValueError`, and nothing has changed.
module _ (s : TokenLayerKvMap) (seq n evicted : ℕ) where
  pub Admissible-cases :
      Admissible s seq n evicted
      ⊎ (allocate_sequence_with_evicted_prefix seq n evicted s ≡ (err value_error, s))
  unfolding allocate_sequence_with_evicted_prefix admissible num_logical_blocks
  Admissible-cases = elim (Bool-cases (contains seq s.sequence_lengths)) [
    | inl known ↦ inr (rw known)
    | inr new ↦ elim (Bool-cases (leb n 0)) [
      | inl zero ↦ inr (rw (new) (rw zero))
      | inr pos ↦ elim (Bool-cases (nat_beq (evicted % s.block_size) 0)) [
        | inr odd ↦ inr (rw new (rw pos (rw odd)))
        | inl even ↦ elim (Bool-cases (ltb (ceil_div n s.block_size) (evicted / s.block_size))) [
          | inl over ↦ inr (rw new (rw pos (rw even (rw over))))
          | inr fits ↦ inl (new, ground arith, ground arith, ground arith)
        ]
      ]
    ]
  ]

-- The invariant is kept whatever the arguments, on success and on failure.
pub allocate-IsWellFormed :
    (s : TokenLayerKvMap) (seq n evicted : ℕ)
    → IsWellFormed s
    → IsWellFormed (allocate_sequence_with_evicted_prefix seq n evicted s).1
allocate-IsWellFormed s seq n evicted w = elim (Admissible-cases s seq n evicted) [
  | inr bad ↦ rw bad w
  | inl adm ↦ elim (allocate_lem s w seq n evicted adm) [
    | inl (s', ran, w', _, _, _, _) ↦ rw ran w'
    | inr (s', ran, w', _, _, _) ↦ rw ran w'
  ]
]
