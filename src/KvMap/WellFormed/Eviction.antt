-- ===== src/KvMap/WellFormed/Eviction.antt =====
-- Taking chosen entries back, and the eviction of a prefix.
use e_llm.Prelude.{
  ℕ, ◌-◌, ◌*◌, ◌/◌, ◌≡◌, ap, ◌∙◌, ◌≤◌, ◌<◌, inl, inr, ◌&&◌, Bool, true, false, some, ltb, leb,
  nat_eq, nat_beq, arith, List, [], ◌∷◌, length, keep, range, min, Bool-cases, Option-cases,
  ltb_false→le,
}
use e_llm.Exec.{Result, ok}
use e_llm.Dict.{Dict, get, contains, put}
use e_llm.Dict.Laws.{Distinct, get-put}
use e_llm.Dict.Keys.{mem, Unique, Present, Present-intro, keys_of, remove_all, contains-remove_all}
use e_llm.KvMap.{
  Key, KvMapEntry, TokenLayerKvMap, key_eq, key_beq, key_beq_iff, Table, retained, table, ceil_div,
}
use e_llm.KvMap.Sequences.{by_block, layer_groups, is_empty, evict_prefix}
use e_llm.KvMap.KeyLists.{mem-by_block, mem-range, Unique-by_block, Unique-range}
use e_llm.KvMap.Accounts.{Accounts, nothing, free_at}
use e_llm.KvMap.Accounts.PopAll.{PopsAll, pop_and_free_all_lem}
use e_llm.KvMap.Accounts.Entries.{other, Frame, table-Distinct}
use e_llm.KvMap.WellFormed.{IsWellFormed}
use e_llm.KvMap.WellFormed.NewSequence.{Accounts-sequences}

-- The keys of a dict that pass a test.
module _ (p : Key → Bool) where
  abbrev pub chosen : Dict Key KvMapEntry → List Key
  chosen d = keep p (keys_of d)

  pub mem-chosen : (k : Key) (d : Dict Key KvMapEntry) → mem k (chosen d) ≡ (p k && contains k d)
  unfolding contains
  mem-chosen k [] = ground arith
  mem-chosen k ((j, v) ∷ d) = elim (Bool-cases (key_beq j k)) [
    | inl hit ↦
        let same : p j ≡ p k = ap p ((key_beq_iff j k).0 hit) in
        ground (arith, mem-chosen k d, same)
    | inr miss ↦ ground (arith, mem-chosen k d)
  ]

  pub Unique-chosen : (d : Dict Key KvMapEntry) → Distinct d → Unique (chosen d)
  Unique-chosen [] dd = tt
  Unique-chosen ((j, v) ∷ d) dd = ground (arith, Unique-chosen d dd.1, mem-chosen j d, dd.0)

  pub Present-chosen : (d : Dict Key KvMapEntry) → Present (chosen d) d
  Present-chosen d = Present-intro (chosen d) d (λ k m. ground (arith, mem-chosen k d))

  -- Taking back all the chosen entries of a table.
  pub pop_chosen :
      (t : Table) (s : TokenLayerKvMap)
      → Accounts nothing s
      → PopsAll nothing t s (chosen (table t s))
  pop_chosen t s a =
      pop_and_free_all_lem t (chosen (table t s)) a (Unique-chosen (table t s) (table-Distinct t a))
        (Present-chosen (table t s))

-- The effective prefix, in blocks.
abbrev pub new_prefix : TokenLayerKvMap → ℕ → ℕ → ℕ
new_prefix s n num_tokens = min num_tokens n / s.block_size

prefix_fits : (x n b : ℕ) → 0 < b → min x n / b ≤ ceil_div n b
prefix_fits x n b h = grind arith

abbrev pub Evicted : TokenLayerKvMap → ℕ → ℕ → ℕ → Result ℕ × TokenLayerKvMap → Type 0
Evicted s seq n num_tokens r =
    (s' : TokenLayerKvMap) × (r ≡ (ok (new_prefix s n num_tokens * s.block_size), s'))
    × IsWellFormed s'
    × (s'.sequence_lengths ≡ s.sequence_lengths)
    × (s'.evicted_prefix_blocks ≡ put seq (new_prefix s n num_tokens) s.evicted_prefix_blocks)
    × ((g : ℕ) → length (free_at s g) ≤ length (free_at s' g))

module _ (s : TokenLayerKvMap) (w : IsWellFormed s) (seq n p num_tokens : ℕ)
    (idle : is_empty s.temporary_entries ≡ true) (known : get seq s.sequence_lengths ≡ some n)
    (known_prefix : get seq s.evicted_prefix_blocks ≡ some p)
    (grows : p ≤ new_prefix s n num_tokens) where
  ks : List Key
  ks = by_block seq (layer_groups s) (range p (new_prefix s n num_tokens - p))

  mem-ks :
      (k : Key)
      → mem k ks ≡ (
          nat_beq seq k.seq_id
          && leb p k.block
          && ltb k.block (new_prefix s n num_tokens)
          && ltb k.group s.num_layer_groups)
  unfolding ks
  mem-ks k =
      mem-by_block seq k (layer_groups s) (range p (new_prefix s n num_tokens - p))
      ∙ ground (
        arith,
        mem-range k.group 0 s.num_layer_groups,
        mem-range k.block p (new_prefix s n num_tokens - p),
      )

  ks-Present : Present ks s.entries
  ks-Present = Present-intro ks s.entries λ k m. ground (
    arith,
    mem-ks k,
    w.domain k,
    known,
    known_prefix,
    prefix_fits num_tokens n s.block_size w.block_size_pos,
  )

  no_temporary : (k : Key) → contains k s.temporary_entries ≡ false
  no_temporary k = unfold contains in ground arith

  evicted-IsWellFormed :
      (s' : TokenLayerKvMap)
      → Accounts nothing s'
      → Frame retained s s'
      → s'.entries ≡ remove_all ks s.entries
      → IsWellFormed (record s' {
        evicted_prefix_blocks = put seq (new_prefix s n num_tokens) s'.evicted_prefix_blocks;
      })
  unfolding table other
  evicted-IsWellFormed s' a f e = record {
    accounts = Accounts-sequences _ _ a;
    block_size_pos = rw f.dims w.block_size_pos;
    groups_pos = rw f.dims w.groups_pos;
    domain = λ k.
        ap (contains k) e
        ∙ contains-remove_all k ks s.entries
        ∙ rw (f.dims, f.sequence_lengths, f.evicted_prefix_blocks)
            (ground (
              arith,
              mem-ks k,
              w.domain k,
              known,
              known_prefix,
              get-put seq k.seq_id (new_prefix s n num_tokens) s.evicted_prefix_blocks,
            ));
    temporary = λ k t. absurd (ground (arith, t, ap (contains k) f.other_table, no_temporary k));
    spans = λ q.
        rw (f.dims, f.sequence_lengths, f.evicted_prefix_blocks)
          (ground (
            arith,
            w.spans q,
            known,
            prefix_fits num_tokens n s.block_size w.block_size_pos,
            get-put seq q (new_prefix s n num_tokens) s.evicted_prefix_blocks,
          ));
  }

  -- Nothing is missing and nothing is freed twice.
  pub evict_lem : Evicted s seq n num_tokens (evict_prefix seq num_tokens s)
  unfolding evict_prefix ks table
  evict_lem =
      let (s', ran, a, f, e, gained) =
        pop_and_free_all_lem retained ks w.accounts
          (Unique-by_block seq (layer_groups s) _ (Unique-range 0 s.num_layer_groups)
            (Unique-range p _))
          ks-Present in
      (
        record s' {
          evicted_prefix_blocks = put seq (new_prefix s n num_tokens) s'.evicted_prefix_blocks;
        },
        rw idle (rw known (rw known_prefix (rw not_less (rw ran)))),
        evicted-IsWellFormed s' a f e,
        f.sequence_lengths,
        ap (put seq (new_prefix s n num_tokens)) f.evicted_prefix_blocks,
        gained,
      )
    where
      not_less : ltb (new_prefix s n num_tokens) p ≡ false
      not_less = ground arith

-- The invariant is kept whatever the arguments, on success and on failure.
pub evict-IsWellFormed :
    (s : TokenLayerKvMap) (seq num_tokens : ℕ)
    → IsWellFormed s
    → IsWellFormed (evict_prefix seq num_tokens s).1
evict-IsWellFormed s seq num_tokens w = elim (Bool-cases (is_empty s.temporary_entries)) [
  | inr active ↦ unfold evict_prefix in rw active w
  | inl idle ↦ elim (Option-cases (get seq s.sequence_lengths)) [
    | inl unknown ↦ unfold evict_prefix in rw idle (rw unknown w)
    | inr (n, known) ↦ elim (Option-cases (get seq s.evicted_prefix_blocks)) [
      | inl no_prefix ↦ unfold evict_prefix in rw idle (rw known (rw no_prefix w))
      | inr (p, known_prefix) ↦ elim (Bool-cases (ltb (new_prefix s n num_tokens) p)) [
        | inl shrinks ↦ unfold evict_prefix in rw idle (rw known (rw known_prefix (rw shrinks w)))
        | inr grows ↦
            let (s', ran, w', _, _, _) =
              evict_lem s w seq n p num_tokens idle known known_prefix (ltb_false→le _ _ grows) in
            rw ran w'
      ]
    ]
  ]
]
