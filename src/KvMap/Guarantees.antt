-- ===== src/KvMap/Guarantees.antt =====
-- What the callers of `TokenLayerKVMap` rely on: the worker that copies blocks, the block manager
-- and the model runner.
use e_llm.Prelude.{
  ℕ, ◌+◌, ◌-◌, ◌≡◌, sym, ap, ◌∙◌, ◌↔◌, ◌≤◌, ◌<◌, inl, inr, true, nat_eq, arith, List, length, some,
}
use e_llm.Exec.{Result, Error, ok, err, runtime_error}
use e_llm.Dict.Laws.{get-put}
use e_llm.Dict.{get, put}
use e_llm.KvMap.{Key, KvMapEntry, TokenLayerKvMap, key_eq, ceil_div, init}
use e_llm.KvMap.Sequences.{
  allocate_sequence_with_evicted_prefix, append_token, fork_sequence, evict_prefix, is_empty,
}
use e_llm.KvMap.Recompute.{release_layer_group_plan}
use e_llm.KvMap.Accounts.{ref_at, free_at}
use e_llm.KvMap.WellFormed.{IsWellFormed}
use e_llm.KvMap.WellFormed.Allocation.{Admissible, missing, Allocated, allocate_lem}
use e_llm.KvMap.WellFormed.Growth.{append_lem}
use e_llm.KvMap.WellFormed.TailCopies.{tail_key}
use e_llm.KvMap.WellFormed.Forks.{fork_lem}
use e_llm.KvMap.WellFormed.Eviction.{Evicted, evict_lem, new_prefix}
use e_llm.KvMap.WellFormed.Plans.{release_lem}
use e_llm.KvMap.Steps.{Reachable, init-IsWellFormed, reached-IsWellFormed}

-- A map that the constructor makes without an error stays well formed through any calls, returned
-- or raised: the reference counts are the numbers of entries that hold the blocks, each free list
-- is duplicate-free and made of exactly the blocks without a reference, the retained entries are
-- exactly those of the sequences' blocks past their evicted prefixes, and temporary entries stand
-- for evicted blocks only.
pub Reachable-IsWellFormed :
    (num_layers block_size num_physical_blocks layer_group_size : ℕ) (s t : TokenLayerKvMap)
    → init num_layers block_size num_physical_blocks layer_group_size ≡ ok s
    → Reachable s t
    → IsWellFormed t
Reachable-IsWellFormed l b n g s t made r =
    reached-IsWellFormed (init-IsWellFormed l b n g s made) r

-- In a well-formed map and for admissible arguments, `allocate_sequence_with_evicted_prefix`
-- returns exactly when the free list of every layer group has as many blocks as the sequence keeps.
pub allocate-succeeds_iff_free :
    (s : TokenLayerKvMap) (seq n evicted : ℕ)
    → IsWellFormed s
    → Admissible s seq n evicted
    → ((s' : TokenLayerKvMap) × (allocate_sequence_with_evicted_prefix seq n evicted s
          ≡ (ok tt, s')))
      ↔ ((g : ℕ) → g < s.num_layer_groups → missing s n evicted ≤ length (free_at s g))
allocate-succeeds_iff_free s seq n evicted w adm = elim (allocate_lem s w seq n evicted adm) [
  | inl (s', ran, _, _, _, _, took) ↦ (λ _ g h. ground (arith, took g), λ _. (s', ran))
  | inr (s', ran, _, _, _, (g, inside, short)) ↦ (
    λ (s2, ran2). absurd (different s' s2 (sym ran ∙ ran2)),
    λ enough. absurd (omega (arith, enough g inside)),
  )
]
  where
    different :
        (s1 s2 : TokenLayerKvMap)
        → ◌≡◌ {A = Result (Unit {0}) × TokenLayerKvMap} (err runtime_error, s1) (ok tt, s2)
        → ⊥
    different s1 s2 h = cc

-- For admissible arguments on a well-formed map: either the sequence is recorded with its length
-- and evicted blocks, and each layer group has given exactly the blocks the sequence keeps; or a
-- `RuntimeError` is raised, some group had too few blocks, and the entries and the sequences'
-- records are as before. The map is well formed again in both cases.
pub allocate-all_or_nothing :
    (s : TokenLayerKvMap) (seq n evicted : ℕ)
    → IsWellFormed s
    → Admissible s seq n evicted
    → Allocated s seq n evicted
allocate-all_or_nothing s seq n evicted w adm = allocate_lem s w seq n evicted adm

-- When `append_token` returns on a known sequence of a well-formed map, the sequence is longer by a
-- token, and in every layer group the block of the new token is referenced by this sequence alone,
-- so that writing the token's keys and values changes no other sequence.
pub append-Exclusive :
    (s s' : TokenLayerKvMap) (seq old g : ℕ) (copies : List (ℕ × ℕ × ℕ))
    → IsWellFormed s
    → get seq s.sequence_lengths ≡ some old
    → append_token seq s ≡ (ok copies, s')
    → g < s'.num_layer_groups
    → (s'.sequence_lengths ≡ put seq (old + 1) s.sequence_lengths)
      × ((e : KvMapEntry) × (get (tail_key seq (ceil_div (old + 1) s.block_size - 1) g) s'.entries
            ≡ some e)
          × (ref_at s' g e.physical_block_id ≡ 1))
append-Exclusive s s' seq old g copies w known ran inside = elim (append_lem s w seq old known) [
  | inl (c, t, ran2, _, lengths, _, alone) ↦
      let same : t ≡ s' =
        ap (λ (r : Result (List (ℕ × ℕ × ℕ)) × TokenLayerKvMap). r.1) (sym ran2 ∙ ran) in
      rw (← same) (lengths, alone g (rw (← same) at inside))
  | inr (e, t, ran2, _, _, _) ↦ absurd (different e t (sym ran2 ∙ ran))
]
  where
    different :
        (e : Error) (t : TokenLayerKvMap)
        → ◌≡◌ {A = Result (List (ℕ × ℕ × ℕ)) × TokenLayerKvMap} (err e, t) (ok copies, s')
        → ⊥
    different e t h = cc

-- When `append_token` raises on a known sequence of a well-formed map, the map is well formed again
-- and its entries, lengths and evicted prefixes are as before.
pub append-undone :
    (s s' : TokenLayerKvMap) (seq old : ℕ) (e : Error)
    → IsWellFormed s
    → get seq s.sequence_lengths ≡ some old
    → append_token seq s ≡ (err e, s')
    → IsWellFormed s'
      × (s'.entries ≡ s.entries)
      × (s'.sequence_lengths ≡ s.sequence_lengths)
      × (s'.evicted_prefix_blocks ≡ s.evicted_prefix_blocks)
append-undone s s' seq old e w known ran = elim (append_lem s w seq old known) [
  | inl (c, t, ran2, _, _, _, _) ↦ absurd (different c t (sym ran2 ∙ ran))
  | inr (e2, t, ran2, w2, f, kept) ↦
      let same : t ≡ s' =
        ap (λ (r : Result (List (ℕ × ℕ × ℕ)) × TokenLayerKvMap). r.1) (sym ran2 ∙ ran) in
      rw (← same) (w2, kept, f.sequence_lengths, f.evicted_prefix_blocks)
]
  where
    different :
        (c : List (ℕ × ℕ × ℕ)) (t : TokenLayerKvMap)
        → ◌≡◌ {A = Result (List (ℕ × ℕ × ℕ)) × TokenLayerKvMap} (ok c, t) (err e, s')
        → ⊥
    different c t h = cc

-- When `fork_sequence` returns on a well-formed map, the child has the parent's length, and for an
-- entry of the parent, which is still there, the child has one that names the same physical block.
pub fork-shares_blocks :
    (s s' : TokenLayerKvMap) (parent child : ℕ) (k : Key) (e : KvMapEntry)
    → IsWellFormed s
    → fork_sequence parent child s ≡ (ok tt, s')
    → get k s.entries ≡ some e
    → k.seq_id ≡ parent
    → (get child s'.sequence_lengths ≡ get parent s.sequence_lengths)
      × (get k s'.entries ≡ some e)
      × (get (record k { seq_id = child }) s'.entries ≡ some (record e { seq_id = child }))
fork-shares_blocks s s' parent child k e w ran found mine = elim (fork_lem parent child s w) [
  | inl (n, p, t, ran2, _, length, lengths, _, _, shares) ↦
      let same : t ≡ s' = ap (λ (r : Result (Unit {0}) × TokenLayerKvMap). r.1) (sym ran2 ∙ ran) in
      let (kept, copied) = shares k e found in
      rw (← same) (
        ap (get child) lengths ∙ get-put child child n s.sequence_lengths ∙ ground (arith, length),
        kept,
        copied mine,
      )
  | inr (x, t, ran2, _) ↦ absurd (different x t (sym ran2 ∙ ran))
]
  where
    different :
        (x : Error) (t : TokenLayerKvMap)
        → ◌≡◌ {A = Result (Unit {0}) × TokenLayerKvMap} (err x, t) (ok tt, s')
        → ⊥
    different x t h = cc

-- With no recomputation under way, a known sequence of a well-formed map whose evicted prefix does
-- not shrink: `evict_prefix` returns the largest number of whole blocks' tokens within both the
-- asked number and the length, records it, keeps the lengths, and no free list shrinks.
pub evict_prefix-returns :
    (s : TokenLayerKvMap) (seq n p num_tokens : ℕ)
    → IsWellFormed s
    → is_empty s.temporary_entries ≡ true
    → get seq s.sequence_lengths ≡ some n
    → get seq s.evicted_prefix_blocks ≡ some p
    → p ≤ new_prefix s n num_tokens
    → Evicted s seq n num_tokens (evict_prefix seq num_tokens s)
evict_prefix-returns s seq n p num_tokens w idle known prefix grows =
    evict_lem s w seq n p num_tokens idle known prefix grows

-- Releasing the plan of a batch never raises on a well-formed map, whatever the sequences, and
-- leaves the retained entries and the lengths as they are.
pub release_layer_group_plan-returns :
    (s : TokenLayerKvMap) (g : ℕ) (seqs : List ℕ)
    → IsWellFormed s
    → (s' : TokenLayerKvMap) × (release_layer_group_plan g seqs s ≡ (ok tt, s'))
      × IsWellFormed s'
      × (s'.entries ≡ s.entries)
      × (s'.sequence_lengths ≡ s.sequence_lengths)
release_layer_group_plan-returns s g seqs w = release_lem g seqs s w
