-- ===== src/EllmBlockManager/Capacity.antt =====
-- What the manager's answers promise: memory for a group that may be allocated, and a prefix that
-- can be given up.
use e_llm.Prelude.{
  ℕ, ◌+◌, ◌*◌, ◌/◌, ◌≡◌, refl, ap, ◌∙◌, ◌≤◌, ◌<◌, true, some, [], arith, length, ltb, leb, nat_eq,
  inl, inr, Bool-cases, Option-cases, min,
}
use e_llm.Dict.{get, put}
use e_llm.Exec.{Result, ok, err, ◌>>=◌, pure, or_raise, value_error}
use e_llm.KvMap.{TokenLayerKvMap, ceil_div}
use e_llm.KvMap.Sequences.{layer_groups, evict_prefix, is_empty}
use e_llm.KvMap.Accounts.{free_at}
use e_llm.KvMap.WellFormed.{IsWellFormed}
use e_llm.KvMap.WellFormed.Eviction.{evict_lem, new_prefix}
use e_llm.Sequence.{Sequence, SequenceStatus, get_len}
use e_llm.SequenceGroup.{SequenceGroup, get_seqs}
use e_llm.EllmBlockManager.{
  EllmBlockSpaceManager, AllocStatus, alloc_ok, alloc_later, alloc_never, on_map, required_blocks,
  sum_required, min_of, get_num_free_gpu_blocks, alloc_status, can_allocate, allocate,
  evicted_blocks, evict_to_cached_layer_ratio,
}
use e_llm.EllmBlockManager.FreeCounts.{
  frees, free_counts_lem, min_of-Below, Below-at, HasFree, AllNew, allocate_all_lem,
}

counts_lem :
    (s : TokenLayerKvMap)
    → IsWellFormed s
    → get_num_free_gpu_blocks s ≡ (or_raise value_error (min_of (frees s (layer_groups s)))) s
unfolding get_num_free_gpu_blocks
counts_lem s w =
    rw (free_counts_lem s 0 s.num_layer_groups (omega (arith, w.accounts.free_length))) refl

enough_lem :
    (m : EllmBlockSpaceManager) (required : ℕ)
    → IsWellFormed m.cache_map
    → (on_map get_num_free_gpu_blocks >>= λ k. pure (alloc_status required m.watermark_blocks k)) m
      ≡ (ok alloc_ok, m)
    → HasFree m.cache_map required
enough_lem m required w h g inside =
    elim (Option-cases (min_of (frees m.cache_map (layer_groups m.cache_map)))) [
      | inl nothing ↦ absurd (no_value (rw nothing at (rw (counts_lem m.cache_map w) at h)))
      | inr (k, found) ↦
          let answer = rw found at (rw (counts_lem m.cache_map w) at h) in
          elim (Bool-cases (leb (required + m.watermark_blocks) k)) [
            | inl fits ↦
                let bound : k ≤ length (free_at m.cache_map g) =
                  Below-at m.cache_map k 0 m.cache_map.num_layer_groups g
                    (min_of-Below k (frees m.cache_map (layer_groups m.cache_map)) found)
                    (omega arith) (omega arith) in
                ground (arith, bound, fits)
            | inr lacks ↦ absurd (no_ok (rw lacks at answer))
          ]
    ]
  where
    no_value :
        {m1 m2 : EllmBlockSpaceManager}
        → ◌≡◌ {A = Result AllocStatus × EllmBlockSpaceManager}
            (err value_error, m1)
            (ok alloc_ok, m2)
        → ⊥
    no_value h = cc

    no_ok :
        {m1 m2 : EllmBlockSpaceManager}
        → ◌≡◌ {A = Result AllocStatus × EllmBlockSpaceManager}
            (ok alloc_later, m1)
            (ok alloc_ok, m2)
        → ⊥
    no_ok h = cc

-- When `can_allocate` answers OK for a group on a manager whose map is well formed and has the manager's
-- block size, and the waiting sequences have new and different ids and are not empty, `allocate`
-- returns for the group, and leaves a well-formed map.
pub can_allocate-allocates :
    (m : EllmBlockSpaceManager) (group : SequenceGroup)
    → IsWellFormed m.cache_map
    → m.cache_map.block_size ≡ m.block_size
    → AllNew (get_seqs SequenceStatus.waiting group) m.cache_map
    → can_allocate group m ≡ (ok alloc_ok, m)
    → (m' : EllmBlockSpaceManager) × (allocate group m ≡ (ok tt, m')) × IsWellFormed m'.cache_map
unfolding can_allocate allocate
can_allocate-allocates m group w size new answer =
    let seqs = get_seqs SequenceStatus.waiting group in
    elim (Bool-cases
      (ltb m.num_total_gpu_blocks (sum_required m.block_size seqs + m.watermark_blocks))) [
        | inl over ↦ absurd (never (rw over at answer))
        | inr room ↦
            let (s', ran, w') =
              allocate_all_lem seqs [] m.block_size m.cache_map w size new
                (enough_lem m (sum_required m.block_size seqs) w (rw room at answer)) in
            (record m { cache_map = s' }, rw ran refl, w')
      ]
  where
    never :
        ◌≡◌ {A = Result AllocStatus × EllmBlockSpaceManager} (ok alloc_never, m) (ok alloc_ok, m)
        → ⊥
    never h = cc

retained_part :
    (num_blocks : ℕ) (cached num_layers : ℕ)
    → 0 < num_blocks
    → evicted_blocks num_blocks num_layers cached < num_blocks
retained_part num_blocks cached num_layers h = ground arith

prefix_blocks : (e n b : ℕ) → 0 < b → e < ceil_div n b → min (e * b) n / b ≡ e
prefix_blocks e n b h k = grind arith

blocks_pos : (n b : ℕ) → 0 < n → 0 < b → 0 < ceil_div n b
blocks_pos n b h k = grind arith

length_pos :
    (s : TokenLayerKvMap)
    → IsWellFormed s
    → (seq n : ℕ) → get seq s.sequence_lengths ≡ some n
    → 0 < n
length_pos s w seq n known = ground (arith, w.spans seq, known)

evict_blocks_lem :
    (s : TokenLayerKvMap)
    → IsWellFormed s
    → (seq n p e block_size : ℕ) → s.block_size ≡ block_size
    → is_empty s.temporary_entries ≡ true
    → get seq s.sequence_lengths ≡ some n
    → get seq s.evicted_prefix_blocks ≡ some p
    → p ≤ e
    → e < ceil_div n block_size
    → (s' : TokenLayerKvMap) × (evict_prefix seq (e * block_size) s ≡ (ok (e * block_size), s'))
      × IsWellFormed s'
      × (s'.evicted_prefix_blocks ≡ put seq e s.evicted_prefix_blocks)
evict_blocks_lem s w seq n p e block_size size idle known known_prefix grows keeps =
    let whole : new_prefix s n (e * block_size) ≡ e =
      rw size (prefix_blocks e n block_size (rw size at w.block_size_pos) keeps) in
    let (s', ran, w', _, prefixes, _) =
      evict_lem s w seq n p (e * block_size) idle known known_prefix
        (omega (arith, whole, grows)) in
    (
      s',
      ran ∙ ap (λ (x : ℕ). (ok x, s')) (rw whole (rw size refl)),
      w',
      prefixes ∙ ap (λ (x : ℕ). put seq x s.evicted_prefix_blocks) whole,
    )

-- For a manager whose map is well formed and has the manager's block size, and a sequence that the
-- map holds with exactly the length `get_len`, with no recomputation under way and no larger prefix
-- evicted already: `evict_to_cached_layer_ratio` returns the tokens of the blocks that the ratio gives
-- up, those blocks are recorded as evicted, a block of the sequence at least is kept, and the map is
-- well formed afterwards.
pub evict_to_cached_layer_ratio-returns :
    (m : EllmBlockSpaceManager) (seq : Sequence) (cached_layers p : ℕ)
    → IsWellFormed m.cache_map
    → m.cache_map.block_size ≡ m.block_size
    → is_empty m.cache_map.temporary_entries ≡ true
    → get seq.seq_id m.cache_map.sequence_lengths ≡ some (get_len seq)
    → get seq.seq_id m.cache_map.evicted_prefix_blocks ≡ some p
    → p ≤ evicted_blocks (required_blocks m.block_size seq) m.num_layers cached_layers
    → (m' : EllmBlockSpaceManager) × (evict_to_cached_layer_ratio seq cached_layers m ≡ (
      ok (
          evicted_blocks (required_blocks m.block_size seq) m.num_layers cached_layers
          * m.block_size),
      m',
    ))
      × IsWellFormed m'.cache_map
      × (m'.cache_map.evicted_prefix_blocks
          ≡ put seq.seq_id
              (evicted_blocks (required_blocks m.block_size seq) m.num_layers cached_layers)
              m.cache_map.evicted_prefix_blocks)
      × (evicted_blocks (required_blocks m.block_size seq) m.num_layers cached_layers
          < required_blocks m.block_size seq)
unfolding evict_to_cached_layer_ratio
evict_to_cached_layer_ratio-returns m seq cached p w size idle known known_prefix grows =
    let e : ℕ = evicted_blocks (required_blocks m.block_size seq) m.num_layers cached in
    let long : 0 < get_len seq = length_pos m.cache_map w seq.seq_id (get_len seq) known in
    let keeps : e < required_blocks m.block_size seq =
      retained_part (required_blocks m.block_size seq) cached m.num_layers
        (blocks_pos (get_len seq) m.block_size long (rw size at w.block_size_pos)) in
    let (s', ran, w', prefixes) =
      evict_blocks_lem m.cache_map w seq.seq_id (get_len seq) p e m.block_size size idle known
        known_prefix grows keeps in
    (record m { cache_map = s' }, rw ran refl, w', prefixes, keeps)
