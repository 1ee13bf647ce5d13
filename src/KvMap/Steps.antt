-- ===== src/KvMap/Steps.antt =====
-- `TokenLayerKVMap` as a transition system: the constructor, then any calls of its methods, each of
-- which may raise an exception that the caller catches.
use e_llm.Prelude.{
  ℕ, ◌≡◌, refl, ◌<◌, leb, ltb, arith, List, [], range, get_or, replicate, inl, inr, subst,
  length-replicate, get_or-replicate, count-range, Bool-cases,
}
use e_llm.Exec.{ok, err, value_error}
use e_llm.Dict.{get, contains}
use e_llm.Dict.Weight.{weight}
use e_llm.KvMap.{Dims, TokenLayerKvMap, empty, init, ceil_div}
use e_llm.KvMap.Sequences.{
  allocate_sequence_with_evicted_prefix, append_token, fork_sequence, evict_prefix, free_sequence,
}
use e_llm.KvMap.Recompute.{
  begin_recompute, end_recompute, acquire_layer_group_plan, release_layer_group_plan,
  build_layer_group_plans,
}
use e_llm.KvMap.Accounts.{Accounts, nothing, held}
use e_llm.KvMap.WellFormed.{IsWellFormed}
use e_llm.KvMap.WellFormed.Allocation.{allocate-IsWellFormed}
use e_llm.KvMap.WellFormed.Growth.{append-IsWellFormed}
use e_llm.KvMap.WellFormed.Forks.{fork-IsWellFormed}
use e_llm.KvMap.WellFormed.Removal.{free-IsWellFormed}
use e_llm.KvMap.WellFormed.Eviction.{evict-IsWellFormed}
use e_llm.KvMap.WellFormed.Recomputing.{begin-IsWellFormed}
use e_llm.KvMap.WellFormed.Plans.{end_lem, release_lem, acquire-IsWellFormed, build-IsWellFormed}

-- A call of a method that changes the map.
pub data Call : Type 0 where
  allocate : (seq num_tokens num_evicted : ℕ) → Call
  append : (seq : ℕ) → Call
  fork : (parent child : ℕ) → Call
  evict : (seq num_tokens : ℕ) → Call
  free : (seq : ℕ) → Call
  begin : (seq group : ℕ) → Call
  end : (seq group : ℕ) → Call
  acquire : (seqs : List ℕ) (group : ℕ) → Call
  release : (seqs : List ℕ) (group : ℕ) → Call
  build : (seqs : List ℕ) → Call

-- The map after a call that returned or raised.
abbrev pub after : Call → TokenLayerKvMap → TokenLayerKvMap
after (Call.allocate seq n evicted) s = (allocate_sequence_with_evicted_prefix seq n evicted s).1
after (Call.append seq) s = (append_token seq s).1
after (Call.fork parent child) s = (fork_sequence parent child s).1
after (Call.evict seq n) s = (evict_prefix seq n s).1
after (Call.free seq) s = (free_sequence seq s).1
after (Call.begin seq g) s = (begin_recompute seq g s).1
after (Call.end seq g) s = (end_recompute seq g s).1
after (Call.acquire seqs g) s = (acquire_layer_group_plan seqs g s).1
after (Call.release seqs g) s = (release_layer_group_plan g seqs s).1
after (Call.build seqs) s = (build_layer_group_plans seqs s).1

-- The maps that the program can come to from a new one.
pub data Reachable (start : TokenLayerKvMap) : TokenLayerKvMap → Type 0 where
  new : Reachable start start
  called : (s : TokenLayerKvMap) (call : Call) → Reachable start s → Reachable start (after call s)

after-IsWellFormed :
    (call : Call) (s : TokenLayerKvMap) → IsWellFormed s → IsWellFormed (after call s)
after-IsWellFormed (Call.allocate seq n evicted) s w = allocate-IsWellFormed s seq n evicted w
after-IsWellFormed (Call.append seq) s w = append-IsWellFormed s seq w
after-IsWellFormed (Call.fork parent child) s w = fork-IsWellFormed s parent child w
after-IsWellFormed (Call.evict seq n) s w = evict-IsWellFormed s seq n w
after-IsWellFormed (Call.free seq) s w = free-IsWellFormed s w seq
after-IsWellFormed (Call.begin seq g) s w = begin-IsWellFormed s seq g w
after-IsWellFormed (Call.end seq g) s w =
    let (s', ran, w', _, _) = end_lem s w seq g in rw (ran, after) w'
after-IsWellFormed (Call.acquire seqs g) s w = acquire-IsWellFormed s seqs g w
after-IsWellFormed (Call.release seqs g) s w =
    let (s', ran, w', _, _) = release_lem g seqs s w in rw (ran, after) w'
after-IsWellFormed (Call.build seqs) s w = build-IsWellFormed s seqs w

module _ (d : Dims) where
  open d use {num_layer_groups, num_physical_blocks, block_size}

  empty-Accounts : Accounts nothing (empty d)
  unfolding empty held weight
  empty-Accounts = record {
    free_length = length-replicate num_layer_groups (range 0 num_physical_blocks);
    refs_length = length-replicate num_layer_groups (replicate {A = ℕ} num_physical_blocks 0);
    row_length = λ g h. ground (
      arith,
      get_or-replicate num_layer_groups g (replicate {A = ℕ} num_physical_blocks 0) [],
      length-replicate {A = ℕ} num_physical_blocks 0,
    );
    distinct = tt;
    distinct_temporary = tt;
    refs = λ g b. no_refs g b;
    free = λ g b. rw (no_refs g b) (
        ground (
          arith,
          get_or-replicate num_layer_groups g (range 0 num_physical_blocks) [],
          count-range b 0 num_physical_blocks,
        ));
  }
    where
      zeros : List ℕ
      zeros = replicate {A = ℕ} num_physical_blocks 0

      no_refs :
          (g b : ℕ)
          → get_or {A = ℕ} (get_or {A = List ℕ} (replicate num_layer_groups zeros) g []) b 0 ≡ 0
      no_refs g b =
          rw (get_or-replicate num_layer_groups g zeros [])
            (elim (Bool-cases (ltb g num_layer_groups)) [
              | inl inside ↦
                  rw inside (rw (get_or-replicate {A = ℕ} num_physical_blocks b 0 0) (ground arith))
              | inr outside ↦ rw outside refl
            ])

  empty-IsWellFormed : 0 < block_size → 0 < num_layer_groups → IsWellFormed (empty d)
  unfolding empty get contains
  empty-IsWellFormed b g = record {
    accounts = empty-Accounts;
    block_size_pos = b;
    groups_pos = g;
    domain = λ k. refl;
    temporary = λ k h. absurd (cc);
    spans = λ q. tt;
  }

ceil_div_pos : (a b : ℕ) → 0 < a → 0 < b → 0 < ceil_div a b
ceil_div_pos a b h k = grind arith

pub init-IsWellFormed :
    (num_layers block_size num_physical_blocks layer_group_size : ℕ) (s : TokenLayerKvMap)
    → init num_layers block_size num_physical_blocks layer_group_size ≡ ok s
    → IsWellFormed s
unfolding init
init-IsWellFormed l b n g s made = elim (Bool-cases (leb l 0)) [
  | inl bad ↦ absurd (no (rw bad at made))
  | inr l_ok ↦ elim (Bool-cases (leb b 0)) [
    | inl bad ↦ absurd (no (rw bad at (rw l_ok at made)))
    | inr b_ok ↦ elim (Bool-cases (leb n 0)) [
      | inl bad ↦ absurd (no (rw bad at (rw b_ok at (rw l_ok at made))))
      | inr n_ok ↦ elim (Bool-cases (leb g 0)) [
        | inl bad ↦ absurd (no (rw bad at (rw n_ok at (rw b_ok at (rw l_ok at made)))))
        | inr g_ok ↦
            subst IsWellFormed (ok_inj (rw g_ok at (rw n_ok at (rw b_ok at (rw l_ok at made)))))
              (empty-IsWellFormed _ (ground arith) (ceil_div_pos l g (ground arith) (ground arith)))
      ]
    ]
  ]
]
  where
    no : {s' : TokenLayerKvMap} → err value_error ≡ ok s' → ⊥
    no h = cc

    ok_inj : {s' t : TokenLayerKvMap} → ok s' ≡ ok t → s' ≡ t
    ok_inj h = cc

pub reached-IsWellFormed : {s t : TokenLayerKvMap} → IsWellFormed s → Reachable s t → IsWellFormed t
reached-IsWellFormed w new = w
reached-IsWellFormed w (called s call r) = after-IsWellFormed call s (reached-IsWellFormed w r)
