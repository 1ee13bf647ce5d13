-- ===== src/KvMap/WellFormed/Removal.antt =====
-- `evict_prefix` and `free_sequence`: the entries that they take back are there, so that they raise
-- only on their own checks, and the invariant is kept.
use e_llm.Prelude.{
  ℕ, ◌≡◌, ap, ◌∙◌, ◌≤◌, false, none, nat_eq, nat_beq, if◌then◌else◌, arith, List, length,
}
use e_llm.Exec.{ok}
use e_llm.Dict.{Dict, get, contains, remove}
use e_llm.Dict.Laws.{get-remove, get-none}
use e_llm.Dict.Keys.{remove_all, contains-remove_all, get-remove_all}
use e_llm.KvMap.{Key, KvMapEntry, TokenLayerKvMap, key_eq, retained, transient, table}
use e_llm.KvMap.Sequences.{of_seq, free_table, free_sequence}
use e_llm.KvMap.Accounts.{Accounts, nothing, free_at}
use e_llm.KvMap.Accounts.Entries.{other}
use e_llm.KvMap.WellFormed.{IsWellFormed}
use e_llm.KvMap.WellFormed.NewSequence.{Accounts-sequences}
use e_llm.KvMap.WellFormed.Eviction.{chosen, mem-chosen, pop_chosen}

-- Every entry of the sequence goes, and no other.
abbrev pub Released : TokenLayerKvMap → ℕ → Type 0
Released s seq =
    (s' : TokenLayerKvMap) × (free_sequence seq s ≡ (ok tt, s'))
    × IsWellFormed s'
    × (s'.sequence_lengths ≡ remove seq s.sequence_lengths)
    × (s'.evicted_prefix_blocks ≡ remove seq s.evicted_prefix_blocks)
    × ((k : Key) → get k s'.entries ≡ (if nat_beq k.seq_id seq then none else get k s.entries))
    × ((g : ℕ) → length (free_at s g) ≤ length (free_at s' g))

module _ (s : TokenLayerKvMap) (w : IsWellFormed s) (seq : ℕ) where
  mine : Dict Key KvMapEntry → List Key
  mine d = chosen (of_seq seq) d

  left :
      (k : Key) (d : Dict Key KvMapEntry)
      → contains k (remove_all (mine d) d) ≡ (if nat_beq k.seq_id seq then false else contains k d)
  unfolding mine
  left k d =
      contains-remove_all k (chosen (of_seq seq) d) d ∙ ground (arith, mem-chosen (of_seq seq) k d)

  get_left :
      (k : Key) (d : Dict Key KvMapEntry)
      → get k (remove_all (mine d) d) ≡ (if nat_beq k.seq_id seq then none else get k d)
  unfolding mine
  get_left k d =
      get-remove_all k (chosen (of_seq seq) d) d
      ∙ ground (arith, mem-chosen (of_seq seq) k d, get-none k d)

  released-IsWellFormed :
      (s' : TokenLayerKvMap)
      → Accounts nothing s'
      → s'.dims ≡ s.dims
      → s'.sequence_lengths ≡ s.sequence_lengths
      → s'.evicted_prefix_blocks ≡ s.evicted_prefix_blocks
      → ((k : Key)
          → contains k s'.entries ≡ (if nat_beq k.seq_id seq then false else contains k s.entries))
      → ((k : Key)
          → contains k s'.temporary_entries
            ≡ (if nat_beq k.seq_id seq then false else contains k s.temporary_entries))
      → IsWellFormed (record s' {
        sequence_lengths = remove seq s'.sequence_lengths;
        evicted_prefix_blocks = remove seq s'.evicted_prefix_blocks;
      })
  released-IsWellFormed s' a d l p entries temporaries = record {
    accounts = Accounts-sequences _ _ a;
    block_size_pos = rw d w.block_size_pos;
    groups_pos = rw d w.groups_pos;
    domain = λ k.
        entries k
        ∙ rw (d, l, p)
            (ground (
              arith,
              w.domain k,
              get-remove seq k.seq_id s.sequence_lengths,
              get-remove seq k.seq_id s.evicted_prefix_blocks,
            ));
    temporary = λ k t.
        rw (d, p)
          (ground (
            arith,
            t,
            temporaries k,
            w.temporary k,
            get-remove seq k.seq_id s.evicted_prefix_blocks,
          ));
    spans = λ q.
        rw (d, l, p)
          (ground (
            arith,
            w.spans q,
            get-remove seq q s.sequence_lengths,
            get-remove seq q s.evicted_prefix_blocks,
          ));
  }

  -- Never raises.
  pub free_lem : Released s seq
  unfolding free_sequence free_table table other mine
  free_lem =
      let (s1, ran1, a1, f1, e1, g1) = pop_chosen (of_seq seq) retained s w.accounts in
      let (s2, ran2, a2, f2, e2, g2) = pop_chosen (of_seq seq) transient s1 a1 in
      let rest : remove_all (mine s1.temporary_entries) s1.temporary_entries
          ≡ remove_all (mine s.temporary_entries) s.temporary_entries =
        ap (λ (d : Dict Key KvMapEntry). remove_all (mine d) d) f1.other_table in
      (
        record s2 {
          sequence_lengths = remove seq s2.sequence_lengths;
          evicted_prefix_blocks = remove seq s2.evicted_prefix_blocks;
        },
        rw ran1 (rw ran2),
        released-IsWellFormed s2 a2 (f2.dims ∙ f1.dims) (f2.sequence_lengths ∙ f1.sequence_lengths)
            (f2.evicted_prefix_blocks ∙ f1.evicted_prefix_blocks)
            (λ k. ap (contains k) (f2.other_table ∙ e1) ∙ left k s.entries)
            (λ k. ap (contains k) (e2 ∙ rest) ∙ left k s.temporary_entries),
        ap (remove seq) (f2.sequence_lengths ∙ f1.sequence_lengths),
        ap (remove seq) (f2.evicted_prefix_blocks ∙ f1.evicted_prefix_blocks),
        λ k. ap (get k) (f2.other_table ∙ e1) ∙ get_left k s.entries,
        λ g. omega (arith, g1 g, g2 g),
      )

  pub free-IsWellFormed : IsWellFormed (free_sequence seq s).1
  free-IsWellFormed = let (s', ran, w', _, _, _, _) = free_lem in rw ran w'
