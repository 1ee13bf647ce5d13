-- ===== src/KvMap/WellFormed/NewSequence.antt =====
-- The invariant after the entries of a new sequence, and after a failure that was undone.
use e_llm.Prelude.{
  ℕ, ◌-◌, ◌≡◌, sym, ap, ◌∙◌, ◌≤◌, ◌<◌, ◌&&◌, true, false, some, none, nat_eq, nat_beq,
  if◌then◌else◌, arith, List, range,
}
use e_llm.Dict.{Dict, get, contains, put}
use e_llm.Dict.Laws.{get-put, get-none}
use e_llm.Dict.Keys.{Unique, Absent, Absent-intro, mem, contains-append_made}
use e_llm.KvMap.{
  Key, KvMapEntry, TokenLayerKvMap, key_eq, Table, retained, transient, table, ceil_div,
}
use e_llm.KvMap.Sequences.{by_group, layer_groups, set_sequence}
use e_llm.KvMap.KeyLists.{mem-by_group, mem-range, Unique-by_group, Unique-range}
use e_llm.KvMap.Accounts.{Accounts, nothing}
use e_llm.KvMap.Accounts.Loops.{Entered}
use e_llm.KvMap.Accounts.Entries.{Frame, other}
use e_llm.KvMap.WellFormed.{IsWellFormed, retains, retained_in, evicts}

-- The books do not read the sequences' lengths.
pub Accounts-sequences :
    {x : ℕ → ℕ → ℕ} {s : TokenLayerKvMap} (lengths prefixes : Dict ℕ ℕ)
    → Accounts x s
    → Accounts x (record s { sequence_lengths = lengths; evicted_prefix_blocks = prefixes })
Accounts-sequences lengths prefixes a = record {
  free_length = a.free_length;
  refs_length = a.refs_length;
  row_length = a.row_length;
  distinct = a.distinct;
  distinct_temporary = a.distinct_temporary;
  refs = a.refs;
  free = a.free;
}

-- The invariant reads the pools through the books only.
pub Undone-IsWellFormed :
    (t : Table) {s s' : TokenLayerKvMap}
    → IsWellFormed s
    → Accounts nothing s'
    → Frame t s s'
    → table t s' ≡ table t s
    → IsWellFormed s'
unfolding table other
Undone-IsWellFormed retained w a f e = record {
  accounts = a;
  block_size_pos = rw f.dims w.block_size_pos;
  groups_pos = rw f.dims w.groups_pos;
  domain = λ k. rw (e, f.dims, f.sequence_lengths, f.evicted_prefix_blocks) (w.domain k);
  temporary = λ k h.
      rw (f.dims, f.evicted_prefix_blocks)
        (w.temporary k (ap (contains k) (sym f.other_table) ∙ h));
  spans = λ q. rw (f.dims, f.sequence_lengths, f.evicted_prefix_blocks) (w.spans q);
}
Undone-IsWellFormed transient w a f e = record {
  accounts = a;
  block_size_pos = rw f.dims w.block_size_pos;
  groups_pos = rw f.dims w.groups_pos;
  domain =
      λ k. rw (f.other_table, f.dims, f.sequence_lengths, f.evicted_prefix_blocks) (w.domain k);
  temporary =
      λ k h. rw (f.dims, f.evicted_prefix_blocks) (w.temporary k (ap (contains k) (sym e) ∙ h));
  spans = λ q. rw (f.dims, f.sequence_lengths, f.evicted_prefix_blocks) (w.spans q);
}

module _ (s : TokenLayerKvMap) (w : IsWellFormed s) (seq n p : ℕ)
    (new : contains seq s.sequence_lengths ≡ false) (pos : 0 < n)
    (fits : p ≤ ceil_div n s.block_size) where
  unfoldable pub keys : List Key
  keys = by_group seq (layer_groups s) (range p (ceil_div n s.block_size - p))

  mem-keys :
      (k : Key)
      → mem k keys
        ≡ (nat_beq seq k.seq_id && retains s.block_size s.num_layer_groups (some n) (some p) k)
  unfolding keys
  mem-keys k =
      mem-by_group seq k (layer_groups s) (range p (ceil_div n s.block_size - p))
      ∙ ground (
        arith,
        mem-range k.group 0 s.num_layer_groups,
        mem-range k.block p (ceil_div n s.block_size - p),
      )

  pub keys-Unique : Unique keys
  unfolding keys
  keys-Unique =
      Unique-by_group seq (layer_groups s) _ (Unique-range 0 s.num_layer_groups) (Unique-range p _)

  pub keys-Absent : Absent keys s.entries
  keys-Absent = Absent-intro keys s.entries λ k m. absent k m
    where
      absent : (k : Key) → mem k keys ≡ true → contains k s.entries ≡ false
      absent k m = ground (arith, mem-keys k, w.domain k, get-none seq s.sequence_lengths new)

  unknown : get seq s.sequence_lengths ≡ none
  unknown = get-none seq s.sequence_lengths new

  unknown_prefix : get seq s.evicted_prefix_blocks ≡ none
  unknown_prefix = ground (arith, w.spans seq, unknown)

  -- The state after the loop and the two assignments.
  pub allocated-IsWellFormed :
      (make : Key → ℕ → KvMapEntry) (names : (k : Key) (b : ℕ) → (make k b).physical_block_id ≡ b)
      (s' : TokenLayerKvMap)
      → Entered nothing retained make names s keys s'
      → IsWellFormed (set_sequence seq n p s')
  unfolding table other
  allocated-IsWellFormed make names s' h = record {
    accounts = Accounts-sequences _ _ h.accounts;
    block_size_pos = rw h.frame.dims w.block_size_pos;
    groups_pos = rw h.frame.dims w.groups_pos;
    domain = λ k.
        ap (contains k) h.grown
        ∙ contains-append_made make k keys h.blocks s.entries h.blocks_length
        ∙ rw (h.frame.dims, h.frame.sequence_lengths, h.frame.evicted_prefix_blocks) (inside k);
    temporary = λ k t.
        rw (h.frame.dims, h.frame.evicted_prefix_blocks)
          (in_prefix k (ap (contains k) (sym h.frame.other_table) ∙ t));
    spans = λ q.
        rw (h.frame.dims, h.frame.sequence_lengths, h.frame.evicted_prefix_blocks)
          (ground (
            arith,
            w.spans q,
            get-put seq q n s.sequence_lengths,
            get-put seq q p s.evicted_prefix_blocks,
          ));
  }
    where
      inside :
          (k : Key)
          → (if contains k s.entries then true else mem k keys)
            ≡ retained_in (set_sequence seq n p s) k
      inside k = ground (
        arith,
        w.domain k,
        mem-keys k,
        unknown,
        get-put seq k.seq_id n s.sequence_lengths,
        get-put seq k.seq_id p s.evicted_prefix_blocks,
      )

      in_prefix :
          (k : Key)
          → contains k s.temporary_entries ≡ true
          → evicts s.num_layer_groups (get k.seq_id (put seq p s.evicted_prefix_blocks)) k ≡ true
      in_prefix k t =
          ground
            (arith, w.temporary k t, unknown_prefix, get-put seq k.seq_id p s.evicted_prefix_blocks)
