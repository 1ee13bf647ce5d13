-- ===== src/KvMap/WellFormed.antt =====
-- The invariant of `TokenLayerKVMap`: the books of the pools balance, and the entries are those of
-- the blocks that the sequences' lengths and evicted prefixes call for.
pub mod NewSequence
pub mod Allocation
pub mod TailCopies
pub mod CopyOnWrite
pub mod TailMoves
pub mod Tail
pub mod Growth
pub mod Shares
pub mod Forks
pub mod Eviction
pub mod Removal
pub mod Recomputing
pub mod Plans
use e_llm.Prelude.{
  ℕ, ◌+◌, ◌-◌, ◌≡◌, ◌≤◌, ◌<◌, ◌&&◌, Bool, true, false, Option, some, none, ltb, leb, ◌==◌, nat_eq,
}
use e_llm.Dict.{Dict, get, contains}
use e_llm.KvMap.{Key, KvMapEntry, TokenLayerKvMap, key_eq, ceil_div}
use e_llm.KvMap.Accounts.{Accounts, nothing}

-- Whether a sequence of that length, with that many leading blocks evicted, retains the block.
abbrev pub retains : ℕ → ℕ → Option ℕ → Option ℕ → Key → Bool
retains block_size groups none p k = false
retains block_size groups (some n) none k = false
retains block_size groups (some n) (some p) k =
    leb p k.block && ltb k.block (ceil_div n block_size) && ltb k.group groups

abbrev pub retained_in : TokenLayerKvMap → Key → Bool
retained_in s k =
    retains s.block_size s.num_layer_groups (get k.seq_id s.sequence_lengths)
      (get k.seq_id s.evicted_prefix_blocks) k

-- Whether the block belongs to the evicted prefix.
abbrev pub evicts : ℕ → Option ℕ → Key → Bool
evicts groups none k = false
evicts groups (some p) k = ltb k.block p && ltb k.group groups

-- A sequence is known to both dicts or to none, is not empty, and has no more evicted than it has.
abbrev pub IsSpan : ℕ → Option ℕ → Option ℕ → Type 0
IsSpan block_size none none = Unit {0}
IsSpan block_size (some n) (some p) = (0 < n) × (p ≤ ceil_div n block_size)
IsSpan block_size none (some p) = ⊥
IsSpan block_size (some n) none = ⊥

pub record IsWellFormed (s : TokenLayerKvMap) : Type 0 where
  pub accounts : Accounts nothing s
  pub block_size_pos : 0 < s.block_size
  pub groups_pos : 0 < s.num_layer_groups
  pub domain : (k : Key) → contains k s.entries ≡ retained_in s k
  pub temporary :
      (k : Key)
      → contains k s.temporary_entries ≡ true
      → evicts s.num_layer_groups (get k.seq_id s.evicted_prefix_blocks) k ≡ true
  pub spans :
      (seq : ℕ) → IsSpan s.block_size (get seq s.sequence_lengths) (get seq s.evicted_prefix_blocks)
