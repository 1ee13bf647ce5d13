-- ===== src/KvMap/Accounts.antt =====
-- The books of the block pools: each reference count is the number of entries that hold the block,
-- and the free lists hold each block with no reference once and no other.
pub mod Moves
pub mod Pools
pub mod Entries
pub mod PopAll
pub mod Loops
use e_llm.Prelude.{
  ℕ, zero, suc, ◌+◌, ◌≡◌, ◌<◌, ◌≤◌, ◌&&◌, List, [], ◌==◌, nat_eq, nat_beq, get_or, length, count,
  ltb, if◌then◌else◌,
}
use e_llm.Dict.{Dict}
use e_llm.Dict.Laws.{Distinct}
use e_llm.Dict.Weight.{weight}
use e_llm.KvMap.{Key, KvMapEntry, TokenLayerKvMap, key_eq}

-- 1 where the two blocks are the same, else 0.
abbrev pub one : ℕ → ℕ → ℕ → ℕ → ℕ
one g b g' b' = if nat_beq g g' && nat_beq b b' then 1 else 0

abbrev pub holds : ℕ → ℕ → Key → KvMapEntry → ℕ
holds g b key entry = one key.group entry.physical_block_id g b

-- The entries of a table that hold a block.
unfoldable pub held : ℕ → ℕ → Dict Key KvMapEntry → ℕ
held g b d = weight (holds g b) d

abbrev pub ref_at : TokenLayerKvMap → ℕ → ℕ → ℕ
ref_at s g b = get_or (get_or s.block_ref_counts g []) b 0

abbrev pub free_at : TokenLayerKvMap → ℕ → List ℕ
free_at s g = get_or s.free_blocks g []

-- 1 for a block of a group that nobody holds, else 0.
abbrev pub available : ℕ → ℕ → ℕ → ℕ → ℕ → ℕ
available groups blocks g b n = if ltb g groups && ltb b blocks && nat_beq n 0 then 1 else 0

-- The pools, with `x g b` references that no entry accounts for.
pub record Accounts (x : ℕ → ℕ → ℕ) (s : TokenLayerKvMap) : Type 0 where
  pub free_length : length s.free_blocks ≡ s.num_layer_groups
  pub refs_length : length s.block_ref_counts ≡ s.num_layer_groups
  pub row_length :
      (g : ℕ)
      → g < s.num_layer_groups
      → length (get_or s.block_ref_counts g []) ≡ s.num_physical_blocks
  pub distinct : Distinct s.entries
  pub distinct_temporary : Distinct s.temporary_entries
  pub refs : (g b : ℕ) → ref_at s g b ≡ x g b + held g b s.entries + held g b s.temporary_entries
  pub free :
      (g b : ℕ)
      → count b (free_at s g)
        ≡ available s.num_layer_groups s.num_physical_blocks g b (ref_at s g b)

abbrev pub plus : (ℕ → ℕ → ℕ) → ℕ → ℕ → ℕ → ℕ → ℕ
plus x g b g' b' = x g' b' + one g b g' b'

abbrev pub nothing : ℕ → ℕ → ℕ
nothing g b = 0

-- What the pools' own methods leave alone.
pub record Same (s t : TokenLayerKvMap) : Type 0 where
  pub dims : t.dims ≡ s.dims
  pub entries : t.entries ≡ s.entries
  pub temporary_entries : t.temporary_entries ≡ s.temporary_entries
  pub sequence_lengths : t.sequence_lengths ≡ s.sequence_lengths
  pub evicted_prefix_blocks : t.evicted_prefix_blocks ≡ s.evicted_prefix_blocks
