-- ===== src/KvMap.antt =====
-- The state of vllm/core/ellm_cache.py: `TokenLayerKVMap`, its entries and its block pools. The
-- operations stand in the children, after the methods of the class; the proofs below them.
pub mod Blocks
pub mod Sequences
pub mod Recompute
pub mod Queries
pub mod KeyLists
pub mod Accounts
pub mod WellFormed
pub mod Steps
pub mod Guarantees
mod Examples
use e_llm.Prelude.{
  ◌↔◌, true, ℕ, suc, ◌+◌, ◌-◌, ◌*◌, ◌/◌, ◌≡◌, Bool, false, ◌&&◌, Option, some, none, List, [], ◌∷◌,
  map, Eq, ◌==◌, nat_eq, arith, get_elem?, set, get_or, range, replicate, ltb, leb, if◌then◌else◌,
  min,
}
use e_llm.Dict.{Dict}
use e_llm.Exec.{Result, ok, err, value_error}

-- (seq_id, logical_block_id, layer_group)
pub record Key : Type 0 where
  pub seq_id : ℕ
  pub block : ℕ
  pub group : ℕ

abbrev pub key_beq : Key → Key → Bool
key_beq a b = (a.seq_id == b.seq_id) && (a.block == b.block) && (a.group == b.group)

pub key_beq_iff : (a b : Key) → (key_beq a b ≡ true) ↔ (a ≡ b)
key_beq_iff a b = (λ h. ground arith, λ h. ground arith)

instance abbrev pub key_eq : Eq Key
key_eq = record { eqb = key_beq; eqb_iff = key_beq_iff }

pub record KvMapEntry : Type 0 where
  pub seq_id : ℕ
  pub token_start : ℕ
  pub layer_start : ℕ
  pub logical_block_id : ℕ
  pub physical_block_id : ℕ
  pub num_filled : ℕ
  pub temporary : Bool

pub record LayerGroupBlockPlan : Type 0 where
  pub recompute_slot_mapping : List ℕ
  pub decode_slot_mapping : List ℕ
  pub decode_block_tables : List (List ℕ)

-- What `__init__` fixes.
pub record Dims : Type 0 where
  pub num_layers : ℕ
  pub block_size : ℕ
  pub num_physical_blocks : ℕ
  pub layer_group_size : ℕ
  pub num_layer_groups : ℕ

pub record TokenLayerKvMap : Type 0 where
  pub dims : Dims
  pub open dims use *
  pub free_blocks : List (List ℕ)
  pub block_ref_counts : List (List ℕ)
  pub entries : Dict Key KvMapEntry
  pub temporary_entries : Dict Key KvMapEntry
  pub sequence_lengths : Dict ℕ ℕ
  pub evicted_prefix_blocks : Dict ℕ ℕ

-- math.ceil(a / b)
abbrev pub ceil_div : ℕ → ℕ → ℕ
ceil_div a b = (a + b - 1) / b

unfoldable pub empty : Dims → TokenLayerKvMap
empty d = record {
  dims = d;
  free_blocks = replicate d.num_layer_groups (range 0 d.num_physical_blocks);
  block_ref_counts = replicate d.num_layer_groups (replicate d.num_physical_blocks 0);
  entries = [];
  temporary_entries = [];
  sequence_lengths = [];
  evicted_prefix_blocks = [];
}

unfoldable pub init : ℕ → ℕ → ℕ → ℕ → Result TokenLayerKvMap
unfolding empty
init num_layers block_size num_physical_blocks layer_group_size =
    if leb num_layers 0
    then err value_error
    else if leb block_size 0
    then err value_error
    else if leb num_physical_blocks 0
    then err value_error
    else if leb layer_group_size 0
    then err value_error
    else ok (
        empty (record {
          num_layers = num_layers;
          block_size = block_size;
          num_physical_blocks = num_physical_blocks;
          layer_group_size = layer_group_size;
          num_layer_groups = ceil_div num_layers layer_group_size;
        }))

unfoldable pub num_logical_blocks : TokenLayerKvMap → ℕ → ℕ
num_logical_blocks s num_tokens = ceil_div num_tokens s.block_size

unfoldable pub num_filled : TokenLayerKvMap → ℕ → ℕ → ℕ
num_filled s num_tokens logical_block_id =
    min s.block_size (num_tokens - logical_block_id * s.block_size)

-- `self._entries` or `self._temporary_entries`, for the loops that run over both.
pub data Table : Type 0 where
  retained transient : Table

unfoldable pub table : Table → TokenLayerKvMap → Dict Key KvMapEntry
table retained s = s.entries
table transient s = s.temporary_entries

unfoldable pub set_table : Table → Dict Key KvMapEntry → TokenLayerKvMap → TokenLayerKvMap
set_table retained d s = record s { entries = d }
set_table transient d s = record s { temporary_entries = d }
