-- ===== src/LruEvictor.antt =====
-- vllm/core/evictor_v2.py: the evictor of freed blocks, least recently used first. Times are
-- only compared, so they are numbers here.
pub mod Order
mod Examples
use e_llm.Prelude.{
  ℕ, ◌≡◌, Bool, true, false, ◌&&◌, ◌||◌, not, Option, none, some, List, [], ◌∷◌, ltb, nat_beq,
  nat_eq, length, if◌then◌else◌,
}
use e_llm.Dict.{Dict, get, contains, put, remove}
use e_llm.Exec.{
  Exec, ok, err, pure, raise, modify, raise_if, or_raise, ◌>>=◌, ◌>>◌, value_error, key_error,
}

pub record BlockMetaData : Type 0 where
  pub content_hash : ℕ
  pub num_hashed_tokens : ℕ
  pub last_accessed : ℕ

pub record LruEvictor : Type 0 where
  pub free_table : Dict ℕ BlockMetaData

abbrev pub make_evictor : LruEvictor
make_evictor = record { free_table = [] }

abbrev pub holds_block : ℕ → LruEvictor → Bool
holds_block block_id s = contains block_id s.free_table

-- Whether `block` takes the place of `evicted_block` in the scan.
abbrev pub precedes : BlockMetaData → BlockMetaData → Bool
precedes evicted_block block =
    ltb block.last_accessed evicted_block.last_accessed
    || (nat_beq evicted_block.last_accessed block.last_accessed
        && ltb evicted_block.num_hashed_tokens block.num_hashed_tokens)

abbrev pub scan : Dict ℕ BlockMetaData → ℕ × BlockMetaData → ℕ × BlockMetaData
scan [] evicted = evicted
scan ((block_id, block) ∷ items) evicted =
    scan items (if precedes (evicted.1) block then (block_id, block) else evicted)

take_out : Dict ℕ BlockMetaData → Exec LruEvictor (ℕ × ℕ)
take_out [] s = (err value_error, s)
take_out (first ∷ items) s =
    let evicted = scan (first ∷ items) first in
    (
      ok (evicted.0, (evicted.1).content_hash),
      record s { free_table = remove (evicted.0) s.free_table },
    )

unfoldable pub evict : Exec LruEvictor (ℕ × ℕ)
unfolding take_out
evict s = take_out s.free_table s

unfoldable pub add : ℕ → ℕ → ℕ → ℕ → Exec LruEvictor (Unit {0})
add block_id content_hash num_hashed_tokens last_accessed = modify λ s. record s {
  free_table =
      put block_id
        (record {
          content_hash = content_hash;
          num_hashed_tokens = num_hashed_tokens;
          last_accessed = last_accessed;
        })
        s.free_table;
}

unfoldable pub update : ℕ → ℕ → Exec LruEvictor (Unit {0})
update block_id last_accessed s =
    (do
      block ← or_raise key_error (get block_id s.free_table)
      modify λ s'. record s' {
        free_table = put block_id (record block { last_accessed = last_accessed }) s'.free_table;
      })
      s

unfoldable pub remove_block : ℕ → Exec LruEvictor (Unit {0})
remove_block block_id s =
    (do
      raise_if (not (contains block_id s.free_table)) value_error
      modify λ s'. record s' { free_table = remove block_id s'.free_table })
      s

abbrev pub num_blocks : LruEvictor → ℕ
num_blocks s = length s.free_table
