-- ===== src/KvMap/Blocks.antt =====
-- Physical blocks: `_allocate_block`, `_retain_block`, `_free_block`, and the two loops that the
-- allocating methods share: a `try` that reserves a block for each key, and its `except`.
use e_llm.Prelude.{
  ℕ, zero, suc, ◌+◌, Option, some, none, List, [], ◌∷◌, ◌++◌, get_elem?, set, get_or,
}
use e_llm.Dict.{get, put, remove}
use e_llm.Exec.{
  Exec, ok, err, pure, modify, or_raise, guarded, ◌>>=◌, ◌>>◌, runtime_error, value_error,
  key_error, index_error,
}
use e_llm.KvMap.{Key, KvMapEntry, TokenLayerKvMap, Table, table, set_table, key_eq}

-- self._block_ref_counts[layer_group][physical_block_id]
unfoldable pub ref_count : ℕ → ℕ → Exec TokenLayerKvMap ℕ
ref_count layer_group block = do
  row ← λ s. or_raise index_error (get_elem? s.block_ref_counts layer_group) s
  or_raise index_error (get_elem? row block)

-- self._block_ref_counts[layer_group][physical_block_id] = n
unfoldable pub set_ref_count : ℕ → ℕ → ℕ → TokenLayerKvMap → TokenLayerKvMap
set_ref_count layer_group block n s = record s {
  block_ref_counts =
      set s.block_ref_counts layer_group (set (get_or s.block_ref_counts layer_group []) block n);
}

claim : ℕ → ℕ → ℕ → Exec TokenLayerKvMap ℕ
claim layer_group block zero s = (ok block, set_ref_count layer_group block 1 s)
claim layer_group block (suc n) s = (err runtime_error, s)

-- The free list is popped before the reference count is looked at.
take_front : ℕ → Option (List ℕ) → Exec TokenLayerKvMap ℕ
take_front layer_group none s = (err runtime_error, s)
take_front layer_group (some []) s = (err runtime_error, s)
take_front layer_group (some (block ∷ rest)) s =
    (ref_count layer_group block >>= claim layer_group block)
      (record s { free_blocks = set s.free_blocks layer_group rest })

unfoldable pub allocate_block : ℕ → Exec TokenLayerKvMap ℕ
unfolding ref_count set_ref_count claim take_front
allocate_block layer_group s = take_front layer_group (get_elem? s.free_blocks layer_group) s

bump : ℕ → ℕ → ℕ → Exec TokenLayerKvMap (Unit {0})
bump layer_group block zero s = (err value_error, s)
bump layer_group block (suc n) s = (ok tt, set_ref_count layer_group block (suc n + 1) s)

unfoldable pub retain_block : ℕ → ℕ → Exec TokenLayerKvMap (Unit {0})
unfolding ref_count set_ref_count bump
retain_block layer_group block = do n ← ref_count layer_group block; bump layer_group block n

drop_one : ℕ → ℕ → ℕ → Exec TokenLayerKvMap (Unit {0})
drop_one layer_group block zero s = (err value_error, s)
drop_one layer_group block (suc zero) s =
    let s' = set_ref_count layer_group block 0 s in
    (
      ok tt,
      record s' {
        free_blocks =
            set s'.free_blocks layer_group (get_or s'.free_blocks layer_group [] ++ block ∷ []);
      },
    )
drop_one layer_group block (suc (suc n)) s = (ok tt, set_ref_count layer_group block (suc n) s)

unfoldable pub free_block : ℕ → ℕ → Exec TokenLayerKvMap (Unit {0})
unfolding ref_count set_ref_count drop_one
free_block layer_group block = do n ← ref_count layer_group block; drop_one layer_group block n

-- entries[key] = entry
unfoldable pub put_entry : Table → Key → KvMapEntry → TokenLayerKvMap → TokenLayerKvMap
unfolding table set_table
put_entry t key entry s = set_table t (put key entry (table t s)) s

-- entries[key]
unfoldable pub read_entry : Table → Key → Exec TokenLayerKvMap KvMapEntry
unfolding table
read_entry t key s = or_raise key_error (get key (table t s)) s

unfoldable pub drop_entry : Table → Key → TokenLayerKvMap → TokenLayerKvMap
unfolding table set_table
drop_entry t key s = set_table t (remove key (table t s)) s

-- entry = entries.pop(key); self._free_block(key[2], entry.physical_block_id)
unfoldable pub pop_and_free : Table → Key → Exec TokenLayerKvMap (Unit {0})
unfolding read_entry drop_entry
pop_and_free t key = do
  entry ← read_entry t key
  modify (drop_entry t key)
  free_block key.group entry.physical_block_id

-- for key in keys: ...
unfoldable pub pop_and_free_all : Table → List Key → Exec TokenLayerKvMap (Unit {0})
pop_and_free_all t [] = pure tt
pop_and_free_all t (key ∷ keys) = do pop_and_free t key; pop_and_free_all t keys

-- for key in keys: reserve a block and enter it, and note the key in `allocated`; the `except`
-- clause takes the noted keys back and raises again.
unfoldable pub reserve :
    Table → (Key → ℕ → KvMapEntry) → List Key → List Key → Exec TokenLayerKvMap (Unit {0})
reserve t make [] allocated = pure tt
reserve t make (key ∷ keys) allocated = do
  block ← guarded (allocate_block key.group) (pop_and_free_all t allocated)
  modify (put_entry t key (make key block))
  reserve t make keys (allocated ++ key ∷ [])
