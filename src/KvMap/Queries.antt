-- ===== src/KvMap/Queries.antt =====
-- The getters of `TokenLayerKVMap` that the block manager reads.
use e_llm.Prelude.{ℕ, ◌*◌, length, get_elem?, nat_eq}
use e_llm.Dict.{get}
use e_llm.Exec.{Exec, pure, or_raise, ◌>>=◌, key_error, index_error}
use e_llm.KvMap.{TokenLayerKvMap}

unfoldable pub get_num_evicted_tokens : ℕ → Exec TokenLayerKvMap ℕ
get_num_evicted_tokens seq s =
    (do prefix ← or_raise key_error (get seq s.evicted_prefix_blocks); pure (prefix * s.block_size))
      s

unfoldable pub get_sequence_length : ℕ → Exec TokenLayerKvMap ℕ
get_sequence_length seq s = or_raise key_error (get seq s.sequence_lengths) s

unfoldable pub get_num_free_blocks : ℕ → Exec TokenLayerKvMap ℕ
get_num_free_blocks g s =
    (do blocks ← or_raise index_error (get_elem? s.free_blocks g); pure (length blocks)) s
