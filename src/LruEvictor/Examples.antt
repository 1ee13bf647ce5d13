-- ===== src/LruEvictor/Examples.antt =====
-- Three blocks; 4 and 9 were last accessed at the same time.
use e_llm.Prelude.{ℕ, suc, ◌≡◌, refl, nat_eq, some}
use e_llm.Dict.{get, contains, put, remove}
use e_llm.Exec.{ok}
use e_llm.LruEvictor.{BlockMetaData, LruEvictor, make_evictor, add, evict, num_blocks}
use e_llm.LruEvictor.Order.{NotAfter, evict-least_recent}

abbrev three_blocks : LruEvictor
three_blocks = (add 9 70 16 5 ((add 4 71 32 5 ((add 2 72 16 6 make_evictor).1)).1)).1

abbrev latest : BlockMetaData
latest = record { content_hash = 72; num_hashed_tokens = 16; last_accessed = 6 }

latest_there : get 2 three_blocks.free_table ≡ some latest
unfolding get put add
latest_there = refl

evict-least_recent_example :
    (i : ℕ) × (b : BlockMetaData) × (evict three_blocks ≡ (
      ok (i, b.content_hash),
      record three_blocks { free_table = remove i three_blocks.free_table },
    ))
    × (get i three_blocks.free_table ≡ some b)
    × NotAfter b latest
    × (num_blocks three_blocks ≡ suc (num_blocks ((evict three_blocks).1)))
unfolding contains put add
evict-least_recent_example =
    evict-least_recent three_blocks 2 latest (refl, (refl, (refl, tt))) latest_there
