-- ===== src/BlockTable/Touched.antt =====
-- How many blocks an append touches: `get_num_blocks_touched_by_append_slots`.
use e_llm.Prelude.{
  ℕ, suc, ◌+◌, ◌-◌, ◌*◌, ◌/◌, ◌%◌, ◌≤◌, ◌<◌, ◌≡◌, ap, ◌∙◌, List, ◌++◌, length, length-append,
  length-replicate, drop, replicate, leb, Bool-cases, inl, inr, arith,
}
use native.Mathlib.Nat.{div-add-mod', mul-add-div_right, div-eq_of_lt, mod-lt}
use e_llm.KvMap.{ceil_div}
use e_llm.BlockTable.{
  BlockTable, first_chunk_size, chunk_token_blocks_for_append,
  get_num_blocks_touched_by_append_slots,
}
use e_llm.BlockTable.Chunks.{length-drop, length-chunks_of, ceil_div-zero}

-- A slot that lies j slots after the start of block q.
slot_in_block : (size q j slot : ℕ) → 0 < size → slot ≡ q * size + j → slot / size ≡ q + j / size
slot_in_block size q j slot pos at = ap (λ k. k / size) at ∙ mul-add-div_right pos q j

ceil_div-suc_div : (m size : ℕ) → 0 < size → ceil_div (suc m) size ≡ suc (m / size)
ceil_div-suc_div m size pos =
    slot_in_block size 1 m (suc m + size - 1) pos (omega arith) ∙ omega arith

-- The last of n + 1 new slots, when they end in the block of the first.
within_block :
    (size full n : ℕ) → 0 < size → suc n ≤ size - full % size → (full + n) / size ≡ full / size
within_block size full n pos fits =
    slot_in_block size (full / size) (full % size + n) (full + n) pos
      (omega (arith, div-add-mod' full size))
    ∙ ap (λ k. full / size + k) (div-eq_of_lt (omega (arith, fits)))
    ∙ omega arith

-- The last new slot, m slots after those that end the block of the first.
past_block :
    (size full n m : ℕ)
    → 0 < size
    → n ≡ (size - full % size) + m
    → (full + n) / size ≡ suc (full / size + m / size)
past_block size full n m pos beyond =
    slot_in_block size (suc (full / size)) m (full + n) pos
      (grind (arith, div-add-mod' full size, mod-lt full pos, beyond))
    ∙ omega arith

-- The chunk of the first block, and a chunk for each block after it.
chunks-between :
    (size full n : ℕ)
    → 0 < size
    → suc (ceil_div (suc n - (size - full % size)) size) + full / size ≡ suc ((full + n) / size)
chunks-between size full n pos = elim (Bool-cases (leb (suc n) (size - full % size))) [
  | inl fits ↦
      let none : suc n - (size - full % size) ≡ 0 = ground (arith, fits) in
      ap (λ k. suc (ceil_div k size) + full / size) none
      ∙ omega (arith, ceil_div-zero size pos, within_block size full n pos (ground (arith, fits)))
  | inr beyond ↦
      let m : ℕ = n - (size - full % size) in
      let some : suc n - (size - full % size) ≡ suc m = ground (arith, beyond) in
      ap (λ k. suc (ceil_div k size) + full / size) some
      ∙ omega (
        arith,
        ceil_div-suc_div m size pos,
        past_block size full n m pos (ground (arith, beyond)),
      )
]

module _ {Block : Type 0} where
  length-chunks :
      (t : BlockTable Block) (new : List ℕ)
      → 0 < t.block_size
      → length (chunk_token_blocks_for_append t new)
        ≡ suc (ceil_div (length new - first_chunk_size t) t.block_size)
  length-chunks t new pos =
      let rest : List ℕ = drop (first_chunk_size t) new in
      ap suc (
        length-chunks_of (length rest) t.block_size rest pos (omega arith)
        ∙ ap (λ n. ceil_div n t.block_size) (length-drop (first_chunk_size t) new))

  -- With a positive block size, the blocks that an append of tokens and of slots to look ahead touches,
  -- if there is a slot to add, are those from the block of the first new slot to the block of the last:
  -- the count of the chunks is one more than the difference of their indices.
  pub blocks_touched-between :
      (t : BlockTable Block) (tokens : List ℕ) (num_lookahead_slots : ℕ)
      → 0 < t.block_size
      → 0 < length tokens + num_lookahead_slots
      → get_num_blocks_touched_by_append_slots t tokens num_lookahead_slots
          + t.num_full_slots / t.block_size
        ≡ suc ((t.num_full_slots + (length tokens + num_lookahead_slots - 1)) / t.block_size)
  blocks_touched-between t tokens num_lookahead_slots pos some =
      let new : List ℕ = tokens ++ replicate num_lookahead_slots 0 in
      let count : length new ≡ suc (length tokens + num_lookahead_slots - 1) = omega (
        arith,
        length-append tokens (replicate num_lookahead_slots 0),
        length-replicate {A = ℕ} num_lookahead_slots 0,
        some,
      ) in
      ap (λ k. k + t.num_full_slots / t.block_size)
        (length-chunks t new pos
          ∙ ap (λ k. suc (ceil_div (k - first_chunk_size t) t.block_size)) count)
      ∙ chunks-between t.block_size t.num_full_slots (length tokens + num_lookahead_slots - 1) pos
