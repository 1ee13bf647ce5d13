-- ===== src/BlockTable.antt =====
-- vllm/core/block/block_table.py: the blocks of one sequence, over a device-aware block allocator.
pub mod Chunks
pub mod Contents
pub mod Allocates
pub mod Appends
pub mod Tables
pub mod Traces
pub mod Touched
mod Examples
use e_llm.Prelude.{
  ℕ, zero, suc, ◌+◌, ◌-◌, ◌*◌, ◌/◌, ◌%◌, ◌≡◌, Bool, true, false, not, Option, none, some, List, [],
  ◌∷◌, ◌++◌, length, take, drop, replicate, ltb, leb, nat_beq, if◌then◌else◌,
}
use e_llm.Exec.{Exec, ok, pure, raise, gets, modify, raise_if, ◌>>=◌, ◌>>◌, assertion_error}
use e_llm.KvMap.{ceil_div}

pub data Device : Type 0 where
  gpu cpu : Device

-- The methods of vllm/core/block/interfaces.py that a block table calls. `Block` is a block as a
-- value; the blocks before a new one, which it refers to, are a list.
pub record BlockAllocator (S Block : Type 0) : Type 0 where
  pub allocate_mutable : List Block → Device → Exec S Block
  pub allocate_immutable : List Block → List ℕ → Device → Exec S Block
  -- Block.append_token_ids
  pub append_token_ids : Block → List ℕ → Exec S Block
  pub free : Block → Exec S (Unit {0})
  -- The block at the end of the list and those before it.
  pub fork : List Block → Exec S (List Block)
  pub token_ids : Block → List ℕ
  pub block_id : Block → Option ℕ

pub record BlockTable (Block : Type 0) : Type 0 where
  pub block_size : ℕ
  pub blocks : List Block
  pub num_full_slots : ℕ

-- A table, and the allocator's state.
pub record Tabled (S Block : Type 0) : Type 0 where
  pub table : BlockTable Block
  pub allocator : S

-- vllm/utils.py: chunk_list, whose chunks are at most as many as the elements.
abbrev pub chunks_of : ℕ → ℕ → List ℕ → List (List ℕ)
chunks_of zero size xs = []
chunks_of (suc fuel) size [] = []
chunks_of (suc fuel) size (x ∷ xs) = take size (x ∷ xs) ∷ chunks_of fuel size (drop size (x ∷ xs))

abbrev pub chunk_list : List ℕ → ℕ → List (List ℕ)
chunk_list xs size = chunks_of (length xs) size xs

abbrev pub get_num_required_blocks : List ℕ → ℕ → ℕ
get_num_required_blocks token_ids block_size = ceil_div (length token_ids) block_size

abbrev pub no_blocks : {Block : Type 0} → List Block → Bool
no_blocks [] = true
no_blocks (_ ∷ _) = false

module _ {Block : Type 0} where
  abbrev pub num_empty_slots : BlockTable Block → ℕ
  num_empty_slots t = length t.blocks * t.block_size - t.num_full_slots

  abbrev pub get_unseen_token_ids : BlockTable Block → List ℕ → List ℕ
  get_unseen_token_ids t sequence_token_ids = drop t.num_full_slots sequence_token_ids

  -- The room in the first block that is not full.
  abbrev pub first_chunk_size : BlockTable Block → ℕ
  first_chunk_size t = t.block_size - t.num_full_slots % t.block_size

  abbrev pub chunk_token_blocks_for_append : BlockTable Block → List ℕ → List (List ℕ)
  chunk_token_blocks_for_append t token_ids =
      take (first_chunk_size t) token_ids
      ∷ chunk_list (drop (first_chunk_size t) token_ids) t.block_size

  -- The placeholder of a slot to come is -1 in the source; only the count matters.
  abbrev pub get_num_blocks_touched_by_append_slots : BlockTable Block → List ℕ → ℕ → ℕ
  get_num_blocks_touched_by_append_slots t token_ids num_lookahead_slots =
      length (chunk_token_blocks_for_append t (token_ids ++ replicate num_lookahead_slots 0))

module _ {S Block : Type 0} (methods : BlockAllocator S Block) where
  abbrev pub on_allocator : {A : Type 0} → Exec S A → Exec (Tabled S Block) A
  on_allocator call s = let (r, a) = call s.allocator in (r, record s { allocator = a })

  -- One block for a chunk: immutable when it is full.
  unfoldable pub allocate_chunk : ℕ → List Block → List ℕ → Device → Exec S Block
  allocate_chunk block_size before chunk device =
      if nat_beq (length chunk) block_size
      then methods.allocate_immutable before chunk device
      else (do block ← methods.allocate_mutable before device; methods.append_token_ids block chunk)

  unfoldable pub allocate_chunks : ℕ → List Block → List (List ℕ) → Device → Exec S (List Block)
  unfolding allocate_chunk
  allocate_chunks block_size blocks [] device = pure blocks
  allocate_chunks block_size blocks (chunk ∷ chunks) device = do
    block ← allocate_chunk block_size blocks chunk device
    allocate_chunks block_size (blocks ++ block ∷ []) chunks device

  -- _allocate_blocks_for_token_ids, without a block before the first one.
  unfoldable pub allocate_blocks_for_token_ids : ℕ → List ℕ → Device → Exec S (List Block)
  unfolding allocate_chunks
  allocate_blocks_for_token_ids block_size token_ids device =
      allocate_chunks block_size [] (chunk_list token_ids block_size) device

  unfoldable pub allocate_table : List ℕ → Device → Exec (Tabled S Block) (Unit {0})
  unfolding allocate_blocks_for_token_ids
  allocate_table token_ids device s =
      (do
        raise_if (not (no_blocks s.table.blocks)) assertion_error
        raise_if (nat_beq (length token_ids) 0) assertion_error
        blocks ← on_allocator (allocate_blocks_for_token_ids s.table.block_size token_ids device)
        modify λ s'. record s' {
          table = record s'.table { blocks = blocks; num_full_slots = length token_ids };
        })
        s

  abbrev pub push_block : Block → Tabled S Block → Tabled S Block
  push_block block s = record s { table = record s.table { blocks = s.table.blocks ++ block ∷ [] } }

  unfoldable pub add_blocks : ℕ → Exec (Tabled S Block) (Unit {0})
  add_blocks zero s = (ok tt, s)
  add_blocks (suc n) s =
      (do
        raise_if (no_blocks s.table.blocks) assertion_error
        block ← on_allocator (methods.allocate_mutable s.table.blocks gpu)
        modify (push_block block)
        add_blocks n)
        s

  unfoldable pub ensure_num_empty_slots : ℕ → Exec (Tabled S Block) (Unit {0})
  unfolding add_blocks
  ensure_num_empty_slots num_slots s =
      (do
        raise_if (no_blocks s.table.blocks) assertion_error
        if leb num_slots (num_empty_slots s.table)
            then pure tt
            else (add_blocks (ceil_div (num_slots - num_empty_slots s.table) s.table.block_size)))
        s

  -- for block, token_block in zip(blocks, token_blocks): the blocks afterwards.
  unfoldable pub append_each : List Block → List (List ℕ) → Exec S (List Block)
  append_each [] token_blocks = pure []
  append_each (block ∷ blocks) [] = pure (block ∷ blocks)
  append_each (block ∷ blocks) (chunk ∷ chunks) = do
    block' ← methods.append_token_ids block chunk
    rest ← append_each blocks chunks
    pure (block' ∷ rest)

  -- What follows once there are slots for the tokens.
  unfoldable pub append_ensured : List ℕ → Exec (Tabled S Block) (Unit {0})
  unfolding append_each
  append_ensured token_ids s =
      let full : ℕ = s.table.num_full_slots / s.table.block_size in
      (do
        changed ← on_allocator (
            append_each (drop full s.table.blocks)
              (chunk_token_blocks_for_append s.table token_ids))
        modify λ s'. record s' {
          table = record s'.table {
            blocks = take full s'.table.blocks ++ changed;
            num_full_slots = s'.table.num_full_slots + length token_ids;
          };
        })
        s

  unfoldable pub append_to_table : List ℕ → ℕ → Exec (Tabled S Block) (Unit {0})
  unfolding ensure_num_empty_slots append_ensured
  append_to_table token_ids num_lookahead_slots s =
      (do
        raise_if (no_blocks s.table.blocks) assertion_error
        ensure_num_empty_slots (length token_ids + num_lookahead_slots)
        append_ensured token_ids)
        s

  abbrev pub tokens_in : List Block → List ℕ
  tokens_in [] = []
  tokens_in (block ∷ blocks) = methods.token_ids block ++ tokens_in blocks

  -- The constructor, given blocks.
  abbrev pub new_table : ℕ → List Block → BlockTable Block
  new_table block_size blocks = record {
    block_size = block_size;
    blocks = blocks;
    num_full_slots = length (tokens_in blocks);
  }

  unfoldable pub fork_table : Exec (Tabled S Block) (BlockTable Block)
  fork_table s =
      (do
        raise_if (no_blocks s.table.blocks) assertion_error
        forked ← on_allocator (methods.fork s.table.blocks)
        pure (new_table s.table.block_size forked))
        s

  unfoldable pub free_each : List Block → Exec S (Unit {0})
  free_each [] = pure tt
  free_each (block ∷ blocks) = do methods.free block; free_each blocks

  unfoldable pub free_blocks : Exec (Tabled S Block) (Unit {0})
  unfolding free_each
  free_blocks s =
      (do
        raise_if (no_blocks s.table.blocks) assertion_error
        on_allocator (free_each s.table.blocks)
        modify λ s'. record s' { table = record s'.table { blocks = [] } })
        s

  abbrev pub ids_in : List Block → List (Option ℕ)
  ids_in [] = []
  ids_in (block ∷ blocks) = methods.block_id block ∷ ids_in blocks

  unfoldable pub physical_block_ids : Exec (Tabled S Block) (List (Option ℕ))
  physical_block_ids s =
      (do raise_if (no_blocks s.table.blocks) assertion_error; pure (ids_in s.table.blocks)) s
