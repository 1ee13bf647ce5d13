-- ===== src/NaiveAllocator.antt =====
-- vllm/core/block/common.py (`RefCounter`, `CopyOnWriteTracker`) and naive_block.py
-- (`NaiveBlockAllocator`, `NaiveBlock`). The set of free ids is a list; `position` says where the
-- iteration over a set starts, which Python leaves open.
pub mod Balance
pub mod Books
pub mod Blocks
mod Examples
use e_llm.Prelude.{
  ℕ, zero, suc, ◌+◌, ◌-◌, ◌%◌, ◌≡◌, Bool, true, false, not, Option, none, some, List, [], ◌∷◌, ◌++◌,
  length, get_elem?, range, nat_beq, leb, ltb, nat_eq, if◌then◌else◌,
}
use e_llm.Dict.{Dict, get, contains, put}
use e_llm.Exec.{
  Exec, Result, ok, err, pure, raise, raise_if, modify, or_raise, ◌>>=◌, ◌>>◌, assertion_error,
  no_free_blocks,
}

-- RefCounter._refcounts, NaiveBlockAllocator._free_block_indices, CopyOnWriteTracker._copy_on_writes
pub record Allocator : Type 0 where
  pub refcounts : Dict ℕ ℕ
  pub free_block_indices : List ℕ
  pub copy_on_writes : List (ℕ × ℕ)
  pub block_size : ℕ

pub record NaiveBlock : Type 0 where
  pub token_ids : List ℕ
  pub block_size : ℕ
  pub block_id : Option ℕ

-- A block after the block before it.
pub data Chain : Type 0 where
  start : Chain
  after : (prev_block : Chain) (block : NaiveBlock) → Chain

abbrev pub zeros : List ℕ → Dict ℕ ℕ
zeros [] = []
zeros (i ∷ ids) = (i, 0) ∷ zeros ids

-- With the ids of its blocks, which are different.
abbrev pub allocator_of : List ℕ → ℕ → Allocator
allocator_of block_ids block_size = record {
  refcounts = zeros block_ids;
  free_block_indices = block_ids;
  copy_on_writes = [];
  block_size = block_size;
}

-- Without `block_ids`, for ids 0 to num_blocks - 1.
unfoldable pub new_allocator : ℕ → ℕ → Allocator
new_allocator num_blocks block_size = allocator_of (range 0 num_blocks) block_size

-- RefCounter.get
unfoldable pub refcount : ℕ → Exec Allocator ℕ
refcount block_id s = or_raise assertion_error (get block_id s.refcounts) s

abbrev pub set_refcount : ℕ → ℕ → Allocator → Allocator
set_refcount block_id n s = record s { refcounts = put block_id n s.refcounts }

unfoldable pub incr : ℕ → Exec Allocator ℕ
unfolding refcount
incr block_id = do n ← refcount block_id; modify (set_refcount block_id (n + 1)); pure (n + 1)

decr_from : ℕ → ℕ → Exec Allocator ℕ
decr_from block_id zero = raise assertion_error
decr_from block_id (suc n) = do modify (set_refcount block_id n); pure n

unfoldable pub decr : ℕ → Exec Allocator ℕ
unfolding refcount decr_from
decr block_id = do n ← refcount block_id; decr_from block_id n

-- set.remove of an id that is there
abbrev pub without : ℕ → List ℕ → List ℕ
without i [] = []
without i (j ∷ ids) = let rest = without i ids in if nat_beq j i then ids else j ∷ rest

abbrev pub has_id : ℕ → List ℕ → Bool
has_id i [] = false
has_id i (j ∷ ids) = let rest = has_id i ids in if nat_beq j i then true else rest

-- set.add
abbrev pub with_id : ℕ → List ℕ → List ℕ
with_id i ids = if has_id i ids then ids else ids ++ i ∷ []

abbrev pub free_if_zero : ℕ → ℕ → Allocator → Allocator
free_if_zero block_id zero s = record s {
  free_block_indices = with_id block_id s.free_block_indices;
}
free_if_zero block_id (suc n) s = s

-- _free_block_id
unfoldable pub free_block_id : ℕ → Exec Allocator (Unit {0})
unfolding decr
free_block_id block_id = do n ← decr block_id; modify (free_if_zero block_id n)

unfoldable pub free : NaiveBlock → Exec Allocator NaiveBlock
unfolding free_block_id
free block = do
  block_id ← or_raise assertion_error block.block_id
  free_block_id block_id
  pure (record block { block_id = none })

abbrev pub get_num_free_blocks : Allocator → ℕ
get_num_free_blocks s = length s.free_block_indices

abbrev pub get_num_total_blocks : Allocator → ℕ
get_num_total_blocks s = length s.refcounts

module _ (position : List ℕ → ℕ) where
  -- _allocate_new_block_id
  unfoldable pub allocate_new_block_id : Exec Allocator ℕ
  unfolding incr
  allocate_new_block_id s =
      (do
        block_id ← or_raise no_free_blocks (
            get_elem? s.free_block_indices
              (position s.free_block_indices % length s.free_block_indices))
        counted ← incr block_id
        modify λ s'. record s' { free_block_indices = without block_id s'.free_block_indices }
        pure block_id)
        s

  -- The block itself; its predecessor is its place in a chain.
  unfoldable pub allocate_mutable : Exec Allocator NaiveBlock
  unfolding allocate_new_block_id
  allocate_mutable s =
      (do
        block_id ← allocate_new_block_id
        pure (record { token_ids = []; block_size = s.block_size; block_id = some block_id }))
        s

  copy_if_shared : NaiveBlock → ℕ → ℕ → Exec Allocator ℕ
  copy_if_shared block src n =
      if ltb 1 n
      then (do
        freed ← free block
        dst ← allocate_new_block_id
        modify λ s. record s { copy_on_writes = s.copy_on_writes ++ (src, dst) ∷ [] }
        pure dst)
      else pure src

  cow_id : NaiveBlock → Option ℕ → Exec Allocator (Option ℕ)
  cow_id block none = pure none
  cow_id block (some src) = do
    n ← refcount src
    raise_if (nat_beq n 0) assertion_error
    dst ← copy_if_shared block src n
    pure (some dst)

  -- The id that the block has afterwards.
  unfoldable pub cow_block_if_not_appendable : NaiveBlock → Exec Allocator (Option ℕ)
  unfolding cow_id copy_if_shared
  cow_block_if_not_appendable block = cow_id block block.block_id

  unfoldable pub append_token_ids : List ℕ → NaiveBlock → Exec Allocator NaiveBlock
  unfolding cow_block_if_not_appendable
  append_token_ids token_ids block = do
    raise_if (ltb (block.block_size - length block.token_ids) (length token_ids)) assertion_error
    let longer : NaiveBlock = record block { token_ids = block.token_ids ++ token_ids }
    block_id ← cow_block_if_not_appendable longer
    pure (record longer { block_id = block_id })

  unfoldable pub allocate_immutable : List ℕ → Exec Allocator NaiveBlock
  unfolding allocate_mutable append_token_ids
  allocate_immutable token_ids = do block ← allocate_mutable; append_token_ids token_ids block

-- get_all_blocks_recursively
abbrev pub all_blocks : Chain → List NaiveBlock
all_blocks start = []
all_blocks (after prev_block block) = all_blocks prev_block ++ block ∷ []

-- The loop over the source blocks.
unfoldable pub fork_all : List NaiveBlock → Chain → Exec Allocator Chain
unfolding incr
fork_all [] prev_block = pure prev_block
fork_all (block ∷ blocks) prev_block = do
  block_id ← or_raise assertion_error block.block_id
  n ← incr block_id
  raise_if (nat_beq n 1) assertion_error
  size ← λ s. (ok s.block_size, s)
  raise_if (ltb size (length block.token_ids)) assertion_error
  fork_all blocks (
      after prev_block
        (record { token_ids = block.token_ids; block_size = size; block_id = some block_id }))

unfoldable pub fork : Chain → Exec Allocator Chain
unfolding fork_all
fork last_block = fork_all (all_blocks last_block) start

unfoldable pub clear_copy_on_writes : Exec Allocator (List (ℕ × ℕ))
clear_copy_on_writes s = (ok s.copy_on_writes, record s { copy_on_writes = [] })
