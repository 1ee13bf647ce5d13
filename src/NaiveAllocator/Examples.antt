-- ===== src/NaiveAllocator/Examples.antt =====
-- An allocator of three blocks of two tokens; the iteration starts at the second free block.
use e_llm.Prelude.{ℕ, ◌≡◌, refl, List, [], nat_eq, some, none, ltb, count, if◌then◌else◌, arith}
use e_llm.Dict.{get, put}
use e_llm.Exec.{ok}
use e_llm.NaiveAllocator.{
  Allocator, Chain, new_allocator, allocate_new_block_id, allocate_mutable, incr, refcount, fork,
  all_blocks, get_num_total_blocks, get_num_free_blocks,
}
use e_llm.NaiveAllocator.Books.{
  AllReferenced, Call, after_call, after_call-IsBalanced, Forks, fork-counts, new_allocator-free,
  new_allocator-IsBalanced,
}
use e_llm.NaiveAllocator.Balance.{IsBalanced}

abbrev second : List ℕ → ℕ
second ids = 1

abbrev fresh : Allocator
fresh = new_allocator 3 2

new_allocator-free_example :
    (get_num_total_blocks fresh ≡ 3)
    × (get_num_free_blocks fresh ≡ 3)
    × (get 2 fresh.refcounts ≡ (if ltb 2 3 then some 0 else none))
    × (count 2 fresh.free_block_indices ≡ (if ltb 2 3 then 1 else 0))
new_allocator-free_example = new_allocator-free 3 2 2

abbrev used : Allocator
used = after_call second Call.mutable fresh

after_call-IsBalanced_example : IsBalanced used
after_call-IsBalanced_example =
    after_call-IsBalanced second Call.mutable fresh (new_allocator-IsBalanced 3 2)

used-IsBalanced : IsBalanced used
used-IsBalanced = after_call-IsBalanced second Call.mutable fresh (new_allocator-IsBalanced 3 2)

abbrev one_block : Chain
one_block = Chain.after Chain.start (record { token_ids = []; block_size = 2; block_id = some 1 })

referenced : AllReferenced (all_blocks one_block) used
unfolding new_allocator allocate_mutable allocate_new_block_id incr refcount get put
referenced = ((1, 0, refl, refl, omega arith), tt)

fork-counts_example :
    (chain : Chain) × (s' : Allocator) × (fork one_block used ≡ (ok chain, s'))
    × Forks used (all_blocks one_block) (all_blocks chain) s'
fork-counts_example = fork-counts one_block used used-IsBalanced referenced
