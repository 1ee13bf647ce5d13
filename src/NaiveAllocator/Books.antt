-- ===== src/NaiveAllocator/Books.antt =====
-- The free set is made of exactly the blocks with reference count 0.
use mathlib.Core.List.{append_assoc, append-nil}
use e_llm.Prelude.{
  length-range, ap, subst, ◌≤◌, Option, none, ◌++◌, length, count, ℕ, zero, suc, ◌+◌, ◌≡◌, refl,
  sym, ◌∙◌, false, some, List, [], ◌∷◌, arith, count-range, range, nat_beq, nat_eq, ltb,
  if◌then◌else◌, inl, inr, Bool-cases,
}
use e_llm.Dict.{get, put}
use e_llm.Dict.Laws.{get-put}
use e_llm.Exec.{ok}
use e_llm.NaiveAllocator.{
  Allocator, NaiveBlock, Chain, zeros, allocator_of, new_allocator, refcount, set_refcount, incr,
  free, allocate_mutable, append_token_ids, allocate_immutable, fork_all, fork, all_blocks,
  get_num_total_blocks, get_num_free_blocks,
}
use e_llm.NaiveAllocator.Balance.{
  unused, IsBalanced, put-IsBalanced, free-IsBalanced, append-IsBalanced, mutable-IsBalanced,
  immutable-IsBalanced,
}

-- Every block has an id with a positive reference count, and fits a block of the allocator.
abbrev pub AllReferenced : List NaiveBlock → Allocator → Type 0
AllReferenced [] s = Unit {0}
AllReferenced (block ∷ blocks) s =
    ((i : ℕ) × (n : ℕ) × (block.block_id ≡ some i)
      × (get i s.refcounts ≡ some (suc n))
      × (length block.token_ids ≤ s.block_size))
    × AllReferenced blocks s

abbrev names : ℕ → Option ℕ → ℕ
names i none = 0
names i (some j) = if nat_beq j i then 1 else 0

-- How many of the blocks have an id.
abbrev pub references : ℕ → List NaiveBlock → ℕ
references i [] = 0
references i (block ∷ blocks) = names i block.block_id + references i blocks

abbrev pub raised : Option ℕ → ℕ → Option ℕ
raised none k = none
raised (some n) k = some (n + k)

-- The blocks with the allocator's size.
abbrev pub copies : ℕ → List NaiveBlock → List NaiveBlock
copies size [] = []
copies size (block ∷ blocks) = record block { block_size = size } ∷ copies size blocks

AllReferenced-incr :
    (blocks : List NaiveBlock) (i n : ℕ) (s : Allocator)
    → AllReferenced blocks s
    → AllReferenced blocks (set_refcount i (suc n) s)
AllReferenced-incr [] i n s all = tt
AllReferenced-incr (block ∷ blocks) i n s ((j, m, id_set, known, fits), all) =
    let rest = AllReferenced-incr blocks i n s all in
    elim (Bool-cases (nat_beq i j)) [
      | inl hit ↦ ((j, n, id_set, get-put i j (suc n) s.refcounts ∙ rw hit refl, fits), rest)
      | inr miss ↦ ((j, m, id_set, get-put i j (suc n) s.refcounts ∙ rw miss known, fits), rest)
    ]

raised-zero : (o : Option ℕ) → o ≡ raised o 0
raised-zero none = refl
raised-zero (some n) = ap some (omega arith)

-- One reference more for the first block, then those of the others.
raised-put :
    (i j n k : ℕ) (s : Allocator)
    → get i s.refcounts ≡ some (suc n)
    → raised (get j (put i (suc (suc n)) s.refcounts)) k
      ≡ raised (get j s.refcounts) (names j (some i) + k)
raised-put i j n k s known = elim (Bool-cases (nat_beq i j)) [
  | inl hit ↦
      let same : i ≡ j = ground arith in
      let there : get j s.refcounts ≡ some (suc n) =
        subst (λ (x : ℕ). get x s.refcounts ≡ some (suc n)) same known in
      rw (get-put i j (suc (suc n)) s.refcounts) (rw hit (rw there (ap some (omega arith))))
  | inr miss ↦
      rw (get-put i j (suc (suc n)) s.refcounts)
        (rw miss (ap (raised (get j s.refcounts)) (omega arith)))
]

abbrev pub Forks : Allocator → List NaiveBlock → List NaiveBlock → Allocator → Type 0
Forks s blocks made s' =
    IsBalanced s'
    × (s'.free_block_indices ≡ s.free_block_indices)
    × (made ≡ copies s.block_size blocks)
    × ((i : ℕ) → get i s'.refcounts ≡ raised (get i s.refcounts) (references i blocks))

fork_all_lem :
    (blocks : List NaiveBlock) (prev_block : Chain) (s : Allocator)
    → IsBalanced s
    → AllReferenced blocks s
    → (chain : Chain) × (s' : Allocator) × (made : List NaiveBlock) × (fork_all blocks prev_block s
        ≡ (ok chain, s'))
      × (all_blocks chain ≡ all_blocks prev_block ++ made)
      × Forks s blocks made s'
unfolding fork_all incr refcount
fork_all_lem [] prev_block s b all = (
  prev_block,
  s,
  [],
  refl,
  sym (append-nil (all_blocks prev_block)),
  (b, refl, refl, λ i. raised-zero (get i s.refcounts)),
)
fork_all_lem (block ∷ blocks) prev_block s b ((i, n, id_set, known, fits), all) =
    let again = fork_all_lem blocks in
    let copy : NaiveBlock = record {
      token_ids = block.token_ids;
      block_size = s.block_size;
      block_id = some i;
    } in
    let s1 : Allocator = set_refcount i (suc (suc n)) s in
    let b1 : IsBalanced s1 =
      put-IsBalanced s i (suc (suc n)) s.free_block_indices b (λ j. rw known refl) in
    let (chain, s', made, ran, blocks_of, (b', free, same, refs)) =
      again (Chain.after prev_block copy) s1 b1 (AllReferenced-incr blocks i (suc n) s all) in
    (
      chain,
      s',
      copy ∷ made,
      rw id_set (rw known (rw (one_more n) (rw (not_one n) (rw room ran)))),
      blocks_of ∙ append_assoc (all_blocks prev_block) (copy ∷ []) made,
      (
        b',
        free,
        ap (λ bs. copy ∷ bs) same
            ∙ ap
                (λ o.
                  record block { block_size = s.block_size; block_id = o }
                  ∷ copies s.block_size blocks)
                (sym id_set),
        λ j.
            refs j
            ∙ raised-put i j n (references j blocks) s known
            ∙ ap (λ o. raised (get j s.refcounts) (names j o + references j blocks)) (sym id_set),
      ),
    )
  where
    one_more : (m : ℕ) → suc m + 1 ≡ suc (suc m)
    one_more m = omega arith

    not_one : (m : ℕ) → nat_beq (suc (suc m)) 1 ≡ false
    not_one m = ground arith

    room : ltb s.block_size (length block.token_ids) ≡ false
    room = ground (arith, fits)

-- A call of a method that changes the allocator.
pub data Call : Type 0 where
  mutable : Call
  immutable : (token_ids : List ℕ) → Call
  append : (token_ids : List ℕ) (block : NaiveBlock) → Call
  release : (block : NaiveBlock) → Call

-- The allocator after a call that returned or raised.
abbrev pub after_call : (List ℕ → ℕ) → Call → Allocator → Allocator
after_call position Call.mutable s = (allocate_mutable position s).1
after_call position (Call.immutable token_ids) s = (allocate_immutable position token_ids s).1
after_call position (Call.append token_ids block) s =
    (append_token_ids position token_ids block s).1
after_call position (Call.release block) s = (free block s).1

-- Wherever the iteration over the free set starts: allocating a block, filling it with its
-- copy-on-write, and freeing one, returning or raising, keep the free set without duplicates
-- and made of exactly the blocks with reference count 0.
pub after_call-IsBalanced :
    (position : List ℕ → ℕ) (call : Call) (s : Allocator)
    → IsBalanced s
    → IsBalanced (after_call position call s)
after_call-IsBalanced position Call.mutable s b = mutable-IsBalanced position s b
after_call-IsBalanced position (Call.immutable token_ids) s b =
    immutable-IsBalanced position token_ids s b
after_call-IsBalanced position (Call.append token_ids block) s b =
    append-IsBalanced position token_ids block s b
after_call-IsBalanced position (Call.release block) s b = free-IsBalanced block s b

-- In an allocator whose free set is made of exactly the blocks with reference count 0, forking a chain
-- of blocks that are all referenced, and fit the allocator's blocks, returns. The chain made has the
-- same tokens and ids in the same order, with the allocator's block size; the reference count of each
-- id grows by the number of blocks of the chain that have it; no free block is taken, and the free set
-- is still exactly the blocks with reference count 0.
pub fork-counts :
    (last_block : Chain) (s : Allocator)
    → IsBalanced s
    → AllReferenced (all_blocks last_block) s
    → (chain : Chain) × (s' : Allocator) × (fork last_block s ≡ (ok chain, s'))
      × Forks s (all_blocks last_block) (all_blocks chain) s'
unfolding fork
fork-counts last_block s b all =
    let (chain, s', made, ran, blocks_of, forked) =
      fork_all_lem (all_blocks last_block) Chain.start s b all in
    (chain, s', ran, subst (λ bs. Forks s (all_blocks last_block) bs s') (sym blocks_of) forked)

pub get-zeros :
    (i lo n : ℕ)
    → get i (zeros (range lo n))
      ≡ (if ltb i lo then none else if ltb i (lo + n) then some 0 else none)
unfolding get
get-zeros i lo zero = ground arith
get-zeros i lo (suc n) = ground (arith, get-zeros i (suc lo) n)

length-zeros : (ids : List ℕ) → length (zeros ids) ≡ length ids
length-zeros [] = refl
length-zeros (i ∷ ids) = ap suc (length-zeros ids)

pub range-IsBalanced : (lo n block_size : ℕ) → IsBalanced (allocator_of (range lo n) block_size)
range-IsBalanced lo n block_size i =
    count-range i lo n ∙ sym (ap unused (get-zeros i lo n) ∙ ground arith)

pub new_allocator-IsBalanced :
    (num_blocks block_size : ℕ) → IsBalanced (new_allocator num_blocks block_size)
unfolding new_allocator
new_allocator-IsBalanced num_blocks block_size = range-IsBalanced 0 num_blocks block_size

-- A new allocator of n blocks has n blocks and n free ones: an id below n has reference count 0 and is
-- in the free set once, and any other id has no count and is not in it.
pub new_allocator-free :
    (num_blocks block_size i : ℕ)
    → (get_num_total_blocks (new_allocator num_blocks block_size) ≡ num_blocks)
      × (get_num_free_blocks (new_allocator num_blocks block_size) ≡ num_blocks)
      × (get i (new_allocator num_blocks block_size).refcounts
          ≡ (if ltb i num_blocks then some 0 else none))
      × (count i (new_allocator num_blocks block_size).free_block_indices
          ≡ (if ltb i num_blocks then 1 else 0))
unfolding new_allocator
new_allocator-free num_blocks block_size i = (
  length-zeros (range 0 num_blocks) ∙ length-range 0 num_blocks,
  length-range 0 num_blocks,
  get-zeros i 0 num_blocks ∙ ground arith,
  count-range i 0 num_blocks ∙ ground arith,
)
