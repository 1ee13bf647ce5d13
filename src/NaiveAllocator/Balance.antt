-- ===== src/NaiveAllocator/Balance.antt =====
-- Single operations of the naive allocator keep its books balanced.
use e_llm.Prelude.{
  ℕ, zero, suc, ◌+◌, ◌-◌, ◌%◌, ◌≡◌, refl, ap, ◌∙◌, ◌<◌, true, Option, none, some, List, [], ◌∷◌,
  ◌++◌, arith, length, get_elem?, count, count-append, nat_beq, nat_eq, ltb, if◌then◌else◌, inl,
  inr, Bool-cases, Option-cases,
}
use e_llm.Dict.{get, put}
use e_llm.Dict.Laws.{get-put}
use e_llm.Exec.{Result-cases, ◌>>=◌, modify}
use e_llm.NaiveAllocator.{
  Allocator, NaiveBlock, refcount, incr, decr, decr_from, without, with_id, has_id, free_if_zero,
  free_block_id, free, allocate_new_block_id, allocate_mutable, copy_if_shared, cow_id,
  cow_block_if_not_appendable, append_token_ids, allocate_immutable,
}

-- 1 for a block that nobody refers to, else 0.
abbrev pub unused : Option ℕ → ℕ
unused none = 0
unused (some zero) = 1
unused (some (suc n)) = 0

abbrev pub IsBalanced : Allocator → Type 0
IsBalanced s = (i : ℕ) → count i s.free_block_indices ≡ unused (get i s.refcounts)

count-without :
    (i j : ℕ) (ids : List ℕ)
    → 0 < count i ids
    → count j ids ≡ count j (without i ids) + (if nat_beq i j then 1 else 0)
count-without i j [] h = absurd (omega (arith, h))
count-without i j (k ∷ ids) h = ground (arith, count-without i j ids)

has_id-count : (i : ℕ) (ids : List ℕ) → has_id i ids ≡ true → 0 < count i ids
has_id-count i [] h = absurd (cc)
has_id-count i (k ∷ ids) h = ground (arith, has_id-count i ids)

count-with_id :
    (i j : ℕ) (ids : List ℕ)
    → count i ids ≡ 0
    → count j (with_id i ids) ≡ count j ids + (if nat_beq i j then 1 else 0)
count-with_id i j ids h = elim (Bool-cases (has_id i ids)) [
  | inl there ↦ absurd (omega (arith, has_id-count i ids there, h))
  | inr new ↦ rw new (ground (arith, count-append j ids (i ∷ [])))
]

pub count-get : (i n : ℕ) (ids : List ℕ) → get_elem? ids n ≡ some i → 0 < count i ids
count-get i n [] h = absurd (cc)
count-get i zero (k ∷ ids) h = ground (arith, h)
count-get i (suc n) (k ∷ ids) h = omega (arith, count-get i n ids h)

-- What a reference count and the free set become together.
pub put-IsBalanced :
    (s : Allocator) (i n : ℕ) (free : List ℕ)
    → IsBalanced s
    → ((j : ℕ)
        → count j free + (if nat_beq i j then unused (get i s.refcounts) else 0)
          ≡ count j s.free_block_indices + (if nat_beq i j then unused (some n) else 0))
    → IsBalanced (record s { refcounts = put i n s.refcounts; free_block_indices = free })
put-IsBalanced s i n free b moved j =
    rw (get-put i j n s.refcounts) (elim (Bool-cases (nat_beq i j)) [
      | inl hit ↦
          let same : i ≡ j = ground arith in
          rw hit (
            omega
              (arith, rw hit at (moved j), b j, ap (λ (k : ℕ). unused (get k s.refcounts)) same))
      | inr miss ↦ rw miss (omega (arith, rw miss at (moved j), b j))
    ])

free_block_id-IsBalanced : (i : ℕ) (s : Allocator) → IsBalanced s → IsBalanced (free_block_id i s).1
unfolding free_block_id decr refcount decr_from
free_block_id-IsBalanced i s b = elim (Option-cases (get i s.refcounts)) [
  | inl unknown ↦ rw unknown b
  | inr (n, known) ↦ rw known (from n known)
]
  where
    from :
        (n : ℕ)
        → get i s.refcounts ≡ some n
        → IsBalanced ((decr_from i n >>= λ k. modify (free_if_zero i k)) s).1
    from zero known = b
    from (suc zero) known = put-IsBalanced s i 0 (with_id i s.free_block_indices) b λ j.
        rw known (ground (arith, count-with_id i j s.free_block_indices (b i ∙ ap unused known)))
    from (suc (suc n)) known =
        put-IsBalanced s i (suc n) s.free_block_indices b (λ j. rw known refl)

module _ (position : List ℕ → ℕ) where
  pub allocate_new_block_id-IsBalanced :
      (s : Allocator) → IsBalanced s → IsBalanced (allocate_new_block_id position s).1
  unfolding allocate_new_block_id incr refcount
  allocate_new_block_id-IsBalanced s b =
      elim (Option-cases (
        get_elem? s.free_block_indices
          (position s.free_block_indices % length s.free_block_indices))) [
            | inl nothing ↦ rw nothing b
            | inr (i, found) ↦
                let there : 0 < count i s.free_block_indices =
                  count-get i (position s.free_block_indices % length s.free_block_indices)
                    s.free_block_indices found in
                elim (Option-cases (get i s.refcounts)) [
                  | inl unknown ↦ rw found (rw unknown b)
                  | inr (n, known) ↦ rw found (
                      rw known (
                        put-IsBalanced s i (n + 1) (without i s.free_block_indices) b (λ j.
                          rw known (taken i n j s.free_block_indices there (rw known at (b i))))))
                ]
          ]
    where
      taken :
          (i n j : ℕ) (ids : List ℕ)
          → 0 < count i ids
          → count i ids ≡ unused (some n)
          → count j (without i ids) + (if nat_beq i j then unused (some n) else 0)
            ≡ count j ids + (if nat_beq i j then unused (some (n + 1)) else 0)
      taken i zero j ids there one = ground (arith, count-without i j ids there)
      taken i (suc n) j ids there one = absurd (omega (arith, there, one))

pub free-IsBalanced :
    (block : NaiveBlock) (s : Allocator) → IsBalanced s → IsBalanced (free block s).1
unfolding free
free-IsBalanced block s b = elim (Option-cases block.block_id) [
  | inl unset ↦ rw unset b
  | inr (i, id_set) ↦
      let b1 = free_block_id-IsBalanced i s b in
      elim (Result-cases (free_block_id i s).0) [
        | inl (_, ran) ↦ rw id_set (rw ran b1)
        | inr (e, failed) ↦ rw id_set (rw failed b1)
      ]
]

module _ (position : List ℕ → ℕ) where
  copy_if_shared-IsBalanced :
      (block : NaiveBlock) (src n : ℕ) (s : Allocator)
      → IsBalanced s
      → IsBalanced (copy_if_shared position block src n s).1
  unfolding copy_if_shared
  copy_if_shared-IsBalanced block src n s b =
      let b1 = free-IsBalanced block s b in
      let b2 = allocate_new_block_id-IsBalanced position (free block s).1 b1 in
      elim (Bool-cases (ltb 1 n)) [
        | inr single ↦ rw single b
        | inl shared ↦ elim (Result-cases (free block s).0) [
          | inr (e, failed) ↦ rw shared (rw failed b1)
          | inl (_, freed) ↦
              elim (Result-cases (allocate_new_block_id position (free block s).1).0) [
                | inr (e, failed) ↦ rw shared (rw freed (rw failed b2))
                | inl (dst, made) ↦ rw shared (rw freed (rw made b2))
              ]
        ]
      ]

  cow_id-IsBalanced :
      (block : NaiveBlock) (id : Option ℕ) (s : Allocator)
      → IsBalanced s
      → IsBalanced (cow_id position block id s).1
  unfolding cow_id refcount
  cow_id-IsBalanced block none s b = b
  cow_id-IsBalanced block (some src) s b = elim (Option-cases (get src s.refcounts)) [
    | inl unknown ↦ rw unknown b
    | inr (n, known) ↦
        let b1 = copy_if_shared-IsBalanced block src n s b in
        elim (Bool-cases (nat_beq n 0)) [
          | inl freed ↦ rw known (rw freed b)
          | inr used ↦ elim (Result-cases (copy_if_shared position block src n s).0) [
            | inl (dst, made) ↦ rw known (rw used (rw made b1))
            | inr (e, failed) ↦ rw known (rw used (rw failed b1))
          ]
        ]
  ]

  cow-IsBalanced :
      (block : NaiveBlock) (s : Allocator)
      → IsBalanced s
      → IsBalanced (cow_block_if_not_appendable position block s).1
  unfolding cow_block_if_not_appendable
  cow-IsBalanced block s b = cow_id-IsBalanced block block.block_id s b

  pub append-IsBalanced :
      (token_ids : List ℕ) (block : NaiveBlock) (s : Allocator)
      → IsBalanced s
      → IsBalanced (append_token_ids position token_ids block s).1
  unfolding append_token_ids
  append-IsBalanced token_ids block s b =
      let longer : NaiveBlock = record block { token_ids = block.token_ids ++ token_ids } in
      let b1 = cow-IsBalanced longer s b in
      elim (Bool-cases (ltb (block.block_size - length block.token_ids) (length token_ids))) [
        | inl over ↦ rw over b
        | inr room ↦ elim (Result-cases (cow_block_if_not_appendable position longer s).0) [
          | inl (i, made) ↦ rw room (rw made b1)
          | inr (e, failed) ↦ rw room (rw failed b1)
        ]
      ]

  pub mutable-IsBalanced :
      (s : Allocator) → IsBalanced s → IsBalanced (allocate_mutable position s).1
  unfolding allocate_mutable
  mutable-IsBalanced s b =
      let b1 = allocate_new_block_id-IsBalanced position s b in
      elim (Result-cases (allocate_new_block_id position s).0) [
        | inl (i, made) ↦ rw made b1
        | inr (e, failed) ↦ rw failed b1
      ]

  pub immutable-IsBalanced :
      (token_ids : List ℕ) (s : Allocator)
      → IsBalanced s
      → IsBalanced (allocate_immutable position token_ids s).1
  unfolding allocate_immutable
  immutable-IsBalanced token_ids s b =
      let b1 = mutable-IsBalanced s b in
      elim (Result-cases (allocate_mutable position s).0) [
        | inl (block, made) ↦
            rw made (append-IsBalanced token_ids block (allocate_mutable position s).1 b1)
        | inr (e, failed) ↦ rw failed b1
      ]
