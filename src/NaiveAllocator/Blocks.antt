-- ===== src/NaiveAllocator/Blocks.antt =====
-- The blocks that the naive allocator gives: their tokens, and that what is referenced stays referenced.
use e_llm.Prelude.{
  ℕ, zero, suc, ◌+◌, ◌-◌, ◌%◌, ◌≤◌, ◌<◌, ◌≡◌, refl, sym, ap, ◌∙◌, subst, Option, none, some, List,
  [], ◌∷◌, ◌++◌, length, get_elem?, nat_beq, ltb, nat_eq, arith, inl, inr, Bool-cases, Option-cases,
  count, true,
}
use e_llm.Dict.{Dict, get, put, contains}
use e_llm.Dict.Laws.{get-put, contains-put, contains_of_get}
use e_llm.Exec.{Error, Result, ok, pure, modify, assertion_error, no_free_blocks}
use e_llm.Exec.Outcomes.{Ends, ok-Ends, err-Ends, bind-Ends, if-Ends, raise_if-Ends, Ends-weaken}
use e_llm.NaiveAllocator.{
  Allocator, NaiveBlock, refcount, set_refcount, incr, decr, decr_from, free_block_id, free,
  without, allocate_new_block_id, allocate_mutable, copy_if_shared, cow_id,
  cow_block_if_not_appendable, append_token_ids, allocate_immutable,
}
use e_llm.NaiveAllocator.Balance.{
  unused, IsBalanced, put-IsBalanced, count-get, allocate_new_block_id-IsBalanced,
}

abbrev pub IsReferenced : ℕ → Allocator → Type 0
IsReferenced i s = (n : ℕ) × (get i s.refcounts ≡ some (suc n))

-- A balanced state with the same ids and block size, in which the referenced blocks still are.
abbrev pub Stays : Allocator → Allocator → Type 0
Stays s s' =
    IsBalanced s'
    × (s'.block_size ≡ s.block_size)
    × ((i : ℕ) → IsReferenced i s → IsReferenced i s')
    × ((i : ℕ) → contains i s'.refcounts ≡ contains i s.refcounts)

abbrev pub NoFreeBlocks : Error → Type 0
NoFreeBlocks e = e ≡ no_free_blocks

Stays-trans : (s u v : Allocator) → Stays s u → Stays u v → Stays s v
Stays-trans s u v (_, size, first, ids) (b, size', second, ids') =
    (b, size' ∙ size, (λ i live. second i (first i live)), λ i. ids' i ∙ ids i)

put_keeps :
    (d : Dict ℕ ℕ) (i n j m : ℕ)
    → get j d ≡ some (suc m)
    → (k : ℕ) × (get j (put i (suc n) d) ≡ some (suc k))
put_keeps d i n j m known = elim (Bool-cases (nat_beq i j)) [
  | inl hit ↦ (n, get-put i j (suc n) d ∙ rw hit refl)
  | inr miss ↦ (m, get-put i j (suc n) d ∙ rw miss known)
]

same_ids : (d : Dict ℕ ℕ) (i n m j : ℕ) → get i d ≡ some m → contains j (put i n d) ≡ contains j d
same_ids d i n m j known = contains-put i j n d ∙ elim (Bool-cases (nat_beq i j)) [
  | inl hit ↦
      let same : i ≡ j = ground arith in
      rw hit (sym (subst (λ (k : ℕ). contains k d ≡ true) same (contains_of_get i m d known)))
  | inr miss ↦ rw miss refl
]

get-put_same : (d : Dict ℕ ℕ) (i n : ℕ) → get i (put i n d) ≡ some n
get-put_same d i n = get-put i i n d ∙ ground arith

free_unreferenced : (o : Option ℕ) (n : ℕ) → 0 < n → n ≡ unused o → o ≡ some 0
free_unreferenced none n some_there same = absurd (omega (arith, some_there, same))
free_unreferenced (some zero) n some_there same = refl
free_unreferenced (some (suc m)) n some_there same = absurd (omega (arith, some_there, same))

freed :
    (block : NaiveBlock) (src m : ℕ) (s : Allocator)
    → block.block_id ≡ some src
    → get src s.refcounts ≡ some (suc (suc m))
    → free block s ≡ (ok (record block { block_id = none }), set_refcount src (suc m) s)
unfolding free free_block_id decr refcount decr_from
freed block src m s id_set known = rw id_set (rw known refl)

module _ (position : List ℕ → ℕ) where
  allocate_new_block_id-Stays :
      (s : Allocator)
      → IsBalanced s
      → Ends
          (λ i s'. IsReferenced i s' × Stays s s')
          NoFreeBlocks
          (allocate_new_block_id position s)
  allocate_new_block_id-Stays s b =
      let at : ℕ = position s.free_block_indices % length s.free_block_indices in
      elim (Option-cases (get_elem? s.free_block_indices at)) [
        | inl nothing ↦ unfold allocate_new_block_id in rw nothing (err-Ends no_free_blocks s refl)
        | inr (i, found) ↦
            let known : get i s.refcounts ≡ some 0 =
              free_unreferenced (get i s.refcounts) (count i s.free_block_indices)
                (count-get i at s.free_block_indices found) (b i) in
            let s' : Allocator = record s {
              refcounts = put i 1 s.refcounts;
              free_block_indices = without i s.free_block_indices;
            } in
            let ran : allocate_new_block_id position s ≡ (ok i, s') =
              unfold allocate_new_block_id incr refcount in rw found (rw known refl) in
            let b' : IsBalanced s' =
              subst (λ (r : Result ℕ × Allocator). IsBalanced (r.1)) ran
                (allocate_new_block_id-IsBalanced position s b) in
            rw ran (
              ok-Ends i s' (
                (0, get-put_same s.refcounts i 1),
                (
                  b',
                  refl,
                  (λ j (k, live). put_keeps s.refcounts i 0 j k live),
                  λ j. same_ids s.refcounts i 1 0 j known,
                ),
              ))
      ]

  copy_if_shared-Stays :
      (block : NaiveBlock) (src n : ℕ) (s : Allocator)
      → IsBalanced s
      → block.block_id ≡ some src
      → get src s.refcounts ≡ some (suc n)
      → Ends
          (λ i s'. IsReferenced i s' × Stays s s')
          NoFreeBlocks
          (copy_if_shared position block src (suc n) s)
  unfolding copy_if_shared
  copy_if_shared-Stays block src zero s b id_set known =
      ok-Ends src s ((0, known), (b, refl, (λ i live. live), λ i. refl))
  copy_if_shared-Stays block src (suc m) s b id_set known =
      let s1 : Allocator = set_refcount src (suc m) s in
      let b1 : IsBalanced s1 =
        put-IsBalanced s src (suc m) s.free_block_indices b (λ j. rw known refl) in
      let first : Stays s s1 = (
        b1,
        refl,
        (λ i (k, live). put_keeps s.refcounts src m i k live),
        λ i. same_ids s.refcounts src (suc m) (suc (suc m)) i known,
      ) in
      if-Ends (ltb 1 (suc (suc m))) _ (pure src) s
        (λ _. bind-Ends (free block) _ s (
          rw (freed block src m s id_set known) (
            ok-Ends _ s1 (
              bind-Ends (allocate_new_block_id position) _ s1 (
                Ends-weaken _
                  (λ dst u (live, later).
                    bind-Ends
                      (modify
                        (λ t. record t { copy_on_writes = t.copy_on_writes ++ (src, dst) ∷ [] }))
                      (λ _. pure dst) u
                      (ok-Ends tt _ (ok-Ends dst _ (live, Stays-trans s s1 u first later))))
                  (allocate_new_block_id-Stays s1 b1))))))
        (λ single. absurd (ground (arith, single)))

  abbrev Copied : Allocator → Option ℕ → Allocator → Type 0
  Copied s o s' = (i : ℕ) × (o ≡ some i) × IsReferenced i s' × Stays s s'

  cow_id-Stays :
      (block : NaiveBlock) (src n : ℕ) (s : Allocator)
      → IsBalanced s
      → block.block_id ≡ some src
      → get src s.refcounts ≡ some (suc n)
      → Ends (Copied s) NoFreeBlocks (cow_id position block (some src) s)
  unfolding cow_id
  cow_id-Stays block src n s b id_set known =
      let ran : refcount src s ≡ (ok (suc n), s) = unfold refcount in rw known refl in
      bind-Ends (refcount src) _ s (
        rw ran (
          ok-Ends (suc n) s (
            raise_if-Ends (nat_beq (suc n) 0) assertion_error _ s
              (λ unused_block. absurd (ground (arith, unused_block)))
              λ _. bind-Ends (copy_if_shared position block src (suc n)) _ s (
                Ends-weaken _ (λ dst u (live, later). ok-Ends (some dst) u (dst, refl, live, later))
                  (copy_if_shared-Stays block src n s b id_set known)))))

  cow-Stays :
      (block : NaiveBlock) (src n : ℕ) (s : Allocator)
      → IsBalanced s
      → block.block_id ≡ some src
      → get src s.refcounts ≡ some (suc n)
      → Ends (Copied s) NoFreeBlocks (cow_block_if_not_appendable position block s)
  unfolding cow_block_if_not_appendable
  cow-Stays block src n s b id_set known =
      subst (λ o. Ends (Copied s) NoFreeBlocks (cow_id position block o s)) (sym id_set)
        (cow_id-Stays block src n s b id_set known)

  -- A block of the allocator, with a size, that is referenced.
  abbrev pub IsLive : ℕ → NaiveBlock → Allocator → Type 0
  IsLive size block s =
      (i : ℕ) × (block.block_id ≡ some i) × IsReferenced i s × (block.block_size ≡ size)

  abbrev pub Made : ℕ → List ℕ → Allocator → NaiveBlock → Allocator → Type 0
  Made size tokens s block s' = (block.token_ids ≡ tokens) × IsLive size block s' × Stays s s'

  pub append-Made :
      (size : ℕ) (token_ids : List ℕ) (block : NaiveBlock) (s : Allocator)
      → IsBalanced s
      → IsLive size block s
      → length block.token_ids + length token_ids ≤ size
      → Ends
          (Made size (block.token_ids ++ token_ids) s)
          NoFreeBlocks
          (append_token_ids position token_ids block s)
  unfolding append_token_ids
  append-Made size token_ids block s b (i, id_set, (n, known), sized) fits =
      let longer : NaiveBlock = record block { token_ids = block.token_ids ++ token_ids } in
      raise_if-Ends (ltb (block.block_size - length block.token_ids) (length token_ids))
        assertion_error _ s (λ over. absurd (ground (arith, over, fits, sized)))
        λ _. bind-Ends (cow_block_if_not_appendable position longer) _ s (
          Ends-weaken _
            (λ o u (j, is, live, later).
              ok-Ends (record longer { block_id = o }) u (refl, (j, is, live, sized), later))
            (cow-Stays longer i n s b id_set known))

  pub mutable-Made :
      (s : Allocator)
      → IsBalanced s
      → Ends (Made s.block_size [] s) NoFreeBlocks (allocate_mutable position s)
  unfolding allocate_mutable
  mutable-Made s b = bind-Ends (allocate_new_block_id position) _ s (
      Ends-weaken _ (λ i u (live, later). ok-Ends _ u (refl, (i, refl, live, refl), later))
        (allocate_new_block_id-Stays s b))

  pub immutable-Made :
      (token_ids : List ℕ) (s : Allocator)
      → IsBalanced s
      → length token_ids ≤ s.block_size
      → Ends (Made s.block_size token_ids s) NoFreeBlocks (allocate_immutable position token_ids s)
  unfolding allocate_immutable
  immutable-Made token_ids s b fits = bind-Ends (allocate_mutable position) _ s (
      Ends-weaken _
        (λ block u (empty, live, later).
          Ends-weaken _
            (λ block' v (all, live', later').
              (all ∙ ap (λ xs. xs ++ token_ids) empty, live', Stays-trans s u v later later'))
            (append-Made s.block_size token_ids block u (later.0) live
              (omega (arith, fits, ap length empty))))
        (mutable-Made s b))
