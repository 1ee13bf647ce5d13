-- ===== src/BlockTable/Allocates.antt =====
-- What `allocate` writes into a table.
use e_llm.Prelude.{
  ℕ, zero, suc, ◌≤◌, ◌<◌, ◌≡◌, refl, sym, ap, ◌∙◌, subst, take, ◌-◌, true, false, not, List, [],
  ◌∷◌, ◌++◌, length, drop, nat_beq, arith,
}
use mathlib.Core.List.{append_assoc, append-nil}
use e_llm.Exec.{Exec, Error, Result, ok, err, assertion_error}
use e_llm.Exec.Outcomes.{Ends, ok-Ends, err-Ends, bind-Ends, if-Ends, raise_if-Ends, Ends-weaken}
use e_llm.BlockTable.{
  BlockAllocator, Tabled, Device, chunks_of, chunk_list, no_blocks, on_allocator,
  get_num_required_blocks, allocate_chunk, allocate_chunks, allocate_blocks_for_token_ids,
  allocate_table, tokens_in,
}
use e_llm.BlockTable.Chunks.{joined, joined-chunks_of, length-chunks_of, length-take, length-drop}
use e_llm.BlockTable.Contents.{
  KeepsTokens, OutOfBlocks, Fills, Gives, Later, AllLive, Owned, Later-refl, Later-trans,
}

module _ {S Block : Type 0} {A : Type 0} where
  pub on_allocator-Ends :
      {P : A → Tabled S Block → Type 0} {Q : A → S → Type 0} {E : Error → Type 0}
      (methods : BlockAllocator S Block) (call : Exec S A) (s : Tabled S Block)
      → Ends Q E (call s.allocator)
      → ((a : A) (m : S) → Q a m → P a (record s { allocator = m }))
      → Ends P E (on_allocator methods call s)
  on_allocator-Ends {P = P} {Q = Q} {E = E} methods call s h good = by_result (call s.allocator) h
    where
      by_result :
          (ran : Result A × S) → Ends Q E ran → Ends P E (ran.0, record s { allocator = ran.1 })
      by_result (ok a, m) h = ok-Ends a _ (good a m h.outcome_of)
      by_result (err e, m) h = err-Ends e _ h.outcome_of

-- The chunks fit a block each.
abbrev Fit : ℕ → List (List ℕ) → Type 0
Fit size [] = Unit {0}
Fit size (chunk ∷ chunks) = (length chunk ≤ size) × Fit size chunks

chunks_of-Fit : (fuel size : ℕ) (xs : List ℕ) → Fit size (chunks_of fuel size xs)
chunks_of-Fit zero size xs = tt
chunks_of-Fit (suc fuel) size [] = tt
chunks_of-Fit (suc fuel) size (x ∷ xs) =
    (omega (arith, length-take size (x ∷ xs)), chunks_of-Fit fuel size (drop size (x ∷ xs)))

module _ {S Block : Type 0} (methods : BlockAllocator S Block) (size : ℕ) (Good : S → Type 0)
    (Live : Block → S → Type 0) (laws : KeepsTokens methods size Good Live) where
  allocate_chunk-holds :
      (before : List Block) (chunk : List ℕ) (d : Device) (s : S)
      → Good s
      → length chunk ≤ size
      → Ends
          (Gives Good Live methods chunk s)
          OutOfBlocks
          (allocate_chunk methods size before chunk d s)
  unfolding allocate_chunk
  allocate_chunk-holds before chunk d s good fits =
      if-Ends (nat_beq (length chunk) size) _ _ s
        (λ _. laws.immutable_holds before chunk d s good fits)
        (λ _. bind-Ends (methods.allocate_mutable before d) _ s (
          Ends-weaken _
            (λ b u (none, live, later).
              Ends-weaken _
                (λ b' v (all, live', later'). (
                  all ∙ ap (λ xs. xs ++ chunk) none,
                  live',
                  Later-trans Good Live s u v later later',
                ))
                (laws.append_extends b chunk u (later.0) live
                  (omega (arith, fits, ap length none))))
            (laws.mutable_empty before d s good)))

  -- What each block holds.
  abbrev held : List Block → List (List ℕ)
  held [] = []
  held (b ∷ blocks) = methods.token_ids b ∷ held blocks

  tokens_in-held : (blocks : List Block) → tokens_in methods blocks ≡ joined (held blocks)
  tokens_in-held [] = refl
  tokens_in-held (b ∷ blocks) = ap (λ xs. methods.token_ids b ++ xs) (tokens_in-held blocks)

  length-held : (blocks : List Block) → length blocks ≡ length (held blocks)
  length-held [] = refl
  length-held (b ∷ blocks) = ap suc (length-held blocks)

  Fills-held :
      (fuel : ℕ) (tokens : List ℕ) (blocks : List Block)
      → 0 < size
      → length tokens ≤ fuel
      → held blocks ≡ chunks_of fuel size tokens
      → Fills methods size (length tokens) blocks
  Fills-held fuel [] [] pos enough same = refl
  Fills-held zero (x ∷ xs) blocks pos enough same = absurd (omega (arith, enough))
  Fills-held (suc fuel) (x ∷ xs) [] pos enough same = absurd (cc)
  Fills-held zero [] (b ∷ blocks) pos enough same = absurd (cc)
  Fills-held (suc fuel) [] (b ∷ blocks) pos enough same = absurd (cc)
  Fills-held (suc fuel) (x ∷ xs) (b ∷ blocks) pos enough same =
      let one : methods.token_ids b ≡ take size (x ∷ xs) = cc in
      let rest : held blocks ≡ chunks_of fuel size (drop size (x ∷ xs)) = cc in
      let dropped : length (drop size (x ∷ xs)) ≡ length (x ∷ xs) - size =
        length-drop size (x ∷ xs) in
      (
        ap length one ∙ length-take size (x ∷ xs),
        subst (λ n. Fills methods size n blocks) dropped
            (Fills-held fuel (drop size (x ∷ xs)) blocks pos (omega (arith, dropped, enough, pos))
              rest),
      )

  allocate_chunks-holds :
      (blocks : List Block) (chunks : List (List ℕ)) (d : Device) (s : S)
      → Good s
      → Fit size chunks
      → Ends
          (λ blocks' s'.
            (added : List Block) × (blocks' ≡ blocks ++ added)
            × (held added ≡ chunks)
            × AllLive Live added s'
            × Later Good Live s s')
          OutOfBlocks
          (allocate_chunks methods size blocks chunks d s)
  unfolding allocate_chunks
  allocate_chunks-holds blocks [] d s good fit =
      ok-Ends blocks s ([], sym (append-nil blocks), refl, tt, Later-refl Good Live s good)
  allocate_chunks-holds blocks (chunk ∷ chunks) d s good fit =
      bind-Ends (allocate_chunk methods size blocks chunk d) _ s (
        Ends-weaken _
          (λ b u (one, live, later).
            Ends-weaken _
              (λ blocks' v (added, all, rest, lives, later'). (
                b ∷ added,
                all ∙ append_assoc blocks (b ∷ []) added,
                ap (λ xs. xs ∷ held added) one ∙ ap (λ cs. chunk ∷ cs) rest,
                (later'.1 b live, lives),
                Later-trans Good Live s u v later later',
              ))
              (allocate_chunks-holds (blocks ++ b ∷ []) chunks d u (later.0) (fit.1)))
          (allocate_chunk-holds blocks chunk d s good (fit.0)))

  allocate_blocks_for_token_ids-holds :
      (token_ids : List ℕ) (d : Device) (s : S)
      → Good s
      → 0 < size
      → Ends
          (λ blocks s'.
            (tokens_in methods blocks ≡ token_ids)
            × (length blocks ≡ get_num_required_blocks token_ids size)
            × Fills methods size (length token_ids) blocks
            × (Good s' × AllLive Live blocks s'))
          OutOfBlocks
          (allocate_blocks_for_token_ids methods size token_ids d s)
  unfolding allocate_blocks_for_token_ids
  allocate_blocks_for_token_ids-holds token_ids d s good pos =
      let n : ℕ = length token_ids in
      Ends-weaken _
        (λ blocks u (added, all, same, lives, later). (
          ap (tokens_in methods) all
              ∙ tokens_in-held added
              ∙ ap joined same
              ∙ joined-chunks_of n size token_ids pos (omega arith),
          ap length all
              ∙ length-held added
              ∙ ap length same
              ∙ length-chunks_of n size token_ids pos (omega arith),
          subst (Fills methods size n) (sym all)
              (Fills-held n token_ids added pos (omega arith) same),
          (later.0, subst (λ bs. AllLive Live bs u) (sym all) lives),
        ))
        (allocate_chunks-holds [] (chunk_list token_ids size) d s good
          (chunks_of-Fit n size token_ids))

module _ {S Block : Type 0} {Good : S → Type 0} {Live : Block → S → Type 0}
    (methods : BlockAllocator S Block) where
  -- On a table without blocks, whose block size is positive, with an allocator in a good state that
  -- keeps the tokens it is given: allocating a list of tokens that is not empty fails for lack of
  -- blocks only. When it returns, the blocks hold the tokens in order, there are as many blocks as
  -- `get_num_required_blocks` says, the table, whose block size stays, counts a full slot for each
  -- token and has them as its first ones, its blocks are allocated, and the allocator's state is good.
  pub allocate_table-holds :
      (token_ids : List ℕ) (d : Device) (s : Tabled S Block)
      → KeepsTokens methods s.table.block_size Good Live
      → Good s.allocator
      → 0 < s.table.block_size
      → no_blocks s.table.blocks ≡ true
      → nat_beq (length token_ids) 0 ≡ false
      → Ends
          (λ _ s'.
            (tokens_in methods s'.table.blocks ≡ token_ids)
            × (length s'.table.blocks ≡ get_num_required_blocks token_ids s.table.block_size)
            × (s'.table.num_full_slots ≡ length token_ids)
            × (s'.table.block_size ≡ s.table.block_size)
            × Fills methods s.table.block_size (length token_ids) s'.table.blocks
            × Owned Good Live s')
          OutOfBlocks
          (allocate_table methods token_ids d s)
  unfolding allocate_table
  allocate_table-holds token_ids d s laws good pos none some =
      raise_if-Ends (not (no_blocks s.table.blocks)) assertion_error _ s
        (λ h. absurd (ground (arith, h, none)))
        λ _.
          raise_if-Ends (nat_beq (length token_ids) 0) assertion_error _ s
            (λ h. absurd (ground (arith, h, some)))
            λ _.
              bind-Ends
                (on_allocator methods
                  (allocate_blocks_for_token_ids methods s.table.block_size token_ids d))
                _ s
                (on_allocator-Ends methods
                  (allocate_blocks_for_token_ids methods s.table.block_size token_ids d) s
                  (allocate_blocks_for_token_ids-holds methods s.table.block_size Good Live laws
                    token_ids d s.allocator good pos)
                  λ blocks m h. ok-Ends tt _ (h.0, h.1, refl, refl, h.2, h.3))
