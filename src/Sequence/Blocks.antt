-- ===== src/Sequence/Blocks.antt =====
-- The logical blocks of a sequence hold its tokens in order, all blocks but the last full.
use e_llm.Prelude.{
  ℕ, zero, suc, ◌+◌, ◌≡◌, refl, sym, ap, ◌∙◌, ◌≤◌, ◌<◌, false, Option, some, List, [], ◌++◌, map,
  length, take, drop, ltb, ltb_false→le, arith, inl, inr, Bool-cases,
}
use mathlib.Core.List.{append-nil, append_assoc}
use e_llm.Exec.{ok}
use e_llm.LogicalBlock.{LogicalTokenBlock, get_num_empty_slots}
use e_llm.Sequence.{
  Sequence, set_last, with_room, pour, append_tokens_to_blocks, all_token_ids, new_sequence,
  new_data, SequenceStatus,
}
use e_llm.Sequence.Writes.{
  contents, IsLaidOut, write_lem, set_last_lem, IsLaidOut-last, roomy_lem, drop-above, drop-add,
  take-drop, length-take,
}

abbrev Poured : ℕ → ℕ → List ℕ → ℕ → List LogicalTokenBlock → Type 0
Poured fuel bs toks cursor blocks =
    (blocks' : List LogicalTokenBlock) × (pour fuel bs toks cursor blocks ≡ (ok tt, blocks'))
    × IsLaidOut bs 0 blocks'
    × (contents blocks' ≡ contents blocks ++ map some (drop cursor toks))

pour_done :
    (fuel bs : ℕ) (toks : List ℕ) (cursor : ℕ) (blocks : List LogicalTokenBlock)
    → IsLaidOut bs 0 blocks
    → length toks ≤ cursor
    → Poured fuel bs toks cursor blocks
unfolding pour
pour_done zero bs toks cursor blocks laid h = (
  blocks,
  ground arith,
  laid,
  sym (append-nil (contents blocks))
      ∙ ap (λ (xs : List ℕ). contents blocks ++ map some xs) (sym (drop-above cursor toks h)),
)
pour_done (suc fuel) bs toks cursor blocks laid h = (
  blocks,
  rw (stops cursor (length toks) h) refl,
  laid,
  sym (append-nil (contents blocks))
      ∙ ap (λ (xs : List ℕ). contents blocks ++ map some xs) (sym (drop-above cursor toks h)),
)
  where
    stops : (m n : ℕ) → n ≤ m → ltb m n ≡ false
    stops m n k = ground arith

joined :
    (old : List (Option ℕ)) {roomy now end : List (Option ℕ)} (r cursor : ℕ) (toks : List ℕ)
    → end ≡ now ++ map some (drop (cursor + r) toks)
    → now ≡ roomy ++ map some (take r (drop cursor toks))
    → roomy ≡ old
    → end ≡ old ++ map some (drop cursor toks)
joined old r cursor toks rest written same =
    rest
    ∙ ap (λ (xs : List (Option ℕ)). xs ++ map some (drop (cursor + r) toks))
        (written ∙ ap (λ (xs : List (Option ℕ)). xs ++ map some (take r (drop cursor toks))) same)
    ∙ append_assoc old (map some (take r (drop cursor toks))) (map some (drop (cursor + r) toks))
    ∙ ap (λ (xs : List (Option ℕ)). old ++ xs)
        (ap (λ (xs : List ℕ). map some (take r (drop cursor toks)) ++ map some xs)
            (drop-add cursor r (cursor + r) toks refl)
          ∙ take-drop r (drop cursor toks))

-- The loop ends within its fuel, and writes the rest of the tokens.
pour_lem :
    (fuel bs : ℕ) (toks : List ℕ) (cursor : ℕ) (blocks : List LogicalTokenBlock)
    → 0 < bs
    → IsLaidOut bs 0 blocks
    → length toks ≤ cursor + fuel
    → Poured fuel bs toks cursor blocks
unfolding pour
pour_lem zero bs toks cursor blocks pos laid enough =
    pour_done zero bs toks cursor blocks laid (omega arith)
pour_lem (suc fuel) bs toks cursor blocks pos laid enough =
    let again = pour_lem fuel bs toks in
    elim (Bool-cases (ltb cursor (length toks))) [
      | inr done ↦
          pour_done (suc fuel) bs toks cursor blocks laid (ltb_false→le cursor (length toks) done)
      | inl more ↦
          let (b, last, roomy, same, room, size) = roomy_lem bs blocks pos laid in
          let r : ℕ = get_num_empty_slots b in
          let piece : List ℕ = take r (drop cursor toks) in
          let (j, block) = IsLaidOut-last bs 0 (with_room bs blocks) b roomy last in
          let (b', wrote, block', numbers, grown, ids) =
            write_lem bs j b piece block (omega (arith, length-take r (drop cursor toks), size)) in
          let (number', size', slots', filled') = block' in
          let (laid', contents') =
            set_last_lem bs 0 (with_room bs blocks) b b' piece roomy last
              (λ i h. (numbers ∙ h.0, size', slots', filled')) ids in
          let (blocks', ran, laid'', rest) =
            again (cursor + r) (set_last b' (with_room bs blocks)) pos laid'
              (omega (arith, enough, room, size)) in
          (
            blocks',
            rw more (rw last (rw wrote ran)),
            laid'',
            joined (contents blocks) {end = contents blocks'} r cursor toks rest contents' same,
          )
    ]

-- The logical blocks hold the prompt and the output, in order.
abbrev pub IsCoherent : Sequence → Type 0
IsCoherent s =
    IsLaidOut s.block_size 0 s.logical_token_blocks
    × (contents s.logical_token_blocks ≡ map some (all_token_ids s.seq_data))

-- With a positive block size, `_append_tokens_to_blocks` returns on blocks that are laid out (numbered
-- in order, within their size, all but the last full): the blocks are laid out again, and hold the
-- new tokens after the old ones.
pub append_tokens_to_blocks-writes :
    (block_size : ℕ) (token_ids : List ℕ) (blocks : List LogicalTokenBlock)
    → 0 < block_size
    → IsLaidOut block_size 0 blocks
    → (blocks' : List LogicalTokenBlock) × (append_tokens_to_blocks block_size token_ids blocks
        ≡ (ok tt, blocks'))
      × IsLaidOut block_size 0 blocks'
      × (contents blocks' ≡ contents blocks ++ map some token_ids)
unfolding append_tokens_to_blocks
append_tokens_to_blocks-writes block_size token_ids blocks pos laid =
    pour_lem (length token_ids) block_size token_ids 0 blocks pos laid (omega arith)

-- A new sequence with a positive block size is made without an error, waits, and its logical blocks
-- hold its prompt.
pub new_sequence-IsCoherent :
    (seq_id block_size : ℕ) (prompt : List ℕ)
    → 0 < block_size
    → (s : Sequence) × (new_sequence seq_id prompt block_size ≡ ok s)
      × IsCoherent s
      × (all_token_ids s.seq_data ≡ prompt)
      × (s.status ≡ SequenceStatus.waiting)
unfolding new_sequence
new_sequence-IsCoherent seq_id block_size prompt pos =
    let (blocks, ran, laid, holds) = append_tokens_to_blocks-writes block_size prompt [] pos tt in
    (
      record {
        seq_id = seq_id;
        block_size = block_size;
        seq_data = new_data prompt;
        logical_token_blocks = blocks;
        status = SequenceStatus.waiting;
      },
      rw ran refl,
      (laid, holds ∙ ap (map some) (sym (append-nil prompt))),
      append-nil prompt,
      refl,
    )
