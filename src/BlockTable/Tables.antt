-- ===== src/BlockTable/Tables.antt =====
-- Appending to a table, with the slots that it makes sure of first.
use e_llm.Prelude.{
  ℕ, zero, suc, ◌+◌, ◌-◌, ◌*◌, ◌/◌, ◌≤◌, ◌<◌, ◌≡◌, refl, sym, ap, ◌∙◌, subst, false, List, [], ◌∷◌,
  ◌++◌, length, length-append, drop, leb, arith,
}
use mathlib.Core.List.{append_assoc, append-nil}
use e_llm.Exec.{Exec, pure, assertion_error}
use e_llm.Exec.Outcomes.{Ends, ok-Ends, bind-Ends, if-Ends, raise_if-Ends, Ends-weaken}
use e_llm.KvMap.{ceil_div}
use e_llm.BlockTable.{
  BlockAllocator, Tabled, gpu, no_blocks, push_block, on_allocator, num_empty_slots, add_blocks,
  ensure_num_empty_slots, append_each, append_ensured, append_to_table,
  chunk_token_blocks_for_append, tokens_in,
}
use e_llm.BlockTable.Contents.{
  KeepsTokens, OutOfBlocks, Fills, Fills-fits, Fills-append, tokens_in-append, Later, AllLive,
  Owned, Later-refl, Later-trans, AllLive-Later, AllLive-append,
}
use e_llm.BlockTable.Allocates.{on_allocator-Ends}
use e_llm.BlockTable.Appends.{append_each-Fills, tokens_in-empty}

no_blocks-append :
    {Block : Type 0} (xs ys : List Block) → no_blocks xs ≡ false → no_blocks (xs ++ ys) ≡ false
no_blocks-append [] ys h = absurd (cc)
no_blocks-append (x ∷ xs) ys h = refl

ceil_div-enough : (n size : ℕ) → 0 < size → n ≤ ceil_div n size * size
ceil_div-enough n size pos = grind arith

room-kept :
    (full slots blocks size : ℕ)
    → full ≤ blocks * size
    → slots ≤ blocks * size - full
    → full + slots ≤ (blocks + 0) * size
room-kept full slots blocks size fits enough = grind (arith, fits, enough)

room-made :
    (full slots blocks added size : ℕ)
    → full ≤ blocks * size
    → slots - (blocks * size - full) ≤ added * size
    → full + slots ≤ (blocks + added) * size
room-made full slots blocks added size fits enough = grind (arith, fits, enough)

module _ {S Block : Type 0} (methods : BlockAllocator S Block) (Good : S → Type 0)
    (Live : Block → S → Type 0) where
  -- The table with empty blocks at its end that are allocated.
  abbrev Longer : Tabled S Block → List Block → Tabled S Block → Type 0
  Longer s added s' =
      (s'.table ≡ record s.table { blocks = s.table.blocks ++ added })
      × Fills methods s.table.block_size 0 added
      × AllLive Live added s'.allocator
      × Later Good Live s.allocator s'.allocator

  add_blocks-Longer :
      (n : ℕ) (s : Tabled S Block)
      → KeepsTokens methods s.table.block_size Good Live
      → Good s.allocator
      → no_blocks s.table.blocks ≡ false
      → Ends
          (λ _ s'. (added : List Block) × (length added ≡ n) × Longer s added s')
          OutOfBlocks
          (add_blocks methods n s)
  unfolding add_blocks
  add_blocks-Longer zero s laws good some = ok-Ends tt s (
    [],
    refl,
    (
      ap (λ bs. record s.table { blocks = bs }) (sym (append-nil s.table.blocks)),
      refl,
      tt,
      Later-refl Good Live s.allocator good,
    ),
  )
  add_blocks-Longer (suc n) s laws good some =
      raise_if-Ends (no_blocks s.table.blocks) assertion_error _ s (λ h. absurd (cc))
        λ _. bind-Ends (on_allocator methods (methods.allocate_mutable s.table.blocks gpu)) _ s (
          on_allocator-Ends methods (methods.allocate_mutable s.table.blocks gpu) s
            (laws.mutable_empty s.table.blocks gpu s.allocator good)
            λ b m (none, live, later).
              let t : Tabled S Block = push_block methods b (record s { allocator = m }) in
              Ends-weaken _
                (λ _ s' (added, counted, (same, empty, lives, later')). (
                  b ∷ added,
                  ap suc counted,
                  (
                    same
                        ∙ ap (λ bs. record s.table { blocks = bs })
                            (append_assoc s.table.blocks (b ∷ []) added),
                    (
                      omega (arith, ap length none),
                      subst (λ k. Fills methods s.table.block_size k added) (omega arith) empty,
                    ),
                    (later'.1 b live, lives),
                    Later-trans Good Live s.allocator m s'.allocator later later',
                  ),
                ))
                (add_blocks-Longer n t laws (later.0)
                  (no_blocks-append s.table.blocks (b ∷ []) some)))

  -- There are enough blocks for the slots.
  abbrev pub Roomy : ℕ → Tabled S Block → Tabled S Block → Type 0
  Roomy num_slots s s' =
      (added : List Block) × Longer s added s'
      × (s.table.num_full_slots + num_slots
          ≤ (length s.table.blocks + length added) * s.table.block_size)

  ensure_num_empty_slots-Roomy :
      (num_slots : ℕ) (s : Tabled S Block)
      → KeepsTokens methods s.table.block_size Good Live
      → Good s.allocator
      → 0 < s.table.block_size
      → no_blocks s.table.blocks ≡ false
      → s.table.num_full_slots ≤ length s.table.blocks * s.table.block_size
      → Ends (λ _ s'. Roomy num_slots s s') OutOfBlocks (ensure_num_empty_slots methods num_slots s)
  unfolding ensure_num_empty_slots
  ensure_num_empty_slots-Roomy num_slots s laws good pos some fits =
      let missing : ℕ = num_slots - num_empty_slots s.table in
      let size : ℕ = s.table.block_size in
      raise_if-Ends (no_blocks s.table.blocks) assertion_error _ s (λ h. absurd (cc))
        λ _.
          if-Ends (leb num_slots (num_empty_slots s.table)) (pure tt) _ s
            (λ enough. ok-Ends tt s (
              [],
              (
                ap (λ bs. record s.table { blocks = bs }) (sym (append-nil s.table.blocks)),
                refl,
                tt,
                Later-refl Good Live s.allocator good,
              ),
              room-kept s.table.num_full_slots num_slots (length s.table.blocks) size fits
                  (ground (arith, enough)),
            ))
            λ _.
              Ends-weaken _
                (λ _ s' (added, counted, longer). (
                  added,
                  longer,
                  room-made s.table.num_full_slots num_slots (length s.table.blocks) (length added)
                      size fits
                      (subst (λ k. missing ≤ k * size) (sym counted)
                        (ceil_div-enough missing size pos)),
                ))
                (add_blocks-Longer (ceil_div missing size) s laws good some)

  -- What the table holds after an append.
  abbrev pub Extended : List ℕ → Tabled S Block → Tabled S Block → Type 0
  Extended token_ids s s' =
      (tokens_in methods s'.table.blocks ≡ tokens_in methods s.table.blocks ++ token_ids)
      × (s'.table.num_full_slots ≡ s.table.num_full_slots + length token_ids)
      × (s'.table.block_size ≡ s.table.block_size)
      × Fills methods s.table.block_size s'.table.num_full_slots s'.table.blocks
      × Owned Good Live s'

  append_ensured-Extended :
      (token_ids : List ℕ) (s : Tabled S Block)
      → KeepsTokens methods s.table.block_size Good Live
      → Owned Good Live s
      → 0 < s.table.block_size
      → Fills methods s.table.block_size s.table.num_full_slots s.table.blocks
      → s.table.num_full_slots + length token_ids ≤ length s.table.blocks * s.table.block_size
      → Ends (λ _ s'. Extended token_ids s s') OutOfBlocks (append_ensured methods token_ids s)
  unfolding append_ensured
  append_ensured-Extended token_ids s laws (good, lives) pos fills room =
      let full : ℕ = s.table.num_full_slots / s.table.block_size in
      let call : Exec S (List Block) =
        append_each methods (drop full s.table.blocks)
          (chunk_token_blocks_for_append s.table token_ids) in
      bind-Ends (on_allocator methods call) _ s (
        on_allocator-Ends methods call s
          (append_each-Fills methods s.table.block_size Good Live laws pos s.table.blocks
            s.table.num_full_slots token_ids s.allocator good lives fills room)
          λ changed m (texts, filled, lives', later).
            ok-Ends tt _ (texts, refl, refl, filled, (later.0, lives')))

  -- An append to the longer table, seen from the table before.
  after_room :
      (token_ids : List ℕ) (s u v : Tabled S Block) (added : List Block)
      → KeepsTokens methods s.table.block_size Good Live
      → 0 < s.table.block_size
      → Longer s added u
      → Extended token_ids u v
      → Extended token_ids s v
  after_room token_ids s u v added laws pos (same, empty, _, _)
        (texts, full, sized, filled, owned) =
      let size : ℕ = s.table.block_size in
      let keeps : u.table.block_size ≡ size = ap (λ x. x.block_size) same in
      (
        texts
            ∙ ap (λ x. tokens_in methods x.blocks ++ token_ids) same
            ∙ ap (λ ys. ys ++ token_ids)
                (tokens_in-append methods s.table.blocks added
                  ∙ ap (λ ys. tokens_in methods s.table.blocks ++ ys)
                      (tokens_in-empty methods size Good Live laws pos added empty)
                  ∙ append-nil (tokens_in methods s.table.blocks)),
        full ∙ ap (λ x. x.num_full_slots + length token_ids) same,
        sized ∙ keeps,
        subst (λ k. Fills methods k v.table.num_full_slots v.table.blocks) keeps filled,
        owned,
      )

  extend_room :
      (token_ids : List ℕ) (s u : Tabled S Block) (added : List Block)
      → KeepsTokens methods s.table.block_size Good Live
      → 0 < s.table.block_size
      → Fills methods s.table.block_size s.table.num_full_slots s.table.blocks
      → AllLive Live s.table.blocks s.allocator
      → Longer s added u
      → s.table.num_full_slots + length token_ids
        ≤ (length s.table.blocks + length added) * s.table.block_size
      → Ends (λ _ v. Extended token_ids u v) OutOfBlocks (append_ensured methods token_ids u)
  extend_room token_ids s u added laws pos fills lives (same, empty, new, later) room =
      let size : ℕ = s.table.block_size in
      let keeps : size ≡ u.table.block_size = sym (ap (λ x. x.block_size) same) in
      append_ensured-Extended token_ids u (subst (λ k. KeepsTokens methods k Good Live) keeps laws)
        (
          later.0,
          subst (λ x. AllLive Live x.blocks u.allocator) (sym same)
              (AllLive-append Live s.table.blocks added u.allocator
                (AllLive-Later Good Live s.table.blocks s.allocator u.allocator later lives) new),
        )
        (subst (λ k. 0 < k) keeps pos)
        (subst (λ x. Fills methods x.block_size x.num_full_slots x.blocks) (sym same)
          (Fills-append methods size s.table.num_full_slots s.table.blocks added fills empty))
        (subst (λ x. x.num_full_slots + length token_ids ≤ length x.blocks * x.block_size)
          (sym same)
          (subst (λ k. s.table.num_full_slots + length token_ids ≤ k * size)
            (sym (length-append s.table.blocks added)) room))

  -- On a table that has blocks and a positive block size, whose full slots are its first ones and whose
  -- blocks are allocated, with an allocator in a good state that keeps the tokens it is given:
  -- appending tokens fails for lack of blocks only. When it returns, the blocks hold what they held
  -- and the new tokens after it, the count of full slots has grown by the new tokens, the full slots
  -- are again the table's first ones, its blocks are allocated, and the allocator's state is good.
  pub append_to_table-extends :
      (token_ids : List ℕ) (num_lookahead_slots : ℕ) (s : Tabled S Block)
      → KeepsTokens methods s.table.block_size Good Live
      → Owned Good Live s
      → 0 < s.table.block_size
      → no_blocks s.table.blocks ≡ false
      → Fills methods s.table.block_size s.table.num_full_slots s.table.blocks
      → Ends
          (λ _ s'. Extended token_ids s s')
          OutOfBlocks
          (append_to_table methods token_ids num_lookahead_slots s)
  unfolding append_to_table
  append_to_table-extends token_ids num_lookahead_slots s laws (good, lives) pos some fills =
      let size : ℕ = s.table.block_size in
      raise_if-Ends (no_blocks s.table.blocks) assertion_error _ s (λ h. absurd (cc))
        λ _.
          bind-Ends (ensure_num_empty_slots methods (length token_ids + num_lookahead_slots)) _ s (
            Ends-weaken _
              (λ _ u (added, longer, room).
                Ends-weaken _ (λ _ v h. after_room token_ids s u v added laws pos longer h)
                  (extend_room token_ids s u added laws pos fills lives longer
                    (omega (arith, room))))
              (ensure_num_empty_slots-Roomy (length token_ids + num_lookahead_slots) s laws good pos
                some (Fills-fits methods size s.table.num_full_slots s.table.blocks fills)))
