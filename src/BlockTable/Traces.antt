-- ===== src/BlockTable/Traces.antt =====
-- A block table through its life: one `allocate`, then any calls of `append_token_ids`.
use e_llm.Prelude.{
  ℕ, ◌<◌, ◌≡◌, refl, sym, ap, ◌∙◌, subst, false, true, List, [], ◌∷◌, ◌++◌, length, length-append,
  nat_beq, arith,
}
use e_llm.Exec.{Exec, pure, ◌>>◌}
use e_llm.Exec.Outcomes.{Ends, ok-Ends, bind-Ends, Ends-weaken}
use e_llm.BlockTable.{
  BlockAllocator, Tabled, Device, no_blocks, allocate_table, append_to_table, tokens_in,
}
use e_llm.BlockTable.Contents.{KeepsTokens, OutOfBlocks, Fills, Owned}
use e_llm.BlockTable.Allocates.{allocate_table-holds}
use e_llm.BlockTable.Tables.{append_to_table-extends}

-- A call of `append_token_ids`: its tokens and the slots it looks ahead.
abbrev pub Append : Type 0
Append = List ℕ × ℕ

-- The abstract table is the list of its tokens, and an append is `++`.
abbrev pub written : List ℕ → List Append → List ℕ
written tokens [] = tokens
written tokens ((new, _) ∷ calls) = written (tokens ++ new) calls

module _ {S Block : Type 0} (methods : BlockAllocator S Block) (Good : S → Type 0)
    (Live : Block → S → Type 0) where
  -- A table with blocks of `size` slots stands for a list of tokens.
  pub record Represents (size : ℕ) (tokens : List ℕ) (s : Tabled S Block) : Type 0 where
    pub sized : s.table.block_size ≡ size
    pub holds : tokens_in methods s.table.blocks ≡ tokens
    pub counted : s.table.num_full_slots ≡ length tokens
    pub filled : Fills methods size (length tokens) s.table.blocks
    pub owned : Owned Good Live s

module _ {S Block : Type 0} (methods : BlockAllocator S Block) where
  unfoldable pub append_all : List Append → Exec (Tabled S Block) (Unit {0})
  append_all [] = pure tt
  append_all ((new, num_lookahead_slots) ∷ calls) = do
    append_to_table methods new num_lookahead_slots
    append_all calls

  unfoldable pub fill_table : List ℕ → Device → List Append → Exec (Tabled S Block) (Unit {0})
  unfolding append_all
  fill_table prompt device calls = do allocate_table methods prompt device; append_all calls

  some_blocks :
      (size n : ℕ) (blocks : List Block)
      → 0 < n
      → Fills methods size n blocks
      → no_blocks blocks ≡ false
  some_blocks size n [] some fills = absurd (omega (arith, some, fills))
  some_blocks size n (b ∷ blocks) some fills = refl

  module _ (size : ℕ) (Good : S → Type 0) (Live : Block → S → Type 0)
      (laws : KeepsTokens methods size Good Live) (pos : 0 < size) where
    append-Represents :
        (tokens new : List ℕ) (num_lookahead_slots : ℕ) (s : Tabled S Block)
        → Represents methods Good Live size tokens s
        → 0 < length tokens
        → Ends
            (λ _ s'. Represents methods Good Live size (tokens ++ new) s')
            OutOfBlocks
            (append_to_table methods new num_lookahead_slots s)
    append-Represents tokens new num_lookahead_slots s is some =
        let full : s.table.num_full_slots ≡ length tokens = is.counted in
        let same : size ≡ s.table.block_size = sym is.sized in
        Ends-weaken _
          (λ _ s' h.
            let count : s'.table.num_full_slots ≡ length (tokens ++ new) =
              h.1 ∙ omega (arith, full, length-append tokens new) in
            record {
              sized = h.2 ∙ is.sized;
              holds = h.0 ∙ ap (λ xs. xs ++ new) is.holds;
              counted = count;
              filled =
                  subst (λ n. Fills methods size n s'.table.blocks) count
                    (subst (λ k. Fills methods k s'.table.num_full_slots s'.table.blocks) is.sized
                      (h.3));
              owned = h.4;
            })
          (append_to_table-extends methods Good Live new num_lookahead_slots s
            (subst (λ k. KeepsTokens methods k Good Live) same laws) is.owned
            (subst (λ k. 0 < k) same pos)
            (some_blocks size (length tokens) s.table.blocks some is.filled)
            (subst (λ k. Fills methods k s.table.num_full_slots s.table.blocks) same
              (subst (λ n. Fills methods size n s.table.blocks) (sym full) is.filled)))

    append_all-Represents :
        (calls : List Append) (tokens : List ℕ) (s : Tabled S Block)
        → Represents methods Good Live size tokens s
        → 0 < length tokens
        → Ends
            (λ _ s'. Represents methods Good Live size (written tokens calls) s')
            OutOfBlocks
            (append_all calls s)
    unfolding append_all
    append_all-Represents [] tokens s is some = ok-Ends tt s is
    append_all-Represents ((new, num_lookahead_slots) ∷ calls) tokens s is some =
        bind-Ends (append_to_table methods new num_lookahead_slots) _ s (
          Ends-weaken _
            (λ _ t next.
              append_all-Represents calls (tokens ++ new) t next
                (omega (arith, some, length-append tokens new)))
            (append-Represents tokens new num_lookahead_slots s is some))

  -- From a table without blocks and with a positive block size, with an allocator in a good state that
  -- keeps the tokens it is given: one `allocate` of a prompt that is not empty and then any sequence of
  -- appends fails for lack of blocks only. When it returns, the table stands for the prompt followed by
  -- the appended tokens in the order of the calls: its blocks hold them, it counts a full slot for each
  -- of them, these are its first slots, and its block size is as before; its blocks are allocated, and
  -- the allocator's state is good.
  pub fill_table-refines :
      (Good : S → Type 0) (Live : Block → S → Type 0) (prompt : List ℕ) (d : Device)
      (calls : List Append) (s : Tabled S Block)
      → KeepsTokens methods s.table.block_size Good Live
      → Good s.allocator
      → 0 < s.table.block_size
      → no_blocks s.table.blocks ≡ true
      → nat_beq (length prompt) 0 ≡ false
      → Ends
          (λ _ s'. Represents methods Good Live s.table.block_size (written prompt calls) s')
          OutOfBlocks
          (fill_table prompt d calls s)
  unfolding fill_table
  fill_table-refines Good Live prompt d calls s laws good pos none some =
      bind-Ends (allocate_table methods prompt d) _ s (
        Ends-weaken _
          (λ _ t h.
            append_all-Represents s.table.block_size Good Live laws pos calls prompt t
              (record { sized = h.3; holds = h.0; counted = h.2; filled = h.4; owned = h.5 })
              (ground (arith, some)))
          (allocate_table-holds methods prompt d s laws good pos none some))
