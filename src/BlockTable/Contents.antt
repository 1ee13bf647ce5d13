-- ===== src/BlockTable/Contents.antt =====
-- The contract of a block allocator, and how the tokens of a table lie in its blocks.
use e_llm.Prelude.{
  ℕ, ◌+◌, ◌-◌, ◌*◌, ◌≤◌, ◌≡◌, refl, sym, ap, ◌∙◌, List, [], ◌∷◌, ◌++◌, length, min, arith,
}
use mathlib.Core.List.{append_assoc}
use e_llm.Exec.{Error, no_free_blocks}
use e_llm.Exec.Outcomes.{Ends}
use e_llm.BlockTable.{Tabled, BlockAllocator, Device, tokens_in}

abbrev pub OutOfBlocks : Error → Type 0
OutOfBlocks e = e ≡ no_free_blocks

module _ {S Block : Type 0} (Live : Block → S → Type 0) where
  abbrev pub AllLive : List Block → S → Type 0
  AllLive [] s = Unit {0}
  AllLive (block ∷ blocks) s = Live block s × AllLive blocks s

-- `Good` holds of the allocator's states, `Live` of a block that is allocated in a state.
module _ {S Block : Type 0} (Good : S → Type 0) (Live : Block → S → Type 0) where
  -- A state after another: what was allocated still is.
  abbrev pub Later : S → S → Type 0
  Later s s' = Good s' × ((block : Block) → Live block s → Live block s')

  abbrev pub Owned : Tabled S Block → Type 0
  Owned s = Good s.allocator × AllLive Live s.table.blocks s.allocator

  -- What a method that gives a block promises: its tokens, and that it is allocated.
  abbrev pub Gives : BlockAllocator S Block → List ℕ → S → Block → S → Type 0
  Gives methods tokens s block s' = (methods.token_ids block ≡ tokens) × Live block s' × Later s s'

-- What the methods promise of the tokens of an allocated block, when it has room for them. In a good
-- state only a lack of blocks makes them raise.
pub record KeepsTokens {S Block : Type 0} (methods : BlockAllocator S Block) (block_size : ℕ)
    (Good : S → Type 0) (Live : Block → S → Type 0) : Type 0 where
  pub mutable_empty :
      (before : List Block) (d : Device) (s : S)
      → Good s
      → Ends (Gives Good Live methods [] s) OutOfBlocks (methods.allocate_mutable before d s)
  pub immutable_holds :
      (before : List Block) (tokens : List ℕ) (d : Device) (s : S)
      → Good s
      → length tokens ≤ block_size
      → Ends
          (Gives Good Live methods tokens s)
          OutOfBlocks
          (methods.allocate_immutable before tokens d s)
  pub append_extends :
      (block : Block) (tokens : List ℕ) (s : S)
      → Good s
      → Live block s
      → length (methods.token_ids block) + length tokens ≤ block_size
      → Ends
          (Gives Good Live methods (methods.token_ids block ++ tokens) s)
          OutOfBlocks
          (methods.append_token_ids block tokens s)

module _ {S Block : Type 0} (Good : S → Type 0) (Live : Block → S → Type 0) where
  pub Later-refl : (s : S) → Good s → Later Good Live s s
  Later-refl s good = (good, λ block live. live)

  pub Later-trans : (s u v : S) → Later Good Live s u → Later Good Live u v → Later Good Live s v
  Later-trans s u v (good, first) (good', then) =
      (good', λ block live. then block (first block live))

  pub AllLive-Later :
      (blocks : List Block) (s s' : S)
      → Later Good Live s s'
      → AllLive Live blocks s
      → AllLive Live blocks s'
  AllLive-Later [] s s' later all = tt
  AllLive-Later (b ∷ blocks) s s' later (live, all) =
      (later.1 b live, AllLive-Later blocks s s' later all)

module _ {S Block : Type 0} (Live : Block → S → Type 0) where
  pub AllLive-append :
      (xs ys : List Block) (s : S)
      → AllLive Live xs s
      → AllLive Live ys s
      → AllLive Live (xs ++ ys) s
  AllLive-append [] ys s none all = all
  AllLive-append (b ∷ xs) ys s (live, rest) all = (live, AllLive-append xs ys s rest all)

module _ {S Block : Type 0} (methods : BlockAllocator S Block) where
  -- The first n slots are full: each block but the last of them is, and those after it are empty.
  abbrev pub Fills : ℕ → ℕ → List Block → Type 0
  Fills size n [] = n ≡ 0
  Fills size n (b ∷ blocks) =
      (length (methods.token_ids b) ≡ min size n) × Fills size (n - size) blocks

  pub tokens_in-append :
      (xs ys : List Block)
      → tokens_in methods (xs ++ ys) ≡ tokens_in methods xs ++ tokens_in methods ys
  tokens_in-append [] ys = refl
  tokens_in-append (b ∷ xs) ys =
      ap (λ rest. methods.token_ids b ++ rest) (tokens_in-append xs ys)
      ∙ sym (append_assoc (methods.token_ids b) (tokens_in methods xs) (tokens_in methods ys))

  pub Fills-fits :
      (size n : ℕ) (blocks : List Block) → Fills size n blocks → n ≤ length blocks * size
  Fills-fits size n [] h = omega (arith, h)
  Fills-fits size n (b ∷ blocks) h = grind (arith, Fills-fits size (n - size) blocks (h.1))

  -- Empty blocks at the end change nothing.
  pub Fills-append :
      (size n : ℕ) (xs ys : List Block)
      → Fills size n xs
      → Fills size 0 ys
      → Fills size n (xs ++ ys)
  Fills-append size n [] ys h k = rw h k
  Fills-append size n (b ∷ xs) ys h k = (h.0, Fills-append size (n - size) xs ys (h.1) k)
