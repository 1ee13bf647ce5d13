-- ===== src/BlockTable/Appends.antt =====
-- What `append_token_ids` writes into a table.
use e_llm.Prelude.{
  ℕ, zero, suc, ◌+◌, ◌-◌, ◌*◌, ◌/◌, ◌%◌, ◌≤◌, ◌<◌, ◌≡◌, refl, sym, ap, ◌∙◌, subst, List, [], ◌∷◌,
  ◌++◌, length, length-append, take, drop, leb, Bool-cases, inl, inr, arith,
}
use mathlib.Core.List.{append_assoc, append-nil}
use native.Mathlib.Nat.{div-eq-sub-div, div-eq_of_lt, mod-eq_of_lt, mod-eq-sub-mod}
use e_llm.Exec.{pure}
use e_llm.Exec.Outcomes.{Ends, ok-Ends, bind-Ends, Ends-weaken}
use e_llm.BlockTable.{BlockAllocator, chunks_of, chunk_list, append_each, tokens_in}
use e_llm.BlockTable.Chunks.{length-take, length-drop, take-drop}
use e_llm.BlockTable.Contents.{
  KeepsTokens, OutOfBlocks, Fills, Later, AllLive, Later-refl, Later-trans, AllLive-Later,
}

length-nil : (xs : List ℕ) → length xs ≡ 0 → xs ≡ []
length-nil [] h = refl
length-nil (x ∷ xs) h = absurd (omega (arith, h))

drop-nil : {A : Type 0} (n : ℕ) → drop {A = A} n [] ≡ []
drop-nil zero = refl
drop-nil (suc n) = refl

take-nil : {A : Type 0} (n : ℕ) → take {A = A} n [] ≡ []
take-nil zero = refl
take-nil (suc n) = refl

sub-past : (n : ℕ) → 0 - n ≡ 0
sub-past n = omega arith

less-a-block : (n k size : ℕ) → n ≤ suc k * size → n - size ≤ k * size
less-a-block n k size h = grind (arith, h)

module _ {S Block : Type 0} (methods : BlockAllocator S Block) (size : ℕ) (Good : S → Type 0)
    (Live : Block → S → Type 0) (laws : KeepsTokens methods size Good Live) (pos : 0 < size) where
  pub tokens_in-empty :
      (blocks : List Block) → Fills methods size 0 blocks → tokens_in methods blocks ≡ []
  tokens_in-empty [] h = refl
  tokens_in-empty (b ∷ blocks) h =
      ap (λ xs. xs ++ tokens_in methods blocks)
        (length-nil (methods.token_ids b) (omega (arith, h.0)))
      ∙ tokens_in-empty blocks (subst (λ n. Fills methods size n blocks) (sub-past size) (h.1))

  -- The tokens, the layout and the state after the blocks were written from the state s on.
  abbrev pub Holds : List ℕ → ℕ → S → List Block → S → Type 0
  Holds tokens n s blocks s' =
      (tokens_in methods blocks ≡ tokens)
      × Fills methods size n blocks
      × AllLive Live blocks s'
      × Later Good Live s s'

  none-Holds :
      (blocks : List Block) (s : S)
      → Good s
      → AllLive Live blocks s
      → Fills methods size 0 blocks
      → Holds [] 0 s blocks s
  none-Holds blocks s good lives fills =
      (tokens_in-empty blocks fills, fills, lives, Later-refl Good Live s good)

  -- Chunks of a block each, into empty blocks.
  append_each-empty :
      (fuel : ℕ) (blocks : List Block) (tokens : List ℕ) (s : S)
      → Good s
      → AllLive Live blocks s
      → Fills methods size 0 blocks
      → length tokens ≤ length blocks * size
      → length tokens ≤ fuel
      → Ends
          (Holds tokens (length tokens) s)
          OutOfBlocks
          (append_each methods blocks (chunks_of fuel size tokens) s)
  unfolding append_each
  append_each-empty fuel [] [] s good lives fills room enough =
      ok-Ends [] s (none-Holds [] s good lives fills)
  append_each-empty fuel [] (x ∷ xs) s good lives fills room enough = absurd (omega (arith, room))
  append_each-empty zero (b ∷ blocks) [] s good lives fills room enough =
      ok-Ends (b ∷ blocks) s (none-Holds (b ∷ blocks) s good lives fills)
  append_each-empty zero (b ∷ blocks) (x ∷ xs) s good lives fills room enough =
      absurd (omega (arith, enough))
  append_each-empty (suc fuel) (b ∷ blocks) [] s good lives fills room enough =
      ok-Ends (b ∷ blocks) s (none-Holds (b ∷ blocks) s good lives fills)
  append_each-empty (suc fuel) (b ∷ blocks) (x ∷ xs) s good (live, lives) fills room enough =
      let tokens : List ℕ = x ∷ xs in
      let none : methods.token_ids b ≡ [] =
        length-nil (methods.token_ids b) (omega (arith, fills.0)) in
      let dropped : length (drop size tokens) ≡ length tokens - size = length-drop size tokens in
      bind-Ends (methods.append_token_ids b (take size tokens)) _ s (
        Ends-weaken _
          (λ b' u (held, live', later).
            bind-Ends (append_each methods blocks (chunks_of fuel size (drop size tokens)))
              (λ rest. pure (b' ∷ rest)) u
              (Ends-weaken _
                (λ rest v (texts, filled, lives', later').
                  let all : methods.token_ids b' ≡ take size tokens =
                    held ∙ ap (λ ys. ys ++ take size tokens) none in
                  ok-Ends (b' ∷ rest) v (
                    ap (λ ys. ys ++ tokens_in methods rest) all
                        ∙ ap (λ ys. take size tokens ++ ys) texts
                        ∙ take-drop size tokens,
                    (
                      ap length all ∙ length-take size tokens,
                      subst (λ n. Fills methods size n rest) dropped filled,
                    ),
                    (later'.1 b' live', lives'),
                    Later-trans Good Live s u v later later',
                  ))
                (append_each-empty fuel blocks (drop size tokens) u (later.0)
                  (AllLive-Later Good Live blocks s u later lives)
                  (subst (λ n. Fills methods size n blocks) (sub-past size) (fills.1))
                  (subst (λ n. n ≤ length blocks * size) (sym dropped)
                    (less-a-block (length tokens) (length blocks) size room))
                  (omega (arith, dropped, enough, pos)))))
          (laws.append_extends b (take size tokens) s good live
            (omega (arith, ap length none, length-take size tokens))))

  joins :
      (b b' : Block) (rest blocks : List Block) (tokens : List ℕ) (k : ℕ)
      → methods.token_ids b' ≡ methods.token_ids b ++ take k tokens
      → tokens_in methods rest ≡ drop k tokens
      → tokens_in methods blocks ≡ []
      → methods.token_ids b' ++ tokens_in methods rest
        ≡ methods.token_ids b ++ tokens_in methods blocks ++ tokens
  joins b b' rest blocks tokens k held later none =
      ap (λ ys. ys ++ tokens_in methods rest) held
      ∙ append_assoc (methods.token_ids b) (take k tokens) (tokens_in methods rest)
      ∙ ap (λ ys. methods.token_ids b ++ (take k tokens ++ ys)) later
      ∙ ap (λ ys. methods.token_ids b ++ ys) (take-drop k tokens)
      ∙ ap (λ ys. ys ++ tokens) (sym (append-nil (methods.token_ids b)))
      ∙ ap (λ ys. methods.token_ids b ++ ys ++ tokens) (sym none)

  -- The tokens land from the first slot that is not full on.
  abbrev pub Lands : List Block → ℕ → List ℕ → S → Type 0
  Lands blocks n tokens s =
      Ends
        (λ changed s'.
          Holds (tokens_in methods blocks ++ tokens) (n + length tokens) s
            (take (n / size) blocks ++ changed) s')
        OutOfBlocks
        (append_each methods (drop (n / size) blocks)
          (take (size - n % size) tokens ∷ chunk_list (drop (size - n % size) tokens) size) s)

  -- Past a block that is full.
  past-Lands :
      (b : Block) (blocks : List Block) (n : ℕ) (tokens : List ℕ) (s : S)
      → Live b s
      → Fills methods size n (b ∷ blocks)
      → size ≤ n
      → Lands blocks (n - size) tokens s
      → Lands (b ∷ blocks) n tokens s
  past-Lands b blocks n tokens s live fills full landed =
      let next : n / size ≡ suc ((n - size) / size) =
        omega (arith, div-eq-sub-div {m = size} {n = n} pos full) in
      let shift : n - size + length tokens ≡ n + length tokens - size = omega (arith, full) in
      rw (next, mod-eq-sub-mod {n = n} {m = size} full)
        (Ends-weaken _
          (λ changed u (texts, filled, lives, later). (
            ap (λ ys. methods.token_ids b ++ ys) texts
                ∙ sym (append_assoc (methods.token_ids b) (tokens_in methods blocks) tokens),
            (
              omega (arith, fills.0, full),
              subst (λ k. Fills methods size k (take ((n - size) / size) blocks ++ changed)) shift
                  filled,
            ),
            (later.1 b live, lives),
            later,
          ))
          landed)

  -- In the first block and on into empty ones.
  within-Lands :
      (b : Block) (blocks : List Block) (n : ℕ) (tokens : List ℕ) (s : S)
      → Good s
      → AllLive Live (b ∷ blocks) s
      → Fills methods size n (b ∷ blocks)
      → n < size
      → n + length tokens - size ≤ length blocks * size
      → Lands (b ∷ blocks) n tokens s
  unfolding append_each
  within-Lands b blocks n tokens s good (live, lives) fills below fits =
      let start : List ℕ = take (size - n) tokens in
      let later_tokens : List ℕ = drop (size - n) tokens in
      let after : Fills methods size 0 blocks =
        subst (λ k. Fills methods size k blocks) (omega (arith, below)) (fills.1) in
      let taken = length-take (size - n) tokens in
      let dropped = length-drop (size - n) tokens in
      rw (div-eq_of_lt below, mod-eq_of_lt below)
        (bind-Ends (methods.append_token_ids b start) _ s (
          Ends-weaken _
            (λ b' u (held, live', later).
              bind-Ends (append_each methods blocks (chunk_list later_tokens size))
                (λ rest. pure (b' ∷ rest)) u
                (Ends-weaken _
                  (λ rest v (texts, filled, lives', later'). ok-Ends (b' ∷ rest) v (
                    joins b b' rest blocks tokens (size - n) held texts
                        (tokens_in-empty blocks after),
                    (
                      omega (
                        arith,
                        ap length held,
                        length-append (methods.token_ids b) start,
                        taken,
                        fills.0,
                        below,
                      ),
                      subst (λ k. Fills methods size k rest) (omega (arith, dropped, below)) filled,
                    ),
                    (later'.1 b' live', lives'),
                    Later-trans Good Live s u v later later',
                  ))
                  (append_each-empty (length later_tokens) blocks later_tokens u (later.0)
                    (AllLive-Later Good Live blocks s u later lives) after
                    (omega (arith, fits, dropped, below)) (omega arith))))
            (laws.append_extends b start s good live (omega (arith, fills.0, below, taken)))))

  pub append_each-Fills :
      (blocks : List Block) (n : ℕ) (tokens : List ℕ) (s : S)
      → Good s
      → AllLive Live blocks s
      → Fills methods size n blocks
      → n + length tokens ≤ length blocks * size
      → Lands blocks n tokens s
  unfolding append_each
  append_each-Fills [] n tokens s good lives fills room =
      rw (drop-nil (n / size), take-nil (n / size))
        (ok-Ends [] s (
          sym (length-nil tokens (omega (arith, room))),
          omega (arith, room),
          tt,
          Later-refl Good Live s good,
        ))
  append_each-Fills (b ∷ blocks) n tokens s good (live, lives) fills room =
      let fits : n + length tokens - size ≤ length blocks * size =
        less-a-block (n + length tokens) (length blocks) size room in
      elim (Bool-cases (leb size n)) [
        | inl past ↦
            let full : size ≤ n = ground (arith, past) in
            past-Lands b blocks n tokens s live fills full (
              append_each-Fills blocks (n - size) tokens s good lives (fills.1)
                (omega (arith, fits, full)))
        | inr within ↦
            within-Lands b blocks n tokens s good (live, lives) fills (ground (arith, within)) fits
      ]
