-- ===== src/Sequence/Writes.antt =====
-- What a write of tokens does to one logical block and to a row of blocks.
use e_llm.Prelude.{
  ℕ, zero, suc, ◌+◌, ◌-◌, ◌≡◌, refl, sym, ap, ◌∙◌, subst, ◌≤◌, ◌<◌, true, false, Option, none, some,
  List, [], ◌∷◌, ◌++◌, map, length, take, drop, length-replicate, leb, nat_beq, arith, inl, inr,
  Bool-cases,
}
use mathlib.Core.List.{append-nil, append_assoc}
use e_llm.Exec.{ok}
use e_llm.LogicalBlock.{LogicalTokenBlock, new_block, is_full, append_tokens, get_token_ids}
use e_llm.Sequence.{last_of, set_last, when_full, with_room}

-- What a write leaves in the slots.
take-written :
    (n m : ℕ) (ids : List (Option ℕ)) (piece : List ℕ) (rest : List (Option ℕ))
    → m ≡ n + length piece
    → n ≤ length ids
    → take m (take n ids ++ map some piece ++ rest) ≡ take n ids ++ map some piece
take-written zero zero ids [] rest e h = refl
take-written zero (suc m) ids [] rest e h = absurd (omega (arith, e))
take-written zero zero ids (x ∷ piece) rest e h = absurd (omega (arith, e))
take-written zero (suc m) ids (x ∷ piece) rest e h =
    ap (◌∷◌ (some x)) (take-written zero m ids piece rest (omega (arith, e)) (omega arith))
take-written (suc n) m [] piece rest e h = absurd (omega (arith, h))
take-written (suc n) zero (i ∷ ids) piece rest e h = absurd (omega (arith, e))
take-written (suc n) (suc m) (i ∷ ids) piece rest e h =
    ap (◌∷◌ i) (take-written n m ids piece rest (omega (arith, e)) (omega (arith, h)))

length-written :
    (n m : ℕ) (ids : List (Option ℕ)) (piece : List ℕ)
    → m ≡ n + length piece
    → m ≤ length ids
    → length (take n ids ++ map some piece ++ drop m ids) ≡ length ids
length-written zero zero ids [] e h = refl
length-written zero (suc m) ids [] e h = absurd (omega (arith, e))
length-written zero zero ids (x ∷ piece) e h = absurd (omega (arith, e))
length-written zero (suc m) [] (x ∷ piece) e h = absurd (omega (arith, h))
length-written zero (suc m) (i ∷ ids) (x ∷ piece) e h =
    ap suc (length-written zero m ids piece (omega (arith, e)) (omega (arith, h)))
length-written (suc n) zero ids piece e h = absurd (omega (arith, e))
length-written (suc n) (suc m) [] piece e h = absurd (omega (arith, h))
length-written (suc n) (suc m) (i ∷ ids) piece e h =
    ap suc (length-written n m ids piece (omega (arith, e)) (omega (arith, h)))

abbrev pub contents : List LogicalTokenBlock → List (Option ℕ)
contents [] = []
contents (b ∷ blocks) = get_token_ids b ++ contents blocks

abbrev pub IsBlock : ℕ → ℕ → LogicalTokenBlock → Type 0
IsBlock block_size i b =
    (b.block_number ≡ i)
    × (b.block_size ≡ block_size)
    × (length b.token_ids ≡ block_size)
    × (b.num_tokens ≤ block_size)

-- Blocks numbered from `i`, all but the last full.
abbrev pub IsLaidOut : ℕ → ℕ → List LogicalTokenBlock → Type 0
IsLaidOut block_size i [] = Unit {0}
IsLaidOut block_size i (b ∷ []) = IsBlock block_size i b
IsLaidOut block_size i (b ∷ c ∷ blocks) =
    IsBlock block_size i b × (b.num_tokens ≡ block_size) × IsLaidOut block_size (suc i) (c ∷ blocks)

-- A write of a piece that fits into a block.
pub write_lem :
    (bs i : ℕ) (b : LogicalTokenBlock) (piece : List ℕ)
    → IsBlock bs i b
    → length piece ≤ bs - b.num_tokens
    → (b' : LogicalTokenBlock) × (append_tokens piece b ≡ ok b')
      × IsBlock bs i b'
      × (b'.block_number ≡ b.block_number)
      × (b'.num_tokens ≡ b.num_tokens + length piece)
      × (get_token_ids b' ≡ get_token_ids b ++ map some piece)
write_lem bs i b piece (number, size, slots, filled) h = (
  record b {
    token_ids =
        take b.num_tokens b.token_ids
        ++ map some piece
        ++ drop (b.num_tokens + length piece) b.token_ids;
    num_tokens = b.num_tokens + length piece;
  },
  rw (fits (length piece) (b.block_size - b.num_tokens) (omega (arith, size))) refl,
  (
    number,
    size,
    length-written b.num_tokens (b.num_tokens + length piece) b.token_ids piece refl
          (omega (arith, slots))
        ∙ slots,
    omega arith,
  ),
  refl,
  refl,
  take-written b.num_tokens (b.num_tokens + length piece) b.token_ids piece
      (drop (b.num_tokens + length piece) b.token_ids) refl (omega (arith, slots)),
)
  where
    fits : (x y : ℕ) → x ≤ y → leb x y ≡ true
    fits x y k = ground arith

pub set_last_lem :
    (bs i : ℕ) (blocks : List LogicalTokenBlock) (b b' : LogicalTokenBlock) (piece : List ℕ)
    → IsLaidOut bs i blocks
    → last_of blocks ≡ some b
    → ((j : ℕ) → IsBlock bs j b → IsBlock bs j b')
    → get_token_ids b' ≡ get_token_ids b ++ map some piece
    → IsLaidOut bs i (set_last b' blocks)
      × (contents (set_last b' blocks) ≡ contents blocks ++ map some piece)
set_last_lem bs i [] b b' piece laid last keeps wrote = absurd (cc)
set_last_lem bs i (c ∷ []) b b' piece laid last keeps wrote =
    let same : c ≡ b = cc in
    (
      keeps i (subst (IsBlock bs i) same laid),
      append-nil (get_token_ids b')
          ∙ wrote
          ∙ ap (λ (xs : List (Option ℕ)). xs ++ map some piece)
              (sym (append-nil (get_token_ids b))
                ∙ ap (λ (x : LogicalTokenBlock). get_token_ids x ++ []) (sym same)),
    )
set_last_lem bs i (c ∷ d ∷ []) b b' piece (first, full, laid) last keeps wrote =
    let (laid', kept) = set_last_lem bs (suc i) (d ∷ []) b b' piece laid last keeps wrote in
    (
      (first, full, laid'),
      ap (λ (xs : List (Option ℕ)). get_token_ids c ++ xs) kept
          ∙ sym (append_assoc (get_token_ids c) (contents (d ∷ [])) (map some piece)),
    )
set_last_lem bs i (c ∷ d ∷ e ∷ blocks) b b' piece (first, full, laid) last keeps wrote =
    let (laid', kept) = set_last_lem bs (suc i) (d ∷ e ∷ blocks) b b' piece laid last keeps wrote in
    (
      (first, full, laid'),
      ap (λ (xs : List (Option ℕ)). get_token_ids c ++ xs) kept
          ∙ sym (append_assoc (get_token_ids c) (contents (d ∷ e ∷ blocks)) (map some piece)),
    )

-- A fresh block after a full one.
snoc_lem :
    (bs i n : ℕ) (blocks : List LogicalTokenBlock) (l : LogicalTokenBlock)
    → IsLaidOut bs i blocks
    → last_of blocks ≡ some l
    → l.num_tokens ≡ bs
    → n ≡ i + length blocks
    → IsLaidOut bs i (blocks ++ new_block n bs ∷ [])
      × (contents (blocks ++ new_block n bs ∷ []) ≡ contents blocks)
      × (last_of (blocks ++ new_block n bs ∷ []) ≡ some (new_block n bs))
snoc_lem bs i n [] l laid last full e = absurd (cc)
snoc_lem bs i n (c ∷ []) l laid last full e =
    let same : c ≡ l = cc in
    (
      (
        laid,
        ap (λ (b : LogicalTokenBlock). b.num_tokens) same ∙ full,
        (omega (arith, e), refl, length-replicate bs none, omega arith),
      ),
      refl,
      refl,
    )
snoc_lem bs i n (c ∷ d ∷ blocks) l (first, filled, laid) last full e =
    let (laid', kept, ends) =
      snoc_lem bs (suc i) n (d ∷ blocks) l laid last full (omega (arith, e)) in
    ((first, filled, laid'), ap (λ (xs : List (Option ℕ)). get_token_ids c ++ xs) kept, ends)

abbrev Roomy : ℕ → List LogicalTokenBlock → List LogicalTokenBlock → Type 0
Roomy bs blocks blocks' =
    (b : LogicalTokenBlock) × (last_of blocks' ≡ some b)
    × IsLaidOut bs 0 blocks'
    × (contents blocks' ≡ contents blocks)
    × (b.num_tokens < bs)
    × (b.block_size ≡ bs)

pub IsLaidOut-last :
    (bs i : ℕ) (blocks : List LogicalTokenBlock) (b : LogicalTokenBlock)
    → IsLaidOut bs i blocks
    → last_of blocks ≡ some b
    → (j : ℕ) × IsBlock bs j b
IsLaidOut-last bs i [] b laid last = absurd (cc)
IsLaidOut-last bs i (c ∷ []) b laid last =
    let same : c ≡ b = cc in (i, subst (IsBlock bs i) same laid)
IsLaidOut-last bs i (c ∷ d ∷ blocks) b (first, full, laid) last =
    IsLaidOut-last bs (suc i) (d ∷ blocks) b laid last

pub roomy_lem :
    (bs : ℕ) (blocks : List LogicalTokenBlock)
    → 0 < bs
    → IsLaidOut bs 0 blocks
    → Roomy bs blocks (with_room bs blocks)
roomy_lem bs [] h laid = rw (not_full 0 bs h) (
  new_block 0 bs,
  refl,
  (refl, refl, length-replicate bs none, omega arith),
  take-zero bs,
  h,
  refl,
)
  where
    take-zero : (n : ℕ) → contents (new_block 0 n ∷ []) ≡ []
    take-zero n = refl

    not_full : (m n : ℕ) → m < n → nat_beq m n ≡ false
    not_full m n k = ground arith
roomy_lem bs (c ∷ blocks) h laid =
    let (l, last) = last-some c blocks in
    let (j, (number, size, slots, filled)) = IsLaidOut-last bs 0 (c ∷ blocks) l laid last in
    elim (Bool-cases (is_full l)) [
      | inl full ↦
          let (laid', kept, ends) =
            snoc_lem bs 0 (length (c ∷ blocks)) (c ∷ blocks) l laid last
              (ground (arith, full, size)) (omega arith) in
          rw (last, when_full)
            (rw full (new_block (length (c ∷ blocks)) bs, ends, laid', kept, h, refl))
      | inr room ↦
          rw (last, when_full) (rw room (l, last, laid, refl, below l size room filled, size))
    ]
  where
    below :
        (l : LogicalTokenBlock)
        → l.block_size ≡ bs
        → is_full l ≡ false
        → l.num_tokens ≤ bs
        → l.num_tokens < bs
    below l size room filled = ground (arith, size, room, filled)

    last-some :
        (c : LogicalTokenBlock) (blocks : List LogicalTokenBlock)
        → (l : LogicalTokenBlock) × (last_of (c ∷ blocks) ≡ some l)
    last-some c [] = (c, refl)
    last-some c (d ∷ blocks) = last-some d blocks

pub drop-above : (n : ℕ) (xs : List ℕ) → length xs ≤ n → drop n xs ≡ []
drop-above zero [] h = refl
drop-above zero (x ∷ xs) h = absurd (omega (arith, h))
drop-above (suc n) [] h = refl
drop-above (suc n) (x ∷ xs) h = drop-above n xs (omega (arith, h))

pub drop-add : (m n k : ℕ) (xs : List ℕ) → k ≡ m + n → drop k xs ≡ drop n (drop m xs)
drop-add zero n k xs e = ap (λ i. drop i xs) (omega (arith, e))
drop-add (suc m) n zero xs e = absurd (omega (arith, e))
drop-add (suc m) zero (suc k) [] e = refl
drop-add (suc m) (suc n) (suc k) [] e = refl
drop-add (suc m) n (suc k) (x ∷ xs) e = drop-add m n k xs (omega (arith, e))

pub take-drop :
    (n : ℕ) (xs : List ℕ)
    → map some (take n xs) ++ map some (drop n xs) ≡ map {B = Option ℕ} some xs
take-drop zero xs = refl
take-drop (suc n) [] = refl
take-drop (suc n) (x ∷ xs) = ap (◌∷◌ (some x)) (take-drop n xs)

pub length-take : (n : ℕ) (xs : List ℕ) → length (take n xs) ≤ n
length-take zero xs = omega arith
length-take (suc n) [] = omega arith
length-take (suc n) (x ∷ xs) = omega (arith, length-take n xs)
