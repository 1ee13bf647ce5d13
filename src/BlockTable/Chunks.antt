-- ===== src/BlockTable/Chunks.antt =====
-- The chunks of a list of tokens.
use e_llm.Prelude.{
  ℕ, zero, suc, ◌-◌, ◌≤◌, ◌<◌, ◌≡◌, refl, sym, ap, ◌∙◌, List, [], ◌∷◌, ◌++◌, length, take, drop,
  arith, min,
}
use e_llm.KvMap.{ceil_div}
use e_llm.BlockTable.{chunks_of}

abbrev pub joined : List (List ℕ) → List ℕ
joined [] = []
joined (chunk ∷ chunks) = chunk ++ joined chunks

pub take-drop : (n : ℕ) (xs : List ℕ) → take n xs ++ drop n xs ≡ xs
take-drop zero xs = refl
take-drop (suc n) [] = refl
take-drop (suc n) (x ∷ xs) = ap (◌∷◌ x) (take-drop n xs)

pub length-drop : (n : ℕ) (xs : List ℕ) → length (drop n xs) ≡ length xs - n
length-drop zero xs = omega arith
length-drop (suc n) [] = omega arith
length-drop (suc n) (x ∷ xs) = omega (arith, length-drop n xs)

pub length-take : (n : ℕ) (xs : List ℕ) → length (take n xs) ≡ min n (length xs)
length-take zero xs = omega arith
length-take (suc n) [] = omega arith
length-take (suc n) (x ∷ xs) = omega (arith, length-take n xs)

pub joined-chunks_of :
    (fuel size : ℕ) (xs : List ℕ)
    → 0 < size
    → length xs ≤ fuel
    → joined (chunks_of fuel size xs) ≡ xs
joined-chunks_of zero size [] pos enough = refl
joined-chunks_of zero size (x ∷ xs) pos enough = absurd (omega arith)
joined-chunks_of (suc fuel) size [] pos enough = refl
joined-chunks_of (suc fuel) size (x ∷ xs) pos enough =
    ap (λ rest. take size (x ∷ xs) ++ rest)
      (joined-chunks_of fuel size (drop size (x ∷ xs)) pos
        (omega (arith, length-drop size (x ∷ xs))))
    ∙ take-drop size (x ∷ xs)

ceil_div-step : (n size : ℕ) → 0 < size → 0 < n → ceil_div n size ≡ suc (ceil_div (n - size) size)
ceil_div-step n size pos some = grind arith

pub ceil_div-zero : (size : ℕ) → 0 < size → ceil_div 0 size ≡ 0
ceil_div-zero size pos = grind arith

pub length-chunks_of :
    (fuel size : ℕ) (xs : List ℕ)
    → 0 < size
    → length xs ≤ fuel
    → length (chunks_of fuel size xs) ≡ ceil_div (length xs) size
length-chunks_of zero size [] pos enough = sym (ceil_div-zero size pos)
length-chunks_of zero size (x ∷ xs) pos enough = absurd (omega arith)
length-chunks_of (suc fuel) size [] pos enough = sym (ceil_div-zero size pos)
length-chunks_of (suc fuel) size (x ∷ xs) pos enough =
    ap suc (
      length-chunks_of fuel size (drop size (x ∷ xs)) pos (omega (arith, length-drop size (x ∷ xs)))
      ∙ ap (λ n. ceil_div n size) (length-drop size (x ∷ xs)))
    ∙ sym (ceil_div-step (length (x ∷ xs)) size pos (omega arith))
