-- ===== src/Prelude/Sublists.antt =====
-- Lists that are another with elements left out.
use mathlib.Core.List.{List, [], ◌∷◌}

-- The first list is the second with elements left out.
pub data Sublist {ℓ} {A : Type ℓ} : List A → List A → Type ℓ where
  nothing : Sublist [] []
  skips : {xs ys : List A} (y : A) → Sublist xs ys → Sublist xs (y ∷ ys)
  takes : {xs ys : List A} (y : A) → Sublist xs ys → Sublist (y ∷ xs) (y ∷ ys)

module _ {ℓ} {A : Type ℓ} where
  pub Sublist-refl : (xs : List A) → Sublist xs xs
  Sublist-refl [] = nothing
  Sublist-refl (x ∷ xs) = takes x (Sublist-refl xs)

  pub Sublist-trans :
      {ys zs : List A} → Sublist ys zs → {xs : List A} → Sublist xs ys → Sublist xs zs
  Sublist-trans nothing h = h
  Sublist-trans (skips z k) h = skips z (Sublist-trans k h)
  Sublist-trans (takes _ k) (skips y h) = skips y (Sublist-trans k h)
  Sublist-trans (takes _ k) (takes y h) = takes y (Sublist-trans k h)
