-- ===== src/Dict/Weight.antt =====
-- A sum over the items of a dict, and how each change moves it.
use e_llm.Prelude.{ℕ, ◌+◌, ◌≤◌, ◌≡◌, false, some, [], ◌∷◌, ◌++◌, Eq, arith}
use e_llm.Dict.{Dict, get, contains, put, remove}
use e_llm.Dict.Laws.{Distinct, remove-fresh}

module _ {ℓ κ} {K : Type ℓ} {V : Type κ} where
  unfoldable pub weight : (K → V → ℕ) → Dict K V → ℕ
  weight f [] = 0
  weight f ((k, v) ∷ m) = f k v + weight f m

  pub weight-append : (f : K → V → ℕ) (m n : Dict K V) → weight f (m ++ n) ≡ weight f m + weight f n
  unfolding weight
  weight-append f [] n = omega arith
  weight-append f ((k, v) ∷ m) n = omega (arith, weight-append f m n)

module _ {ℓ κ} {K : Type ℓ} {V : Type κ} ⦃e : Eq K⦄ (f : K → V → ℕ) where
  pub weight-remove :
      (k : K) (v : V) (m : Dict K V)
      → Distinct m
      → get k m ≡ some v
      → weight f (remove k m) + f k v ≡ weight f m
  unfolding weight get remove
  weight-remove k v [] d h = cc
  weight-remove k v ((j, w) ∷ m) d h =
      ground (arith, weight-remove k v m d.1, remove-fresh k m, e.eqb_iff j k)

  pub weight-put :
      (k : K) (v w : V) (m : Dict K V)
      → get k m ≡ some v
      → weight f (put k w m) + f k v ≡ weight f m + f k w
  unfolding weight get put
  weight-put k v w [] h = cc
  weight-put k v w ((j, u) ∷ m) h = ground (arith, weight-put k v w m, e.eqb_iff j k)

  pub weight-put_fresh :
      (k : K) (w : V) (m : Dict K V)
      → contains k m ≡ false
      → weight f (put k w m) ≡ weight f m + f k w
  unfolding weight contains put
  weight-put_fresh k w [] h = omega arith
  weight-put_fresh k w ((j, u) ∷ m) h = ground (arith, weight-put_fresh k w m)

  pub weight-get : (k : K) (v : V) (m : Dict K V) → get k m ≡ some v → f k v ≤ weight f m
  unfolding weight get
  weight-get k v [] h = absurd (cc)
  weight-get k v ((j, u) ∷ m) h = ground (arith, weight-get k v m, e.eqb_iff j k)
