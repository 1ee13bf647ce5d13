-- ===== src/Dict/Laws.antt =====
-- What a lookup finds after each change of a dict.
use e_llm.Prelude.{
  ◌∙◌, ◌≡◌, refl, true, false, none, some, [], ◌∷◌, ◌++◌, Eq, ◌==◌, if◌then◌else◌, Bool-cases, inl,
  inr, arith,
}
use e_llm.Dict.{Dict, get, contains, put, remove}

module _ {ℓ κ} {K : Type ℓ} {V : Type κ} ⦃e : Eq K⦄ where
  -- The keys are distinct.
  abbrev pub Distinct : Dict K V → Type 0
  Distinct [] = Unit {0}
  Distinct ((k, v) ∷ m) = (contains k m ≡ false) × Distinct m

  pub get-put :
      (k j : K) (v : V) (m : Dict K V) → get j (put k v m) ≡ (if k == j then some v else get j m)
  unfolding get put
  get-put k j v [] = refl
  get-put k j v ((i, w) ∷ m) =
      ground (arith, e.eqb_iff i k, e.eqb_iff i j, e.eqb_iff k j, get-put k j v m)

  pub get-remove :
      (k j : K) (m : Dict K V) → get j (remove k m) ≡ (if k == j then none else get j m)
  unfolding get remove
  get-remove k j [] = ground arith
  get-remove k j ((i, w) ∷ m) =
      ground (arith, e.eqb_iff i k, e.eqb_iff i j, e.eqb_iff k j, get-remove k j m)

  pub contains-put :
      (k j : K) (v : V) (m : Dict K V)
      → contains j (put k v m) ≡ (if k == j then true else contains j m)
  unfolding contains put
  contains-put k j v [] = refl
  contains-put k j v ((i, w) ∷ m) =
      ground (arith, e.eqb_iff i k, e.eqb_iff i j, e.eqb_iff k j, contains-put k j v m)

  pub contains-remove :
      (k j : K) (m : Dict K V) → contains j (remove k m) ≡ (if k == j then false else contains j m)
  unfolding contains remove
  contains-remove k j [] = ground arith
  contains-remove k j ((i, w) ∷ m) =
      ground (arith, e.eqb_iff i k, e.eqb_iff i j, e.eqb_iff k j, contains-remove k j m)

  pub contains-append :
      (k : K) (m n : Dict K V) → contains k (m ++ n) ≡ (if contains k m then true else contains k n)
  unfolding contains
  contains-append k [] n = refl
  contains-append k ((j, v) ∷ m) n = ground (arith, contains-append k m n)

  pub get-append :
      (k : K) (m n : Dict K V) → get k (m ++ n) ≡ (if contains k m then get k m else get k n)
  unfolding get contains
  get-append k [] n = refl
  get-append k ((j, v) ∷ m) n = ground (arith, get-append k m n)

  pub get-none : (k : K) (m : Dict K V) → contains k m ≡ false → get k m ≡ none
  unfolding get contains
  get-none k [] h = refl
  get-none k ((j, v) ∷ m) h = ground (arith, get-none k m)

  pub get-some : (k : K) (m : Dict K V) → contains k m ≡ true → (v : V) × (get k m ≡ some v)
  unfolding get contains
  get-some k [] h = absurd (cc)
  get-some k ((j, v) ∷ m) h = elim (Bool-cases (j == k)) [
    | inl hit ↦ (v, ground arith)
    | inr miss ↦ let (w, p) = get-some k m (ground arith) in (w, ground arith)
  ]

  pub contains_of_get : (k : K) (v : V) (m : Dict K V) → get k m ≡ some v → contains k m ≡ true
  unfolding get contains
  contains_of_get k v [] h = cc
  contains_of_get k v ((j, w) ∷ m) h = ground (arith, contains_of_get k v m)

  pub put-fresh :
      (k : K) (v : V) (m : Dict K V) → contains k m ≡ false → put k v m ≡ m ++ (k, v) ∷ []
  unfolding contains put
  put-fresh k v [] h = refl
  put-fresh k v ((j, w) ∷ m) h = ground (arith, put-fresh k v m)

  pub remove-fresh : (k : K) (m : Dict K V) → contains k m ≡ false → remove k m ≡ m
  unfolding contains remove
  remove-fresh k [] h = refl
  remove-fresh k ((j, w) ∷ m) h = ground (arith, remove-fresh k m)

  pub remove-append : (k : K) (m n : Dict K V) → remove k (m ++ n) ≡ remove k m ++ remove k n
  unfolding remove
  remove-append k [] n = refl
  remove-append k ((j, w) ∷ m) n = ground (arith, remove-append k m n)

  pub Distinct-put : (k : K) (v : V) (m : Dict K V) → Distinct m → Distinct (put k v m)
  unfolding put
  Distinct-put k v [] d = unfold contains in (refl, tt)
  Distinct-put k v ((j, w) ∷ m) d =
      ground (arith, Distinct-put k v m d.1, contains-put k j v m, e.eqb_iff k j, e.eqb_iff j k)

  pub Distinct-remove : (k : K) (m : Dict K V) → Distinct m → Distinct (remove k m)
  unfolding remove
  Distinct-remove k [] d = tt
  Distinct-remove k ((j, w) ∷ m) d = ground (arith, Distinct-remove k m d.1, contains-remove k j m)

  pub remove-put : (k : K) (v : V) (m : Dict K V) → contains k m ≡ false → remove k (put k v m) ≡ m
  unfolding remove put contains
  remove-put k v [] h = ground (arith, e.eqb_iff k k)
  remove-put k v ((j, w) ∷ m) h = ground (arith, remove-put k v m)

  pub contains-put_same : (k : K) (v : V) (m : Dict K V) → contains k (put k v m) ≡ true
  contains-put_same k v m = contains-put k k v m ∙ ground (arith, e.eqb_iff k k)
