-- ===== src/Dict/Keys.antt =====
-- Lists of keys against a dict: which are there, and what is left when all are taken out.
use mathlib.Core.List.{append-nil}
use e_llm.Prelude.{
  ℕ, ◌≡◌, refl, ap, ◌∙◌, true, false, Bool, List, [], ◌∷◌, ◌++◌, Eq, ◌==◌, if◌then◌else◌, arith,
  none, length,
}
use e_llm.Dict.{Dict, get, contains, remove}
use e_llm.Dict.Laws.{contains-remove, contains-append, remove-append, remove-fresh, get-remove}

module _ {ℓ} {K : Type ℓ} ⦃e : Eq K⦄ where
  abbrev pub mem : K → List K → Bool
  mem k [] = false
  mem k (j ∷ ks) = if j == k then true else mem k ks

  abbrev pub Unique : List K → Type 0
  Unique [] = Unit {0}
  Unique (k ∷ ks) = (mem k ks ≡ false) × Unique ks

  pub mem-append :
      (k : K) (ks js : List K) → mem k (ks ++ js) ≡ (if mem k ks then true else mem k js)
  mem-append k [] js = refl
  mem-append k (j ∷ ks) js = ground (arith, mem-append k ks js)

  pub Unique-left : (ks js : List K) → Unique (ks ++ js) → Unique ks
  Unique-left [] js u = tt
  Unique-left (k ∷ ks) js u = (ground (arith, mem-append k ks js, u.0), Unique-left ks js u.1)

  pub Unique-middle : (ks : List K) (k : K) (js : List K) → Unique (ks ++ k ∷ js) → mem k ks ≡ false
  Unique-middle [] k js u = refl
  Unique-middle (j ∷ ks) k js u = ground (
    arith,
    Unique-middle ks k js u.1,
    mem-append j ks (k ∷ js),
    u.0,
    e.eqb_iff j k,
    e.eqb_iff k j,
  )

  pub Unique-append :
      (ks js : List K)
      → Unique ks
      → Unique js
      → ((k : K) → mem k ks ≡ true → mem k js ≡ false)
      → Unique (ks ++ js)
  Unique-append [] js u v apart = v
  Unique-append (k ∷ ks) js u v apart = (
    mem-append k ks js ∙ ground (arith, u.0, apart k, e.eqb_iff k k),
    Unique-append ks js u.1 v (λ j m. apart j (ground arith)),
  )

  pub eq_self : (k : K) → (k == k) ≡ true
  eq_self k = (e.eqb_iff k k).1 refl

module _ {ℓ κ} {K : Type ℓ} {V : Type κ} where
  abbrev pub keys_of : List (K × V) → List K
  keys_of [] = []
  keys_of ((k, _) ∷ d) = k ∷ keys_of d

  -- The items that a loop over keys and values enters.
  abbrev pub made : (K → ℕ → V) → List K → List ℕ → List (K × V)
  made f [] bs = []
  made f (k ∷ ks) [] = []
  made f (k ∷ ks) (b ∷ bs) = (k, f k b) ∷ made f ks bs

  pub made-append :
      (f : K → ℕ → V) (ks : List K) (bs : List ℕ) (k : K) (b : ℕ)
      → length bs ≡ length ks
      → made f (ks ++ k ∷ []) (bs ++ b ∷ []) ≡ made f ks bs ++ (k, f k b) ∷ []
  made-append f [] [] k b h = refl
  made-append f [] (c ∷ bs) k b h = absurd (omega arith)
  made-append f (j ∷ ks) [] k b h = absurd (omega arith)
  made-append f (j ∷ ks) (c ∷ bs) k b h =
      ap (◌∷◌ (j, f j c)) (made-append f ks bs k b (omega arith))

module _ {ℓ κ} {K : Type ℓ} {V : Type κ} ⦃e : Eq K⦄ where
  abbrev pub Present : List K → Dict K V → Type 0
  Present [] d = Unit {0}
  Present (k ∷ ks) d = (contains k d ≡ true) × Present ks d

  abbrev pub Absent : List K → Dict K V → Type 0
  Absent [] d = Unit {0}
  Absent (k ∷ ks) d = (contains k d ≡ false) × Absent ks d

  unfoldable pub remove_all : List K → Dict K V → Dict K V
  remove_all [] d = d
  remove_all (k ∷ ks) d = remove_all ks (remove k d)

  pub Absent-intro :
      (ks : List K) (d : Dict K V)
      → ((k : K) → mem k ks ≡ true → contains k d ≡ false)
      → Absent ks d
  Absent-intro [] d h = tt
  Absent-intro (k ∷ ks) d h =
      (h k (ground (arith, e.eqb_iff k k)), Absent-intro ks d (λ j m. h j (ground arith)))

  pub Present-intro :
      (ks : List K) (d : Dict K V)
      → ((k : K) → mem k ks ≡ true → contains k d ≡ true)
      → Present ks d
  Present-intro [] d h = tt
  Present-intro (k ∷ ks) d h =
      (h k (ground (arith, e.eqb_iff k k)), Present-intro ks d (λ j m. h j (ground arith)))

  pub Present-remove :
      (k : K) (ks : List K) (d : Dict K V)
      → mem k ks ≡ false
      → Present ks d
      → Present ks (remove k d)
  Present-remove k [] d h p = tt
  Present-remove k (j ∷ ks) d h p =
      ground (arith, contains-remove k j d, e.eqb_iff k j, e.eqb_iff j k, Present-remove k ks d)

  pub contains-made :
      (f : K → ℕ → V) (k : K) (ks : List K) (bs : List ℕ)
      → length bs ≡ length ks
      → contains k (made f ks bs) ≡ mem k ks
  unfolding contains
  contains-made f k [] bs h = refl
  contains-made f k (j ∷ ks) [] h = absurd (omega arith)
  contains-made f k (j ∷ ks) (b ∷ bs) h = ground (arith, contains-made f k ks bs (omega arith))

  pub Absent-append :
      (ks js : List K) (d : Dict K V) → Absent (ks ++ js) d → Absent ks d × Absent js d
  Absent-append [] js d h = (tt, h)
  Absent-append (k ∷ ks) js d h = let (a, b) = Absent-append ks js d h.1 in ((h.0, a), b)

  pub remove_all-made :
      (f : K → ℕ → V) (ks : List K) (bs : List ℕ) (d : Dict K V)
      → length bs ≡ length ks
      → Unique ks
      → Absent ks d
      → remove_all ks (d ++ made f ks bs) ≡ d
  unfolding remove_all
  remove_all-made f [] bs d h u a = append-nil d
  remove_all-made f (k ∷ ks) [] d h u a = absurd (omega arith)
  remove_all-made f (k ∷ ks) (b ∷ bs) d h u a =
      ap (remove_all ks) (remove-append k d ((k, f k b) ∷ made f ks bs) ∙ step)
      ∙ remove_all-made f ks bs d (omega arith) u.1 a.1
    where
      step : (remove k d ++ remove k ((k, f k b) ∷ made f ks bs)) ≡ d ++ made f ks bs
      step =
          unfold remove in
          rw (eq_self k) (
            ground (
              arith,
              remove-fresh k d a.0,
              remove-fresh k (made f ks bs) (contains-made f k ks bs (omega arith) ∙ u.0),
            ))

  pub contains-append_made :
      (f : K → ℕ → V) (k : K) (ks : List K) (bs : List ℕ) (d : Dict K V)
      → length bs ≡ length ks
      → contains k (d ++ made f ks bs) ≡ (if contains k d then true else mem k ks)
  contains-append_made f k ks bs d h =
      contains-append k d (made f ks bs)
      ∙ ap (λ (b : Bool). if contains k d then true else b) (contains-made f k ks bs h)

  pub Present-made :
      (f : K → ℕ → V) (js ks : List K) (bs : List ℕ) (d : Dict K V)
      → length bs ≡ length ks
      → ((k : K) → mem k js ≡ true → mem k ks ≡ true)
      → Present js (d ++ made f ks bs)
  Present-made f [] ks bs d h sub = tt
  Present-made f (j ∷ js) ks bs d h sub = (
    contains-append j d (made f ks bs)
        ∙ ground (arith, contains-made f j ks bs h, sub j, eq_self j),
    Present-made f js ks bs d h (λ k m. sub k (ground arith)),
  )

  pub get-remove_all :
      (k : K) (ks : List K) (d : Dict K V)
      → get k (remove_all ks d) ≡ (if mem k ks then none else get k d)
  unfolding remove_all
  get-remove_all k [] d = refl
  get-remove_all k (j ∷ ks) d = ground (arith, get-remove_all k ks (remove j d), get-remove j k d)

  pub contains-remove_all :
      (k : K) (ks : List K) (d : Dict K V)
      → contains k (remove_all ks d) ≡ (if mem k ks then false else contains k d)
  unfolding remove_all
  contains-remove_all k [] d = refl
  contains-remove_all k (j ∷ ks) d =
      ground (arith, contains-remove_all k ks (remove j d), contains-remove j k d)
