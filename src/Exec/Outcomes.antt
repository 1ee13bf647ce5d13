-- ===== src/Exec/Outcomes.antt =====
-- What holds of a call that returns, and what of a call that raises, by the call's parts.
use e_llm.Prelude.{if◌then◌else◌, ◌≡◌, refl, sym, subst, Bool, true, false, Option, none, some, ◌≢◌}
use e_llm.Exec.{Error, Result, ok, err, Exec, continue, ◌>>=◌, raise_if, or_raise, out_of_fuel}

module _ {ℓ κ} {S : Type ℓ} {A : Type κ} where
  abbrev pub Outcome : (A → S → Type 0) → (Error → Type 0) → Result A × S → Type 0
  Outcome P Q (ok a, s) = P a s
  Outcome P Q (err e, s) = Q e

  -- P holds of the value and the state of a call that returns, Q of the error of one that raises.
  pub record Ends (P : A → S → Type 0) (Q : Error → Type 0) (ran : Result A × S) : Type 0 where
    pub outcome_of : Outcome P Q ran

abbrev pub Stops : Error → Type 0
Stops e = e ≢ out_of_fuel

module _ {ℓ κ} {S : Type ℓ} {A : Type κ} {P : A → S → Type 0} {Q : Error → Type 0} where
  pub ok-Ends : (a : A) (s : S) → P a s → Ends P Q (ok a, s)
  ok-Ends a s h = record { outcome_of = h }

  pub err-Ends : (e : Error) (s : S) → Q e → Ends P Q (err e, s)
  err-Ends e s h = record { outcome_of = h }

  pub Ends-weaken :
      {P' : A → S → Type 0} (ran : Result A × S)
      → ((a : A) (s : S) → P a s → P' a s)
      → Ends P Q ran
      → Ends P' Q ran
  Ends-weaken (ok a, s) f h = record { outcome_of = f a s h.outcome_of }
  Ends-weaken (err e, s) f h = record { outcome_of = h.outcome_of }

  pub Ends-ok : (ran : Result A × S) (a : A) (s : S) → Ends P Q ran → ran ≡ (ok a, s) → P a s
  Ends-ok ran a s h is = (rw is at h).outcome_of

  pub Ends-err : (ran : Result A × S) (e : Error) (s : S) → Ends P Q ran → ran ≡ (err e, s) → Q e
  Ends-err ran e s h is = (rw is at h).outcome_of

  pub or_raise-Ends :
      (o : Option A) (e : Error) (s : S)
      → Q e
      → ((a : A) → o ≡ some a → P a s)
      → Ends P Q (or_raise e o s)
  or_raise-Ends none e s bad good = record { outcome_of = bad }
  or_raise-Ends (some a) e s bad good = record { outcome_of = good a refl }

module _ {ℓ κ μ} {S : Type ℓ} {A : Type κ} {B : Type μ} {P : B → S → Type 0}
    {Q : Error → Type 0} where
  pub continue-Ends :
      (ran : Result A × S) (f : A → Exec S B)
      → Ends (λ a t. Ends P Q (f a t)) Q ran
      → Ends P Q (continue (ran.0) f (ran.1))
  continue-Ends (ok a, s) f h = h.outcome_of
  continue-Ends (err e, s) f h = record { outcome_of = h.outcome_of }

  -- A call, then what follows it.
  pub bind-Ends :
      (m : Exec S A) (f : A → Exec S B) (s : S)
      → Ends (λ a t. Ends P Q (f a t)) Q (m s)
      → Ends P Q ((m >>= f) s)
  bind-Ends m f s h = continue-Ends (m s) f h

module _ {ℓ κ} {S : Type ℓ} {B : Type κ} {P : B → S → Type 0} {Q : Error → Type 0} where
  -- An assertion, then what follows it.
  pub raise_if-Ends :
      (b : Bool) (e : Error) (m : Unit {0} → Exec S B) (s : S)
      → (b ≡ true → Q e)
      → (b ≡ false → Ends P Q (m tt s))
      → Ends P Q ((raise_if b e >>= m) s)
  raise_if-Ends true e m s bad good = record { outcome_of = bad refl }
  raise_if-Ends false e m s bad good = good refl

  -- A branch.
  pub if-Ends :
      (b : Bool) (m n : Exec S B) (s : S)
      → (b ≡ true → Ends P Q (m s))
      → (b ≡ false → Ends P Q (n s))
      → Ends P Q ((if b then m else n) s)
  if-Ends true m n s then_ends else_ends = then_ends refl
  if-Ends false m n s then_ends else_ends = else_ends refl

module _ {S A B : Type 0} {P : B → S → Type 0} {Q : Error → Type 0} where
  -- A call that leaves the state as it was, then what follows it.
  pub read-Ends :
      {X : A → Type 0} (m : Exec S A) (f : A → Exec S B) (s : S)
      → Ends (λ a t. (t ≡ s) × X a) Q (m s)
      → ((a : A) → X a → Ends P Q (f a s))
      → Ends P Q ((m >>= f) s)
  read-Ends m f s h after =
      bind-Ends m f s (
        Ends-weaken (m s) (λ a t h'. subst (λ u. Ends P Q (f a u)) (sym (h'.0)) (after a (h'.1))) h)
