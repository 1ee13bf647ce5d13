-- ===== src/Exec.antt =====
-- Methods that change an object and may raise. What was written before a raise stays written, so
-- the state comes back beside the error too.
pub mod Reads
pub mod Outcomes
use e_llm.Prelude.{◌≡◌, refl, ◌⊎◌, inl, inr, Bool, true, false, Option, none, some}

-- The classes of exceptions that the modelled code raises.
pub data Error : Type 0 where
  value_error runtime_error key_error index_error assertion_error not_implemented : Error
  no_free_blocks : Error
  -- No exception of the source: a loop that has not ended.
  out_of_fuel : Error
  -- No exception of the source: a negative number of tokens, which the model does not follow.
  negative_tokens : Error

pub data Result {ℓ} (A : Type ℓ) : Type ℓ where
  ok : A → Result A
  err : Error → Result A

abbrev pub Exec {ℓ κ} : Type ℓ → Type κ → Type (ℓ ⊔ κ)
Exec S A = S → Result A × S

module _ {ℓ κ} {S : Type ℓ} {A : Type κ} where
  abbrev pub pure : A → Exec S A
  pure a s = (ok a, s)

  abbrev pub raise : Error → Exec S A
  raise e s = (err e, s)

  abbrev pub gets : (S → A) → Exec S A
  gets f s = (ok (f s), s)

  -- A read that raises where there is nothing.
  abbrev pub or_raise : Error → Option A → Exec S A
  or_raise e none s = (err e, s)
  or_raise e (some a) s = (ok a, s)

module _ {ℓ} {S : Type ℓ} where
  abbrev pub modify : (S → S) → Exec S (Unit {0})
  modify f s = (ok tt, f s)

  -- if test: raise
  abbrev pub raise_if : Bool → Error → Exec S (Unit {0})
  raise_if true e s = (err e, s)
  raise_if false e s = (ok tt, s)

module _ {ℓ κ μ} {S : Type ℓ} {A : Type κ} {B : Type μ} where
  abbrev pub continue : Result A → (A → Exec S B) → Exec S B
  continue (ok a) f s = f a s
  continue (err e) f s = (err e, s)

  infixl 10 ◌>>=◌
  abbrev pub ◌>>=◌ : Exec S A → (A → Exec S B) → Exec S B
  ◌>>=◌ m f s = let (r, s') = m s in continue r f s'

module _ {ℓ μ} {S : Type ℓ} {B : Type μ} where
  infixl 10 ◌>>◌
  abbrev pub ◌>>◌ : Exec S (Unit {0}) → Exec S B → Exec S B
  ◌>>◌ m n = m >>= λ _. n

module _ {ℓ κ} {S : Type ℓ} {A : Type κ} where
  abbrev pub rethrow : Result A → Exec S (Unit {0}) → Exec S A
  rethrow (ok a) handler s = (ok a, s)
  rethrow (err e) handler s = (handler >> raise e) s

  -- try: m; except Exception: handler; raise
  abbrev pub guarded : Exec S A → Exec S (Unit {0}) → Exec S A
  guarded m handler s = let (r, s') = m s in rethrow r handler s'

module _ {ℓ} {A : Type ℓ} where
  pub Result-cases : (ran : Result A) → ((a : A) × (ran ≡ ok a)) ⊎ ((e : Error) × (ran ≡ err e))
  Result-cases (ok a) = inl (a, refl)
  Result-cases (err e) = inr (e, refl)
