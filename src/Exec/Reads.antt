-- ===== src/Exec/Reads.antt =====
-- Actions that leave the state as it is, whether they return or raise.
use e_llm.Prelude.{◌≡◌, refl, Option, none, some, ◌∙◌}
use e_llm.Exec.{Exec, Result, ok, err, Error, or_raise, continue, ◌>>=◌}

module _ {ℓ κ} {S : Type ℓ} {A : Type κ} where
  abbrev pub Reads : Exec S A → Type ℓ
  Reads m = (s : S) → (m s).1 ≡ s

  pub Reads-or_raise : (e : Error) (o : Option A) → Reads (or_raise e o)
  Reads-or_raise e none s = refl
  Reads-or_raise e (some a) s = refl

module _ {ℓ κ μ} {S : Type ℓ} {A : Type κ} {B : Type μ} where
  continue-Reads :
      (r : Result A) (f : A → Exec S B)
      → ((a : A) (s : S) → (f a s).1 ≡ s)
      → (s : S) → (continue r f s).1 ≡ s
  continue-Reads (ok a) f h s = h a s
  continue-Reads (err e) f h s = refl

  pub Reads-bind :
      (m : Exec S A) (f : A → Exec S B)
      → ((s : S) → (m s).1 ≡ s)
      → ((a : A) (s : S) → (f a s).1 ≡ s)
      → (s : S) → ((m >>= f) s).1 ≡ s
  Reads-bind m f h k s = continue-Reads (m s).0 f k (m s).1 ∙ h s
