-- ===== src/Prelude/Step.antt =====
-- A call that changes the state and can fail; what it changed stays changed when it fails.
use oasis_modbus2mqtt.Prelude.Errors.{Result, ok, err}

abbrev pub Step : Type 0 → Type 0 → Type 0
Step S A = S → Result A × S

module _ {S A : Type 0} where
  abbrev pub pure : A → Step S A
  pure a s = (ok a, s)

  abbrev pub gets : (S → A) → Step S A
  gets f s = (ok (f s), s)

infixl 5 ◌>>=◌
abbrev pub ◌>>=◌ : {S A B : Type 0} → Step S A → (A → Step S B) → Step S B
◌>>=◌ m f s = let (r, t) = m s in elim r [ ok a ↦ f a t | err e ↦ (err e, t) ]
