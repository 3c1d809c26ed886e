-- ===== src/Common/Cases.antt =====
-- To prove something of a value that a test, an option or a result selects: each case has the
-- equation that selects it.
use mathlib.Core.Path.{◌≡◌, refl}
use mathlib.Core.Bool.{Bool, true, false}
use mathlib.Core.Option.{Option, none, some}
use forex_bot.Common.Tests.{if◌then◌else◌}
use forex_bot.Common.Result.{PyError, Result, ok, err}

module _ {T : Type 0} (Q : T → Type 0) where
  pub if_case : (b : Bool) (x y : T) → (b ≡ true → Q x) → (b ≡ false → Q y) → Q (if b then x else y)
  if_case true x y h k = h refl
  if_case false x y h k = k refl

  pub option_case :
      {A : Type 0} (o : Option A) (x : T) (g : A → T)
      → (o ≡ none → Q x)
      → ((a : A) → o ≡ some a → Q (g a))
      → Q (elim o [ none ↦ x | some a ↦ g a ])
  option_case none x g h k = h refl
  option_case (some a) x g h k = k a refl

  pub result_case :
      {A : Type 0} (r : Result A) (g : PyError → T) (h : A → T)
      → ((e : PyError) → r ≡ err e → Q (g e))
      → ((a : A) → r ≡ ok a → Q (h a))
      → Q (elim r [ err e ↦ g e | ok a ↦ h a ])
  result_case (err e) g h k m = k e refl
  result_case (ok a) g h k m = m a refl
