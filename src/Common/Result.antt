-- ===== src/Common/Result.antt =====
-- What a call returns: a value, or the exception that it raises.
use mathlib.Core.Path.{◌≡◌, refl}
use mathlib.Core.Logic.{◌⊎◌, inl, inr}

pub data PyError : Type 0 where
  zero_division : PyError
  value_error : PyError
  runtime_error : PyError
  http_error : PyError

pub data Result (A : Type 0) : Type 0 where
  ok : A → Result A
  err : PyError → Result A

pub Result-cases :
    {A : Type 0} (r : Result A) → ((e : PyError) × (r ≡ err e)) ⊎ ((a : A) × (r ≡ ok a))
Result-cases (err e) = inl (e, refl)
Result-cases (ok a) = inr (a, refl)
