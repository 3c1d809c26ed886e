-- ===== src/Backend/Instances/Killed.antt =====
-- backend/app/services/strategy_service.py: a killed instance stays killed and is not started.
use forex_bot.Common.{ℕ, ◌≡◌, ◌≢◌, List, [], ◌∷◌, All}
use forex_bot.Common.Text.{Text, codes}
use forex_bot.Common.Float.{Float}
use forex_bot.Backend.Instances.Rows.{Instance, Message, start_live, stop_live}
use forex_bot.Backend.Instances.Moves.{status, Moves}

module _ {F : Type 0} (id : ℕ) where
  -- Every row of the id is killed.
  abbrev pub Dead : List (Instance F) → Type 0
  Dead rows = All (λ i. i.row.id ≡ id → status i ≡ codes "killed") rows

  -- No two rows have the id.
  abbrev pub Single : List (Instance F) → Type 0
  Single [] = Unit
  Single (i ∷ rows) = (i.row.id ≡ id → All (λ j. j.row.id ≢ id) rows) × Single rows

  -- To start the instance of the id.
  abbrev pub StartOf : Message F → Type 0
  StartOf (start_live k _ _ _ _) = k ≡ id
  StartOf (stop_live k) = ⊥
