-- ===== src/Backend/Gate/Passes.antt =====
-- backend/app/services/live_gate_service.py: when an instance may go live.
use forex_bot.Common.{ℕ, ◌≡◌, Bool, true, false, ◌==◌, All, Any}
use forex_bot.Common.Result.{Result}
use forex_bot.Backend.Subscription.{Subscription, Entitled}
use forex_bot.Backend.Gate.{count, or_else, killed_since, broker_of}
use forex_bot.Backend.Gate.Rows.{
  User, Strategy, StrategyInstance, Database, Settings, GateAnswer, not_found, decided,
}
use forex_bot.Backend.Gate.Conditions.{IsGiven, Qualifies, TrackRecord, Consents, Funded, Served}

-- Everything that the nine checks ask for.
abbrev pub Ready :
    Database → Settings → ℕ → Result Bool → User → StrategyInstance → Strategy → Type 0
Ready db set now probe user i s =
    IsGiven user.email_verified_at
    × IsGiven user.totp_secret
    × Entitled true now db.subscriptions user.id
    × Any (Qualifies set user.id s.id) db.backtests
    × TrackRecord set now (count (λ t. t == i.id) db.trades) (or_else i.started_at i.created_at)
    × Any (Consents user.id s.code) db.consents
    × Funded set s.asset_class (broker_of db i)
    × All (λ j. killed_since now user.id j ≡ false) db.instances
    × Served probe s

-- The answer of the gate is a result that passed.
abbrev pub Lets : GateAnswer → Type 0
Lets (not_found e) = ⊥
Lets (decided r) = r.passed ≡ true
