-- ===== src/Backend/Instances/Tests.antt =====
-- backend/app/services/strategy_service.py: a user who creates, runs and kills an instance.
use forex_bot.Common.{ℕ, ◌≡◌, refl, true, false, none, some, List, [], ◌∷◌, All}
use forex_bot.Common.Int.{pos}
use forex_bot.Common.Text.{codes, text_beq, text_eq}
use forex_bot.Common.Fixed.{Fixed, fixed}
use forex_bot.Common.Result.{ok}
use forex_bot.Backend.Gate.{find}
use forex_bot.Backend.Gate.Rows.{Database}
use forex_bot.Backend.Instances.{
  serve, on_own, kill_row, change, commit, create_instance, stop_row, update_row, revert_row, post,
  accepted,
}
use forex_bot.Backend.Instances.Rows.{
  Instance, Tables, live, CreateRequest, Around, Reply, answered, Call, create, update, start, stop,
  kill, revert_to_paper, stop_live, refused, conflict, locked,
}
use forex_bot.Backend.Instances.Lifecycle.{serve_refines}
use forex_bot.Backend.Instances.Moves.{Follows, Evolves, IsNew}
use forex_bot.Backend.Instances.Messages.{Justified, messages_have_reason}

abbrev around : ℕ → Around
around next_id = record {
  now = 50;
  commits = true;
  offline = false;
  answer = answered 202;
  settings = record {
    live_min_profit_factor = pos 1300;
    live_max_drawdown_pct = pos 25_000;
    live_min_paper_days = 14;
    live_min_paper_trades = 10;
    live_min_account_size_crypto_cents = pos 20_000;
    live_min_account_size_forex_cents = pos 50_000;
  };
  probe = ok true;
  next_id = next_id;
}

abbrev others : Database
others = record {
  instances = [];
  strategies =
      record {
        id = 3;
        code = codes "grid";
        asset_class = codes "gold";
        requires_external_service = false;
      }
      ∷ [];
  brokers =
      record { id = 4; user_id = 1; balance_cached_cents = some (pos 50000); deleted_at = none }
      ∷ [];
  subscriptions = [];
  backtests = [];
  trades = [];
  consents = [];
}

abbrev empty : Tables Fixed
empty = record { instances = []; others = others }

abbrev request : CreateRequest Fixed
request = record {
  strategy_code = codes "grid";
  broker_account_id = 4;
  label = codes "gold grid";
  params = [];
  risk_percent = 100;
  max_daily_loss_cents = 100_000;
  mode = live;
}

abbrev row_9 : Instance Fixed
row_9 = record {
  row = record {
    id = 9;
    user_id = 1;
    strategy_id = 3;
    broker_account_id = 4;
    status = codes "live";
    started_at = none;
    created_at = some 50;
    stopped_at = none;
    deleted_at = none;
  };
  label = codes "gold grid";
  params = [];
  risk_percent = 100;
  max_daily_loss_cents = 100_000;
  kill_switch_armed = true;
  live_started_at = none;
}

abbrev created : Tables Fixed
created = record { instances = row_9 ∷ []; others = others }

-- A request for the mode `live` makes a live row, and the gate is not asked.
created_live : serve (around 9) (create 1 request) empty ≡ (Reply.done, created, [])
unfolding serve create_instance find text_beq commit
created_live = refl

locked_while_live :
    (serve
      (around 9)
      (update 1 9 (record {
        label = none;
        params = none;
        risk_percent = some 500;
        max_daily_loss_cents = none;
      }))
      created).0
    ≡ refused locked
unfolding serve on_own find text_beq update_row
locked_while_live = refl

stop_after_kill :
    (serve (around 9) (stop 1 9) (serve (around 9) (kill 1 9) created).1).0 ≡ refused conflict
unfolding serve on_own find text_beq stop_row kill_row change commit
stop_after_kill = refl

serve_refines_example :
    Follows
      (Evolves (kill 1 9))
      (IsNew (around 10) (kill 1 9))
      (row_9 ∷ [])
      (serve (around 10) (kill 1 9) created).1.instances
serve_refines_example = serve_refines (around 10) created (kill 1 9)

messages_have_reason_example :
    All
      (Justified (around 10) created (revert_to_paper 1 9))
      (serve (around 10) (revert_to_paper 1 9) created).2
messages_have_reason_example = messages_have_reason (around 10) created (revert_to_paper 1 9)

reverted : (serve (around 10) (revert_to_paper 1 9) created).2 ≡ stop_live 9 ∷ []
unfolding serve on_own find text_beq revert_row post accepted commit
reverted = refl

abbrev later : List (Around × Call Fixed)
later = (around 10, start 1 9) ∷ (around 11, create 1 request) ∷ []
