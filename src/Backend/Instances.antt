-- ===== src/Backend/Instances.antt =====
-- backend/app/services/strategy_service.py: the instances of a user, from creation to the kill.
-- backend/app/services/oms_client.py: `_post`. A transaction that does not commit leaves the tables
-- as they were; what was sent before stays sent. Requests are those that their schemas accept.
-- The tables of audit and of timestamps that no rule reads are left out.
pub mod Rows
pub mod TvParams
pub mod Moves
pub mod Lifecycle
pub mod Messages
pub mod Killed
mod Tests
use forex_bot.Common.{
  ℕ, Bool, true, false, not, ◌&&◌, ◌||◌, Option, none, some, List, [], ◌∷◌, ◌++◌, map, ltb, ◌==◌,
  if◌then◌else◌,
}
use forex_bot.Common.Text.{Text, codes, text_beq}
use forex_bot.Common.Float.{Float}
use forex_bot.Backend.Gate.{find, is_some, is_none, or_else, can_go_live}
use forex_bot.Backend.Gate.Rows.{
  StrategyInstance, Strategy, BrokerAccount, Database, User, GateResult, GateAnswer, not_found,
  decided,
}
use forex_bot.Backend.Instances.Rows.{
  Params, Instance, Tables, Mode, paper, live, CreateRequest, UpdateRequest, Message, start_live,
  stop_live, HttpAnswer, no_answer, answered, ServiceError, strategy_missing, broker_missing,
  instance_missing, invalid_params, conflict, locked, oms_rejected, database_fault, gate_failed,
  Reply, done, refused, Around, Call, create, update, go_live, revert_to_paper, start, stop, kill,
}
use forex_bot.Backend.Instances.TvParams.{validate_tv_signal_params}

-- `TV_STRATEGY_CODES`
abbrev pub is_tv : Text → Bool
is_tv code = text_beq code (codes "tv_signal")

abbrev pub mode_text : Mode → Text
mode_text paper = codes "paper"
mode_text live = codes "live"

abbrev pub or_keep : {A : Type 0} → Option A → A → A
or_keep none a = a
or_keep (some b) a = b

-- Whether `_post` returns, and what it sends.
unfoldable pub accepted : HttpAnswer → Bool
accepted no_answer = false
accepted (answered code) = ltb code 400

unfoldable pub post : {F : Type 0} → Around → Message F → Bool × List (Message F)
post ar m = if ar.offline then (true, []) else (accepted ar.answer, m ∷ [])

-- The row that `_own_instance` finds.
abbrev pub is_own : {F : Type 0} → ℕ → ℕ → Instance F → Bool
is_own user_id id i = i.row.id == id && (i.row.user_id == user_id && is_none i.row.deleted_at)

abbrev pub has_status : {F : Type 0} → Text → Instance F → Bool
has_status s i = text_beq i.row.status s

-- The assignments to the row that was found.
unfoldable pub change :
    {F : Type 0} → ℕ → ℕ → (Instance F → Instance F) → List (Instance F) → List (Instance F)
change user_id id g [] = []
change user_id id g (i ∷ rows) =
    let rest = change user_id id g rows in if is_own user_id id i then g i ∷ rows else i ∷ rest

-- What the gate reads.
abbrev pub gate_db : {F : Type 0} → Tables F → Database
gate_db t = record t.others { instances = map (λ i. i.row) t.instances }

abbrev pub has_broker : Database → ℕ → ℕ → Bool
has_broker db user_id id = is_some (
    find (λ (b : BrokerAccount). b.id == id && (b.user_id == user_id && is_none b.deleted_at))
      db.brokers)

abbrev pub Outcome : Type 0 → Type 0
Outcome F = Reply × Tables F × List (Message F)

-- The end of a transaction.
unfoldable pub commit :
    {F : Type 0} → Around → Tables F → List (Instance F) → List (Message F) → Outcome F
commit ar t rows sent =
    if ar.commits
    then (done, record t { instances = rows }, sent)
    else (refused database_fault, t, sent)

abbrev pub refuse : {F : Type 0} → Tables F → ServiceError → Outcome F
refuse t e = (refused e, t, [])

abbrev pub new_instance : {F : Type 0} → Around → ℕ → Strategy → CreateRequest F → Instance F
new_instance ar user_id s r = record {
  row = record {
    id = ar.next_id;
    user_id = user_id;
    strategy_id = s.id;
    broker_account_id = r.broker_account_id;
    status = mode_text r.mode;
    started_at = none;
    created_at = some ar.now;
    stopped_at = none;
    deleted_at = none;
  };
  label = r.label;
  params = r.params;
  risk_percent = r.risk_percent;
  max_daily_loss_cents = r.max_daily_loss_cents;
  kill_switch_armed = true;
  live_started_at = none;
}

module _ {F : Type 0} ⦃f : Float F⦄ where
  unfoldable pub create_instance : Around → ℕ → CreateRequest F → Tables F → Outcome F
  create_instance ar user_id r t =
      elim (find (λ (s : Strategy). text_beq s.code r.strategy_code) t.others.strategies) [
        | none ↦ refuse t strategy_missing
        | some s ↦
            if not (has_broker t.others user_id r.broker_account_id)
            then refuse t broker_missing
            else if is_tv s.code && not (validate_tv_signal_params r.params)
            then refuse t invalid_params
            else commit ar t (t.instances ++ (new_instance ar user_id s r ∷ [])) []
      ]

-- The keys of `HIGH_RISK_PARAM_KEYS` that are set.
abbrev pub touches_risk : {F : Type 0} → UpdateRequest F → Bool
touches_risk r = is_some r.risk_percent || (is_some r.max_daily_loss_cents || is_some r.params)

abbrev pub updated : {F : Type 0} → UpdateRequest F → Instance F → Instance F
updated r i = record i {
  label = or_keep r.label i.label;
  params = or_keep r.params i.params;
  risk_percent = or_keep r.risk_percent i.risk_percent;
  max_daily_loss_cents = or_keep r.max_daily_loss_cents i.max_daily_loss_cents;
}

abbrev pub to_status : {F : Type 0} → Text → Option ℕ → Option ℕ → Instance F → Instance F
to_status s started stopped i = record i {
  row = record i.row { status = s; started_at = started; stopped_at = stopped };
}

-- To the row that was found, for each of the calls.
module _ {F : Type 0} (ar : Around) (user_id id : ℕ) (t : Tables F) where
  abbrev pub apply : (Instance F → Instance F) → List (Message F) → Outcome F
  apply g sent = commit ar t (change user_id id g t.instances) sent

  unfoldable pub update_row : UpdateRequest F → Instance F → Outcome F
  update_row r i =
      if has_status (codes "killed") i
      then refuse t conflict
      else if has_status (codes "live") i && touches_risk r
      then refuse t locked
      else apply (updated r) []

  abbrev pub went_live : Instance F → Instance F
  went_live i =
      let j = to_status (codes "live") (or_else i.row.started_at (some ar.now)) none i in
      record j { live_started_at = some ar.now }

  abbrev pub start_message : Instance F → Message F
  start_message i =
      start_live i.row.id i.row.broker_account_id i.params i.risk_percent i.max_daily_loss_cents

  -- To the engine, once the gate has passed.
  unfoldable pub dispatch : Instance F → Outcome F
  dispatch i =
      let (ok, sent) = post ar (start_message i) in
      if not ok then (refused oms_rejected, t, sent) else apply went_live sent

  abbrev pub passed_gate : Instance F → GateResult → Outcome F
  passed_gate i g = if not g.passed then refuse t (gate_failed g.failed_checks) else dispatch i

  unfoldable pub go_live_row : GateAnswer → Instance F → Outcome F
  go_live_row (not_found e) i =
      if has_status (codes "killed") i then refuse t conflict else refuse t strategy_missing
  go_live_row (decided g) i =
      if has_status (codes "live") i
      then (done, t, [])
      else if has_status (codes "killed") i
      then refuse t conflict
      else passed_gate i g

  unfoldable pub revert_row : Instance F → Outcome F
  revert_row i =
      if not (has_status (codes "live") i)
      then (done, t, [])
      else let (ok, sent) = post ar (stop_live i.row.id) in
        apply (λ j. to_status (codes "paper") j.row.started_at j.row.stopped_at j) sent

  unfoldable pub start_row : Instance F → Outcome F
  start_row i =
      if has_status (codes "killed") i
      then refuse t conflict
      else if has_status (codes "paper") i || has_status (codes "live") i
      then (done, t, [])
      else apply (to_status (codes "paper") (some ar.now) none) []

  unfoldable pub stop_row : Instance F → Outcome F
  stop_row i =
      if has_status (codes "killed") i
      then refuse t conflict
      else apply (λ j. to_status (codes "stopped") j.row.started_at (some ar.now) j) []

  abbrev pub killed_row : Instance F → Instance F
  killed_row i =
      let j = to_status (codes "killed") i.row.started_at (some ar.now) i in
      record j { kill_switch_armed = false }

  unfoldable pub kill_row : Instance F → Outcome F
  kill_row i = apply killed_row []

  -- `_own_instance`, and then the call.
  unfoldable pub on_own : (Instance F → Outcome F) → Outcome F
  on_own g = elim (find (is_own user_id id) t.instances) [
    | none ↦ refuse t instance_missing
    | some i ↦ g i
  ]

module _ {F : Type 0} ⦃f : Float F⦄ where
  unfoldable pub serve : Around → Call F → Tables F → Outcome F
  serve ar (create user_id r) t = create_instance ar user_id r t
  serve ar (update user_id id r) t = on_own ar user_id id t (update_row ar user_id id t r)
  serve ar (go_live user id) t =
      on_own ar user.id id t
        (go_live_row ar user.id id t (can_go_live (gate_db t) ar.settings ar.now ar.probe id user))
  serve ar (revert_to_paper user_id id) t = on_own ar user_id id t (revert_row ar user_id id t)
  serve ar (start user_id id) t = on_own ar user_id id t (start_row ar user_id id t)
  serve ar (stop user_id id) t = on_own ar user_id id t (stop_row ar user_id id t)
  serve ar (kill user_id id) t = on_own ar user_id id t (kill_row ar user_id id t)

  unfoldable pub serve_all : List (Around × Call F) → Tables F → Tables F × List (Message F)
  serve_all [] t = (t, [])
  serve_all ((ar, c) ∷ cs) t =
      let (r, t1, sent) = serve ar c t in let (t2, later) = serve_all cs t1 in (t2, sent ++ later)
