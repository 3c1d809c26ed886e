-- ===== src/Live/Engine/Unseen.antt =====
-- trading-engine/live/engine.py: what the risk manager and the circuit breaker of an engine never
-- learn.
use forex_bot.Common.{
  ℕ, ◌≤◌, ◌==◌, leb, ◌≡◌, refl, ap, ◌∙◌, Bool, true, false, not, ◌&&◌, List, [], ◌∷◌, length, arith,
}
use forex_bot.Common.Cases.{if_case, option_case, result_case}
use forex_bot.Common.Float.{Float, lt, nought}
use forex_bot.Common.Text.{Text}
use forex_bot.Common.Dict.{lookup}
use forex_bot.Common.Result.{Result, ok, err}
use forex_bot.Risk.Manager.{
  RiskState, RiskLimits, RiskDecision, on_equity_update, check_caps, check_correlation,
}
use forex_bot.Risk.Positions.{total_positions, positions_of, count_in, members, bucket_of}
use forex_bot.Live.Breaker.{Verdict, ok_verdict, halt, kill, CircuitBreaker, on_equity}
use forex_bot.Live.Engine.Types.{
  EngineSpec, LiveEngine, Reply, Account, Action, starting, killed, with_status, equity_of, receive,
  init,
}
use forex_bot.Live.Engine.Lifecycle.{
  StartAnswers, StartResult, KillAnswers, Position, seed, connect_bridge, can_start, on_start,
  on_stop, close_mine, close_listed, on_kill,
}
use forex_bot.Live.Engine.Round.{
  RoundAnswers, LoopState, Call, start, stop, kill_call, next_round, step, run, after_beat, is_due,
  tick_heartbeat, trade, kill_from_breaker, obey, round, bar_boundary, note_account, told,
  note_error, refresh_positions_and_equity, resumed,
}
use forex_bot.Live.Engine.Books.{
  on_equity_update-RiskBooks, verdict-realized, Books, receive-Books, on_new_bar-Books,
}

below_cap : (n k : ℕ) → 1 ≤ n → k ≡ 0 → leb n k ≡ true → ⊥
below_cap n k h z t = ground arith

count_in_empty : (ss : List Text) → count_in ss [] ≡ 0
unfolding count_in lookup
count_in_empty [] = refl
count_in_empty (s ∷ ss) = omega (arith, count_in_empty ss)

module _ {F : Type 0} ⦃f : Float F⦄ where
  told-realized :
      (r : Result (Unit {0})) (equity : F) (b : CircuitBreaker F)
      → b.state.realized_pnl_today ≡ nought
      → (told r equity b).state.realized_pnl_today ≡ nought
  unfolding on_equity
  told-realized (err x) equity b h = h
  told-realized (ok u) equity b h = h

  note_account-Books :
      (r : Result (Account F)) (e : LiveEngine F) → Books e → Books (note_account r e)
  unfolding on_equity
  note_account-Books (err x) e b = b
  note_account-Books (ok acct) e b =
      let equity = equity_of acct nought in
      (
        on_equity_update-RiskBooks equity e.risk b.0,
        told-realized (on_equity_update equity e.risk).0 equity e.breaker b.1,
      )

  trade-Books :
      (ans : RoundAnswers F) (l : LoopState F) → Books l.engine → Books (trade ans l).0.engine
  unfolding trade refresh_positions_and_equity
  trade-Books ans l b =
      if_case (λ (r : LoopState F × List (Action F)). Books r.0.engine)
        (lt l.last_bar_ts (bar_boundary ans.now l.engine)) _ _
        (λ h.
          note_account-Books _ _
            (receive-Books ans.account _ (on_new_bar-Books ans.bar (resumed l.engine) b)))
        (λ h. note_account-Books _ _ (receive-Books ans.account (resumed l.engine) b))

  close_mine-Books :
      (close : ℕ → Reply F (Unit {0})) (ps : List Position) (e : LiveEngine F)
      → Books e
      → Books (close_mine close ps e).1.0
  unfolding close_mine
  close_mine-Books close [] e b = b
  close_mine-Books close (p ∷ ps) e b =
      let c = receive-Books (close p.ticket) e b in
      if_case (λ (r : List ℕ × (LiveEngine F × List (Action F))). Books r.1.0)
        (p.magic == e.spec.magic) _ _
        (λ m.
          result_case (λ (r : List ℕ × (LiveEngine F × List (Action F))). Books r.1.0)
            (receive (close p.ticket) e).0 _ _ (λ x r. c)
            (λ u r. close_mine-Books close ps (receive (close p.ticket) e).1 c))
        (λ m. close_mine-Books close ps e b)

  close_listed-Books :
      (close : ℕ → Reply F (Unit {0})) (r : Result (List Position)) (e : LiveEngine F)
      → Books e
      → Books (close_listed close r e).1.0
  unfolding close_listed
  close_listed-Books close (err x) e b = b
  close_listed-Books close (ok ps) e b = close_mine-Books close ps e b

  on_kill-Books :
      (in_loop : Bool) (ans : KillAnswers F) (e : LiveEngine F)
      → Books e
      → Books (on_kill in_loop ans e).1.0
  unfolding on_kill
  on_kill-Books in_loop ans e b =
      let c =
        close_listed-Books ans.close _ _ (receive-Books ans.positions (with_status killed e) b) in
      if_case (λ (r : Result (List ℕ) × (LiveEngine F × List (Action F))). Books r.1.0) in_loop _ _
        (λ h. c) (λ h. c)

  note_error-Books : (r : Result (List ℕ)) (e : LiveEngine F) → Books e → Books (note_error r e)
  note_error-Books (err x) e b = b
  note_error-Books (ok x) e b = b

  obey-Books :
      (v : Verdict) (ans : RoundAnswers F) (l : LoopState F)
      → Books l.engine
      → Books (obey v ans l).0.engine
  unfolding obey kill_from_breaker
  obey-Books ok_verdict ans l b = trade-Books ans l b
  obey-Books halt ans l b = b
  obey-Books kill ans l b = note_error-Books _ _ (on_kill-Books true ans.killing l.engine b)

  round-Books :
      (ans : RoundAnswers F) (l : LoopState F) → Books l.engine → Books (round ans l).0.engine
  unfolding round tick_heartbeat
  round-Books ans l b =
      let c = verdict-realized ans.verdict_at ans.today l.engine.breaker b.1 in
      if_case (λ (r : LiveEngine F × List (Action F)). Books (after_beat ans l r).0.engine)
        (is_due ans.heartbeat_at l.engine.runtime.last_heartbeat_at) _ _
        (λ d. obey-Books _ ans _ (b.0, c)) (λ d. obey-Books _ ans _ (b.0, c))

  seed-Books : (r : Result (Account F)) (e : LiveEngine F) → Books e → Books (seed r e)
  seed-Books (err x) e b = b
  seed-Books (ok acct) e b = b

  connect_bridge-Books :
      (ans : StartAnswers F) (e : LiveEngine F) → Books e → Books (connect_bridge ans e).1
  unfolding connect_bridge
  connect_bridge-Books ans e b =
      let c = receive-Books ans.connect e b in
      result_case (λ (r : Result (Unit {0}) × LiveEngine F). Books r.1) (receive ans.connect e).0 _
        _ (λ x r. c) (λ u r. seed-Books _ _ (receive-Books ans.account (receive ans.connect e).1 c))

  on_start-Books : (ans : StartAnswers F) (e : LiveEngine F) → Books e → Books (on_start ans e).1.0
  unfolding on_start
  on_start-Books ans e b =
      let c = connect_bridge-Books ans (with_status starting e) b in
      if_case (λ (r : StartResult × (LiveEngine F × List (Action F))). Books r.1.0)
        (can_start e.runtime.status) _ _
        (λ s.
          result_case (λ (r : StartResult × (LiveEngine F × List (Action F))). Books r.1.0)
            (connect_bridge ans (with_status starting e)).0 _ _ (λ x r. c) (λ u r. c))
        (λ s. b)

  step-Books : (c : Call F) (l : LoopState F) → Books l.engine → Books (step c l).0.engine
  unfolding step on_stop
  step-Books (start ans) l b = on_start-Books ans l.engine b
  step-Books stop l b = b
  step-Books (kill_call ans) l b = on_kill-Books false ans l.engine b
  step-Books (next_round ans) l b =
      if_case (λ (r : LoopState F × List (Action F)). Books r.0.engine)
        (l.engine.has_thread && not l.engine.stop_evt) _ _ (λ h. round-Books ans l b) (λ h. b)

  run-Books : (cs : List (Call F)) (l : LoopState F) → Books l.engine → Books (run cs l).0.engine
  unfolding run
  run-Books [] l b = b
  run-Books (c ∷ cs) l b = run-Books cs (step c l).0 (step-Books c l b)

  -- A new engine, whose loop has not run.
  abbrev pub fresh : EngineSpec F → F → ℕ → LoopState F
  fresh spec now today = record { engine = init spec now today; last_bar_ts = nought }

  -- Without open positions every cap of at least one lets an order pass.
  check_caps_empty :
      (limits : RiskLimits F) (s : RiskState F) (symbol : Text)
      → s.open_positions ≡ []
      → 1 ≤ limits.max_open_positions
      → 1 ≤ limits.max_positions_per_symbol
      → 1 ≤ limits.correlated_symbol_limit
      → (check_caps limits s symbol).approved ≡ true
  unfolding check_caps check_correlation total_positions lookup
  check_caps_empty limits s symbol h a b c =
      if_case (λ (r : RiskDecision F). r.approved ≡ true)
        (leb limits.max_open_positions (total_positions s.open_positions)) _ _
        (λ t. elim (below_cap _ _ a (ap total_positions h) t) [ ])
        (λ t.
          if_case (λ (r : RiskDecision F). r.approved ≡ true)
            (leb limits.max_positions_per_symbol (length (positions_of symbol s.open_positions))) _
            _ (λ t. elim (below_cap _ _ b (ap (λ d. length (positions_of symbol d)) h) t) [ ])
            (λ t.
              option_case (λ (r : RiskDecision F). r.approved ≡ true) (bucket_of symbol) _ _
                (λ n. refl)
                (λ k n.
                  if_case (λ (r : RiskDecision F). r.approved ≡ true)
                    (leb limits.correlated_symbol_limit (count_in (members k) s.open_positions)) _ _
                    (λ t.
                      elim (below_cap _ _ c
                        (ap (count_in (members k)) h ∙ count_in_empty (members k)) t) [ ])
                    (λ t. refl))))

  -- From its creation on, whatever calls an engine gets and whatever orders the bridge fills or
  -- positions it closes, its risk manager counts no open position and both its managers have a
  -- realized result of 0; so no cap on open positions that allows one ever refuses an order.
  pub managers_stay_blind :
      (spec : EngineSpec F) (now : F) (today : ℕ) (cs : List (Call F)) (limits : RiskLimits F)
      (symbol : Text)
      → 1 ≤ limits.max_open_positions
      → 1 ≤ limits.max_positions_per_symbol
      → 1 ≤ limits.correlated_symbol_limit
      → Books (run cs (fresh spec now today)).0.engine
        × ((check_caps limits (run cs (fresh spec now today)).0.engine.risk.state symbol).approved
            ≡ true)
  unfolding init
  managers_stay_blind spec now today cs limits symbol a b c =
      let k = run-Books cs (fresh spec now today) ((refl, refl), refl) in
      (k, check_caps_empty limits _ symbol k.0.0 a b c)
