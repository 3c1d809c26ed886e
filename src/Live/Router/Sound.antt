-- ===== src/Live/Router/Sound.antt =====
-- trading-engine/live/engine.py: an engine whose loop runs keeps a status that the registry takes
-- for live.
use forex_bot.Common.{
  ℕ, ◌≡◌, ◌⊎◌, inl, inr, refl, sym, ap, subst, ◌∙◌, Bool, true, false, not, ◌&&◌, none, some, List,
  arith,
}
use forex_bot.Common.Cases.{if_case, option_case, result_case}
use forex_bot.Common.Text.{text_eq}
use forex_bot.Common.Float.{Float, le, lt, nought}
use forex_bot.Common.Result.{Result, ok, err}
use forex_bot.Risk.Sizing.{round_to_step}
use forex_bot.Live.Breaker.{Verdict, ok_verdict, halt, kill}
use forex_bot.Live.Engine.Types.{
  EngineStatus, idle, starting, running, halted, killed, stopped, EngineRuntime, LiveEngine, Reply,
  no_answer, bad_body, replied, Account, Action, with_status, receive,
}
use forex_bot.Live.Engine.Bar.{
  BarAnswers, SignalRow, Levels, OrderReply, is_flat, answered, place, resize, ask_risk, risk_gate,
  sized, propose, noted, on_signal, on_new_bar,
}
use forex_bot.Live.Engine.Lifecycle.{
  StartAnswers, StartResult, seed, connect_bridge, can_start, on_start, on_stop, on_kill,
}
use forex_bot.Live.Engine.Round.{
  RoundAnswers, LoopState, Call, start, stop, kill_call, next_round, step, after_beat, is_due,
  tick_heartbeat, trade, kill_from_breaker, obey, round, bar_boundary, note_account,
  refresh_positions_and_equity, resume_status, resumed, note_error,
}
use forex_bot.Live.Engine.Approved.{signals_case}
use forex_bot.Live.Engine.Killed.{receive-runtime, on_kill-IsDead}
use forex_bot.Live.Router.{is_live}

resume-live : (s : EngineStatus) → is_live s ≡ true → is_live (resume_status s) ≡ true
unfolding is_live
resume-live running h = refl
resume-live starting h = refl
resume-live halted h = refl
resume-live idle h = h
resume-live killed h = h
resume-live stopped h = h

at_rest :
    (s : EngineStatus)
    → can_start s ≡ true
    → (b : Bool) → (is_live s ≡ true) ⊎ (b ≡ false)
    → b ≡ false
unfolding can_start is_live
at_rest idle c b h = ground arith
at_rest stopped c b h = ground arith
at_rest starting c b h = cc
at_rest running c b h = cc
at_rest halted c b h = cc
at_rest killed c b h = cc

pub running_is_live : (live b : Bool) → b ≡ true → (live ≡ true) ⊎ (b ≡ false) → live ≡ true
running_is_live live b h s = ground arith

pub some_is : {A : Type 0} (a b : A) → some a ≡ some b → a ≡ b
some_is a b h = cc

pub true_is_not_false : true ≡ false → ⊥
true_is_not_false h = cc

pub nothing_there : {A : Type 0} (a : A) → none ≡ some a → ⊥
nothing_there a h = cc

module _ {F : Type 0} ⦃f : Float F⦄ where
  abbrev pub Keeps : EngineStatus → LiveEngine F × List (Action F) → Type 0
  Keeps s r = r.0.runtime.status ≡ s

  received :
      {A : Type 0} (r : Reply F A) (e : LiveEngine F)
      → (receive r e).1.runtime.status ≡ e.runtime.status
  received r e = ap (λ (t : EngineRuntime F). t.status) (receive-runtime r e)

  answered-Keeps :
      (ans : BarAnswers F) (lv : Levels F) (size : F) (r : Result (OrderReply F)) (e : LiveEngine F)
      → Keeps e.runtime.status (answered ans lv size r e)
  unfolding answered
  answered-Keeps ans lv size (err x) e = refl
  answered-Keeps ans lv size (ok r) e =
      if_case (Keeps e.runtime.status) r.success _ _ (λ h. refl) (λ h. refl)

  place-Keeps :
      (ans : BarAnswers F) (s : SignalRow F) (lv : Levels F) (size : F) (e : LiveEngine F)
      → Keeps e.runtime.status (place ans s lv size e)
  unfolding place
  place-Keeps ans s lv size e =
      answered-Keeps ans lv size (receive ans.order e).0 (receive ans.order e).1
      ∙ received ans.order e

  risk_gate-Keeps :
      (ans : BarAnswers F) (s : SignalRow F) (lv : Levels F) (size : F) (e : LiveEngine F)
      → Keeps e.runtime.status (risk_gate ans s lv size e)
  unfolding risk_gate resize
  risk_gate-Keeps ans s lv size e =
      let e1 = record e { risk = (ask_risk ans lv size e).1 } in
      let K = Keeps e.runtime.status in
      result_case (Keeps e.runtime.status) (ask_risk ans lv size e).0 _ _ (λ x r. refl)
        (λ d q.
          if_case (Keeps e.runtime.status) (not d.approved) _ _ (λ a. refl)
            (λ a.
              option_case (Keeps e.runtime.status) d.adjusted_size _ _
                (λ n. place-Keeps ans s lv size e1)
                (λ y n.
                  result_case (Keeps e.runtime.status)
                    (round_to_step y e.spec.lot_step e.spec.min_lot) _ _ (λ x r. refl)
                    (λ lot r. place-Keeps ans s lv lot e1))))

  propose-Keeps :
      (ans : BarAnswers F) (s : SignalRow F) (lv : Levels F) (e : LiveEngine F)
      → Keeps e.runtime.status (propose ans s lv e)
  unfolding propose
  propose-Keeps ans s lv e =
      result_case (Keeps e.runtime.status) (sized s lv e) _ _ (λ x r. refl)
        (λ size q.
          if_case (Keeps e.runtime.status) (le size nought) _ _ (λ z. refl)
            (λ z. risk_gate-Keeps ans s lv size e))

  on_new_bar-Keeps :
      (ans : BarAnswers F) (e : LiveEngine F) → Keeps e.runtime.status (on_new_bar ans e)
  unfolding on_new_bar on_signal
  on_new_bar-Keeps ans e = signals_case (Keeps e.runtime.status) ans.signals _ _ _ refl refl (λ s q.
      if_case (Keeps e.runtime.status) (is_flat s.direction) _ _ (λ z. refl)
        (λ z.
          option_case (Keeps e.runtime.status) s.levels _ _ (λ n. refl)
            (λ lv n. propose-Keeps ans s lv (noted ans e))))

  note_account-status :
      (r : Result (Account F)) (e : LiveEngine F)
      → (note_account r e).runtime.status ≡ e.runtime.status
  note_account-status (err x) e = refl
  note_account-status (ok a) e = refl

  -- A loop that runs belongs to an engine with a live status.
  abbrev pub Sound : LiveEngine F → Type 0
  Sound e = (is_live e.runtime.status ≡ true) ⊎ ((e.has_thread && not e.stop_evt) ≡ false)

  stopped_loop : (e : LiveEngine F) → e.stop_evt ≡ true → (e.has_thread && not e.stop_evt) ≡ false
  stopped_loop e h = ground arith

  trade-live :
      (ans : RoundAnswers F) (l : LoopState F)
      → is_live l.engine.runtime.status ≡ true
      → is_live (trade ans l).0.engine.runtime.status ≡ true
  unfolding trade refresh_positions_and_equity
  trade-live ans l h =
      let e = resumed l.engine in
      let e1 = (on_new_bar ans.bar e).0 in
      let r = resume-live l.engine.runtime.status h in
      if_case (λ (r : LoopState F × List (Action F)). is_live r.0.engine.runtime.status ≡ true)
        (lt l.last_bar_ts (bar_boundary ans.now l.engine)) _ _
        (λ b.
          subst (λ s. is_live s ≡ true)
            (sym (
              note_account-status (receive ans.account e1).0 (receive ans.account e1).1
              ∙ (received ans.account e1 ∙ on_new_bar-Keeps ans.bar e)))
            r)
        (λ b.
          subst (λ s. is_live s ≡ true)
            (sym (
              note_account-status (receive ans.account e).0 (receive ans.account e).1
              ∙ received ans.account e))
            r)

  note_error-flags :
      (r : Result (List ℕ)) (e : LiveEngine F)
      → e.stop_evt ≡ true
      → (note_error r e).stop_evt ≡ true
  note_error-flags (err x) e h = h
  note_error-flags (ok x) e h = h

  obey-Sound :
      (v : Verdict) (ans : RoundAnswers F) (l : LoopState F)
      → is_live l.engine.runtime.status ≡ true
      → Sound (obey v ans l).0.engine
  unfolding obey kill_from_breaker is_live
  obey-Sound ok_verdict ans l h = inl (trade-live ans l h)
  obey-Sound halt ans l h = inl refl
  obey-Sound kill ans l h =
      let k = on_kill true ans.killing l.engine in
      inr (
        stopped_loop (note_error k.0 k.1.0)
          (note_error-flags k.0 k.1.0 (on_kill-IsDead true ans.killing l.engine).1))

  round-Sound :
      (ans : RoundAnswers F) (l : LoopState F)
      → is_live l.engine.runtime.status ≡ true
      → Sound (round ans l).0.engine
  unfolding round tick_heartbeat
  round-Sound ans l h =
      if_case (λ (b : LiveEngine F × List (Action F)). Sound (after_beat ans l b).0.engine)
        (is_due ans.heartbeat_at l.engine.runtime.last_heartbeat_at) _ _ (λ d. obey-Sound _ ans _ h)
        (λ d. obey-Sound _ ans _ h)

  -- The loop of the engine, as `step` asks for it.
  abbrev pub runs : LiveEngine F → Bool
  runs e = e.has_thread && not e.stop_evt

  receive-runs : {A : Type 0} (r : Reply F A) (e : LiveEngine F) → runs (receive r e).1 ≡ runs e
  unfolding receive
  receive-runs no_answer e = refl
  receive-runs (bad_body t) e = refl
  receive-runs (replied t a) e = refl

  seed-runs : (r : Result (Account F)) (e : LiveEngine F) → runs (seed r e) ≡ runs e
  seed-runs (err x) e = refl
  seed-runs (ok a) e = refl

  connect-runs : (ans : StartAnswers F) (e : LiveEngine F) → runs (connect_bridge ans e).1 ≡ runs e
  unfolding connect_bridge
  connect-runs ans e =
      let e1 = (receive ans.connect e).1 in
      result_case (λ (r : Result (Unit {0}) × LiveEngine F). runs r.1 ≡ runs e)
        (receive ans.connect e).0 _ _ (λ x r. receive-runs ans.connect e)
        (λ u r.
          seed-runs (receive ans.account e1).0 (receive ans.account e1).1
          ∙ (receive-runs ans.account e1 ∙ receive-runs ans.connect e))

  pub start-Sound : (ans : StartAnswers F) (e : LiveEngine F) → Sound e → Sound (on_start ans e).1.0
  unfolding on_start is_live
  start-Sound ans e s =
      if_case (λ (r : StartResult × (LiveEngine F × List (Action F))). Sound r.1.0)
        (can_start e.runtime.status) _ _
        (λ c.
          result_case (λ (r : StartResult × (LiveEngine F × List (Action F))). Sound r.1.0)
            (connect_bridge ans (with_status starting e)).0 _ _
            (λ x r.
              inr
                (connect-runs ans (with_status starting e) ∙ at_rest e.runtime.status c (runs e) s))
            (λ u r. inl refl))
        (λ c. s)

  pub step-Sound : (c : Call F) (l : LoopState F) → Sound l.engine → Sound (step c l).0.engine
  unfolding step on_stop
  step-Sound (start ans) l s = start-Sound ans l.engine s
  step-Sound stop l s =
      inr (stopped_loop (with_status stopped (record l.engine { stop_evt = true })) refl)
  step-Sound (kill_call ans) l s =
      inr (stopped_loop (on_kill false ans l.engine).1.0 (on_kill-IsDead false ans l.engine).1)
  step-Sound (next_round ans) l s =
      if_case (λ (r : LoopState F × List (Action F)). Sound r.0.engine) (runs l.engine) _ _
        (λ b. round-Sound ans l (running_is_live _ _ b s)) (λ b. s)
