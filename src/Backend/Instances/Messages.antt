-- ===== src/Backend/Instances/Messages.antt =====
-- backend/app/services/strategy_service.py: what the engine is told, and when.
use forex_bot.Common.{ℕ, ◌≡◌, ◌≢◌, refl, subst, Bool, not, ◌&&◌, ◌||◌, some, List, [], All}
use forex_bot.Common.Cases.{if_case, option_case}
use forex_bot.Common.Text.{codes, text_beq}
use forex_bot.Common.Float.{Float}
use forex_bot.Backend.Gate.{find, can_go_live}
use forex_bot.Backend.Gate.Rows.{Strategy, User, GateAnswer, not_found, decided}
use forex_bot.Backend.Gate.Passes.{Lets}
use forex_bot.Backend.Instances.{
  is_own, has_status, has_broker, is_tv, Outcome, commit, create_instance, touches_risk, update_row,
  dispatch, post, go_live_row, revert_row, start_row, stop_row, kill_row, start_message, on_own,
  serve, gate_db,
}
use forex_bot.Backend.Instances.Rows.{
  Instance, Tables, CreateRequest, UpdateRequest, Message, start_live, stop_live, Around, Call,
  create, update, go_live, revert_to_paper, start, stop, kill,
}
use forex_bot.Backend.Instances.TvParams.{validate_tv_signal_params}
use forex_bot.Backend.Instances.Moves.{status, not_text, is_text, of_not}

module _ {F : Type 0} (ar : Around) (t : Tables F) where
  -- Why a call may send a message.
  abbrev pub Justified : Call F → Message F → Type 0
  Justified (go_live user id) m =
      (i : Instance F) × (find (is_own user.id id) t.instances ≡ some i)
      × (status i ≢ codes "live")
      × (status i ≢ codes "killed")
      × Lets (can_go_live (gate_db t) ar.settings ar.now ar.probe id user)
      × (m
          ≡ start_live i.row.id i.row.broker_account_id i.params i.risk_percent
              i.max_daily_loss_cents)
  Justified (revert_to_paper u id) m =
      (i : Instance F) × (find (is_own u id) t.instances ≡ some i)
      × (status i ≡ codes "live")
      × (m ≡ stop_live i.row.id)
  Justified _ m = ⊥

  abbrev Sends : Call F → Outcome F → Type 0
  Sends c o = All (Justified c) o.2

  commit-Sends :
      (c : Call F) (rows : List (Instance F)) (sent : List (Message F))
      → All (Justified c) sent
      → Sends c (commit ar t rows sent)
  unfolding commit
  commit-Sends c rows sent h = if_case (Sends c) ar.commits _ _ (λ e. h) (λ e. h)

  post-All : (P : Message F → Type 0) (m : Message F) → P m → All P (post ar m).1
  unfolding post
  post-All P m h =
      if_case (λ (o : Bool × List (Message F)). All P o.1) ar.offline _ _ (λ e. tt) (λ e. (h, tt))

  on_own-Sends :
      (c : Call F) (u id : ℕ) (g : Instance F → Outcome F)
      → ((i : Instance F) → find (is_own u id) t.instances ≡ some i → Sends c (g i))
      → Sends c (on_own ar u id t g)
  unfolding on_own
  on_own-Sends c u id g h =
      option_case (Sends c) (find (is_own u id) t.instances) _ g (λ e. tt) (λ i e. h i e)

  update-Sends :
      (c : Call F) (u id : ℕ) (r : UpdateRequest F) (i : Instance F)
      → Sends c (update_row ar u id t r i)
  unfolding update_row
  update-Sends c u id r i =
      if_case (Sends c) (has_status (codes "killed") i) _ _ (λ b. tt)
        (λ k.
          if_case (Sends c) (has_status (codes "live") i && touches_risk r) _ _ (λ b. tt)
            (λ l. commit-Sends c _ [] tt))

  start-Sends : (c : Call F) (u id : ℕ) (i : Instance F) → Sends c (start_row ar u id t i)
  unfolding start_row
  start-Sends c u id i =
      if_case (Sends c) (has_status (codes "killed") i) _ _ (λ b. tt)
        (λ k.
          if_case (Sends c) (has_status (codes "paper") i || has_status (codes "live") i) _ _
            (λ b. tt) (λ l. commit-Sends c _ [] tt))

  stop-Sends : (c : Call F) (u id : ℕ) (i : Instance F) → Sends c (stop_row ar u id t i)
  unfolding stop_row
  stop-Sends c u id i =
      if_case (Sends c) (has_status (codes "killed") i) _ _ (λ b. tt) (λ l. commit-Sends c _ [] tt)

  revert-Sends :
      (u id : ℕ) (i : Instance F)
      → find (is_own u id) t.instances ≡ some i
      → Sends (revert_to_paper u id) (revert_row ar u id t i)
  unfolding revert_row
  revert-Sends u id i e =
      let c = revert_to_paper u id in
      if_case (Sends c) (not (has_status (codes "live") i)) _ _ (λ b. tt)
        (λ l. commit-Sends c _ _ (
          post-All (Justified c) (stop_live i.row.id)
            (i, e, is_text (status i) (codes "live") (of_not _ l), refl)))

  go_live-Sends :
      (user : User) (id : ℕ) (a : GateAnswer) (i : Instance F)
      → a ≡ can_go_live (gate_db t) ar.settings ar.now ar.probe id user
      → find (is_own user.id id) t.instances ≡ some i
      → Sends (go_live user id) (go_live_row ar user.id id t a i)
  unfolding go_live_row dispatch
  go_live-Sends user id (not_found x) i q e =
      if_case (Sends (go_live user id)) (has_status (codes "killed") i) _ _ (λ b. tt) (λ b. tt)
  go_live-Sends user id (decided g) i q e =
      let c = go_live user id in
      if_case (Sends c) (has_status (codes "live") i) _ _ (λ b. tt)
        (λ l.
          if_case (Sends c) (has_status (codes "killed") i) _ _ (λ b. tt)
            (λ k.
              if_case (Sends c) (not g.passed) _ _ (λ b. tt)
                (λ p.
                  let h = post-All (Justified c) (start_message ar user.id id t i) (
                    i,
                    e,
                    not_text (status i) (codes "live") l,
                    not_text (status i) (codes "killed") k,
                    subst Lets q (of_not _ p),
                    refl,
                  ) in
                  if_case (Sends c) (not (post ar (start_message ar user.id id t i)).0) _ _ (λ b. h)
                    (λ b. commit-Sends c _ _ h))))

module _ {F : Type 0} ⦃f : Float F⦄ (ar : Around) (t : Tables F) where
  create-Sends :
      (c : Call F) (u : ℕ) (r : CreateRequest F) → Sends ar t c (create_instance ar u r t)
  unfolding create_instance
  create-Sends c u r =
      let Q = Sends ar t c in
      option_case Q (find (λ (s : Strategy). text_beq s.code r.strategy_code) t.others.strategies) _
        _ (λ e. tt)
        (λ s e.
          if_case Q (not (has_broker t.others u r.broker_account_id)) _ _ (λ b. tt)
            (λ b.
              if_case Q (is_tv s.code && not (validate_tv_signal_params r.params)) _ _ (λ v. tt)
                (λ v. commit-Sends ar t c _ [] tt)))

  -- The engine is told to start an instance only when its owner lets it go live, it is neither live
  -- nor killed, and the gate lets it; and to stop one only when its owner reverts it from live. It is
  -- told with the parameters and limits of the row. No other call tells it anything: neither a stop
  -- nor a kill of a live instance does.
  pub messages_have_reason : (c : Call F) → All (Justified ar t c) (serve ar c t).2
  unfolding serve kill_row
  messages_have_reason (create u r) = create-Sends (create u r) u r
  messages_have_reason (update u id r) =
      on_own-Sends ar t (update u id r) u id _ (λ i e. update-Sends ar t (update u id r) u id r i)
  messages_have_reason (go_live user id) =
      on_own-Sends ar t (go_live user id) user.id id _
        (λ i e. go_live-Sends ar t user id _ i refl e)
  messages_have_reason (revert_to_paper u id) =
      on_own-Sends ar t (revert_to_paper u id) u id _ (λ i e. revert-Sends ar t u id i e)
  messages_have_reason (start u id) =
      on_own-Sends ar t (start u id) u id _ (λ i e. start-Sends ar t (start u id) u id i)
  messages_have_reason (stop u id) =
      on_own-Sends ar t (stop u id) u id _ (λ i e. stop-Sends ar t (stop u id) u id i)
  messages_have_reason (kill u id) =
      on_own-Sends ar t (kill u id) u id _ (λ i e. commit-Sends ar t (kill u id) _ [] tt)
