-- ===== src/Backend/Instances/Lifecycle.antt =====
-- backend/app/services/strategy_service.py: every call is a move of the life cycle of one instance.
use forex_bot.Common.{ℕ, ◌≡◌, inl, inr, refl, false, not, ◌&&◌, ◌||◌, some, []}
use forex_bot.Common.Cases.{if_case, option_case}
use forex_bot.Common.Text.{codes, text_beq}
use forex_bot.Common.Float.{Float}
use forex_bot.Backend.Gate.{find}
use forex_bot.Backend.Gate.Rows.{Strategy, User, GateAnswer, not_found, decided}
use forex_bot.Backend.Instances.{
  is_own, has_status, has_broker, is_tv, Outcome, create_instance, new_instance, touches_risk,
  updated, to_status, update_row, dispatch, post, go_live_row, revert_row, start_row, stop_row,
  kill_row, went_live, start_message, serve,
}
use forex_bot.Backend.Instances.Rows.{
  Instance, Tables, CreateRequest, UpdateRequest, stop_live, Around, Call, create, update, go_live,
  revert_to_paper, start, stop, kill,
}
use forex_bot.Backend.Instances.TvParams.{validate_tv_signal_params}
use forex_bot.Backend.Instances.Moves.{
  status, Evolves, IsNew, Follows, find_holds, not_text, is_text, Follows-append, commit-Follows,
  Good, refused-Good, on_own-Good, apply-Good, neither, of_not, risk_kept,
}

module _ {F : Type 0} (ar : Around) (t : Tables F) where
  update-Good :
      (u id : ℕ) (r : UpdateRequest F) (i : Instance F)
      → find (is_own u id) t.instances ≡ some i
      → Good ar u id t (update u id r) (update_row ar u id t r i)
  unfolding update_row
  update-Good u id r i e =
      let Q = Good ar u id t (update u id r) in
      let own = find_holds (is_own u id) t.instances i e in
      let stay = refused-Good ar u id t (update u id r) in
      if_case Q (has_status (codes "killed") i) _ _ (λ b. stay)
        (λ k.
          if_case Q (has_status (codes "live") i && touches_risk r) _ _ (λ b. stay)
            (λ l. apply-Good ar u id t (update u id r) (updated r) [] i e (
              inr (
                own,
                (refl, not_text (status i) (codes "killed") k),
                (refl, refl, refl, refl, refl),
                risk_kept r i l,
              ))))

  kill-Good :
      (u id : ℕ) (i : Instance F)
      → find (is_own u id) t.instances ≡ some i
      → Good ar u id t (kill u id) (kill_row ar u id t i)
  unfolding kill_row
  kill-Good u id i e = apply-Good ar u id t (kill u id) _ [] i e (
      inr (
        find_holds (is_own u id) t.instances i e,
        refl,
        (refl, refl, refl, refl, refl),
        inl (refl, refl, refl),
      ))

  stop-Good :
      (u id : ℕ) (i : Instance F)
      → find (is_own u id) t.instances ≡ some i
      → Good ar u id t (stop u id) (stop_row ar u id t i)
  unfolding stop_row
  stop-Good u id i e =
      if_case (Good ar u id t (stop u id)) (has_status (codes "killed") i) _ _
        (λ b. refused-Good ar u id t (stop u id))
        (λ k. apply-Good ar u id t (stop u id) _ [] i e (
          inr (
            find_holds (is_own u id) t.instances i e,
            (not_text (status i) (codes "killed") k, refl),
            (refl, refl, refl, refl, refl),
            inl (refl, refl, refl),
          )))

  start-Good :
      (u id : ℕ) (i : Instance F)
      → find (is_own u id) t.instances ≡ some i
      → Good ar u id t (start u id) (start_row ar u id t i)
  unfolding start_row
  start-Good u id i e =
      let Q = Good ar u id t (start u id) in
      let stay = refused-Good ar u id t (start u id) in
      if_case Q (has_status (codes "killed") i) _ _ (λ b. stay)
        (λ k.
          if_case Q (has_status (codes "paper") i || has_status (codes "live") i) _ _ (λ b. stay)
            (λ n.
              let (p, l) = neither _ _ n in
              apply-Good ar u id t (start u id) _ [] i e (
                inr (
                  find_holds (is_own u id) t.instances i e,
                  (
                    not_text (status i) (codes "killed") k,
                    not_text (status i) (codes "paper") p,
                    not_text (status i) (codes "live") l,
                    refl,
                  ),
                  (refl, refl, refl, refl, refl),
                  inl (refl, refl, refl),
                ))))

  revert-Good :
      (u id : ℕ) (i : Instance F)
      → find (is_own u id) t.instances ≡ some i
      → Good ar u id t (revert_to_paper u id) (revert_row ar u id t i)
  unfolding revert_row
  revert-Good u id i e =
      let c = revert_to_paper u id in
      if_case (Good ar u id t c) (not (has_status (codes "live") i)) _ _
        (λ b. refused-Good ar u id t c)
        (λ l.
          apply-Good ar u id t c
            (λ j. to_status (codes "paper") j.row.started_at j.row.stopped_at j)
            (post ar (stop_live i.row.id)).1 i e
            (inr (
              find_holds (is_own u id) t.instances i e,
              (is_text (status i) (codes "live") (of_not _ l), refl),
              (refl, refl, refl, refl, refl),
              inl (refl, refl, refl),
            )))

  dispatch-Good :
      (user : User) (id : ℕ) (i : Instance F)
      → find (is_own user.id id) t.instances ≡ some i
      → has_status (codes "live") i ≡ false
      → has_status (codes "killed") i ≡ false
      → Good ar user.id id t (go_live user id) (dispatch ar user.id id t i)
  unfolding dispatch
  dispatch-Good user id i e l k =
      let c = go_live user id in
      if_case (Good ar user.id id t c) (not (post ar (start_message ar user.id id t i)).0) _ _
        (λ b. refused-Good ar user.id id t c)
        (λ b. apply-Good ar user.id id t c (went_live ar user.id id t) _ i e (
          inr (
            find_holds (is_own user.id id) t.instances i e,
            (not_text (status i) (codes "live") l, not_text (status i) (codes "killed") k, refl),
            (refl, refl, refl, refl, refl),
            inl (refl, refl, refl),
          )))

  go_live-Good :
      (user : User) (id : ℕ) (a : GateAnswer) (i : Instance F)
      → find (is_own user.id id) t.instances ≡ some i
      → Good ar user.id id t (go_live user id) (go_live_row ar user.id id t a i)
  unfolding go_live_row
  go_live-Good user id (not_found x) i e =
      let stay = refused-Good ar user.id id t (go_live user id) in
      if_case (Good ar user.id id t (go_live user id)) (has_status (codes "killed") i) _ _
        (λ b. stay) (λ b. stay)
  go_live-Good user id (decided g) i e =
      let Q = Good ar user.id id t (go_live user id) in
      let stay = refused-Good ar user.id id t (go_live user id) in
      if_case Q (has_status (codes "live") i) _ _ (λ b. stay)
        (λ l.
          if_case Q (has_status (codes "killed") i) _ _ (λ b. stay)
            (λ k. if_case Q (not g.passed) _ _ (λ b. stay) (λ p. dispatch-Good user id i e l k)))

module _ {F : Type 0} ⦃f : Float F⦄ (ar : Around) (t : Tables F) where
  create-Good :
      (u : ℕ) (r : CreateRequest F)
      → Follows
          (Evolves (create u r))
          (IsNew ar (create u r))
          t.instances
          (create_instance ar u r t).1.instances
  unfolding create_instance
  create-Good u r =
      let Q = λ (o : Outcome F).
        Follows (Evolves (create u r)) (IsNew ar (create u r)) t.instances o.1.instances in
      let stay = refused-Good ar u 0 t (create u r) in
      option_case Q (find (λ (s : Strategy). text_beq s.code r.strategy_code) t.others.strategies) _
        _ (λ e. stay)
        (λ s e.
          if_case Q (not (has_broker t.others u r.broker_account_id)) _ _ (λ b. stay)
            (λ b.
              if_case Q (is_tv s.code && not (validate_tv_signal_params r.params)) _ _ (λ v. stay)
                (λ v.
                  commit-Follows (Evolves (create u r)) (IsNew ar (create u r)) (λ i. inl refl) ar t
                    _ []
                    (Follows-append (Evolves (create u r)) (IsNew ar (create u r)) (λ i. inl refl)
                      t.instances (new_instance ar u s r) (refl, refl, refl)))))

  -- Every call, on every branch, refines the life cycle: it leaves each row as it is, or it is a call
  -- on that row, which its caller owns and which is not deleted, and moves its status as the life
  -- cycle allows: an update keeps it, unless killed; going live is from neither live nor killed;
  -- reverting is from live to paper; a start is from stopped to paper; a stop is from all but killed;
  -- a kill is from all. Its id, owner, strategy, broker account and deletion stay, and its parameters
  -- and limits of risk too, but for an update of a row that is not live. No row is removed, and a row
  -- that is added is the creator's, with the new id and the mode of the request.
  pub serve_refines :
      (c : Call F) → Follows (Evolves c) (IsNew ar c) t.instances (serve ar c t).1.instances
  unfolding serve
  serve_refines (create u r) = create-Good u r
  serve_refines (update u id r) =
      on_own-Good ar u id t (update u id r) _ (λ i e. update-Good ar t u id r i e)
  serve_refines (go_live user id) =
      on_own-Good ar user.id id t (go_live user id) _ (λ i e. go_live-Good ar t user id _ i e)
  serve_refines (revert_to_paper u id) =
      on_own-Good ar u id t (revert_to_paper u id) _ (λ i e. revert-Good ar t u id i e)
  serve_refines (start u id) =
      on_own-Good ar u id t (start u id) _ (λ i e. start-Good ar t u id i e)
  serve_refines (stop u id) = on_own-Good ar u id t (stop u id) _ (λ i e. stop-Good ar t u id i e)
  serve_refines (kill u id) = on_own-Good ar u id t (kill u id) _ (λ i e. kill-Good ar t u id i e)
