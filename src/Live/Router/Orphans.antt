-- ===== src/Live/Router/Orphans.antt =====
-- trading-engine/live/router.py: no loop is left running without its engine in the registry.
use forex_bot.Common.{
  ℕ, ◌≡◌, inl, inr, refl, sym, ap, subst, ◌∙◌, true, not, ◌&&◌, Option, none, some, List, [], ◌∷◌,
  if◌then◌else◌, Bool-cases,
}
use forex_bot.Common.Cases.{if_case}
use forex_bot.Common.Text.{Text, text_eq, text_beq, text_beq_iff}
use forex_bot.Common.Dict.{lookup, insert, lookup-insert}
use forex_bot.Common.Float.{Float, nought}
use forex_bot.Live.Engine.Types.{EngineSpec, init}
use forex_bot.Live.Engine.Lifecycle.{StartAnswers, on_start}
use forex_bot.Live.Engine.Round.{LoopState, Call, stop, kill_call, next_round, step}
use forex_bot.Live.Router.{
  Registry, RouterCall, start_call, stop_call, kill_engine, loop_round, route, route_all,
  is_running, begin, start_engine, at_engine, call_engine,
}
use forex_bot.Live.Router.Sound.{
  running_is_live, some_is, true_is_not_false, nothing_there, Sound, start-Sound, step-Sound,
}

module _ {F : Type 0} ⦃f : Float F⦄ where
  abbrev AllSound : Registry F → Type 0
  AllSound reg = (j : Text) (l : LoopState F) → lookup j reg ≡ some l → Sound l.engine

  insert-AllSound :
      (id : Text) (l : LoopState F) (reg : Registry F)
      → Sound l.engine
      → AllSound reg
      → AllSound (insert id l reg)
  insert-AllSound id l reg s a j k h = elim (Bool-cases (text_beq id j)) [
    | inl b ↦
        subst (λ (m : LoopState F). Sound m.engine)
          (some_is _ _
            (sym (lookup-insert id j l reg ∙ ap (λ b. if b then some l else lookup j reg) b) ∙ h))
          s
    | inr b ↦
        a j k (sym (lookup-insert id j l reg ∙ ap (λ b. if b then some l else lookup j reg) b) ∙ h)
  ]

  fresh-Sound : (spec : EngineSpec F) (now : F) (today : ℕ) → Sound (init spec now today)
  unfolding init
  fresh-Sound spec now today = inr refl

  start_engine-AllSound :
      (id : Text) (spec : EngineSpec F) (now : F) (today : ℕ) (ans : StartAnswers F)
      (reg : Registry F)
      → AllSound reg
      → AllSound (start_engine id spec now today ans reg)
  unfolding start_engine
  start_engine-AllSound id spec now today ans reg a =
      if_case AllSound (is_running (lookup id reg)) reg (begin id spec now today ans reg) (λ b. a)
        (λ b.
          insert-AllSound id _ reg
            (start-Sound ans (init spec now today) (fresh-Sound spec now today)) a)

  at_engine-AllSound :
      (id : Text) (c : Call F) (o : Option (LoopState F)) (reg : Registry F)
      → lookup id reg ≡ o
      → AllSound reg
      → AllSound (at_engine id c o reg)
  at_engine-AllSound id c none reg h a = a
  at_engine-AllSound id c (some l) reg h a =
      insert-AllSound id (step c l).0 reg (step-Sound c l (a id l h)) a

  route-AllSound : (c : RouterCall F) (reg : Registry F) → AllSound reg → AllSound (route c reg)
  unfolding route call_engine
  route-AllSound (start_call id spec now today ans) reg a =
      start_engine-AllSound id spec now today ans reg a
  route-AllSound (stop_call id) reg a = at_engine-AllSound id stop (lookup id reg) reg refl a
  route-AllSound (kill_engine id ans) reg a =
      at_engine-AllSound id (kill_call ans) (lookup id reg) reg refl a
  route-AllSound (loop_round id ans) reg a =
      at_engine-AllSound id (next_round ans) (lookup id reg) reg refl a

  route_all-AllSound :
      (cs : List (RouterCall F)) (reg : Registry F) → AllSound reg → AllSound (route_all cs reg)
  unfolding route_all
  route_all-AllSound [] reg a = a
  route_all-AllSound (c ∷ cs) reg a = route_all-AllSound cs (route c reg) (route-AllSound c reg a)

  empty-AllSound : (j : Text) (l : LoopState F) → lookup j [] ≡ some l → Sound l.engine
  unfolding lookup
  empty-AllSound j l h = elim (nothing_there l h) [ ]

  -- From an empty registry, whatever calls of the router and rounds of the loops come, a start, of
  -- whatever id, never takes an engine whose loop runs out of the registry, nor changes it: no
  -- loop goes on trading that stop and kill cannot reach.
  pub start_keeps_running :
      (cs : List (RouterCall F)) (id : Text) (spec : EngineSpec F) (now : F) (today : ℕ)
      (ans : StartAnswers F) (j : Text) (l : LoopState F)
      → lookup j (route_all cs []) ≡ some l
      → (l.engine.has_thread && not l.engine.stop_evt) ≡ true
      → lookup j (start_engine id spec now today ans (route_all cs [])) ≡ some l
  unfolding start_engine
  start_keeps_running cs id spec now today ans j l h r =
      let reg = route_all cs [] in
      let live = running_is_live _ _ r (route_all-AllSound cs [] empty-AllSound j l h) in
      if_case (λ (x : Registry F). lookup j x ≡ some l) (is_running (lookup id reg)) reg
        (begin id spec now today ans reg) (λ b. h)
        (λ b. elim (Bool-cases (text_beq id j)) [
          | inl q ↦
              let k =
                ap (λ i. is_running (lookup i reg)) ((text_beq_iff id j).0 q) ∙ ap is_running h in
              elim (true_is_not_false (sym live ∙ (sym k ∙ b))) [ ]
          | inr q ↦
              let m : LoopState F = record {
                engine = (on_start ans (init spec now today)).1.0;
                last_bar_ts = nought;
              } in
              lookup-insert id j m reg ∙ (ap (λ b. if b then some m else lookup j reg) q ∙ h)
        ])
