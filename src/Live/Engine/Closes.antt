-- ===== src/Live/Engine/Closes.antt =====
-- trading-engine/live/engine.py: which positions a kill closes, and what it reports.
use forex_bot.Common.{
  ℕ, ◌==◌, ◌≡◌, refl, sym, ap, ◌∙◌, Bool, true, false, List, [], ◌∷◌, ◌++◌, map, if◌then◌else◌,
}
use forex_bot.Common.Cases.{if_case, result_case}
use forex_bot.Common.Float.{Float}
use forex_bot.Common.Result.{PyError, runtime_error, ok, err}
use forex_bot.Live.Engine.Types.{
  killed, EngineSpec, LiveEngine, Reply, no_answer, bad_body, replied, Action, post_close,
  emit_health, with_status, receive, broker_ok,
}
use forex_bot.Live.Engine.Lifecycle.{Position, close_mine, close_listed, on_kill}
use forex_bot.Live.Engine.Killed.{receive-spec}

-- The tickets of the positions that carry the engine's magic.
unfoldable pub tickets_of : ℕ → List Position → List ℕ
tickets_of magic [] = []
tickets_of magic (p ∷ ps) =
    let rest = tickets_of magic ps in if p.magic == magic then p.ticket ∷ rest else rest

tickets-mine :
    (magic : ℕ) (p : Position) (ps : List Position)
    → (p.magic == magic) ≡ true
    → tickets_of magic (p ∷ ps) ≡ p.ticket ∷ tickets_of magic ps
unfolding tickets_of
tickets-mine magic p ps h =
    ap (λ b. if b then p.ticket ∷ tickets_of magic ps else tickets_of magic ps) h

tickets-other :
    (magic : ℕ) (p : Position) (ps : List Position)
    → (p.magic == magic) ≡ false
    → tickets_of magic (p ∷ ps) ≡ tickets_of magic ps
unfolding tickets_of
tickets-other magic p ps h =
    ap (λ b. if b then p.ticket ∷ tickets_of magic ps else tickets_of magic ps) h

-- The bridge answers with a body that can be read.
abbrev pub IsReplied : {F A : Type 0} → Reply F A → Type 0
IsReplied (replied t a) = Unit
IsReplied _ = ⊥

not_replied : {A : Type 0} (x : PyError) (a : A) → ok a ≡ err x → ⊥
not_replied x a h = cc

module _ {F : Type 0} ⦃f : Float F⦄ where
  -- The closes that were posted, in order, and the tickets that were reported closed.
  abbrev ClosesAll : List ℕ → List ℕ × (LiveEngine F × List (Action F)) → Type 0
  ClosesAll tickets r = (r.0 ≡ tickets) × (r.1.1 ≡ map post_close tickets)

  replied-ok :
      {A : Type 0} (r : Reply F A) (e : LiveEngine F) (x : PyError)
      → IsReplied r
      → (receive r e).0 ≡ err x
      → ⊥
  unfolding receive
  replied-ok no_answer e x i h = i
  replied-ok (bad_body t) e x i h = i
  replied-ok (replied t a) e x i h = not_replied x a h

  close_mine-ClosesAll :
      (close : ℕ → Reply F (Unit {0})) (ps : List Position) (e : LiveEngine F) (magic : ℕ)
      → e.spec.magic ≡ magic
      → ((t : ℕ) → IsReplied (close t))
      → ClosesAll (tickets_of magic ps) (close_mine close ps e)
  unfolding close_mine tickets_of
  close_mine-ClosesAll close [] e magic m h = (refl, refl)
  close_mine-ClosesAll close (p ∷ ps) e magic m h =
      let e1 = (receive (close p.ticket) e).1 in
      let next =
        close_mine-ClosesAll close ps e1 magic
          (ap (λ (s : EngineSpec F). s.magic) (receive-spec (close p.ticket) e) ∙ m) h in
      let other = close_mine-ClosesAll close ps e magic m h in
      let test = ap (λ n. p.magic == n) (sym m) in
      if_case (ClosesAll (tickets_of magic (p ∷ ps))) (p.magic == e.spec.magic) _ _
        (λ b.
          let here = sym (tickets-mine magic p ps (test ∙ b)) in
          result_case (ClosesAll (tickets_of magic (p ∷ ps))) (receive (close p.ticket) e).0 _ _
            (λ x r. elim (replied-ok (close p.ticket) e x (h p.ticket) r) [ ])
            (λ u r. (
              ap (λ ts. p.ticket ∷ ts) next.0 ∙ here,
              ap (λ acts. post_close p.ticket ∷ acts) next.1 ∙ ap (map post_close) here,
            )))
        (λ b.
          let here = sym (tickets-other magic p ps (test ∙ b)) in
          (other.0 ∙ here, other.1 ∙ ap (map post_close) here))

  abbrev pub reported : Bool → List (Action F) → List (Action F)
  reported in_loop acts = if in_loop then acts else acts ++ emit_health killed ∷ []

  -- If the bridge lists the positions and answers every close, a kill posts a close for each
  -- position with the engine's magic, in their order, and for no other. Outside the loop it reports
  -- them and that the engine is killed; in the loop's own thread it raises instead, and reports
  -- nothing.
  pub on_kill_closes_mine :
      (in_loop : Bool) (at : F) (ps : List Position) (close : ℕ → Reply F (Unit {0}))
      (e : LiveEngine F)
      → ((t : ℕ) → IsReplied (close t))
      → ((on_kill in_loop (record { positions = replied at ps; close = close }) e).0
          ≡ (if in_loop then err runtime_error else ok (tickets_of e.spec.magic ps)))
        × ((on_kill in_loop (record { positions = replied at ps; close = close }) e).1.1
            ≡ reported in_loop (map post_close (tickets_of e.spec.magic ps)))
  unfolding on_kill receive close_listed
  on_kill_closes_mine true at ps close e h = (
    refl,
    (close_mine-ClosesAll close ps (broker_ok at (with_status killed e)) e.spec.magic refl h).1,
  )
  on_kill_closes_mine false at ps close e h =
      let c =
        close_mine-ClosesAll close ps (broker_ok at (with_status killed e)) e.spec.magic refl h in
      (ap ok c.0, ap (reported false) c.1)
