-- ===== src/Risk/Caps.antt =====
-- trading-engine/risk/manager.py: the caps on open positions hold as long as every position is
-- opened on an untrimmed approval; a trimmed approval passes them by.
use forex_bot.Common.{
  ℕ, ◌≤◌, ◌<◌, ◌≡◌, true, Option, none, some, List, [], ◌∷◌, ◌++◌, inl, inr, arith, subst, length,
  length-append, Option-cases,
}
use forex_bot.Common.Text.{Text, text_eq, text_beq_iff}
use forex_bot.Common.Dict.{Dict, insert, lookup}
use forex_bot.Common.Result.{ok}
use forex_bot.Common.Float.{Float}
use forex_bot.Risk.Positions.{
  Ticket, Info, Bucket, members, bucket_of, positions_of, total_positions, count_in, cleared,
  without,
}
use forex_bot.Risk.Manager.{
  RiskLimits, RiskManager, RiskState, RiskDecision, on_equity_update, on_trade_closed,
  on_position_opened, on_position_closed, evaluate, decide, check_caps, check_correlation,
  roll_day_if_needed,
}
use forex_bot.Risk.Counting.{
  positions_of-insert, total_positions-insert, bucket_of-member, count_in-open, count_in-shrink,
}

-- The positions `d` respect the caps of `l`.
pub record IsCapped {F : Type 0} (l : RiskLimits F) (d : Dict Text (List Info)) : Type 0 where
  pub open_capped : total_positions d ≤ l.max_open_positions
  pub symbol_capped : (s : Text) → length (positions_of s d) ≤ l.max_positions_per_symbol
  pub bucket_capped : (b : Bucket) → count_in (members b) d ≤ l.correlated_symbol_limit

length-without : (t : Ticket) (ps : List Info) → length (without t ps) ≤ length ps
length-without t [] = omega arith
length-without t (p ∷ ps) = ground (arith, length-without t ps)

module _ {F : Type 0} ⦃f : Float F⦄ where
  -- What an account does that opens a position only on an approval with no adjusted size.
  pub data Step (m : RiskManager F) : RiskManager F → Type 0 where
    opened :
        (today : ℕ) (s : Text) (size risk : F) (i : Info) (d : RiskDecision F)
        → (evaluate today s size risk m).0 ≡ ok d
        → d.approved ≡ true
        → d.adjusted_size ≡ none
        → Step m (on_position_opened s i (evaluate today s size risk m).1)
    asked : (today : ℕ) (s : Text) (size risk : F) → Step m (evaluate today s size risk m).1
    closed : (s : Text) (t : Option Ticket) → Step m (on_position_closed s t m)
    booked : (today : ℕ) (pnl : F) → Step m (on_trade_closed today pnl m)
    marked : (x : F) → Step m (on_equity_update x m).1

  pub data Reach (m : RiskManager F) : RiskManager F → Type 0 where
    here : Reach m m
    next : {n o : RiskManager F} → Reach m n → Step n o → Reach m o

  -- An untrimmed approval has passed the three caps.
  record HasRoom (l : RiskLimits F) (s : Text) (d : Dict Text (List Info)) : Type 0 where
    room : total_positions d < l.max_open_positions
    symbol_room : length (positions_of s d) < l.max_positions_per_symbol
    bucket_room :
        (b : Bucket) → bucket_of s ≡ some b → count_in (members b) d < l.correlated_symbol_limit

  open_positions-roll :
      (today : ℕ) (st : RiskState F)
      → (roll_day_if_needed today st).open_positions ≡ st.open_positions
  unfolding roll_day_if_needed
  open_positions-roll today st = ground arith

  check_correlation-room :
      (l : RiskLimits F) (st : RiskState F) (s : Text) (b : Bucket)
      → (check_correlation l st s).approved ≡ true
      → bucket_of s ≡ some b
      → count_in (members b) st.open_positions < l.correlated_symbol_limit
  unfolding check_correlation
  check_correlation-room l st s b h e = ground arith

  check_caps-HasRoom :
      (l : RiskLimits F) (st : RiskState F) (s : Text)
      → (check_caps l st s).approved ≡ true
      → HasRoom l s st.open_positions
  unfolding check_caps
  check_caps-HasRoom l st s a = record {
    room = ground arith;
    symbol_room = ground arith;
    bucket_room = λ b e. check_correlation-room l st s b (ground arith) e;
  }

  decide-HasRoom :
      (l : RiskLimits F) (st : RiskState F) (s : Text) (size risk : F) (d : RiskDecision F)
      → decide l st s size risk ≡ ok d
      → d.approved ≡ true
      → d.adjusted_size ≡ none
      → HasRoom l s st.open_positions
  unfolding decide
  decide-HasRoom l st s size risk d e a u = check_caps-HasRoom l st s (ground arith)

  evaluate-HasRoom :
      (today : ℕ) (s : Text) (size risk : F) (m : RiskManager F) (d : RiskDecision F)
      → (evaluate today s size risk m).0 ≡ ok d
      → d.approved ≡ true
      → d.adjusted_size ≡ none
      → HasRoom m.limits s m.state.open_positions
  unfolding evaluate
  evaluate-HasRoom today s size risk m d e a u =
      subst (HasRoom m.limits s) (open_positions-roll today m.state)
        (decide-HasRoom m.limits _ s size risk d e a u)

  opened-IsCapped :
      (l : RiskLimits F) (s : Text) (i : Info) (d : Dict Text (List Info))
      → HasRoom l s d
      → IsCapped l d
      → IsCapped l (insert s (positions_of s d ++ i ∷ []) d)
  opened-IsCapped l s i d r c = record {
    open_capped = omega (
      arith,
      total_positions-insert s (positions_of s d ++ i ∷ []) d,
      length-append (positions_of s d) (i ∷ []),
      r.room,
    );
    symbol_capped = λ t. ground (
      arith,
      positions_of-insert s t (positions_of s d ++ i ∷ []) d,
      length-append (positions_of s d) (i ∷ []),
      text_beq_iff s t,
      r.symbol_room,
      c.symbol_capped t,
    );
    bucket_capped = λ b.
        ground
          (arith, count_in-open b s i d, bucket_of-member b s, r.bucket_room b, c.bucket_capped b);
  }

  shrunk-IsCapped :
      (l : RiskLimits F) (s : Text) (ps : List Info) (d : Dict Text (List Info))
      → length ps ≤ length (positions_of s d)
      → IsCapped l d
      → IsCapped l (insert s ps d)
  shrunk-IsCapped l s ps d h c = record {
    open_capped = omega (arith, total_positions-insert s ps d, c.open_capped);
    symbol_capped =
        λ t. ground (arith, positions_of-insert s t ps d, text_beq_iff s t, c.symbol_capped t);
    bucket_capped = λ b. omega (arith, count_in-shrink (members b) s ps d h, c.bucket_capped b);
  }

  cleared-IsCapped :
      (l : RiskLimits F) (s : Text) (d : Dict Text (List Info))
      → IsCapped l d
      → IsCapped l (cleared s d)
  cleared-IsCapped l s d c = elim (Option-cases (lookup s d)) [
    | inl e ↦ rw (e, cleared) c
    | inr (ps, e) ↦ rw (e, cleared) (shrunk-IsCapped l s [] d (omega arith) c)
  ]

  abbrev pub Capped : RiskManager F → Type 0
  Capped m = IsCapped m.limits m.state.open_positions

  closed-Capped :
      (s : Text) (t : Option Ticket) (m : RiskManager F)
      → Capped m
      → Capped (on_position_closed s t m)
  unfolding on_position_closed
  closed-Capped s none m c = cleared-IsCapped m.limits s m.state.open_positions c
  closed-Capped s (some t) m c =
      shrunk-IsCapped m.limits s _ m.state.open_positions (length-without t _) c

  open_positions-equity :
      (x : F) (m : RiskManager F)
      → (on_equity_update x m).1.state.open_positions ≡ m.state.open_positions
  unfolding on_equity_update
  open_positions-equity x m = ground arith

  limits-equity : (x : F) (m : RiskManager F) → (on_equity_update x m).1.limits ≡ m.limits
  unfolding on_equity_update
  limits-equity x m = ground arith

  opened-Capped :
      (today : ℕ) (s : Text) (size risk : F) (i : Info) (m : RiskManager F)
      → HasRoom m.limits s m.state.open_positions
      → Capped m
      → Capped (on_position_opened s i (evaluate today s size risk m).1)
  unfolding evaluate on_position_opened
  opened-Capped today s size risk i m r c =
      rw open_positions-roll (opened-IsCapped m.limits s i m.state.open_positions r c)

  booked-Capped :
      (today : ℕ) (x : F) (m : RiskManager F) → Capped m → Capped (on_trade_closed today x m)
  unfolding on_trade_closed
  booked-Capped today x m c = rw open_positions-roll c

  asked-Capped :
      (today : ℕ) (s : Text) (size risk : F) (m : RiskManager F)
      → Capped m
      → Capped (evaluate today s size risk m).1
  unfolding evaluate
  asked-Capped today s size risk m c = rw open_positions-roll c

  Step-Capped : {m n : RiskManager F} → Step m n → Capped m → Capped n
  Step-Capped {m} (opened today s size risk i d e a u) c =
      opened-Capped today s size risk i m (evaluate-HasRoom today s size risk m d e a u) c
  Step-Capped {m} (asked today s size risk) c = asked-Capped today s size risk m c
  Step-Capped {m} (closed s t) c = closed-Capped s t m c
  Step-Capped {m} (booked today pnl) c = booked-Capped today pnl m c
  Step-Capped {m} (marked x) c = rw (open_positions-equity, limits-equity) c

  -- Whatever calls are made in whatever order, if every position is opened on an approval of its
  -- symbol with no adjusted size, right after it, then the open positions stay within all three
  -- caps: in total, of each symbol, and in each bucket of correlated symbols.
  pub Reach-Capped : {m n : RiskManager F} → Capped m → Reach m n → Capped n
  Reach-Capped c here = c
  Reach-Capped c (next r st) = Step-Capped st (Reach-Capped c r)
