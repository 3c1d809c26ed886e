-- ===== src/Broker/Types.antt =====
-- trading-engine/broker/base.py and the records of paper_adapter.py.
use forex_bot.Common.{ℕ, Bool, true, false, Option, none, some, List, map, if◌then◌else◌}
use forex_bot.Common.Eq.{nat_eq}
use forex_bot.Common.Text.{Text, text_eq}
use forex_bot.Common.Dict.{Dict}
use forex_bot.Common.Float.{Float, sub, mul, neg, lit, nought, is_zero}

pub data Side : Type 0 where
  buy sell : Side

pub data OrderType : Type 0 where
  market limit stop : OrderType

pub record Order (F : Type 0) : Type 0 where
  pub symbol : Text
  pub side : Side
  pub volume : F
  pub kind : OrderType  -- `type`
  pub price : Option F
  pub sl : Option F
  pub tp : Option F

pub data ErrorMessage : Type 0 where
  no_error no_quote_for_symbol order_not_found position_not_found : ErrorMessage

pub record OrderResult (F : Type 0) : Type 0 where
  pub success : Bool
  pub ticket : Option ℕ
  pub fill_price : Option F
  pub error_message : ErrorMessage

pub record OpenPos (F : Type 0) : Type 0 where
  pub ticket : ℕ
  pub symbol : Text
  pub side : Side
  pub volume : F
  pub entry_price : F
  pub sl : Option F
  pub tp : Option F
  pub open_time : F
  pub unrealized : F

pub record AccountInfo (F : Type 0) : Type 0 where
  pub balance : F
  pub equity : F
  pub margin : F
  pub free_margin : F
  pub margin_level : F

pub record PaperBroker (F H : Type 0) : Type 0 where
  pub balance : F
  pub equity : F
  pub realized_pnl : F
  pub slippage_pips : F
  pub spread_pips : F
  pub pip_size : Dict Text F
  pub open_positions : Dict ℕ (OpenPos F)  -- `_open`
  pub pending : Dict ℕ (Order F)
  pub ticker : ℕ  -- what `next(self._ticker)` gives next
  pub tick_handlers : Dict Text H
  pub connected : Bool
  pub last_quote : Dict Text (F × F)

abbrev pub is_buy : Side → Bool
is_buy buy = true
is_buy sell = false

abbrev pub opposite : Side → Side
opposite buy = sell
opposite sell = buy

module _ {F : Type 0} ⦃f : Float F⦄ where
  -- `get_positions`, with no symbol: the open positions in the order of the dict.
  abbrev pub positions : Dict ℕ (OpenPos F) → List (OpenPos F)
  positions = map (λ (e : ℕ × OpenPos F). e.1)

  -- `x or default`, for an optional float: 0 counts as absent.
  abbrev pub or_default : Option F → F → F
  or_default none d = d
  or_default (some x) d = if is_zero x then d else x

  abbrev pub success : ℕ → Option F → OrderResult F
  success ticket fill = record {
    success = true;
    ticket = some ticket;
    fill_price = fill;
    error_message = no_error;
  }

  abbrev pub failure : ErrorMessage → OrderResult F
  failure e = record { success = false; ticket = none; fill_price = none; error_message = e }

  abbrev pub position : ℕ → Order F → F → F → OpenPos F
  position ticket o entry now = record {
    ticket = ticket;
    symbol = o.symbol;
    side = o.side;
    volume = o.volume;
    entry_price = entry;
    sl = o.sl;
    tp = o.tp;
    open_time = now;
    unrealized = nought;
  }

  -- The ask to a buyer, the bid to a seller.
  abbrev pub taken : Side → F × F → F
  taken side q = if is_buy side then q.1 else q.0

  -- `(exit_price - entry_price) * (1 if buy else -1) * volume`
  abbrev pub pnl_of : F → OpenPos F → F
  pnl_of exit_price pos =
      mul
        (mul (sub exit_price pos.entry_price) (if is_buy pos.side then lit 1 0 else neg (lit 1 0)))
        pos.volume

  abbrev pub or_keep : Option F → Option F → Option F
  or_keep none old = old
  or_keep (some x) old = some x
