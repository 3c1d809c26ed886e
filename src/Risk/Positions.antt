-- ===== src/Risk/Positions.antt =====
-- trading-engine/risk/manager.py: the open positions that the manager counts, and the buckets of
-- correlated symbols.
use forex_bot.Common.{
  ℕ, ◌+◌, Bool, true, false, not, ◌||◌, Option, none, some, List, [], ◌∷◌, ◌==◌, if◌then◌else◌,
  length,
}
use forex_bot.Common.Text.{Text, codes, text_beq, text_eq, upper}
use forex_bot.Common.Dict.{Dict, lookup, insert}

-- A broker's ticket is a number or a text.
pub data Ticket : Type 0 where
  number : ℕ → Ticket
  name : Text → Ticket

abbrev pub same_ticket : Ticket → Ticket → Bool
same_ticket (number a) (number b) = a == b
same_ticket (name a) (name b) = text_beq a b
same_ticket _ _ = false

-- The `info` of an open position; the manager reads `info.get("ticket")` alone.
pub record Info : Type 0 where
  pub ticket : Option Ticket

pub data Bucket : Type 0 where
  gold_block btc_block : Bucket

-- `_CORRELATION_BUCKETS`
abbrev pub members : Bucket → List Text
members gold_block = codes "XAUUSD" ∷ codes "XAGUSD" ∷ []
members btc_block = codes "BTCUSDT" ∷ codes "BTCUSD" ∷ []

abbrev pub is_in : Text → List Text → Bool
is_in s [] = false
is_in s (t ∷ ts) = text_beq s t || is_in s ts

unfoldable pub bucket_of : Text → Option Bucket
bucket_of symbol =
    if is_in (upper symbol) (members gold_block)
    then some gold_block
    else if is_in (upper symbol) (members btc_block)
    then some btc_block
    else none

-- `open_positions.get(symbol, [])`
abbrev pub positions_of : Text → Dict Text (List Info) → List Info
positions_of symbol d = elim (lookup symbol d) [ none ↦ [] | some ps ↦ ps ]

-- `sum(len(v) for v in open_positions.values())`
unfoldable pub total_positions : Dict Text (List Info) → ℕ
total_positions [] = 0
total_positions ((k, ps) ∷ d) = length ps + total_positions d

-- The sum of `len(open_positions.get(s, []))` over the members of a bucket.
unfoldable pub count_in : List Text → Dict Text (List Info) → ℕ
count_in [] d = 0
count_in (s ∷ ss) d = length (positions_of s d) + count_in ss d

-- `p.get("ticket") != ticket`
abbrev pub differs : Ticket → Info → Bool
differs ticket p = elim p.ticket [ none ↦ true | some t ↦ not (same_ticket t ticket) ]

abbrev pub without : Ticket → List Info → List Info
without ticket [] = []
without ticket (p ∷ ps) =
    let rest = without ticket ps in if differs ticket p then p ∷ rest else rest

-- With no ticket the stored list is cleared in place; an absent key stays absent.
abbrev pub cleared : Text → Dict Text (List Info) → Dict Text (List Info)
cleared symbol d = elim (lookup symbol d) [ none ↦ d | some ps ↦ insert symbol [] d ]
