-- ===== src/Risk/Counting.antt =====
-- trading-engine/risk/manager.py: how the three counts of open positions change when the dict does.
use forex_bot.Common.{
  ℕ, ◌+◌, ◌≤◌, ◌≡◌, refl, Bool, true, false, some, List, [], ◌∷◌, ◌++◌, inl, inr, ◌⊎◌, arith,
  if◌then◌else◌, length, length-append,
}
use forex_bot.Common.Text.{Text, codes, text_beq, text_beq_iff, text_eq, upper}
use forex_bot.Common.Dict.{Dict, lookup, insert, lookup-insert}
use forex_bot.Risk.Positions.{
  Info, Bucket, gold_block, btc_block, members, is_in, bucket_of, positions_of, total_positions,
  count_in,
}

pub positions_of-insert :
    (k j : Text) (ps : List Info) (d : Dict Text (List Info))
    → positions_of j (insert k ps d) ≡ (if text_beq k j then ps else positions_of j d)
positions_of-insert k j ps d = ground (arith, lookup-insert k j ps d)

pub total_positions-insert :
    (k : Text) (ps : List Info) (d : Dict Text (List Info))
    → total_positions (insert k ps d) + length (positions_of k d) ≡ total_positions d + length ps
unfolding total_positions insert lookup
total_positions-insert k ps [] = omega arith
total_positions-insert k ps ((j, qs) ∷ d) = ground (arith, total_positions-insert k ps d)

is_in_pair : (s x y : Text) → is_in s (x ∷ y ∷ []) ≡ true → (s ≡ x) ⊎ (s ≡ y)
is_in_pair s x y h = ground (arith, text_beq_iff s x, text_beq_iff s y)

pub bucket_of-member : (b : Bucket) (s : Text) → is_in s (members b) ≡ true → bucket_of s ≡ some b
unfolding bucket_of upper text_beq
bucket_of-member gold_block s h = elim (is_in_pair s (codes "XAUUSD") (codes "XAGUSD") h) [
  | inl e ↦ rw e
  | inr e ↦ rw e
]
bucket_of-member btc_block s h = elim (is_in_pair s (codes "BTCUSDT") (codes "BTCUSD") h) [
  | inl e ↦ rw e
  | inr e ↦ rw e
]

abbrev pub one_if : Bool → ℕ
one_if true = 1
one_if false = 0

count_in-open_pair :
    (x y s : Text) (i : Info) (d : Dict Text (List Info))
    → text_beq x y ≡ false
    → count_in (x ∷ y ∷ []) (insert s (positions_of s d ++ i ∷ []) d)
      ≡ count_in (x ∷ y ∷ []) d + one_if (is_in s (x ∷ y ∷ []))
unfolding count_in
count_in-open_pair x y s i d ne = ground (
  arith,
  positions_of-insert s x (positions_of s d ++ i ∷ []) d,
  positions_of-insert s y (positions_of s d ++ i ∷ []) d,
  length-append (positions_of s d) (i ∷ []),
  text_beq_iff s x,
  text_beq_iff s y,
  text_beq_iff x y,
)

-- Opening a position of `s` counts one more in the bucket of `s`, and in no other.
pub count_in-open :
    (b : Bucket) (s : Text) (i : Info) (d : Dict Text (List Info))
    → count_in (members b) (insert s (positions_of s d ++ i ∷ []) d)
      ≡ count_in (members b) d + one_if (is_in s (members b))
unfolding text_beq
count_in-open gold_block s i d = count_in-open_pair (codes "XAUUSD") (codes "XAGUSD") s i d refl
count_in-open btc_block s i d = count_in-open_pair (codes "BTCUSDT") (codes "BTCUSD") s i d refl

-- A write that does not lengthen the list of any symbol lengthens no count of a bucket.
pub count_in-shrink :
    (ss : List Text) (k : Text) (ps : List Info) (d : Dict Text (List Info))
    → length ps ≤ length (positions_of k d)
    → count_in ss (insert k ps d) ≤ count_in ss d
unfolding count_in
count_in-shrink [] k ps d h = omega arith
count_in-shrink (s ∷ ss) k ps d h =
    ground (arith, positions_of-insert k s ps d, text_beq_iff k s, count_in-shrink ss k ps d h)
