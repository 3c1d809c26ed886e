-- ===== src/Backend/Instances/TvParams.antt =====
-- backend/app/services/strategy_service.py: the parameters of a tv_signal instance.
use forex_bot.Common.{Bool, true, false, not, ◌&&◌, ◌||◌, Option, none, some, [], ◌∷◌, all_of}
use forex_bot.Common.Text.{Text, codes, text_beq, text_eq}
use forex_bot.Common.Dict.{lookup}
use forex_bot.Common.Float.{Float, lt, lit, neg}
use forex_bot.Backend.Instances.Rows.{Json, null, number, text, texts, Params}

-- `i in SUPPORTED_TV_INTERVALS`
unfoldable pub is_supported : Text → Bool
is_supported i =
    text_beq i (codes "1m")
    || (text_beq i (codes "5m")
        || (text_beq i (codes "15m")
            || (text_beq i (codes "30m")
                || (text_beq i (codes "1h")
                    || (text_beq i (codes "2h")
                        || (text_beq i (codes "4h")
                            || (text_beq i (codes "1d")
                                || (text_beq i (codes "1W") || text_beq i (codes "1M")))))))))

-- A list that is empty, and any value that is no list of texts, is refused.
abbrev pub good_intervals : {F : Type 0} → Option (Json F) → Bool
good_intervals none = true
good_intervals (some null) = true
good_intervals (some (texts [])) = false
good_intervals (some (texts (i ∷ is))) = all_of is_supported (i ∷ is)
good_intervals (some _) = false

module _ {F : Type 0} ⦃f : Float F⦄ where
  abbrev pub within : F → F → F → Bool
  within lo hi val = not (lt val lo || lt hi val)

  abbrev pub good_number : F → F → Option (Json F) → Bool
  good_number lo hi none = true
  good_number lo hi (some null) = true
  good_number lo hi (some (number x)) = within lo hi x
  good_number lo hi (some (text s (some x))) = within lo hi x
  good_number lo hi (some _) = false

  -- Whether `_validate_tv_signal_params` raises nothing.
  unfoldable pub validate_tv_signal_params : Params F → Bool
  validate_tv_signal_params params =
      good_intervals (lookup (codes "intervals") params)
      && (good_number (lit 0 0) (lit 100 0) (lookup (codes "score_threshold") params)
          && (good_number (neg (lit 1 0)) (lit 1 0) (lookup (codes "long_threshold") params)
              && (good_number (neg (lit 1 0)) (lit 1 0) (lookup (codes "short_threshold") params)
                  && good_number (lit 0 0) (lit 1 0) (lookup (codes "confidence_min") params))))
