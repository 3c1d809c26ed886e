-- ===== src/Common/Text.antt =====
-- Python's `str` as the list of its code points.
use Prim.Native.Nat.{ℕ, ◌+◌, ◌-◌}
use Prim.Native.Char.{code}
use Prim.Native.String.{String}
use mathlib.Core.Path.{◌≡◌, refl}
use mathlib.Core.Logic.{◌↔◌}
use mathlib.Core.Bool.{Bool, true, ◌&&◌}
use mathlib.Core.List.{List, [], ◌∷◌, map}
use native.Mathlib.Omega.{arith}
use forex_bot.Common.Tests.{leb, if◌then◌else◌}
use forex_bot.Common.Eq.{Eq, nat_eq, list_beq, list_beq_iff}

abbrev pub Text : Type 0
Text = List ℕ

abbrev pub codes : String → Text
codes String.[] = []
codes (String.◌∷◌ c s) = code c ∷ codes s

unfoldable pub text_beq : Text → Text → Bool
text_beq = list_beq

pub text_beq_iff : (s t : Text) → (text_beq s t ≡ true) ↔ (s ≡ t)
unfolding text_beq
text_beq_iff = list_beq_iff

instance abbrev pub text_eq : Eq Text
text_eq = record { beq = text_beq; beq_iff = text_beq_iff }

is_lower : ℕ → Bool
is_lower c = leb b'a' c && leb c b'z'

upper_char : ℕ → ℕ
unfolding is_lower
upper_char c = if is_lower c then c - 32 else c

-- `str.upper` on ASCII text, which all the symbols and codes of the program are.
unfoldable pub upper : Text → Text
unfolding upper_char
upper = map upper_char

upper_char_idem : (c : ℕ) → upper_char (upper_char c) ≡ upper_char c
unfolding upper_char
upper_char_idem c = ground arith

pub upper_idem : (s : Text) → upper (upper s) ≡ upper s
unfolding upper
upper_idem [] = refl
upper_idem (c ∷ s) = cc (upper_char_idem c, upper_idem s)

is_upper : ℕ → Bool
is_upper c = leb b'A' c && leb c b'Z'

lower_char : ℕ → ℕ
unfolding is_upper
lower_char c = if is_upper c then c + 32 else c

-- `str.lower`, on ASCII text too.
unfoldable pub lower : Text → Text
unfolding lower_char
lower = map lower_char
