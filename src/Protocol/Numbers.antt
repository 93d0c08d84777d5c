-- ===== src/Protocol/Numbers.antt =====
-- Numbers in the texts of the protocol: `${n}` and `Number(text)` for naturals, and percentages with
-- decimals. What `Number` makes of another text stands for itself.
use attested_capital.Base.{
  ℕ, zero, suc, ◌+◌, ◌-◌, ◌*◌, ◌/◌, ◌%◌, ltb, leb, ◌==◌, ◌&&◌, Bool, true, false, Option, none,
  some, [], ◌∷◌, ◌++◌, if◌then◌else◌,
}
use attested_capital.Protocol.Texts.{Text}

abbrev pub is_digit : ℕ → Bool
is_digit c = leb b'0' c && leb c b'9'

abbrev pub all_digits : Text → Bool
all_digits [] = true
all_digits (c ∷ s) = is_digit c && all_digits s

-- The digits of a number, on fuel; as much as the number and one is enough.
unfoldable pub digits : ℕ → ℕ → Text
digits zero n = []
digits (suc fuel) n =
    let above = digits fuel (n / 10) in (if ltb n 10 then [] else above) ++ (b'0' + n % 10) ∷ []

unfoldable pub nat_text : ℕ → Text
unfolding digits
nat_text n = digits (suc n) n

unfoldable pub value : ℕ → Text → ℕ
value acc [] = acc
value acc (c ∷ s) = value (acc * 10 + (c - b'0')) s

pub data Number : Type 0 where
  natural : ℕ → Number
  other : Text → Number

unfoldable pub number_of : Text → Number
unfolding value
number_of t = if all_digits t then natural (value 0 t) else other t

unfoldable pub number_text : Number → Text
unfolding nat_text
number_text (natural n) = nat_text n
number_text (other t) = t

-- The digits behind the point, without zeros at the end.
pub record Percent : Type 0 where
  pub whole : ℕ
  pub fraction : Text

abbrev pub unless_zero : ℕ → Text → Text
unless_zero c [] = if c == b'0' then [] else c ∷ []
unless_zero c (d ∷ s) = c ∷ d ∷ s

abbrev pub strip_zeros : Text → Text
strip_zeros [] = []
strip_zeros (c ∷ s) = unless_zero c (strip_zeros s)

abbrev pub fraction_text : Text → Text
fraction_text [] = []
fraction_text (d ∷ s) = b'.' ∷ d ∷ s

-- `${p}%`
unfoldable pub percent_text : Percent → Text
unfolding nat_text
percent_text p = nat_text p.whole ++ fraction_text p.fraction ++ b'%' ∷ []

-- `\d*` in front, and what follows it.
abbrev pub digits_of : Text → Text × Text
digits_of [] = ([], [])
digits_of (c ∷ s) = let r = digits_of s in if is_digit c then (c ∷ r.0, r.1) else ([], c ∷ s)

abbrev pub ends_percent : Text → Bool
ends_percent [] = false
ends_percent (c ∷ s) = c == b'%'

abbrev pub percent_if : Bool → Text → Text → Option Percent
percent_if false w f = none
percent_if true w f = some (record { whole = value 0 w; fraction = strip_zeros f })

-- `\.\d+`, and the percent sign.
abbrev pub read_decimals : Text → Text × Text → Option Percent
read_decimals w ([], rest) = none
read_decimals w (d ∷ f, rest) = percent_if (ends_percent rest) w (d ∷ f)

abbrev pub read_fraction : Text → Text → Option Percent
read_fraction w [] = none
read_fraction w (c ∷ s) =
    if c == b'.' then read_decimals w (digits_of s) else percent_if (c == b'%') w []

abbrev pub read_whole : Text × Text → Option Percent
read_whole ([], rest) = none
read_whole (d ∷ w, rest) = read_fraction (d ∷ w) rest

-- `(\d+(?:\.\d+)?)%`
unfoldable pub read_percent : Text → Option Percent
unfolding value
read_percent t = read_whole (digits_of t)
