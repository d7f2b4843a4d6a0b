-- ===== src/Base/Atoi.antt =====
-- strconv.Atoi on a 64-bit platform, and decimal printing (strconv.Itoa, fmt.Sprint of an integer).
use thunder_device_plugin.Base.{
  ℕ, zero, suc, ◌+◌, ◌-◌, ◌*◌, ◌^◌, Bool, ◌&&◌, Option, none, some, [], ◌∷◌, Str, ltb, leb, eqb,
  if◌then◌else◌,
}
use thunder_device_plugin.Base.Int.{ℤ, pos, negsuc}

is_digit : ℕ → Bool
is_digit c = leb b'0' c && leb c b'9'

-- The value of a run of digits after `acc`; `none` at any other character.
digits_value : ℕ → Str → Option ℕ
unfolding is_digit
digits_value acc [] = some acc
digits_value acc (c ∷ s) =
    let rest = digits_value (acc * 10 + (c - b'0')) s in if is_digit c then rest else none

-- An unsigned numeral has at least one digit.
unsigned : Str → Option ℕ
unfolding digits_value
unsigned [] = none
unsigned (c ∷ s) = digits_value 0 (c ∷ s)

abbrev int64_limit : ℕ
int64_limit = 2 ^ 63

-- A value of int64, or a range error.
non_negative : Option ℕ → Option ℤ
non_negative none = none
non_negative (some n) = if ltb n int64_limit then some (pos n) else none

abbrev negate : ℕ → ℤ
negate zero = pos 0
negate (suc n) = negsuc n

negative : Option ℕ → Option ℤ
negative none = none
negative (some n) = if leb n int64_limit then some (negate n) else none

unfoldable pub atoi : Str → Option ℤ
unfolding unsigned non_negative negative
atoi [] = none
atoi (c ∷ s) =
    if eqb c b'-'
    then negative (unsigned s)
    else if eqb c b'+'
    then non_negative (unsigned s)
    else non_negative (unsigned (c ∷ s))
