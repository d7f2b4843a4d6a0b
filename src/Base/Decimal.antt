-- ===== src/Base/Decimal.antt =====
-- strconv.Itoa on a number that is not negative, and its digits read back.
use thunder_device_plugin.Base.{
  ℕ, zero, suc, ◌+◌, ◌-◌, ◌*◌, ◌/◌, ◌%◌, ◌≤◌, ◌<◌, ◌≡◌, refl, sym, ap, ◌∙◌, [], ◌∷◌, Str, arith,
  ltb, All, if◌then◌else◌, Bool-cases, inl, inr,
}

-- The digits of `n`, the last one first, and at least one. A number below `rounds` has fewer digits
-- than that.
decimal_from : ℕ → ℕ → Str
decimal_from zero n = []
decimal_from (suc rounds) n =
    let more = decimal_from rounds (n / 10) in (b'0' + n % 10) ∷ (if ltb n 10 then [] else more)

turn : Str → Str → Str
turn [] done = done
turn (c ∷ s) done = turn s (c ∷ done)

-- The digits in reading order.
unfoldable pub decimal : ℕ → Str
unfolding decimal_from turn
decimal n = turn (decimal_from (suc n) n) []

-- The number that a text stands for, its digits read from the left after `acc`.
unfoldable pub value_from : ℕ → Str → ℕ
value_from acc [] = acc
value_from acc (c ∷ s) = value_from (acc * 10 + (c - b'0')) s

-- The number that digits stand for, the last one first.
reversed_value : Str → ℕ
reversed_value [] = 0
reversed_value (c ∷ s) = (c - b'0') + reversed_value s * 10

reversed_value-decimal_from :
    (rounds n : ℕ) → n < rounds → reversed_value (decimal_from rounds n) ≡ n
unfolding decimal_from reversed_value
reversed_value-decimal_from zero n h = elim h [ ]
reversed_value-decimal_from (suc rounds) n h =
    ground (arith, reversed_value-decimal_from rounds (n / 10))

-- Digits still to be read weigh by their number.
weight : ℕ → Str → ℕ
weight v [] = v
weight v (c ∷ s) = weight v s * 10

value_from-turn :
    (s done : Str) (acc : ℕ)
    → value_from acc (turn s done) ≡ value_from (weight acc s + reversed_value s) done
unfolding turn value_from reversed_value weight
value_from-turn [] done acc = ap (λ v. value_from v done) (omega arith)
value_from-turn (c ∷ s) done acc =
    value_from-turn s (c ∷ done) acc ∙ ap (λ v. value_from v done) (omega arith)

weight-zero : (s : Str) → weight 0 s ≡ 0
unfolding weight
weight-zero [] = refl
weight-zero (c ∷ s) = omega (arith, weight-zero s)

-- Reading a printed number gives it back.
pub value_from-decimal : (n : ℕ) → value_from 0 (decimal n) ≡ n
unfolding decimal value_from
value_from-decimal n =
    value_from-turn (decimal_from (suc n) n) [] 0
    ∙ omega (
      arith,
      weight-zero (decimal_from (suc n) n),
      reversed_value-decimal_from (suc n) n (omega arith),
    )

-- Two numbers that are printed alike are equal.
pub decimal_injective : (m n : ℕ) → decimal m ≡ decimal n → m ≡ n
decimal_injective m n h = sym (value_from-decimal m) ∙ ap (value_from 0) h ∙ value_from-decimal n

abbrev pub IsDigit : ℕ → Type 0
IsDigit c = (b'0' ≤ c) × (c ≤ b'9')

decimal_from-IsDigit : (rounds n : ℕ) → All IsDigit (decimal_from rounds n)
unfolding decimal_from
decimal_from-IsDigit zero n = tt
decimal_from-IsDigit (suc rounds) n = elim (Bool-cases (ltb n 10)) [
  | inl last ↦ rw last (omega arith, tt)
  | inr more ↦ rw more (omega arith, decimal_from-IsDigit rounds (n / 10))
]

turn-IsDigit : (s done : Str) → All IsDigit s → All IsDigit done → All IsDigit (turn s done)
unfolding turn
turn-IsDigit [] done h k = k
turn-IsDigit (c ∷ s) done h k = turn-IsDigit s (c ∷ done) h.1 (h.0, k)

-- A printed number is made of digits.
pub decimal-IsDigit : (n : ℕ) → All IsDigit (decimal n)
unfolding decimal
decimal-IsDigit n = turn-IsDigit (decimal_from (suc n) n) [] (decimal_from-IsDigit (suc n) n) tt
