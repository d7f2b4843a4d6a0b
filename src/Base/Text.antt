-- ===== src/Base/Text.antt =====
-- Go strings as lists of ASCII codes, with the functions of package strings that the code uses.
use Prim.Native.Char.{code}
use Prim.Native.String.{String}
use Prim.Native.Nat.{ℕ, ◌+◌, ◌-◌}
use mathlib.Core.Path.{◌≡◌, refl}
use mathlib.Core.Logic.{◌↔◌}
use mathlib.Core.Bool.{Bool, true, false, ◌&&◌, ◌||◌}
use mathlib.Core.List.{List, [], ◌∷◌, ◌++◌, map}
use mathlib.Core.Option.{Option, none, some}
use native.Mathlib.Omega.{arith}
use thunder_device_plugin.Base.Tests.{Bool-cases, eqb, leb, ltb, if◌then◌else◌, Eq}
use thunder_device_plugin.Base.Lists.{is_nil}

abbrev pub Str : Type 0
Str = List ℕ

-- The codes of a literal.
unfoldable pub codes : String → Str
codes String.[] = []
codes (String.◌∷◌ c s) = code c ∷ codes s

unfoldable pub str_eq : Str → Str → Bool
str_eq [] [] = true
str_eq [] (d ∷ t) = false
str_eq (c ∷ s) [] = false
str_eq (c ∷ s) (d ∷ t) = eqb c d && str_eq s t

pub str_eq_iff : (s t : Str) → (str_eq s t ≡ true) ↔ (s ≡ t)
unfolding str_eq
str_eq_iff [] [] = ground arith
str_eq_iff [] (d ∷ t) = ground arith
str_eq_iff (c ∷ s) [] = ground arith
str_eq_iff (c ∷ s) (d ∷ t) = ground (arith, str_eq_iff s t)

instance abbrev pub text_eq : Eq Str
text_eq = record { test = str_eq; test_iff = str_eq_iff }

-- unicode.IsSpace on ASCII: tab, newline, vertical tab, form feed, carriage return, space.
abbrev pub is_space : ℕ → Bool
is_space c = (leb 9 c && leb c 13) || eqb c 32

-- unicode.ToLower and unicode.ToUpper on ASCII.
unfoldable pub lower : ℕ → ℕ
lower c = if leb b'A' c && leb c b'Z' then c + 32 else c

unfoldable pub upper : ℕ → ℕ
upper c = if leb b'a' c && leb c b'z' then c - 32 else c

-- strings.ToLower, strings.ToUpper.
unfoldable pub to_lower : Str → Str
unfolding lower
to_lower s = map lower s

unfoldable pub to_upper : Str → Str
unfolding upper
to_upper s = map upper s

trim_left : Str → Str
trim_left [] = []
trim_left (c ∷ s) = if is_space c then trim_left s else c ∷ s

trim_right : Str → Str
trim_right [] = []
trim_right (c ∷ s) = let r = trim_right s in if is_space c && is_nil r then [] else c ∷ r

-- strings.TrimSpace.
unfoldable pub trim_space : Str → Str
unfolding trim_left trim_right
trim_space s = trim_right (trim_left s)

-- `strings.TrimSpace(s) == ""`.
abbrev pub is_blank : Str → Bool
is_blank s = is_nil (trim_space s)

-- `strings.TrimSuffix(s, c)` for a suffix of one character.
unfoldable pub trim_suffix : ℕ → Str → Str
trim_suffix c [] = []
trim_suffix c (x ∷ s) = if is_nil s && eqb x c then [] else x ∷ trim_suffix c s

-- `strings.Cut(s, c)` for a separator of one character; `none` when it does not occur.
unfoldable pub cut : ℕ → Str → Option (Str × Str)
cut c [] = none
cut c (x ∷ s) =
    if eqb x c then some ([], s) else elim (cut c s) [ none ↦ none | some (a, b) ↦ some (x ∷ a, b) ]

-- `strings.Split(s, c)` for a separator of one character: never empty, so a head and a tail.
unfoldable pub split_parts : ℕ → Str → Str × List Str
split_parts c [] = ([], [])
split_parts c (x ∷ s) = let (h, t) = split_parts c s in if eqb x c then ([], h ∷ t) else (x ∷ h, t)

unfoldable pub split : ℕ → Str → List Str
unfolding split_parts
split c s = let (h, t) = split_parts c s in h ∷ t

-- `strings.Contains(s, c)` for one character.
unfoldable pub contains : ℕ → Str → Bool
contains c [] = false
contains c (x ∷ s) = eqb x c || contains c s

-- `strings.CutPrefix`.
unfoldable pub strip_prefix : Str → Str → Option Str
strip_prefix [] s = some s
strip_prefix (p ∷ ps) [] = none
strip_prefix (p ∷ ps) (c ∷ s) = if eqb p c then strip_prefix ps s else none

-- `strings.Cut(s, sep)` at the first occurrence of a text.
unfoldable pub cut_text : Str → Str → Option (Str × Str)
unfolding strip_prefix
cut_text sep [] = elim (strip_prefix sep []) [ none ↦ none | some rest ↦ some ([], rest) ]
cut_text sep (c ∷ s) =
    let later : Option (Str × Str) = elim (cut_text sep s) [
      | none ↦ none
      | some (a, b) ↦ some (c ∷ a, b)
    ] in
    elim (strip_prefix sep (c ∷ s)) [ none ↦ later | some rest ↦ some ([], rest) ]

-- `strings.ReplaceAll(s, c, new)` for one character `c`.
unfoldable pub replace_char : ℕ → Str → Str → Str
replace_char c new [] = []
replace_char c new (x ∷ s) =
    if eqb x c then new ++ replace_char c new s else x ∷ replace_char c new s

-- `strings.Join(parts, sep)`.
unfoldable pub join : Str → List Str → Str
join sep [] = []
join sep (part ∷ parts) = if is_nil parts then part else part ++ (sep ++ join sep parts)

-- firstNonEmpty of internal/daemon/driver.go: the first value that is not blank, trimmed.
unfoldable pub first_non_empty : List Str → Str
first_non_empty [] = []
first_non_empty (value ∷ values) =
    if is_blank value then first_non_empty values else trim_space value

-- Go's `<` on strings.
unfoldable pub str_lt : Str → Str → Bool
str_lt [] [] = false
str_lt [] (d ∷ t) = true
str_lt (c ∷ s) [] = false
str_lt (c ∷ s) (d ∷ t) = ltb c d || (eqb c d && str_lt s t)

trim_right-cons_nonspace :
    (c : ℕ) (s : Str) → is_space c ≡ false → trim_right (c ∷ s) ≡ c ∷ trim_right s
unfolding trim_right
trim_right-cons_nonspace c s h = rw h

trim_right_idem : (s : Str) → trim_right (trim_right s) ≡ trim_right s
unfolding trim_right
trim_right_idem [] = refl
trim_right_idem (c ∷ s) = ground (arith, trim_right_idem s)

trim_left-trim_right : (s : Str) → trim_left (trim_right (trim_left s)) ≡ trim_right (trim_left s)
unfolding trim_left trim_right
trim_left-trim_right [] = refl
trim_left-trim_right (c ∷ s) = ground (arith, trim_left-trim_right s)

-- Trimming a trimmed text changes nothing.
pub trim_space_idem : (s : Str) → trim_space (trim_space s) ≡ trim_space s
unfolding trim_space
trim_space_idem s = rw (trim_left-trim_right s) (trim_right_idem (trim_left s))

trim_left_keeps :
    (c : ℕ) (s : Str) → is_space c ≡ false → contains c s ≡ true → contains c (trim_left s) ≡ true
unfolding trim_left contains
trim_left_keeps c [] visible has = has
trim_left_keeps c (x ∷ s) visible has = ground (arith, trim_left_keeps c s, Bool-cases (is_space x))

trim_right_shown :
    (c : ℕ) (s : Str) → is_space c ≡ false → contains c s ≡ true → is_nil (trim_right s) ≡ false
unfolding trim_right contains
trim_right_shown c [] visible has = absurd (cc)
trim_right_shown c (x ∷ s) visible has =
    ground (arith, trim_right_shown c s, Bool-cases (is_space x))

-- A text with a character that is no space is not blank.
pub contains_shown :
    (c : ℕ) (s : Str) → is_space c ≡ false → contains c s ≡ true → is_blank s ≡ false
unfolding trim_space
contains_shown c s visible has =
    trim_right_shown c (trim_left s) visible (trim_left_keeps c s visible has)
