-- ===== src/Prelude/Int.antt =====
-- Python's `int`, and the dynamic value that a setting or a JSON field holds.
use Prim.Native.Nat.{ℕ, zero, suc, ◌+◌, ◌-◌, ◌*◌, min, max}
use mathlib.Core.Bool.{Bool, true, false, ◌&&◌}
use mathlib.Core.List.{List, [], ◌∷◌}
use mathlib.Core.Option.{Option, none, some}
use paxalia_dashboard.Prelude.Tests.{◌==◌, leb, if◌then◌else◌}
use paxalia_dashboard.Prelude.Texts.{Text, strip_left}
use paxalia_dashboard.Prelude.Results.{Result, ok, err}

-- `negsuc n` is -(n + 1).
pub data ℤ : Type 0 where
  pos : ℕ → ℤ
  negsuc : ℕ → ℤ

-- `max(lo, z)` for a bound that is not negative.
abbrev pub at_least : ℕ → ℤ → ℕ
at_least lo (pos n) = max lo n
at_least lo (negsuc n) = lo

-- `min(z, hi)` for a bound that is not negative.
abbrev pub at_most : ℕ → ℤ → ℤ
at_most hi (pos n) = pos (min n hi)
at_most hi (negsuc n) = negsuc n

-- A value of the configuration mapping or of a JSON column. A float is kept as `int()` reads it:
-- its integer part, or nothing for an infinity.
pub data Value : Type 0 where
  null : Value
  bool : Bool → Value
  int : ℤ → Value
  float : ℤ → Value
  infinity nan : Value
  text : Text → Value
  sequence : List Text → Value
  mapping : Value

-- What `int(value)` raises.
pub data IntError : Type 0 where
  type_error value_error overflow_error : IntError

is_digit : ℕ → Bool
is_digit c = leb b'0' c && leb c b'9'

-- The digits of a decimal literal: one underscore may stand between two digits. The flag says
-- whether the last character was a digit; spaces may only follow.
digits_from : Text → Bool → ℕ → Option ℕ
unfolding is_digit
digits_from [] true n = some n
digits_from [] false n = none
digits_from (c ∷ s) last n =
    let number = digits_from s true (n * 10 + (c - 48)) in
    let gap = digits_from s false n in
    let trailing = strip_left (c ∷ s) in
    if is_digit c
    then number
    else if c == b'_' && last
    then gap
    else elim trailing [ [] ↦ (if last then some n else none) | _ ↦ none ]

negate : ℕ → ℤ
negate zero = pos zero
negate (suc n) = negsuc n

signed : Text → Option ℤ
unfolding digits_from negate
signed [] = none
signed (c ∷ s) =
    if c == b'-'
    then (elim (digits_from s false 0) [ none ↦ none | some n ↦ some (negate n) ])
    else if c == b'+'
    then (elim (digits_from s false 0) [ none ↦ none | some n ↦ some (pos n) ])
    else (elim (digits_from (c ∷ s) false 0) [ none ↦ none | some n ↦ some (pos n) ])

-- `int(value)`; of the digits that Python reads in a text, the ASCII ones.
unfoldable pub to_int : Value → Result IntError ℤ
unfolding signed
to_int null = err type_error
to_int (bool true) = ok (pos 1)
to_int (bool false) = ok (pos 0)
to_int (int z) = ok z
to_int (float z) = ok z
to_int infinity = err overflow_error
to_int nan = err value_error
to_int (text s) = elim (signed (strip_left s)) [ none ↦ err value_error | some z ↦ ok z ]
to_int (sequence xs) = err type_error
to_int mapping = err type_error
