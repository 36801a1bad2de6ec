-- ===== src/Prelude/Numerals.antt =====
-- `strconv.ParseInt(s, 10, 64)`, and `strconv.Atoi` on a 64-bit machine: an optional sign and
-- decimal digits, in the range of int64.
use Prim.Native.Nat.{ℕ, ◌+◌, ◌-◌, ◌*◌}
use Prim.Native.String.{String}
use mathlib.Core.Bool.{Bool, ◌&&◌}
use mathlib.Core.List.{List, [], ◌∷◌}
use mathlib.Core.Option.{Option, none, some}
use mathlib.Core.Path.{◌≡◌, refl}
use modular_monolith.Prelude.Tests.{leb, nat_beq, if◌then◌else◌}
use modular_monolith.Prelude.Text.{codes}
use modular_monolith.Prelude.Int.{ℤ, pos, negsuc, ◌-ℤ◌}
use modular_monolith.Prelude.Int64.{in_int64}

is_digit : ℕ → Bool
is_digit c = leb b'0' c && leb c b'9'

digits_from : ℕ → List ℕ → Option ℕ
unfolding is_digit
digits_from n [] = some n
digits_from n (c ∷ s) =
    let rest = digits_from (n * 10 + (c - b'0')) s in if is_digit c then rest else none

digits : List ℕ → Option ℕ
unfolding digits_from
digits [] = none
digits (c ∷ s) = digits_from 0 (c ∷ s)

abbrev positive : Option ℕ → Option ℤ
positive none = none
positive (some n) = some (pos n)

abbrev negative : Option ℕ → Option ℤ
negative none = none
negative (some n) = some (pos 0 -ℤ pos n)

abbrev in_range : Option ℤ → Option ℤ
in_range none = none
in_range (some i) = if in_int64 i then some i else none

signed : List ℕ → Option ℤ
unfolding digits ◌-ℤ◌
signed [] = none
signed (c ∷ s) =
    if nat_beq c b'-'
    then negative (digits s)
    else if nat_beq c b'+'
    then positive (digits s)
    else positive (digits (c ∷ s))

unfoldable pub parse_int : String → Option ℤ
unfolding signed
parse_int text = in_range (signed (codes text))

a_negative_number : parse_int "-12" ≡ some (negsuc 11)
unfolding parse_int
a_negative_number = refl

no_number : parse_int "1x" ≡ none
unfolding parse_int
no_number = refl

too_large : parse_int "9223372036854775808" ≡ none
unfolding parse_int
too_large = refl
