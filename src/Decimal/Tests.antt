-- ===== src/Decimal/Tests.antt =====
-- `parse_decimal` at single inputs.
use exchange_connectivity.Base.{◌≡◌, refl, ok, err, [], some, arith}
use exchange_connectivity.Base.Int.{pos, negsuc}
use exchange_connectivity.Base.Text.{codes}
use exchange_connectivity.Failure.{invalid_decimal, out_of_range, excessive_precision}
use exchange_connectivity.Decimal.{parse_decimal}
use exchange_connectivity.Decimal.Literal.{Literal, minus, IsLiteral, spell, signed}
use exchange_connectivity.Decimal.Sound.{Denotes, parse_decimal_sound}
use exchange_connectivity.Decimal.Complete.{parse_decimal_complete}
use exchange_connectivity.Decimal.Print.{to_decimal_string}
use exchange_connectivity.Decimal.Print.RoundTrip.{parse_decimal-to_decimal_string}

whole_and_fraction : parse_decimal (codes "-12.5") ≡ ok (negsuc 1_249_999_999)
unfolding parse_decimal
whole_and_fraction = refl

smallest : parse_decimal (codes "-92233720368.54775808") ≡ ok (negsuc 0x7fff_ffff_ffff_ffff)
unfolding parse_decimal
smallest = refl

too_large : parse_decimal (codes "92233720368.54775808") ≡ err out_of_range
unfolding parse_decimal
too_large = refl

leading_point : parse_decimal (codes ".5") ≡ ok (pos 50_000_000)
unfolding parse_decimal
leading_point = refl

trailing_point : parse_decimal (codes "5.") ≡ err invalid_decimal
unfolding parse_decimal
trailing_point = refl

nine_places : parse_decimal (codes "0.000000001") ≡ err excessive_precision
unfolding parse_decimal
nine_places = refl

abbrev minus_half : Literal
minus_half = record { sign = minus; whole = []; fraction = some (codes "50") }

minus_half-IsLiteral : IsLiteral minus_half
minus_half-IsLiteral = record {
  whole_digits = tt;
  fraction_digits = ((omega arith, omega arith), ((omega arith, omega arith), tt));
  has_digits = λ e. cc;
}

parse_decimal_sound_example : Denotes (codes "-12.5") (negsuc 1_249_999_999)
parse_decimal_sound_example =
    parse_decimal_sound (codes "-12.5") (negsuc 1_249_999_999) whole_and_fraction

parse_decimal_complete_example : parse_decimal (spell minus_half) ≡ ok (signed minus 50_000_000)
parse_decimal_complete_example =
    parse_decimal_complete minus_half 50_000_000 minus_half-IsLiteral refl (omega arith)

parse_decimal-to_decimal_string_example :
    parse_decimal (to_decimal_string (negsuc 0x7fff_ffff_ffff_ffff) 8)
    ≡ ok (negsuc 0x7fff_ffff_ffff_ffff)
parse_decimal-to_decimal_string_example =
    parse_decimal-to_decimal_string (negsuc 0x7fff_ffff_ffff_ffff) (omega arith)
