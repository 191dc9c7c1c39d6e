-- ===== src/Json/DecimalTests.antt =====
-- Decimal text of numbers at concrete values.
use tldr_tv.Prelude.{◌≡◌, refl}
use tldr_tv.Prelude.Text.{codes}
use tldr_tv.Json.Decimal.{parse_f64, format_number}

one_and_a_half : format_number (parse_f64 (codes "-150e-2")) ≡ codes "-1.5"
unfolding format_number parse_f64
one_and_a_half = refl

tenth : format_number (parse_f64 (codes "0.1")) ≡ codes "0.1"
unfolding format_number parse_f64
tenth = refl

big : format_number (parse_f64 (codes "1E21")) ≡ codes "1000000000000000000000"
unfolding format_number parse_f64
big = refl

safe : format_number (parse_f64 (codes "9007199254740993")) ≡ codes "9007199254740992"
unfolding format_number parse_f64
safe = refl

too_big : format_number (parse_f64 (codes "1e400")) ≡ codes "null"
unfolding format_number parse_f64
too_big = refl
