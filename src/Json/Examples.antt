-- ===== src/Json/Examples.antt =====
-- Concrete documents of backend/src/json.rs.
use tldr_tv.Prelude.{◌≡◌, ◌≢◌, refl, true, [], ◌∷◌, arith}
use tldr_tv.Prelude.Text.{codes, utf8}
use tldr_tv.Prelude.Exec.{ok, err}
use tldr_tv.Json.{Json, num, str, arr, bool, null, item, no_item, obj}
use tldr_tv.Json.Decimal.{format_number, parse_f64}
use tldr_tv.Json.Print.{stringify}
use tldr_tv.Json.Parser.{parse}
use tldr_tv.Json.Parser.Scan.{out_of_fuel, number}
use tldr_tv.Json.Parser.Termination.{parse-ends}
use tldr_tv.Json.RoundTrip.Scalars.{every-IsScalar}
use tldr_tv.Json.RoundTrip.{parse-stringify}
use tldr_tv.Json.RoundTrip.Written.{IsWritable}

abbrev document : Json
document = obj (
    (codes "tags", arr (item (bool true) (item null (item (arr no_item) no_item))))
    ∷ (codes "count", num (parse_f64 (codes "-12.5")))
    ∷ (codes "say \"hi\"", str (0x1f6f9 ∷ 0x01 ∷ 0xe9 ∷ []))
    ∷ [])

document-IsWritable : IsWritable document
unfolding number format_number parse_f64
document-IsWritable = (
  refl,
  (
    every-IsScalar (codes "count") refl,
    (
      λ len. refl,
      (
        every-IsScalar (codes "say \"hi\"") refl,
        (
          every-IsScalar (0x1f6f9 ∷ 0x01 ∷ 0xe9 ∷ []) refl,
          (every-IsScalar (codes "tags") refl, ((tt, (tt, (tt, tt))), tt)),
        ),
      ),
    ),
  ),
)

parse-stringify_example : parse (utf8 (stringify document)) ≡ ok document
parse-stringify_example = parse-stringify document document-IsWritable (omega arith)

parse-ends_example : parse (codes "[1, {\"a\": [\"\\ud83d") ≢ err out_of_fuel
parse-ends_example = parse-ends (codes "[1, {\"a\": [\"\\ud83d")
