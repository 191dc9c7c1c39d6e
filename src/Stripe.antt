-- ===== src/Stripe.antt =====
-- backend/src/stripe.rs: percent-encoding and the check of webhook signatures; its child Retry has
-- the retries. The clock is an argument, in seconds.
pub mod Genuine
pub mod Retry
mod Examples
use tldr_tv.Prelude.{
  ℕ, zero, suc, ◌+◌, ◌-◌, ◌*◌, ◌/◌, ◌%◌, ◌^◌, min, Bool, true, false, ◌&&◌, ◌||◌, not, Option, none,
  some, List, [], ◌∷◌, ◌++◌, ◌==◌, list_eq, nat_eq, ltb, leb, nat_beq, is_nil, every, if◌then◌else◌,
}
use tldr_tv.Prelude.Text.{
  Bytes, Text, codes, utf8, trim, split_onto, split_once, is_ascii_alphanumeric, is_ascii_digit,
  decimal,
}
use tldr_tv.Prelude.Int.{ℤ, pos, negsuc, int_ltb, ◌+ℤ◌, neg}
use tldr_tv.Prelude.Exec.{Outcome, ok, err}
use tldr_tv.Json.{Json}
use tldr_tv.Json.Decimal.{digits_value}
use tldr_tv.Json.Parser.{parse}
use tldr_tv.Json.Parser.Scan.{ParseError, Stop}
use tldr_tv.Crypto.{hex_encode, ct_eq}
use tldr_tv.Crypto.Sha256.{hmac_sha256}

pub data SignatureError : Type 0 where
  empty_secret no_signatures missing_timestamp invalid_timestamp : SignatureError
  timestamp_outside_tolerance : ℤ → ℤ → SignatureError
  no_matching_signature : SignatureError

pub data StripeError : Type 0 where
  transport : Text → StripeError
  http : ℕ → Option Text → Text → StripeError
  signature : SignatureError → StripeError
  -- `Parse`
  unparsed : Text → StripeError
  circuit_open timed_out busy : StripeError

-- DIGITS[v]
abbrev pub hex_nibble : ℕ → ℕ
hex_nibble v = if ltb v 10 then b'0' + v else b'A' + (v - 10)

abbrev pub is_unreserved : ℕ → Bool
is_unreserved b =
    is_ascii_alphanumeric b || nat_beq b b'-' || nat_beq b b'.' || nat_beq b b'_' || nat_beq b b'~'

-- the loop of `percent_encode`
unfoldable pub encode_bytes : Bytes → Text
encode_bytes [] = []
encode_bytes (b ∷ bytes) =
    (if is_unreserved b then b ∷ [] else b'%' ∷ hex_nibble (b / 16) ∷ hex_nibble (b % 16) ∷ [])
    ++ encode_bytes bytes

unfoldable pub percent_encode : Text → Text
unfolding encode_bytes
percent_encode input = encode_bytes (utf8 input)

-- the loop of `form_encode`
abbrev pub form_onto : Text → List (Text × Text) → Text
form_onto out [] = out
form_onto out ((k, v) ∷ pairs) =
    form_onto
      ((if is_nil out then out else out ++ b'&' ∷ [])
        ++ percent_encode k
        ++ b'=' ∷ []
        ++ percent_encode v)
      pairs

unfoldable pub form_encode : List (Text × Text) → Text
unfolding percent_encode
form_encode pairs = form_onto [] pairs

pub record SigHeader : Type 0 where
  pub timestamp : Option Text
  pub v1 : List Text

abbrev has_timestamp : SigHeader → Bool
has_timestamp out = elim out.timestamp [ none ↦ false | some t ↦ true ]

abbrev pub take_field : SigHeader → Text → Text → SigHeader
take_field out k v =
    if trim k == codes "t" && not (has_timestamp out)
    then record { timestamp = some (trim v); v1 = out.v1 }
    else if trim k == codes "v1"
    then record { timestamp = out.timestamp; v1 = out.v1 ++ trim v ∷ [] }
    else out

abbrev pub take_part : SigHeader → Text → SigHeader
take_part out part = elim (split_once b'=' part) [ none ↦ out | some (k, v) ↦ take_field out k v ]

abbrev pub take_parts : SigHeader → List Text → SigHeader
take_parts out [] = out
take_parts out (part ∷ parts) = take_parts (take_part out part) parts

unfoldable pub parse_sig_header : Text → SigHeader
unfolding trim
parse_sig_header header =
    take_parts (record { timestamp = none; v1 = [] }) (split_onto b',' [] header)

abbrev pub expected_signature : Text → Text → Bytes → Text
expected_signature secret timestamp payload =
    hex_encode (hmac_sha256 (utf8 secret) (utf8 timestamp ++ b'.' ∷ payload))

-- `parse::<i64>`: decimal digits with an optional sign, on 64 bits
abbrev i64_of_digits : Bool → Text → Option ℤ
i64_of_digits negative s =
    let n = digits_value 0 s in
    if is_nil s || not (every is_ascii_digit s)
    then none
    else if negative
    then (if leb n (2 ^ 63) then some (neg (pos n)) else none)
    else if ltb n (2 ^ 63)
    then some (pos n)
    else none

abbrev pub parse_i64 : Text → Option ℤ
parse_i64 [] = none
parse_i64 (c ∷ s) =
    if nat_beq c b'-'
    then i64_of_digits true s
    else if nat_beq c b'+'
    then i64_of_digits false s
    else i64_of_digits false (c ∷ s)

-- an `i64` operation that saturates
abbrev saturated : ℤ → ℤ
saturated (pos n) = pos (min n (2 ^ 63 - 1))
saturated (negsuc n) = negsuc (min n (2 ^ 63 - 1))

abbrev pub saturating_sub : ℤ → ℤ → ℤ
saturating_sub a b = saturated (a +ℤ neg b)

abbrev pub saturating_abs : ℤ → ℤ
saturating_abs (pos n) = pos n
saturating_abs (negsuc n) = pos (min (suc n) (2 ^ 63 - 1))

-- Every candidate is compared, also behind one that matches.
abbrev pub any_match : Bool → Bytes → List Text → Bool
any_match matched expected [] = matched
any_match matched expected (candidate ∷ rest) =
    any_match (if ct_eq (utf8 candidate) expected then true else matched) expected rest

abbrev pub compare_all : Text → List Text → Outcome SignatureError (Unit {0})
compare_all expected candidates =
    if any_match false (utf8 expected) candidates
    then ok tt
    else err SignatureError.no_matching_signature

abbrev pub check_age : ℤ → ℤ → Outcome SignatureError (Unit {0}) → Outcome SignatureError (Unit {0})
check_age age tolerance_secs rest =
    if int_ltb tolerance_secs (saturating_abs age)
    then err (SignatureError.timestamp_outside_tolerance age tolerance_secs)
    else rest

abbrev pub check_timestamp :
    Bytes → Text → ℤ → ℤ → List Text → Text → Outcome SignatureError (Unit {0})
check_timestamp payload secret tolerance_secs now v1 ts = elim (parse_i64 ts) [
  | none ↦ err SignatureError.invalid_timestamp
  | some ts_num ↦
      check_age (saturating_sub now ts_num) tolerance_secs
        (compare_all (expected_signature secret ts payload) v1)
]

abbrev pub verify_header : Bytes → Text → ℤ → ℤ → SigHeader → Outcome SignatureError (Unit {0})
verify_header payload secret tolerance_secs now parsed =
    if is_nil parsed.v1 then err SignatureError.no_signatures else elim parsed.timestamp [
      | none ↦ err SignatureError.missing_timestamp
      | some ts ↦
          if is_nil ts
          then err SignatureError.missing_timestamp
          else check_timestamp payload secret tolerance_secs now parsed.v1 ts
    ]

unfoldable pub verify_signature : Bytes → Text → Text → ℤ → ℤ → Outcome SignatureError (Unit {0})
unfolding parse_sig_header hmac_sha256 ct_eq
verify_signature payload sig_header secret tolerance_secs now =
    if is_nil secret
    then err SignatureError.empty_secret
    else verify_header payload secret tolerance_secs now (parse_sig_header sig_header)

-- `to_string` of a parse error
abbrev pub stop_text : Stop → Text
stop_text (Stop.failed e) = codes "invalid JSON at byte " ++ decimal e.at ++ codes ": " ++ e.msg
stop_text Stop.out_of_fuel = codes "out of fuel"

abbrev pub parse_event : Bytes → Outcome StripeError Json
parse_event payload = elim (parse payload) [ err e ↦ err (unparsed (stop_text e)) | ok v ↦ ok v ]

unfoldable pub construct_event : ℤ → Bytes → Text → Text → ℤ → Outcome StripeError Json
unfolding verify_signature parse
construct_event now payload sig_header secret tolerance_secs =
    elim (verify_signature payload sig_header secret tolerance_secs now) [
      | err e ↦ err (signature e)
      | ok done ↦ parse_event payload
    ]
