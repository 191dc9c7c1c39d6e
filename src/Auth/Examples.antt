-- ===== src/Auth/Examples.antt =====
-- Concrete tokens of backend/src/auth.rs.
use tldr_tv.Prelude.{arith, ◌≡◌, refl, some}
use tldr_tv.Prelude.Text.{codes}
use tldr_tv.Prelude.Int.{pos}
use tldr_tv.Prelude.Exec.{ok}
use tldr_tv.Json.Float.{of_i64, is_integral, to_i64}
use tldr_tv.Json.Decimal.{format_number, parse_f64}
use tldr_tv.Json.Parser.Scan.{number}
use tldr_tv.Json.RoundTrip.Scalars.{every-IsScalar}
use tldr_tv.Auth.{JwtPayload, jwt_sign, jwt_verify, claimed_exp}
use tldr_tv.Auth.Tokens.{Accepted, jwt_verify-Accepted}
use tldr_tv.Auth.RoundTrip.{IsClaim, jwt_verify-jwt_sign}

abbrev session : JwtPayload
session = record { user_id = codes "a\"bc-1"; exp = some (pos 1760000000) }

session-IsClaim : IsClaim (some (pos 1760000000))
unfolding of_i64 format_number parse_f64 number claimed_exp is_integral to_i64
session-IsClaim = (omega arith, λ len. refl)

jwt_verify-jwt_sign_example :
    jwt_verify 1759999999 (jwt_sign session (codes "secret")) (codes "secret") ≡ ok session
jwt_verify-jwt_sign_example =
    jwt_verify-jwt_sign 1759999999 (codes "a\"bc-1") (some (pos 1760000000)) (codes "secret")
      (every-IsScalar (codes "a\"bc-1") refl) session-IsClaim refl

jwt_verify-Accepted_example :
    Accepted 1759999999 (codes "secret") (jwt_sign session (codes "secret")) session
jwt_verify-Accepted_example =
    jwt_verify-Accepted 1759999999 (jwt_sign session (codes "secret")) (codes "secret") session
      jwt_verify-jwt_sign_example
