-- ===== src/Stripe/Examples.antt =====
-- Concrete calls and webhooks of backend/src/stripe.rs.
use tldr_tv.Prelude.{◌≡◌, ◌≤◌, refl, arith, none, some, [], ◌++◌}
use tldr_tv.Prelude.Text.{Text, Bytes, codes, trim}
use tldr_tv.Prelude.Int.{pos}
use tldr_tv.Prelude.Exec.{ok, err}
use tldr_tv.Json.{Json, num, obj_of, member, no_member}
use tldr_tv.Json.Float.{of_i64}
use tldr_tv.Json.Decimal.{parse_f64}
use tldr_tv.Json.Parser.{parse}
use tldr_tv.Json.Parser.Scan.{ws, string, number}
use tldr_tv.Crypto.{ct_eq}
use tldr_tv.Crypto.Sha256.{hmac_sha256, sha256, update, finalize, compress, whole_blocks}
use tldr_tv.Stripe.{
  StripeError, parse_sig_header, expected_signature, verify_signature, construct_event,
}
use tldr_tv.Stripe.Genuine.{Genuine, construct_event-Genuine}
use tldr_tv.Stripe.Retry.{Net, after_reply, retry_after_ms, send_with_retry}
use tldr_tv.Stripe.Retry.Bounds.{send_with_retry_bounds, send_with_retry_third}

-- a network that answers nothing, after two failures
abbrev dead : Net
dead = record {
  now = 1000;
  circuit = record { consecutive_failures = 2; open_until = none };
  replies = [];
  sent = 0;
  slept = 0;
}

send_with_retry_bounds_example :
    ((send_with_retry dead).1.sent ≤ 5) × ((send_with_retry dead).1.slept ≤ 240000)
send_with_retry_bounds_example = send_with_retry_bounds dead

-- the same network, 20 seconds after the third failure
abbrev later : Net
later = record {
  now = 36000;
  circuit = record { consecutive_failures = 3; open_until = some 46000 };
  replies = [];
  sent = 0;
  slept = 0;
}

send_with_retry_third_example : send_with_retry later ≡ (err StripeError.circuit_open, later)
unfolding send_with_retry after_reply retry_after_ms
send_with_retry_third_example =
    send_with_retry_third dead later (StripeError.transport (codes "no reply")) refl (omega arith)
      refl refl (omega arith)

abbrev payload : Bytes
payload = codes "{\"id\":1}"

abbrev sent_header : Text
sent_header =
    codes "t=1760000000,v1=" ++ expected_signature (codes "whsec") (codes "1760000000") payload

-- the value of an accepted payload
abbrev event : Json
event = obj_of (member (codes "id") (num (of_i64 (pos 1))) no_member)

taken : construct_event (pos 1760000010) payload sent_header (codes "whsec") (pos 300) ≡ ok event
unfolding construct_event verify_signature parse_sig_header trim hmac_sha256 sha256 update finalize
    compress whole_blocks ct_eq parse ws string number of_i64 parse_f64
taken = refl

construct_event-Genuine_example :
    Genuine payload sent_header (codes "whsec") (pos 300) (pos 1760000010)
    × (parse payload ≡ ok event)
construct_event-Genuine_example =
    construct_event-Genuine (pos 1760000010) payload sent_header (codes "whsec") (pos 300) event
      taken
