-- ===== src/Json/ParserTests.antt =====
-- The unit tests of backend/src/json.rs, at the model.
use tldr_tv.Prelude.{◌≡◌, refl, true, [], ◌∷◌}
use tldr_tv.Prelude.Text.{codes, utf8}
use tldr_tv.Prelude.Exec.{ok, err}
use tldr_tv.Json.{str, arr, obj_of, null, bool, item, no_item, member, no_member}
use tldr_tv.Json.Parser.{parse}
use tldr_tv.Json.Parser.Scan.{failed, ws, string}
use tldr_tv.Json.Print.{stringify, write_string}

trailing : parse (codes "{} x") ≡ err (failed (record { at = 3; msg = codes "trailing content" }))
unfolding parse ws string
trailing = refl

surrogates : parse (codes "\"\\ud83d\\udef9\"") ≡ ok (str (0x1f6f9 ∷ []))
unfolding parse ws string
surrogates = refl

lone_surrogate : parse (codes "\"\\ud83dx\"") ≡ ok (str (0xfffd ∷ b'x' ∷ []))
unfolding parse ws string
lone_surrogate = refl

sorted_keys :
    parse (codes "{\"b\": [null, true], \"a\":\"h\"}")
    ≡ ok (
        obj_of (
          member
            (codes "a")
            (str (codes "h"))
            (member (codes "b") (arr (item null (item (bool true) no_item))) no_member)))
unfolding parse ws string
sorted_keys = refl

escaped : stringify (str (b'a' ∷ 1 ∷ b'"' ∷ [])) ≡ codes "\"a\\u0001\\\"\""
unfolding stringify write_string
escaped = refl

there_and_back :
    parse (utf8 (stringify (str (0x1f6f9 ∷ 0xe9 ∷ [])))) ≡ ok (str (0x1f6f9 ∷ 0xe9 ∷ []))
unfolding parse ws string stringify write_string
there_and_back = refl
