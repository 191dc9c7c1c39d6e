-- ===== src/Http/Wire/Cookies.antt =====
-- A cookie that comes back, and one behind a part without an equals sign, in backend/src/http.rs.

use tldr_tv.Prelude.{
  ℕ, ◌≡◌, ◌∙◌, refl, ap, false, ◌||◌, Option, none, some, List, [], ◌∷◌, ◌++◌, ◌==◌, ==_refl,
  nat_eq, list_eq, nat_beq, All, All-append, All-map, arith, if◌then◌else◌,
}
use tldr_tv.Prelude.Text.{Text, trim, is_whitespace, split_onto, split_once}
use tldr_tv.Prelude.Splits.{IsNot, IsSolid, trim-solid, split_onto-part, split_onto-last}
use tldr_tv.Json.RoundTrip.Scalars.{IsScalar}
use tldr_tv.Http.{Cookie}
use tldr_tv.Http.Percent.{percent_decode, percent_encode_component}
use tldr_tv.Http.Percent.RoundTrip.{
  IsQuoted, percent_encode_component-IsQuoted, percent_decode-percent_encode_component,
}
use tldr_tv.Http.Wire.{cookie, cookie_in, named_value}

-- A character that stands for itself in a cookie: no space, semicolon or equals sign.
abbrev pub IsWord : ℕ → Type 0
IsWord c = (is_whitespace c || nat_beq c b';' || nat_beq c b'=') ≡ false

-- a character that trimming and splitting leave
abbrev IsInner : ℕ → Type 0
IsInner c = (is_whitespace c || nat_beq c b';') ≡ false

inner-IsSolid : (s : Text) → All IsInner s → All IsSolid s
inner-IsSolid = All-map (λ c inner. ground arith)

inner_whole : (s : Text) → All IsInner s → All (IsNot b';') s
inner_whole = All-map (λ c inner. ground arith)

word-IsInner : (s : Text) → All IsWord s → All IsInner s
word-IsInner [] h = tt
word-IsInner (c ∷ s) (p, h) = (ground (arith, p), word-IsInner s h)

quoted-IsInner : (s : Text) → All IsQuoted s → All IsInner s
unfolding is_whitespace
quoted-IsInner [] h = tt
quoted-IsInner (c ∷ s) (p, h) = (ground (arith, p), quoted-IsInner s h)

split_once-named :
    (name v : Text) → All IsWord name → split_once b'=' (name ++ b'=' ∷ v) ≡ some (name, v)
split_once-named [] v h = refl
split_once-named (c ∷ name) v (p, h) =
    let other : nat_beq c b'=' ≡ false = ground arith in rw (other, split_once-named name v h) refl

split_once-word : (s : Text) → All IsWord s → split_once b'=' s ≡ none
split_once-word [] h = refl
split_once-word (c ∷ s) (p, h) =
    let other : nat_beq c b'=' ≡ false = ground arith in rw (other, split_once-word s h) refl

-- the answer for a part, once it is split
found : Text → List Text → Option (Text × Text) → Option Text
found name pairs none = none
found name pairs (some (k, v)) =
    if trim k == name then some (percent_decode (trim v) false) else cookie_in name pairs

-- A header with one cookie, written as it was set, gives back the value of that cookie, whatever the
-- value is. The name has no space, semicolon or equals sign.
pub cookie-named_value :
    (c : Cookie)
    → All IsWord c.name
    → All IsScalar c.value
    → cookie (named_value c) c.name ≡ some c.value
unfolding cookie found
cookie-named_value c plain scalars =
    let v = percent_encode_component c.value in
    let quoted = quoted-IsInner v (percent_encode_component-IsQuoted c.value scalars) in
    let named = word-IsInner c.name plain in
    let inner = All-append IsInner c.name (b'=' ∷ v) named (refl, quoted) in
    ap (cookie_in c.name)
      (split_onto-last b';' (named_value c) [] (inner_whole (named_value c) inner))
    ∙ ap (λ t. found c.name [] (split_once b'=' t))
        (trim-solid (named_value c) (inner-IsSolid (named_value c) inner))
    ∙ ap (found c.name []) (split_once-named c.name v plain)
    ∙ ap (λ t. if t == c.name then some (percent_decode (trim v) false) else none)
        (trim-solid c.name (inner-IsSolid c.name named))
    ∙ ap (λ b. if b then some (percent_decode (trim v) false) else none) (==_refl c.name)
    ∙ ap (λ t. some (percent_decode t false)) (trim-solid v (inner-IsSolid v quoted))
    ∙ ap some (percent_decode-percent_encode_component c.value false scalars)

-- When the first part of a header has no space, semicolon or equals sign, no cookie is found in the
-- header, whatever follows.
pub cookie_hidden :
    (part rest name : Text) → All IsWord part → cookie (part ++ b';' ∷ rest) name ≡ none
unfolding cookie found
cookie_hidden part rest name plain =
    let pairs = split_onto b';' [] rest in
    let inner = word-IsInner part plain in
    ap (cookie_in name) (split_onto-part b';' part rest [] (inner_whole part inner))
    ∙ ap (λ t. found name pairs (split_once b'=' t)) (trim-solid part (inner-IsSolid part inner))
    ∙ ap (found name pairs) (split_once-word part plain)
