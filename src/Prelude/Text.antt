-- ===== src/Prelude/Text.antt =====
-- Texts. A Rust `str` is the list of its Unicode scalar values, a `[u8]` a list of bytes.
use Prim.Native.Nat.{ℕ, zero, suc, ◌+◌, ◌/◌, ◌%◌}
use Prim.Native.Char.{code}
use Prim.Native.String.{String}
use mathlib.Core.Bool.{Bool, true, false, ◌&&◌, ◌||◌}
use mathlib.Core.List.{List, [], ◌∷◌, ◌++◌, reverse}
use mathlib.Core.Option.{Option, none, some}
use tldr_tv.Prelude.Tests.{ltb, leb, nat_beq, if◌then◌else◌}

abbrev pub Bytes : Type 0
Bytes = List ℕ

abbrev pub Text : Type 0
Text = List ℕ

abbrev pub codes : String → Text
codes String.[] = []
codes (String.◌∷◌ c s) = code c ∷ codes s

-- The UTF-8 encoding of one scalar value, and `str::as_bytes`.
abbrev pub utf8_char : ℕ → Bytes
utf8_char c =
    if ltb c 0x80
    then c ∷ []
    else if ltb c 0x800
    then (0xc0 + c / 64) ∷ (0x80 + c % 64) ∷ []
    else if ltb c 0x10000
    then (0xe0 + c / 4096) ∷ (0x80 + c / 64 % 64) ∷ (0x80 + c % 64) ∷ []
    else (0xf0 + c / 262144) ∷ (0x80 + c / 4096 % 64) ∷ (0x80 + c / 64 % 64) ∷ (0x80 + c % 64) ∷ []

abbrev pub utf8 : Text → Bytes
utf8 [] = []
utf8 (c ∷ s) = utf8_char c ++ utf8 s

abbrev pub within : ℕ → ℕ → ℕ → Bool
within lo hi c = leb lo c && leb c hi

-- `u8::is_ascii_alphabetic`, `is_ascii_digit` and `is_ascii_alphanumeric`.
abbrev pub is_ascii_alphabetic : ℕ → Bool
is_ascii_alphabetic c = within b'a' b'z' c || within b'A' b'Z' c

abbrev pub is_ascii_digit : ℕ → Bool
is_ascii_digit c = within b'0' b'9' c

abbrev pub is_ascii_alphanumeric : ℕ → Bool
is_ascii_alphanumeric c = is_ascii_alphabetic c || is_ascii_digit c

-- `char::is_whitespace`: the Unicode property White_Space.
unfoldable pub is_whitespace : ℕ → Bool
is_whitespace c =
    within 9 13 c
    || nat_beq c 0x20
    || nat_beq c 0x85
    || nat_beq c 0xa0
    || nat_beq c 0x1680
    || within 0x2000 0x200a c
    || nat_beq c 0x2028
    || nat_beq c 0x2029
    || nat_beq c 0x202f
    || nat_beq c 0x205f
    || nat_beq c 0x3000

-- `str::trim_start` and `str::trim`.
unfoldable pub trim_start : Text → Text
trim_start [] = []
trim_start (c ∷ s) = let rest = trim_start s in if is_whitespace c then rest else c ∷ s

unfoldable pub trim : Text → Text
unfolding is_whitespace trim_start
trim s = reverse (trim_start (reverse (trim_start s)))

-- `str::split(sep)` at one ASCII character: always at least one part.
abbrev pub split_onto : ℕ → Text → Text → List Text
split_onto sep cur [] = reverse cur ∷ []
split_onto sep cur (c ∷ s) =
    if nat_beq c sep then reverse cur ∷ split_onto sep [] s else split_onto sep (c ∷ cur) s

-- `str::split_once(sep)`.
abbrev pub split_once : ℕ → Text → Option (Text × Text)
split_once sep [] = none
split_once sep (c ∷ s) =
    if nat_beq c sep
    then some ([], s)
    else elim (split_once sep s) [ none ↦ none | some (a, b) ↦ some (c ∷ a, b) ]

-- `str::rsplit_once(sep)`: at the last occurrence.
abbrev pub rsplit_once : ℕ → Text → Option (Text × Text)
rsplit_once sep [] = none
rsplit_once sep (c ∷ s) = elim (rsplit_once sep s) [
  | some (a, b) ↦ some (c ∷ a, b)
  | none ↦ if nat_beq c sep then some ([], s) else none
]

abbrev pub text_starts_with : Text → Text → Bool
text_starts_with [] s = true
text_starts_with (c ∷ p) [] = false
text_starts_with (c ∷ p) (d ∷ s) = nat_beq c d && text_starts_with p s

-- `str::contains(part)`
abbrev pub text_contains : Text → Text → Bool
text_contains part [] = text_starts_with part []
text_contains part (c ∷ s) = text_starts_with part (c ∷ s) || text_contains part s

abbrev pub to_ascii_lowercase : ℕ → ℕ
to_ascii_lowercase c = if within b'A' b'Z' c then c + 32 else c

-- `str::eq_ignore_ascii_case`
abbrev pub eq_ignore_ascii_case : Text → Text → Bool
eq_ignore_ascii_case [] [] = true
eq_ignore_ascii_case (c ∷ s) (d ∷ t) =
    nat_beq (to_ascii_lowercase c) (to_ascii_lowercase d) && eq_ignore_ascii_case s t
eq_ignore_ascii_case _ _ = false

-- the order of `String`: that of the scalar values is that of the UTF-8 bytes
abbrev pub text_ltb : Text → Text → Bool
text_ltb s [] = false
text_ltb [] (d ∷ t) = true
text_ltb (c ∷ s) (d ∷ t) = ltb c d || (nat_beq c d && text_ltb s t)

-- the decimal digits of a number; one round drops a digit
abbrev pub digits_onto : ℕ → ℕ → Text → Text
digits_onto zero n cur = (b'0' + n % 10) ∷ cur
digits_onto (suc fuel) n cur = elim (ltb n 10) [
  | true ↦ (b'0' + n) ∷ cur
  | false ↦ digits_onto fuel (n / 10) ((b'0' + n % 10) ∷ cur)
]

abbrev pub decimal : ℕ → Text
decimal n = digits_onto n n []

-- all parts, one behind the other
abbrev pub joined : List Bytes → Bytes
joined [] = []
joined (d ∷ ds) = d ++ joined ds
