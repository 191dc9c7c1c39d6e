-- ===== src/Json/Print.antt =====
-- The serializer of backend/src/json.rs: `stringify`, `write_value` and `write_string`. What the
-- source pushes onto `out` is returned.
use tldr_tv.Prelude.{
  ℕ, ◌+◌, ◌-◌, ◌/◌, ◌%◌, Bool, true, false, [], ◌∷◌, ◌++◌, ltb, nat_beq, if◌then◌else◌,
}
use tldr_tv.Prelude.Text.{Text, codes}
use tldr_tv.Json.{
  Json, Items, Members, null, bool, num, str, arr, obj_of, no_item, item, no_member, member,
}
use tldr_tv.Json.Decimal.{format_number}

-- one digit of `{:04x}`
abbrev pub hex_digit : ℕ → ℕ
hex_digit n = if ltb n 10 then b'0' + n else b'a' + (n - 10)

abbrev pub hex4_text : ℕ → Text
hex4_text c =
    hex_digit (c / 4096)
    ∷ hex_digit (c / 256 % 16)
    ∷ hex_digit (c / 16 % 16)
    ∷ hex_digit (c % 16)
    ∷ []

-- what `write_string` pushes for one character
unfoldable pub write_char : ℕ → Text
write_char c =
    if nat_beq c b'"'
    then b'\\' ∷ b'"' ∷ []
    else if nat_beq c b'\\'
    then b'\\' ∷ b'\\' ∷ []
    else if nat_beq c 0x0a
    then b'\\' ∷ b'n' ∷ []
    else if nat_beq c 0x0d
    then b'\\' ∷ b'r' ∷ []
    else if nat_beq c 0x09
    then b'\\' ∷ b't' ∷ []
    else if nat_beq c 0x08
    then b'\\' ∷ b'b' ∷ []
    else if nat_beq c 0x0c
    then b'\\' ∷ b'f' ∷ []
    else if ltb c 0x20
    then b'\\' ∷ b'u' ∷ hex4_text c
    else c ∷ []

-- the loop of `write_string`, with the closing quote
unfoldable pub write_chars : Text → Text
unfolding write_char
write_chars [] = b'"' ∷ []
write_chars (c ∷ s) = write_char c ++ write_chars s

unfoldable pub write_string : Text → Text
unfolding write_chars
write_string s = b'"' ∷ write_chars s

-- `if idx > 0 { out.push(',') }`
abbrev pub comma : Bool → Text
comma first = if first then [] else b',' ∷ []

unfoldable mutual
  pub write_value : Json → Text
  write_value null = codes "null"
  write_value (bool true) = codes "true"
  write_value (bool false) = codes "false"
  write_value (num x) = format_number x
  write_value (str s) = write_string s
  write_value (arr items) = b'[' ∷ write_items true items
  write_value (obj_of m) = b'{' ∷ write_members true m

  -- the loop over an array, with its closing bracket
  pub write_items : Bool → Items → Text
  write_items first no_item = b']' ∷ []
  write_items first (item v rest) = comma first ++ write_value v ++ write_items false rest

  -- the loop over an object, with its closing brace
  pub write_members : Bool → Members → Text
  write_members first no_member = b'}' ∷ []
  write_members first (member k v rest) =
      comma first ++ write_string k ++ b':' ∷ (write_value v ++ write_members false rest)

unfoldable pub stringify : Json → Text
unfolding write_value
stringify v = write_value v
