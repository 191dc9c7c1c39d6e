-- ===== src/Json/Parser.antt =====
-- The parser of backend/src/json.rs. Its state is the input that is left, so the position `i` is
-- the length of the whole input less that of the state: `len` is the length of the whole.
pub mod Scan
pub mod Ends
pub mod Termination
use tldr_tv.Prelude.{
  ℕ, zero, suc, ◌+◌, ◌-◌, ◌*◌, ◌<◌, Bool, true, false, ◌||◌, [], ◌∷◌, ◌++◌, nat_beq, ltb, length,
  is_nil, if◌then◌else◌,
}
use tldr_tv.Prelude.Text.{Bytes, Text, codes, is_ascii_digit}
use tldr_tv.Prelude.Exec.{Outcome, ok, err, pure, ◌>>=◌, ◌>>◌}
use tldr_tv.Json.{
  Json, Items, Members, null, bool, num, str, arr, obj_of, no_item, item, no_member, insert_member,
}
use tldr_tv.Json.Parser.Scan.{Stop, ParseError, out_of_fuel, Parser, fail, ws, lit, string, number}

abbrev pub max_depth : ℕ
max_depth = 128

-- `out.push(v)`
abbrev pub push_item : Items → Json → Items
push_item no_item v = item v no_item
push_item (item w rest) v = item w (push_item rest v)

abbrev pub space : Parser (Unit {0})
space b = (ok tt, ws b)

-- a step over one byte, which is there
abbrev pub advance : Parser (Unit {0})
advance [] = (ok tt, [])
advance (c ∷ b) = (ok tt, b)

abbrev pub peeks : ℕ → Bytes → Bool
peeks c [] = false
peeks c (d ∷ b) = nat_beq d c

abbrev pub expect : ℕ → ℕ → Text → Parser (Unit {0})
expect len c msg b = if peeks c b then advance b else fail len msg b

-- Each call and each round costs a unit of fuel.
unfoldable mutual
  pub value_at : ℕ → ℕ → ℕ → Parser Json
  value_at len zero depth b = (err out_of_fuel, b)
  value_at len (suc f) depth [] =
      if ltb max_depth depth
      then fail len (codes "too deep") []
      else fail len (codes "unexpected end") []
  value_at len (suc f) depth (c ∷ b) =
      let items = array len f depth b in
      let fields = object len f depth b in
      if ltb max_depth depth
      then fail len (codes "too deep") (c ∷ b)
      else if nat_beq c b'n'
      then (lit len (codes "null") >> pure null) (c ∷ b)
      else if nat_beq c b't'
      then (lit len (codes "true") >> pure (bool true)) (c ∷ b)
      else if nat_beq c b'f'
      then (lit len (codes "false") >> pure (bool false)) (c ∷ b)
      else if nat_beq c b'"'
      then (string len >>= λ s. pure (str s)) b
      else if nat_beq c b'['
      then items
      else if nat_beq c b'{'
      then fields
      else if nat_beq c b'-' || is_ascii_digit c
      then number len (c ∷ b)
      else fail len (codes "unexpected token") (c ∷ b)

  -- `array`, behind its bracket
  pub array : ℕ → ℕ → ℕ → Parser Json
  array len zero depth b = (err out_of_fuel, b)
  array len (suc f) depth b =
      let more = elements len f depth no_item (ws b) in
      if peeks b']' (ws b) then (advance >> pure (arr no_item)) (ws b) else more

  -- the loop of `array`
  pub elements : ℕ → ℕ → ℕ → Items → Parser Json
  elements len zero depth out b = (err out_of_fuel, b)
  elements len (suc f) depth out b =
      (do space; v ← value_at len f (suc depth); space; next_element len f depth (push_item out v))
        b

  pub next_element : ℕ → ℕ → ℕ → Items → Parser Json
  next_element len zero depth out b = (err out_of_fuel, b)
  next_element len (suc f) depth out b =
      let more = (advance >> elements len f depth out) b in
      if peeks b',' b
      then more
      else if peeks b']' b
      then (advance >> pure (arr out)) b
      else fail len (codes "expected ',' or ']'") b

  -- `object`, behind its brace
  pub object : ℕ → ℕ → ℕ → Parser Json
  object len zero depth b = (err out_of_fuel, b)
  object len (suc f) depth b =
      let more = entries len f depth no_member (ws b) in
      if peeks b'}' (ws b) then (advance >> pure (obj_of no_member)) (ws b) else more

  -- the loop of `object`
  pub entries : ℕ → ℕ → ℕ → Members → Parser Json
  entries len zero depth out b = (err out_of_fuel, b)
  entries len (suc f) depth out b =
      (do
        space
        expect len b'"' (codes "expected object key")
        k ← string len
        space
        expect len b':' (codes "expected ':'")
        space
        v ← value_at len f (suc depth)
        space
        next_entry len f depth (insert_member k v out))
        b

  pub next_entry : ℕ → ℕ → ℕ → Members → Parser Json
  next_entry len zero depth out b = (err out_of_fuel, b)
  next_entry len (suc f) depth out b =
      let more = (advance >> entries len f depth out) b in
      if peeks b',' b
      then more
      else if peeks b'}' b
      then (advance >> pure (obj_of out)) b
      else fail len (codes "expected ',' or '}'") b

-- Three calls are made at most between two bytes.
abbrev pub fuel_for : Bytes → ℕ
fuel_for b = 4 * length b + 4

-- the end of `parse`: no content may be left
abbrev pub finish : ℕ → Json → Parser Json
finish len v b = if is_nil b then (ok v, b) else fail len (codes "trailing content") b

-- `parse` up to its answer
abbrev pub whole : ℕ → ℕ → Parser Json
whole len f = space >> value_at len f 0 >>= λ v. space >> finish len v

unfoldable pub parse : Bytes → Outcome Stop Json
unfolding value_at
parse input = let len = length input in (whole len (fuel_for input) input).0
