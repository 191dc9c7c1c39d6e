-- ===== src/Json/RoundTrip.antt =====
-- Values of backend/src/json.rs, written and parsed back.
pub mod Scalars
pub mod Chars
pub mod Numbers
pub mod Steps
pub mod Written
pub mod Arrays
pub mod Objects
use tldr_tv.Prelude.{
  ℕ, zero, suc, ◌+◌, ◌*◌, ◌≤◌, ◌<◌, ◌≡◌, ◌∙◌, refl, ap, sym, subst, max, Bool, true, false, ◌||◌,
  inl, inr, [], ◌∷◌, ◌++◌, arith, append_assoc, append-nil, nat_beq, length, length-append, All,
}
use tldr_tv.Prelude.Text.{Bytes, Text, utf8, is_ascii_digit}
use tldr_tv.Prelude.Exec.{ok, ◌>>◌, bind_to}
use tldr_tv.Json.{
  Json, Items, Members, null, bool, num, str, arr, obj_of, no_item, item, no_member, member,
  insert_member,
}
use tldr_tv.Json.Float.{Float64}
use tldr_tv.Json.Decimal.{format_number}
use tldr_tv.Json.Print.{
  write_chars, write_string, write_value, write_items, write_members, stringify,
}
use tldr_tv.Json.Parser.{
  value_at, array, elements, next_element, object, entries, next_entry, push_item, parse, peeks,
  space, finish, fuel_for,
}
use tldr_tv.Json.Parser.Scan.{number, ws, is_ws}
use tldr_tv.Json.RoundTrip.Scalars.{IsScalar, utf8-append}
use tldr_tv.Json.RoundTrip.Chars.{string-write_chars}
use tldr_tv.Json.RoundTrip.Numbers.{Stops, number-append, number-first}
use tldr_tv.Json.RoundTrip.Steps.{
  Tight, elements_step, entries_step, next_element_more, next_element_end, next_entry_more,
  next_entry_end, array_end, array_more, object_end, object_more, value_at-array, value_at-object,
  value_at_null, value_at-true, value_at-false, value_at-string, value_at-number,
}
use tldr_tv.Json.RoundTrip.Written.{
  IsWritable, AreWritable, HasWritable, insert_all, push_all, height, items_height, members_height,
  ReadsValue, ReadsNext, ReadsArray, ReadsFields, ReadsObject, value-Tight, next-Stops,
  fields-Stops, split-utf8, length-split,
}
use tldr_tv.Json.RoundTrip.Arrays.{
  item-ReadsNext, item-ReadsArray, no_item-ReadsNext, no_item-ReadsArray, arr-ReadsValue,
}
use tldr_tv.Json.RoundTrip.Objects.{
  member-ReadsFields, member-ReadsObject, no_member-ReadsFields, no_member-ReadsObject,
  obj_of-ReadsValue,
}

word-ReadsValue :
    (v : Json)
    → ((len f d : ℕ) (rest : Bytes)
        → d ≤ 128
        → value_at len (suc f) d (utf8 (write_value v) ++ rest) ≡ (ok v, rest))
    → 1 ≤ length (utf8 (write_value v))
    → ReadsValue v
word-ReadsValue v reads some_text len d zero rest h low stops enough = absurd (omega arith)
word-ReadsValue v reads some_text len d (suc f) rest h low stops enough =
    reads len f d rest (omega arith)

str-ReadsValue : (s : Text) → ReadsValue (str s)
unfolding write_value write_string
str-ReadsValue s len d zero rest h low stops enough = absurd (omega arith)
str-ReadsValue s len d (suc f) rest h low stops enough =
    value_at-string len f d (omega arith) (utf8 (write_chars s) ++ rest) s rest
      (string-write_chars s len rest h)

num-ReadsValue : (x : Float64) → ReadsValue (num x)
unfolding write_value
num-ReadsValue x len d zero rest h low stops enough =
    let (c, bs, first, sign) = number-first 0 x (utf8 (format_number x)) [] (h 0) in
    absurd (omega (arith, ap length first))
num-ReadsValue x len d (suc f) rest h low stops enough =
    let (c, bs, first, sign) = number-first 0 x (utf8 (format_number x)) [] (h 0) in
    ap (λ b. value_at len (suc f) d (b ++ rest)) first
    ∙ value_at-number len f d (omega arith) c (bs ++ rest) sign
    ∙ ap (λ b. number len (b ++ rest)) (sym first)
    ∙ number-append len x (utf8 (format_number x)) rest (h len) stops

bool-ReadsValue : (b : Bool) → ReadsValue (bool b)
unfolding write_value
bool-ReadsValue true =
    word-ReadsValue (bool true) (λ len f d rest low. value_at-true len f d low rest) (omega arith)
bool-ReadsValue false =
    word-ReadsValue (bool false) (λ len f d rest low. value_at-false len f d low rest) (omega arith)

value_at-ReadsValue : (v : Json) → ReadsValue v
unfolding write_value
value_at-ReadsValue v =
    elim v as ReadsValue (λ i. ReadsNext i × ReadsArray i) (λ m. ReadsFields m × ReadsObject m) [
      | null ↦
          word-ReadsValue null (λ len f d rest low. value_at_null len f d low rest) (omega arith)
      | bool b ↦ bool-ReadsValue b
      | num x ↦ num-ReadsValue x
      | str s ↦ str-ReadsValue s
      | arr (items → ih) ↦ arr-ReadsValue items ih.1
      | obj_of (m → ih) ↦ obj_of-ReadsValue m ih.1
      | no_item ↦ (no_item-ReadsNext, no_item-ReadsArray)
      | item (v → ihv) (r → ihr) ↦ (item-ReadsNext v r ihv ihr.0, item-ReadsArray v r ihv ihr.0)
      | no_member ↦ (no_member-ReadsFields, no_member-ReadsObject)
      | member k (v → ihv) (m → ihm) ↦
          (member-ReadsFields k v m ihv ihm.0, member-ReadsObject k v m ihv ihm.0)
    ]

members-Reads : (m : Members) → ReadsFields m × ReadsObject m
members-Reads no_member = (no_member-ReadsFields, no_member-ReadsObject)
members-Reads (member k v m) =
    let reads = value_at-ReadsValue v in
    let rest = members-Reads m in
    (member-ReadsFields k v m reads rest.0, member-ReadsObject k v m reads rest.0)

-- an object whose members stand in any order
pub parse_object :
    (m : Members)
    → HasWritable m
    → members_height m ≤ 128
    → parse (utf8 (stringify (obj_of m))) ≡ ok (obj_of (insert_all no_member m))
unfolding parse stringify ws write_value
parse_object m h low =
    let reads = members-Reads m in
    let b = utf8 (b'{' ∷ write_members true m) in
    let len = length b in
    let f = fuel_for b in
    let plain : b ++ [] ≡ b = append-nil b in
    let more : f ≡ suc (4 * length b + 3) = omega arith in
    let inner : object len (4 * length b + 3) 0 (utf8 (write_members true m) ++ [])
        ≡ (ok (obj_of (insert_all no_member m)), []) =
      reads.1 len 0 (4 * length b + 3) [] h (omega arith) (omega arith) in
    let read : value_at len f 0 b ≡ (ok (obj_of (insert_all no_member m)), []) =
      ap (value_at len f 0) (sym plain)
      ∙ ap (λ g. value_at len g 0 (b ++ [])) more
      ∙ value_at-object len (4 * length b + 3) 0 (omega arith) (utf8 (write_members true m) ++ [])
      ∙ inner in
    ap (λ r. r.0)
      (bind_to (space >> value_at len f 0) (λ v. space >> finish len v) b
        (obj_of (insert_all no_member m)) []
        (bind_to space (λ _. value_at len f 0) b tt b refl ∙ read))

-- What `stringify` writes of a value, `parse` reads back as that value: for a value with at most 128
-- arrays and objects around any part, characters that are Unicode scalar values, objects that are
-- maps, and numbers each of whose texts reads back as the number.
pub parse-stringify : (v : Json) → IsWritable v → height v ≤ 128 → parse (utf8 (stringify v)) ≡ ok v
unfolding parse stringify ws
parse-stringify v h low =
    let b = utf8 (write_value v) in
    let len = length b in
    let f = fuel_for b in
    let plain : b ++ [] ≡ b = append-nil b in
    let tight : ws b ≡ b = subst Tight plain (value-Tight v [] h).0 in
    let read : value_at len f 0 b ≡ (ok v, []) =
      ap (value_at len f 0) (sym plain)
      ∙ value_at-ReadsValue v len 0 f [] h (omega arith) tt (omega arith) in
    ap (λ r. r.0)
      (bind_to (space >> value_at len f 0) (λ v. space >> finish len v) b v []
        (bind_to space (λ _. value_at len f 0) b tt b (ap (λ x. (ok tt, x)) tight) ∙ read))
