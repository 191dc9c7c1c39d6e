-- ===== src/Json/RoundTrip/Objects.antt =====
-- Objects of backend/src/json.rs, written and parsed back.
use tldr_tv.Prelude.{
  ℕ, zero, suc, ◌+◌, ◌*◌, ◌≤◌, ◌≡◌, ◌∙◌, ap, max, true, false, ◌∷◌, ◌++◌, arith, length,
}
use tldr_tv.Prelude.Text.{Bytes, Text, utf8}
use tldr_tv.Prelude.Exec.{ok}
use tldr_tv.Json.{Json, Members, obj_of, no_member, member, insert_member}
use tldr_tv.Json.Print.{write_chars, write_string, write_value, write_members}
use tldr_tv.Json.Parser.{entries}
use tldr_tv.Json.RoundTrip.Chars.{string-write_chars}
use tldr_tv.Json.RoundTrip.Steps.{
  entries_step, next_entry_more, next_entry_end, object_end, object_more, value_at-object,
}
use tldr_tv.Json.RoundTrip.Written.{
  HasWritable, insert_all, height, members_height, ReadsValue, ReadsFields, ReadsObject,
  value-Tight, fields-Stops, split-utf8, length-split,
}

module _ (k : Text) (v : Json) (m : Members) (reads : ReadsValue v) (next : ReadsFields m) where
  entries-read :
      (len d f : ℕ) (out : Members) (rest : Bytes)
      → HasWritable (member k v m)
      → max (suc (height v)) (members_height m) + d ≤ 128
      → 4 * length (utf8 (write_chars k ++ b':' ∷ (write_value v ++ write_members false m))) + 5 ≤ f
      → entries len f d out
          (b'"' ∷ utf8 (write_chars k ++ b':' ∷ (write_value v ++ write_members false m)) ++ rest)
        ≡ (ok (obj_of (insert_all out (member k v m))), rest)
  entries-read len d zero out rest h low enough = absurd (omega arith)
  entries-read len d (suc f) out rest (hk, (hv, hm)) low enough =
      let behind = utf8 (write_members false m) ++ rest in
      let tail = write_value v ++ write_members false m in
      let sizes = length-split (write_value v) (write_members false m) in
      let key_sizes = length-split (write_chars k) (b':' ∷ tail) in
      let split =
        split-utf8 (write_chars k) (b':' ∷ tail) rest
        ∙ ap (λ b. utf8 (write_chars k) ++ b':' ∷ b)
            (split-utf8 (write_value v) (write_members false m) rest) in
      ap (λ b. entries len (suc f) d out (b'"' ∷ b)) split
      ∙ entries_step len f d out k v
          (utf8 (write_chars k) ++ b':' ∷ (utf8 (write_value v) ++ behind))
          (utf8 (write_value v) ++ behind) behind
          (ok (obj_of (insert_all out (member k v m))), rest)
          (string-write_chars k len (b':' ∷ (utf8 (write_value v) ++ behind)) hk)
          (value-Tight v behind hv).0
          (reads len (suc d) f behind hv (omega arith) (fields-Stops m rest).0
            (omega (arith, sizes, key_sizes)))
          (fields-Stops m rest).1
          (next len d f (insert_member k v out) rest hm (omega arith)
            (omega (arith, sizes, key_sizes)))

  pub member-ReadsFields : ReadsFields (member k v m)
  unfolding write_members write_string
  member-ReadsFields len d zero out rest h low enough = absurd (omega arith)
  member-ReadsFields len d (suc f) out rest h low enough =
      next_entry_more len f d out
        (b'"' ∷ utf8 (write_chars k ++ b':' ∷ (write_value v ++ write_members false m)) ++ rest)
      ∙ entries-read len d f out rest h low (omega arith)

  pub member-ReadsObject : ReadsObject (member k v m)
  unfolding write_members write_string
  member-ReadsObject len d zero rest h low enough = absurd (omega arith)
  member-ReadsObject len d (suc f) rest h low enough =
      object_more len f d
        (utf8 (write_chars k ++ b':' ∷ (write_value v ++ write_members false m)) ++ rest)
      ∙ entries-read len d f no_member rest h low (omega arith)

pub no_member-ReadsFields : ReadsFields no_member
unfolding write_members
no_member-ReadsFields len d zero out rest h low enough = absurd (omega arith)
no_member-ReadsFields len d (suc f) out rest h low enough = next_entry_end len f d out rest

pub no_member-ReadsObject : ReadsObject no_member
unfolding write_members
no_member-ReadsObject len d zero rest h low enough = absurd (omega arith)
no_member-ReadsObject len d (suc f) rest h low enough = object_end len f d rest

pub obj_of-ReadsValue : (m : Members) → ReadsObject m → ReadsValue (obj_of m)
unfolding write_value
obj_of-ReadsValue m reads len d zero rest h low stops enough = absurd (omega arith)
obj_of-ReadsValue m reads len d (suc f) rest (map, h) low stops enough =
    value_at-object len f d (omega arith) (utf8 (write_members true m) ++ rest)
    ∙ reads len d f rest h low (omega arith)
    ∙ ap (λ i. (ok (obj_of i), rest)) map
