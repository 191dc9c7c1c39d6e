-- ===== src/Json/RoundTrip/Written.antt =====
-- Written text of backend/src/json.rs: the values that have one, and how it begins and goes on.
use tldr_tv.Prelude.{
  ℕ, suc, ◌+◌, ◌*◌, ◌≤◌, ◌≡◌, refl, max, true, false, [], ◌∷◌, ◌++◌, arith, append_assoc, nat_beq,
  length, length-append, All,
}
use tldr_tv.Prelude.Text.{Bytes, Text, utf8}
use tldr_tv.Prelude.Exec.{ok}
use tldr_tv.Json.{
  Json, Items, Members, null, bool, num, str, arr, obj_of, no_item, item, no_member, member,
  insert_member,
}
use tldr_tv.Json.Decimal.{format_number}
use tldr_tv.Json.Print.{write_string, write_value, write_items, write_members}
use tldr_tv.Json.Parser.{value_at, array, next_element, object, next_entry, push_item, peeks}
use tldr_tv.Json.Parser.Scan.{number, ws, is_ws}
use tldr_tv.Json.RoundTrip.Scalars.{IsScalar, utf8-append}
use tldr_tv.Json.RoundTrip.Numbers.{Stops, number-first}
use tldr_tv.Json.RoundTrip.Steps.{Tight}

-- the members inserted one by one, in order
abbrev pub insert_all : Members → Members → Members
insert_all out no_member = out
insert_all out (member k v m) = insert_all (insert_member k v out) m

abbrev pub push_all : Items → Items → Items
push_all out no_item = out
push_all out (item v rest) = push_all (push_item out v) rest

-- A value that a program can hold: its characters are scalar values and its objects are maps, that
-- is, what inserting their members gives. A number is one whose text reads back as that number.
abbrev mutual
  pub IsWritable : Json → Type 0
  IsWritable null = Unit
  IsWritable (bool b) = Unit
  IsWritable (num x) = (len : ℕ) → number len (utf8 (format_number x)) ≡ (ok (num x), [])
  IsWritable (str s) = All IsScalar s
  IsWritable (arr items) = AreWritable items
  IsWritable (obj_of m) = (insert_all no_member m ≡ m) × HasWritable m

  pub AreWritable : Items → Type 0
  AreWritable no_item = Unit
  AreWritable (item v rest) = IsWritable v × AreWritable rest

  pub HasWritable : Members → Type 0
  HasWritable no_member = Unit
  HasWritable (member k v m) = All IsScalar k × (IsWritable v × HasWritable m)

-- how many arrays and objects stand inside each other, below the outermost
abbrev mutual
  pub height : Json → ℕ
  height (arr items) = items_height items
  height (obj_of m) = members_height m
  height _ = 0

  pub items_height : Items → ℕ
  items_height no_item = 0
  items_height (item v rest) = max (suc (height v)) (items_height rest)

  pub members_height : Members → ℕ
  members_height no_member = 0
  members_height (member k v m) = max (suc (height v)) (members_height m)

-- The parser reads `v` off the front of input that no number goes on with.
abbrev pub ReadsValue : Json → Type 0
ReadsValue v =
    (len d f : ℕ) (rest : Bytes)
    → IsWritable v
    → height v + d ≤ 128
    → Stops rest
    → 4 * length (utf8 (write_value v)) ≤ f
    → value_at len f d (utf8 (write_value v) ++ rest) ≡ (ok v, rest)

abbrev pub ReadsNext : Items → Type 0
ReadsNext items =
    (len d f : ℕ) (out : Items) (rest : Bytes)
    → AreWritable items
    → items_height items + d ≤ 128
    → 4 * length (utf8 (write_items false items)) ≤ f
    → next_element len f d out (utf8 (write_items false items) ++ rest)
      ≡ (ok (arr (push_all out items)), rest)

abbrev pub ReadsArray : Items → Type 0
ReadsArray items =
    (len d f : ℕ) (rest : Bytes)
    → AreWritable items
    → items_height items + d ≤ 128
    → 4 * length (utf8 (write_items true items)) + 3 ≤ f
    → array len f d (utf8 (write_items true items) ++ rest)
      ≡ (ok (arr (push_all no_item items)), rest)

abbrev pub ReadsFields : Members → Type 0
ReadsFields m =
    (len d f : ℕ) (out : Members) (rest : Bytes)
    → HasWritable m
    → members_height m + d ≤ 128
    → 4 * length (utf8 (write_members false m)) ≤ f
    → next_entry len f d out (utf8 (write_members false m) ++ rest)
      ≡ (ok (obj_of (insert_all out m)), rest)

abbrev pub ReadsObject : Members → Type 0
ReadsObject m =
    (len d f : ℕ) (rest : Bytes)
    → HasWritable m
    → members_height m + d ≤ 128
    → 4 * length (utf8 (write_members true m)) + 3 ≤ f
    → object len f d (utf8 (write_members true m) ++ rest)
      ≡ (ok (obj_of (insert_all no_member m)), rest)

value-first :
    (v : Json)
    → IsWritable v
    → (c : ℕ) × (bs : Bytes) × (utf8 (write_value v) ≡ c ∷ bs)
      × (is_ws c ≡ false)
      × (nat_beq c b']' ≡ false)
unfolding write_value write_string
value-first null h = (_, _, refl, refl, refl)
value-first (bool true) h = (_, _, refl, refl, refl)
value-first (bool false) h = (_, _, refl, refl, refl)
value-first (num x) h =
    let (c, bs, first, sign) = number-first 0 x (utf8 (format_number x)) [] (h 0) in
    (c, bs, first, ground arith, ground arith)
value-first (str s) h = (_, _, refl, refl, refl)
value-first (arr items) h = (_, _, refl, refl, refl)
value-first (obj_of m) h = (_, _, refl, refl, refl)

-- how written text goes on
pub value-Tight :
    (v : Json) (rest : Bytes)
    → IsWritable v
    → Tight (utf8 (write_value v) ++ rest)
      × (peeks b']' (utf8 (write_value v) ++ rest) ≡ false)
      × (1 ≤ length (utf8 (write_value v)))
unfolding ws
value-Tight v rest h =
    let (c, bs, first, solid, other) = value-first v h in
    rw (first, solid, other) (refl, refl, omega arith)

pub next-Stops :
    (r : Items) (rest : Bytes)
    → Stops (utf8 (write_items false r) ++ rest) × Tight (utf8 (write_items false r) ++ rest)
unfolding write_items ws
next-Stops no_item rest = (refl, refl)
next-Stops (item v r) rest = (refl, refl)

pub fields-Stops :
    (m : Members) (rest : Bytes)
    → Stops (utf8 (write_members false m) ++ rest) × Tight (utf8 (write_members false m) ++ rest)
unfolding write_members ws
fields-Stops no_member rest = (refl, refl)
fields-Stops (member k v m) rest = (refl, refl)

pub split-utf8 : (s t : Text) (rest : Bytes) → utf8 (s ++ t) ++ rest ≡ utf8 s ++ (utf8 t ++ rest)
split-utf8 s t rest = simp (utf8-append s t, append_assoc)

pub length-split : (s t : Text) → length (utf8 (s ++ t)) ≡ length (utf8 s) + length (utf8 t)
length-split s t = rw (utf8-append s t) (length-append (utf8 s) (utf8 t))
