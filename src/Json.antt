-- ===== src/Json.antt =====
-- The value type of backend/src/json.rs and what the routes read off it. An object is its
-- `BTreeMap`: a list of members in the order of their keys.
pub mod Float
pub mod Decimal
pub mod Print
pub mod Parser
pub mod RoundTrip
mod Tests
mod DecimalTests
mod ParserTests
mod Examples
use tldr_tv.Prelude.{
  ◌and_then◌, ℕ, Bool, true, false, ◌&&◌, Option, none, some, List, [], ◌∷◌, if◌then◌else◌, ◌==◌,
  list_eq, nat_eq,
}
use tldr_tv.Prelude.Text.{Text, codes, split_onto, text_ltb}
use tldr_tv.Prelude.Int.{ℤ}
use tldr_tv.Json.Float.{Float64, is_finite, is_integral, to_i64, of_i64}

mutual
  pub data Json : Type 0 where
    null : Json
    bool : Bool → Json
    num : Float64 → Json
    str : Text → Json
    arr : Items → Json
    obj_of : Members → Json

  -- `Vec<Json>`
  pub data Items : Type 0 where
    no_item : Items
    item : Json → Items → Items

  -- `BTreeMap<String, Json>`
  pub data Members : Type 0 where
    no_member : Members
    member : Text → Json → Members → Members

-- `BTreeMap::insert`
abbrev pub insert_member : Text → Json → Members → Members
insert_member k v no_member = member k v no_member
insert_member k v (member j w m) =
    if k == j
    then member k v m
    else if text_ltb k j
    then member k v (member j w m)
    else member j w (insert_member k v m)

-- `BTreeMap::get`
abbrev pub find_member : Text → Members → Option Json
find_member k no_member = none
find_member k (member j w m) = if k == j then some w else find_member k m

abbrev pub as_obj : Json → Option Members
as_obj (obj_of m) = some m
as_obj _ = none

abbrev pub as_arr : Json → Option Items
as_arr (arr v) = some v
as_arr _ = none

abbrev pub as_str : Json → Option Text
as_str (str s) = some s
as_str _ = none

abbrev pub as_f64 : Json → Option Float64
as_f64 (num n) = some n
as_f64 _ = none

abbrev pub as_i64 : Json → Option ℤ
unfolding is_integral to_i64
as_i64 (num n) = if is_integral n && is_finite n then some (to_i64 n) else none
as_i64 _ = none

abbrev pub as_bool : Json → Option Bool
as_bool (bool b) = some b
as_bool _ = none

abbrev pub is_null : Json → Bool
is_null null = true
is_null _ = false

-- `[Json]::first`
abbrev pub first_item : Items → Option Json
first_item no_item = none
first_item (item v rest) = some v

abbrev pub get : Json → Text → Option Json
get v k = as_obj v and_then find_member k

-- the loop of `path`
abbrev pub path_from : List Text → Json → Option Json
path_from [] cur = some cur
path_from (seg ∷ segs) cur = get cur seg and_then path_from segs

abbrev pub path : Json → Text → Option Json
path v dotted = path_from (split_onto b'.' [] dotted) v

abbrev pub get_str : Json → Text → Option Text
get_str v k = get v k and_then as_str

abbrev pub get_i64 : Json → Text → Option ℤ
get_i64 v k = get v k and_then as_i64

abbrev pub members : List (Text × Json) → Members → Members
members [] m = m
members ((k, v) ∷ pairs) m = members pairs (insert_member k v m)

abbrev pub obj : List (Text × Json) → Json
obj pairs = obj_of (members pairs no_member)

-- the shorthand `s`
abbrev pub s : Text → Json
s v = str v

-- the shorthand `i`
abbrev pub i : ℤ → Json
unfolding of_i64
i v = num (of_i64 v)
