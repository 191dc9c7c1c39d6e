-- ===== src/Json/RoundTrip/Steps.antt =====
-- Single rounds of the parser of backend/src/json.rs on input that begins as written text does.
use tldr_tv.Prelude.{
  ℕ, suc, ◌≤◌, ◌≡◌, refl, ap, ◌∙◌, true, false, ◌||◌, ◌∷◌, ◌++◌, arith, ltb, nat_beq, le→ltb_false,
}
use tldr_tv.Prelude.Text.{Bytes, Text, codes, is_ascii_digit}
use tldr_tv.Prelude.Exec.{Outcome, ok, pure, ◌>>=◌, ◌>>◌, bind_to}
use tldr_tv.Json.{
  Json, Items, Members, insert_member, null, bool, arr, obj_of, str, no_item, no_member,
}
use tldr_tv.Json.Parser.{
  value_at, array, elements, next_element, object, entries, next_entry, space, expect, peeks,
  push_item,
}
use tldr_tv.Json.Parser.Scan.{Stop, Parser, ws, string, number}

abbrev pub Tight : Bytes → Type 0
Tight b = ws b ≡ b

module _ (len f d : ℕ) where
  pub elements_step :
      (out : Items) (v : Json) (b b1 : Bytes) (r : Outcome Stop Json × Bytes)
      → Tight b
      → value_at len f (suc d) b ≡ (ok v, b1)
      → Tight b1
      → next_element len f d (push_item out v) b1 ≡ r
      → elements len (suc f) d out b ≡ r
  unfolding elements
  elements_step out v b b1 r t value t1 next =
      let last : Json → Parser Json = λ v. next_element len f d (push_item out v) in
      bind_to space (λ _. value_at len f (suc d) >>= λ v. space >> last v) b tt b
        (ap (λ x. (ok tt, x)) t)
      ∙ bind_to (value_at len f (suc d)) (λ v. space >> last v) b v b1 value
      ∙ bind_to space (λ _. last v) b1 tt b1 (ap (λ x. (ok tt, x)) t1)
      ∙ next

  pub entries_step :
      (out : Members) (k : Text) (v : Json) (b b1 b2 : Bytes) (r : Outcome Stop Json × Bytes)
      → string len b ≡ (ok k, b':' ∷ b1)
      → Tight b1
      → value_at len f (suc d) b1 ≡ (ok v, b2)
      → Tight b2
      → next_entry len f d (insert_member k v out) b2 ≡ r
      → entries len (suc f) d out (b'"' ∷ b) ≡ r
  unfolding entries ws
  entries_step out k v b b1 b2 r key t1 value t2 next =
      let last : Text → Json → Parser Json = λ k v. next_entry len f d (insert_member k v out) in
      let read : Text → Parser Json = λ k. value_at len f (suc d) >>= λ v. space >> last k v in
      bind_to (string len)
        (λ k. space >> (expect len b':' (codes "expected ':'") >> (space >> read k))) b k
        (b':' ∷ b1) key
      ∙ bind_to space (λ _. read k) b1 tt b1 (ap (λ x. (ok tt, x)) t1)
      ∙ bind_to (value_at len f (suc d)) (λ v. space >> last k v) b1 v b2 value
      ∙ bind_to space (λ _. last k v) b2 tt b2 (ap (λ x. (ok tt, x)) t2)
      ∙ next

  pub next_element_more :
      (out : Items) (b : Bytes) → next_element len (suc f) d out (b',' ∷ b) ≡ elements len f d out b
  unfolding next_element
  next_element_more out b = refl

  pub next_element_end :
      (out : Items) (b : Bytes) → next_element len (suc f) d out (b']' ∷ b) ≡ (ok (arr out), b)
  unfolding next_element
  next_element_end out b = refl

  pub next_entry_more :
      (out : Members) (b : Bytes) → next_entry len (suc f) d out (b',' ∷ b) ≡ entries len f d out b
  unfolding next_entry
  next_entry_more out b = refl

  pub next_entry_end :
      (out : Members) (b : Bytes) → next_entry len (suc f) d out (b'}' ∷ b) ≡ (ok (obj_of out), b)
  unfolding next_entry
  next_entry_end out b = refl

  pub array_end : (b : Bytes) → array len (suc f) d (b']' ∷ b) ≡ (ok (arr no_item), b)
  unfolding array ws
  array_end b = refl

  pub array_more :
      (b : Bytes)
      → Tight b
      → peeks b']' b ≡ false
      → array len (suc f) d b ≡ elements len f d no_item b
  unfolding array
  array_more b t other = rw (t, other) refl

  pub object_end : (b : Bytes) → object len (suc f) d (b'}' ∷ b) ≡ (ok (obj_of no_member), b)
  unfolding object ws
  object_end b = refl

  pub object_more :
      (b : Bytes) → object len (suc f) d (b'"' ∷ b) ≡ entries len f d no_member (b'"' ∷ b)
  unfolding object ws
  object_more b = refl

  module _ (shallow : d ≤ 128) where
    deep : ltb 128 d ≡ false
    deep = le→ltb_false 128 d shallow

    pub value_at_null :
        (rest : Bytes) → value_at len (suc f) d (codes "null" ++ rest) ≡ (ok null, rest)
    unfolding value_at
    value_at_null rest = rw deep refl

    pub value_at-true :
        (rest : Bytes) → value_at len (suc f) d (codes "true" ++ rest) ≡ (ok (bool true), rest)
    unfolding value_at
    value_at-true rest = rw deep refl

    pub value_at-false :
        (rest : Bytes) → value_at len (suc f) d (codes "false" ++ rest) ≡ (ok (bool false), rest)
    unfolding value_at
    value_at-false rest = rw deep refl

    pub value_at-array : (b : Bytes) → value_at len (suc f) d (b'[' ∷ b) ≡ array len f d b
    unfolding value_at
    value_at-array b = rw deep refl

    pub value_at-object : (b : Bytes) → value_at len (suc f) d (b'{' ∷ b) ≡ object len f d b
    unfolding value_at
    value_at-object b = rw deep refl

    pub value_at-string :
        (b : Bytes) (s : Text) (rest : Bytes)
        → string len b ≡ (ok s, rest)
        → value_at len (suc f) d (b'"' ∷ b) ≡ (ok (str s), rest)
    unfolding value_at
    value_at-string b s rest e = rw deep (bind_to (string len) (λ s. pure (str s)) b s rest e)

    pub value_at-number :
        (c : ℕ) (b : Bytes)
        → (nat_beq c b'-' || is_ascii_digit c) ≡ true
        → value_at len (suc f) d (c ∷ b) ≡ number len (c ∷ b)
    unfolding value_at
    value_at-number c b e = rw deep (ground arith)
