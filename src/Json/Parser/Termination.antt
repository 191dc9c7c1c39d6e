-- ===== src/Json/Parser/Termination.antt =====
-- The end of every run of `parse` of backend/src/json.rs.
use tldr_tv.Prelude.{ℕ, zero, suc, ◌+◌, ◌*◌, ◌≤◌, ◌≡◌, ◌≢◌, true, false, [], ◌∷◌, arith, length}
use tldr_tv.Prelude.Text.{Bytes, Text, codes}
use tldr_tv.Prelude.Exec.{Outcome, ok, err, pure, ◌>>◌}
use tldr_tv.Json.{
  Json, Items, Members, insert_member, null, bool, str, arr, obj_of, no_item, no_member,
}
use tldr_tv.Json.Parser.{
  value_at, array, elements, next_element, object, entries, next_entry, space, advance, expect,
  peeks, push_item, finish, whole, fuel_for, parse,
}
use tldr_tv.Json.Parser.Scan.{Stop, out_of_fuel, Parser, ws, lit, string}
use tldr_tv.Json.Parser.Ends.{
  Ends, bind-Ends, weaken-Ends, length-ws-le, lit-Ends, string-Ends, number-Ends,
}

-- A part of the parser ends with `4 * length b + slack` units of fuel.
abbrev EndsBy : ℕ → ℕ → Parser Json → Type 0
EndsBy f slack p = (b : Bytes) → 4 * length b + slack ≤ f → Ends (suc (length b)) (p b)

-- A value takes a byte at least.
abbrev TakesBy : ℕ → ℕ → Parser Json → Type 0
TakesBy f slack p = (b : Bytes) → 4 * length b + slack ≤ f → Ends (length b) (p b)

abbrev AllEnd : ℕ → ℕ → Type 0
AllEnd len f =
    ((d : ℕ) → TakesBy f 1 (value_at len f d))
    × ((d : ℕ) → EndsBy f 3 (array len f d))
    × ((d : ℕ) (out : Items) → EndsBy f 2 (elements len f d out))
    × ((d : ℕ) (out : Items) → EndsBy f 1 (next_element len f d out))
    × ((d : ℕ) → EndsBy f 3 (object len f d))
    × ((d : ℕ) (out : Members) → EndsBy f 2 (entries len f d out))
    × ((d : ℕ) (out : Members) → EndsBy f 1 (next_entry len f d out))

advance-Ends : (c : ℕ) (b : Bytes) → peeks c b ≡ true → Ends (length b) (advance b)
advance-Ends c [] h = cc
advance-Ends c (d ∷ b) h = omega arith

expect-Ends : (len c : ℕ) (msg : Text) (b : Bytes) → Ends (length b) (expect len c msg b)
expect-Ends len c msg b = ground (arith, advance-Ends c b)

space-Ends : (b : Bytes) → Ends (suc (length b)) (space b)
space-Ends b = omega (arith, length-ws-le b)

-- the closing bracket, and the value that is complete
close :
    (b : Bytes) (c : ℕ) (v : Json)
    → peeks c b ≡ true
    → Ends (suc (length b)) ((advance >> pure v) b)
close b c v p =
    bind-Ends (length b) (suc (length b)) advance (λ _. pure v) b (advance-Ends c b p)
      λ _ rest le. omega arith

module _ (len f : ℕ) (ih : AllEnd len f) where
  value_at-Ends : (d : ℕ) → TakesBy (suc f) 1 (value_at len (suc f) d)
  unfolding value_at
  value_at-Ends d [] h = ground arith
  value_at-Ends d (c ∷ b) h =
      let word : (x : ℕ) (s : Text) (v : Json)
          → Ends (suc (length b)) ((lit len (x ∷ s) >> pure v) (c ∷ b)) =
        λ x s v.
          bind-Ends (suc (length b)) (suc (length b)) (lit len (x ∷ s)) (λ _. pure v) (c ∷ b)
            (lit-Ends len x s c b) λ _ rest le. le in
      let text =
        bind-Ends (suc (length b)) (suc (length b)) (string len) (λ s. pure (str s)) b
          (string-Ends len b) λ _ rest le. le in
      let items = ih.1 d b (omega arith) in
      let fields = ih.4 d b (omega arith) in
      ground (
        arith,
        word b'n' (codes "ull") null,
        word b't' (codes "rue") (bool true),
        word b'f' (codes "alse") (bool false),
        number-Ends len (c ∷ b),
      )

  array-Ends : (d : ℕ) → EndsBy (suc f) 3 (array len (suc f) d)
  unfolding array
  array-Ends d b h =
      let more =
        weaken-Ends (suc (length (ws b))) (suc (length b)) (elements len f d no_item (ws b))
          (ih.2 d no_item (ws b) (omega (arith, length-ws-le b))) (omega (arith, length-ws-le b)) in
      ground (arith, length-ws-le b, close (ws b) b']' (arr no_item))

  elements-Ends : (d : ℕ) (out : Items) → EndsBy (suc f) 2 (elements len (suc f) d out)
  unfolding elements
  elements-Ends d out b h =
      bind-Ends (suc (length b)) (suc (length b)) space _ b (space-Ends b) λ _ b1 h1.
        bind-Ends (length b) (suc (length b)) (value_at len f (suc d)) _ b1
          (weaken-Ends (length b1) (length b) (value_at len f (suc d) b1)
            (ih.0 (suc d) b1 (omega arith)) (omega arith))
          λ v b2 h2.
            bind-Ends (length b) (suc (length b)) space _ b2
              (weaken-Ends (suc (length b2)) (length b) (space b2) (space-Ends b2) (omega arith))
              λ _ b3 h3.
                weaken-Ends (suc (length b3)) (suc (length b))
                  (next_element len f d (push_item out v) b3)
                  (ih.3 d (push_item out v) b3 (omega arith)) (omega arith)

  next_element-Ends : (d : ℕ) (out : Items) → EndsBy (suc f) 1 (next_element len (suc f) d out)
  unfolding next_element
  next_element-Ends d out b h =
      let more : peeks b',' b ≡ true → Ends (suc (length b)) ((advance >> elements len f d out) b) =
        λ p.
          bind-Ends (length b) (suc (length b)) advance (λ _. elements len f d out) b
            (advance-Ends b',' b p)
            λ _ rest le.
              weaken-Ends (suc (length rest)) (suc (length b)) (elements len f d out rest)
                (ih.2 d out rest (omega arith)) (omega arith) in
      ground (arith, more, close b b']' (arr out))

  object-Ends : (d : ℕ) → EndsBy (suc f) 3 (object len (suc f) d)
  unfolding object
  object-Ends d b h =
      let more =
        weaken-Ends (suc (length (ws b))) (suc (length b)) (entries len f d no_member (ws b))
          (ih.5 d no_member (ws b) (omega (arith, length-ws-le b)))
          (omega (arith, length-ws-le b)) in
      ground (arith, length-ws-le b, close (ws b) b'}' (obj_of no_member))

  next_entry-Ends : (d : ℕ) (out : Members) → EndsBy (suc f) 1 (next_entry len (suc f) d out)
  unfolding next_entry
  next_entry-Ends d out b h =
      let more : peeks b',' b ≡ true → Ends (suc (length b)) ((advance >> entries len f d out) b) =
        λ p.
          bind-Ends (length b) (suc (length b)) advance (λ _. entries len f d out) b
            (advance-Ends b',' b p)
            λ _ rest le.
              weaken-Ends (suc (length rest)) (suc (length b)) (entries len f d out rest)
                (ih.5 d out rest (omega arith)) (omega arith) in
      ground (arith, more, close b b'}' (obj_of out))

  entries-Ends : (d : ℕ) (out : Members) → EndsBy (suc f) 2 (entries len (suc f) d out)
  unfolding entries
  entries-Ends d out b h =
      bind-Ends (suc (length b)) (suc (length b)) space _ b (space-Ends b) λ _ b1 h1.
        bind-Ends (length b1) (suc (length b)) (expect len b'"' (codes "expected object key")) _ b1
          (expect-Ends len b'"' (codes "expected object key") b1)
          λ _ b2 h2.
            bind-Ends (suc (length b2)) (suc (length b)) (string len) _ b2 (string-Ends len b2)
              λ k b3 h3.
                bind-Ends (suc (length b3)) (suc (length b)) space _ b3 (space-Ends b3) λ _ b4 h4.
                  bind-Ends (length b4) (suc (length b)) (expect len b':' (codes "expected ':'")) _
                    b4 (expect-Ends len b':' (codes "expected ':'") b4)
                    λ _ b5 h5.
                      bind-Ends (suc (length b5)) (suc (length b)) space _ b5 (space-Ends b5)
                        λ _ b6 h6.
                          bind-Ends (length b6) (suc (length b)) (value_at len f (suc d)) _ b6
                            (ih.0 (suc d) b6 (omega arith))
                            λ v b7 h7.
                              bind-Ends (suc (length b7)) (suc (length b)) space _ b7
                                (space-Ends b7)
                                λ _ b8 h8.
                                  weaken-Ends (suc (length b8)) (suc (length b))
                                    (next_entry len f d (insert_member k v out) b8)
                                    (ih.6 d (insert_member k v out) b8 (omega arith)) (omega arith)

all-AllEnd : (len f : ℕ) → AllEnd len f
all-AllEnd len zero = (
  λ d b h. absurd (omega arith),
  λ d b h. absurd (omega arith),
  λ d out b h. absurd (omega arith),
  λ d out b h. absurd (omega arith),
  λ d b h. absurd (omega arith),
  λ d out b h. absurd (omega arith),
  λ d out b h. absurd (omega arith),
)
all-AllEnd len (suc f) =
    let ih = all-AllEnd len f in
    (
      value_at-Ends len f ih,
      array-Ends len f ih,
      elements-Ends len f ih,
      next_element-Ends len f ih,
      object-Ends len f ih,
      entries-Ends len f ih,
      next_entry-Ends len f ih,
    )

Ends-no_fuel : {A : Type 0} (n : ℕ) (r : Outcome Stop A × Bytes) → Ends n r → r.0 ≢ err out_of_fuel
Ends-no_fuel n (ok a, b) h q = cc
Ends-no_fuel n (err e, b) h q = h (cc)

finish-Ends : (len : ℕ) (v : Json) (b : Bytes) → Ends (suc (length b)) (finish len v b)
finish-Ends len v b = ground arith

-- Parsing ends on every input: the fuel, which grows with the length of the input, never runs out,
-- and the answer is a value or one of the program's errors.
pub parse-ends : (input : Bytes) → parse input ≢ err out_of_fuel
unfolding parse
parse-ends input =
    let len = length input in
    let f = fuel_for input in
    let run : Ends (suc (length input)) (whole len f input) =
      bind-Ends (suc (length input)) (suc (length input)) (space >> value_at len f 0) _ input
        (bind-Ends (suc (length input)) (suc (length input)) space (λ _. value_at len f 0) input
          (space-Ends input)
          λ _ b1 h1.
            weaken-Ends (length b1) (suc (length input)) (value_at len f 0 b1)
              ((all-AllEnd len f).0 0 b1 (omega arith)) (omega arith))
        λ v b2 h2.
          bind-Ends (suc (length b2)) (suc (length input)) space (λ _. finish len v) b2
            (space-Ends b2)
            λ _ b3 h3.
              weaken-Ends (suc (length b3)) (suc (length input)) (finish len v b3)
                (finish-Ends len v b3) (omega arith) in
    Ends-no_fuel (suc (length input)) (whole len f input) run
