-- ===== src/Json/RoundTrip/Arrays.antt =====
-- Arrays of backend/src/json.rs, written and parsed back.
use tldr_tv.Prelude.{
  ℕ, zero, suc, ◌+◌, ◌*◌, ◌≤◌, ◌≡◌, ◌∙◌, refl, ap, sym, subst, max, true, false, ◌++◌, arith,
  length,
}
use tldr_tv.Prelude.Text.{Bytes, utf8}
use tldr_tv.Prelude.Exec.{ok}
use tldr_tv.Json.{Json, Items, arr, no_item, item}
use tldr_tv.Json.Print.{write_value, write_items}
use tldr_tv.Json.Parser.{elements, push_item, peeks}
use tldr_tv.Json.RoundTrip.Steps.{
  Tight, elements_step, next_element_more, next_element_end, array_end, array_more, value_at-array,
}
use tldr_tv.Json.RoundTrip.Written.{
  IsWritable, AreWritable, push_all, height, items_height, ReadsValue, ReadsNext, ReadsArray,
  value-Tight, next-Stops, split-utf8, length-split,
}

module _ (v : Json) (r : Items) (reads : ReadsValue v) (next : ReadsNext r) where
  pub elements-read :
      (len d f : ℕ) (out : Items) (rest : Bytes)
      → IsWritable v × AreWritable r
      → max (suc (height v)) (items_height r) + d ≤ 128
      → 4 * length (utf8 (write_value v ++ write_items false r)) + 1 ≤ f
      → elements len f d out (utf8 (write_value v ++ write_items false r) ++ rest)
        ≡ (ok (arr (push_all out (item v r))), rest)
  elements-read len d zero out rest h low enough = absurd (omega arith)
  elements-read len d (suc f) out rest (hv, hr) low enough =
      let behind = utf8 (write_items false r) ++ rest in
      let sizes = length-split (write_value v) (write_items false r) in
      ap (elements len (suc f) d out) (split-utf8 (write_value v) (write_items false r) rest)
      ∙ elements_step len f d out v (utf8 (write_value v) ++ behind) behind
          (ok (arr (push_all out (item v r))), rest) (value-Tight v behind hv).0
          (reads len (suc d) f behind hv (omega arith) (next-Stops r rest).0 (omega (arith, sizes)))
          (next-Stops r rest).1
          (next len d f (push_item out v) rest hr (omega arith) (omega (arith, sizes)))

  pub item-ReadsNext : ReadsNext (item v r)
  unfolding write_items
  item-ReadsNext len d zero out rest h low enough = absurd (omega arith)
  item-ReadsNext len d (suc f) out rest h low enough =
      next_element_more len f d out (utf8 (write_value v ++ write_items false r) ++ rest)
      ∙ elements-read len d f out rest h low (omega arith)

  pub item-ReadsArray : ReadsArray (item v r)
  unfolding write_items
  item-ReadsArray len d zero rest h low enough = absurd (omega arith)
  item-ReadsArray len d (suc f) rest (hv, hr) low enough =
      let behind = utf8 (write_items false r) ++ rest in
      let split = split-utf8 (write_value v) (write_items false r) rest in
      let (tight, other, some_text) = value-Tight v behind hv in
      array_more len f d (utf8 (write_value v ++ write_items false r) ++ rest)
        (subst Tight (sym split) tight) (subst (λ b. peeks b']' b ≡ false) (sym split) other)
      ∙ elements-read len d f no_item rest (hv, hr) low (omega arith)

pub no_item-ReadsNext : ReadsNext no_item
unfolding write_items
no_item-ReadsNext len d zero out rest h low enough = absurd (omega arith)
no_item-ReadsNext len d (suc f) out rest h low enough = next_element_end len f d out rest

pub no_item-ReadsArray : ReadsArray no_item
unfolding write_items
no_item-ReadsArray len d zero rest h low enough = absurd (omega arith)
no_item-ReadsArray len d (suc f) rest h low enough = array_end len f d rest

push_all-item : (v : Json) (out r : Items) → push_all (item v out) r ≡ item v (push_all out r)
push_all-item v out no_item = refl
push_all-item v out (item w r) = push_all-item v (push_item out w) r

push_all_nil : (items : Items) → push_all no_item items ≡ items
push_all_nil no_item = refl
push_all_nil (item v r) = push_all-item v no_item r ∙ ap (item v) (push_all_nil r)

pub arr-ReadsValue : (items : Items) → ReadsArray items → ReadsValue (arr items)
unfolding write_value
arr-ReadsValue items reads len d zero rest h low stops enough = absurd (omega arith)
arr-ReadsValue items reads len d (suc f) rest h low stops enough =
    value_at-array len f d (omega arith) (utf8 (write_items true items) ++ rest)
    ∙ reads len d f rest h low (omega arith)
    ∙ ap (λ i. (ok (arr i), rest)) (push_all_nil items)
