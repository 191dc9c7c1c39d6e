-- ===== src/Prelude/Splits.antt =====
-- `str::split` on texts whose parts have no separator, and `str::trim` on texts without white space.
use mathlib.Core.List.{append-nil, reverse-reverse}
use tldr_tv.Prelude.{
  ℕ, ◌≡◌, ◌∙◌, refl, sym, ap, true, false, arith, [], ◌∷◌, ◌++◌, nat_beq, reverse, reverse_snoc,
  All, All-reverse,
}
use tldr_tv.Prelude.Text.{Text, is_whitespace, trim_start, trim, split_onto}

abbrev pub IsNot : ℕ → ℕ → Type 0
IsNot sep c = nat_beq c sep ≡ false

-- A part without separators is cut off at the separator behind it.
pub split_onto-part :
    (sep : ℕ) (s rest cur : Text)
    → All (IsNot sep) s
    → split_onto sep cur (s ++ sep ∷ rest) ≡ (reverse cur ++ s) ∷ split_onto sep [] rest
split_onto-part sep [] rest cur h =
    let same : nat_beq sep sep ≡ true = ground arith in
    rw same (ap (λ t. t ∷ split_onto sep [] rest) (sym (append-nil (reverse cur))))
split_onto-part sep (c ∷ s) rest cur (other, h) = rw other (
    split_onto-part sep s rest (c ∷ cur) h
    ∙ ap (λ t. t ∷ split_onto sep [] rest) (reverse_snoc c cur s))

pub split_onto-last :
    (sep : ℕ) (s cur : Text) → All (IsNot sep) s → split_onto sep cur s ≡ (reverse cur ++ s) ∷ []
split_onto-last sep [] cur h = ap (λ t. t ∷ []) (sym (append-nil (reverse cur)))
split_onto-last sep (c ∷ s) cur (other, h) =
    rw other (split_onto-last sep s (c ∷ cur) h ∙ ap (λ t. t ∷ []) (reverse_snoc c cur s))

abbrev pub IsSolid : ℕ → Type 0
IsSolid c = is_whitespace c ≡ false

trim_start-solid : (s : Text) → All IsSolid s → trim_start s ≡ s
unfolding trim_start
trim_start-solid [] h = refl
trim_start-solid (c ∷ s) (solid, h) = rw solid refl

-- A text without white space is left as it is.
pub trim-solid : (s : Text) → All IsSolid s → trim s ≡ s
unfolding trim
trim-solid s h =
    ap (λ t. reverse (trim_start (reverse t))) (trim_start-solid s h)
    ∙ ap reverse (trim_start-solid (reverse s) (All-reverse IsSolid s h))
    ∙ reverse-reverse s
