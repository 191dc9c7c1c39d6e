-- ===== src/Validation/Escaping.antt =====
-- `escape_html` of backend/src/validation.rs.
use tldr_tv.Prelude.{
  ℕ, ◌≡◌, refl, Bool, true, not, ◌&&◌, ◌||◌, [], ◌∷◌, ◌++◌, arith, every, nat_beq,
}
use tldr_tv.Prelude.Text.{Text}
use tldr_tv.Validation.{escape_html, escape_char}

-- not one of < > " ' /
abbrev pub harmless : ℕ → Bool
harmless c =
    not (nat_beq c b'<' || nat_beq c b'>' || nat_beq c b'"' || nat_beq c b'\'' || nat_beq c b'/')

every-append : (p : ℕ → Bool) (s t : Text) → every p (s ++ t) ≡ (every p s && every p t)
every-append p [] t = refl
every-append p (c ∷ s) t = ground (arith, every-append p s t)

escape_char-harmless : (c : ℕ) → every harmless (escape_char c) ≡ true
escape_char-harmless c = ground arith

-- Escaped text has none of the characters < > " ' and /.
pub escape_html-harmless : (s : Text) → every harmless (escape_html s) ≡ true
unfolding escape_html
escape_html-harmless [] = refl
escape_html-harmless (c ∷ s) = ground (
  arith,
  every-append harmless (escape_char c) (escape_html s),
  escape_char-harmless c,
  escape_html-harmless s,
)
