-- ===== src/Article/Authority.antt =====
-- Where backend/src/article.rs seeks the host of a URL.
use tldr_tv.Prelude.{
  ℕ, ◌≡◌, ◌≢◌, refl, sym, ap, ◌∙◌, append_assoc, true, false, none, some, [], ◌∷◌, ◌++◌, arith,
  nat_beq,
}
use tldr_tv.Prelude.Text.{Text, codes, rsplit_once}
use tldr_tv.Prelude.Exec.{ok}
use tldr_tv.Validation.Email.{free_of}
use tldr_tv.Article.{
  host_of, judge, is_blocked_host, parse_v4, after_user, without_port, until, ends_authority,
}

rsplit_once-free_of : (sep : ℕ) (b : Text) → free_of sep b ≡ true → rsplit_once sep b ≡ none
rsplit_once-free_of sep [] h = refl
rsplit_once-free_of sep (c ∷ b) h = ground (arith, rsplit_once-free_of sep b)

rsplit_once-append :
    (sep : ℕ) (a b : Text) → free_of sep b ≡ true → rsplit_once sep (a ++ sep ∷ b) ≡ some (a, b)
rsplit_once-append sep [] b h = ground (arith, rsplit_once-free_of sep b h)
rsplit_once-append sep (c ∷ a) b h = rw (rsplit_once-append sep a b h) refl

at_split :
    (target : Text)
    → rsplit_once b'@' (target ++ codes "/@example.com")
      ≡ some (target ++ codes "/", codes "example.com")
at_split target =
    ap (rsplit_once b'@') (sym (append_assoc target (codes "/") (codes "@example.com")))
    ∙ rsplit_once-append b'@' (target ++ codes "/") (codes "example.com") refl

after_user_split :
    (t user host : Text) → rsplit_once b'@' t ≡ some (user, host) → after_user t ≡ host
after_user_split t user host q = rw (after_user, q) refl

host_of_split :
    (t user host : Text)
    → rsplit_once b'@' t ≡ some (user, host)
    → host_of t ≡ without_port (until ends_authority host)
unfolding host_of
host_of_split t user host q =
    ap (λ h. without_port (until ends_authority h)) (after_user_split t user host q)

host_of_path_at : (target : Text) → host_of (target ++ codes "/@example.com") ≡ codes "example.com"
host_of_path_at target =
    host_of_split (target ++ codes "/@example.com") (target ++ codes "/") (codes "example.com")
      (at_split target)

-- A URL that begins with no slash after its scheme and whose path ends in /@example.com is accepted,
-- whatever host it names: the text after the last @ is judged, also where it is part of the path.
pub judge_path_at :
    (trimmed target : Text) (c : ℕ)
    → c ≢ b'/'
    → judge trimmed (c ∷ target ++ codes "/@example.com") ≡ ok trimmed
unfolding judge is_blocked_host parse_v4
judge_path_at trimmed target c ne =
    let other : nat_beq b'/' c ≡ false = ground arith in
    rw (judge, host_of_path_at (c ∷ target), other) refl
