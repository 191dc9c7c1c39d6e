-- ===== src/Article/Examples.antt =====
-- The theorem on URLs at one of them.
use tldr_tv.Prelude.{◌≡◌, ◌∷◌, ◌++◌}
use tldr_tv.Prelude.Text.{codes}
use tldr_tv.Prelude.Exec.{ok}
use tldr_tv.Article.{judge}
use tldr_tv.Article.Authority.{judge_path_at}

judge_path_at_example :
    judge (codes "http://127.0.0.1/@example.com") (b'1' ∷ codes "27.0.0.1" ++ codes "/@example.com")
    ≡ ok (codes "http://127.0.0.1/@example.com")
judge_path_at_example =
    judge_path_at (codes "http://127.0.0.1/@example.com") (codes "27.0.0.1") b'1' (λ q. cc)
