-- ===== src/Kdf/Limits.antt =====
-- What a stored hash can ask of the verifier of backend/src/kdf.rs.
use tldr_tv.Prelude.{◌*◌, ◌≤◌, ◌≡◌, true}
use tldr_tv.Prelude.Text.{Text}
use tldr_tv.Kdf.Scrypt.{is_power_of_two}
use tldr_tv.Kdf.{ScryptParams}

-- A cost of at most 256 MiB, sixteen times over, with parameters that scrypt takes.
pub record Affordable (s : ScryptParams) : Type 0 where
  pub memory : 128 * s.n * s.r ≤ 256 * 1024 * 1024
  pub passes : s.p ≤ 16
  pub some_pass : 1 ≤ s.p
  pub some_block : 1 ≤ s.r
  pub two : 2 ≤ s.n
  pub power : is_power_of_two s.n ≡ true
