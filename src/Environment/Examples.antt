-- ===== src/Environment/Examples.antt =====
-- Runs of the configuration code of backend/src/config.rs on concrete files and variables.
use tldr_tv.Prelude.{◌≡◌, refl, true, none, some, List, [], ◌∷◌, list_eq, nat_eq}
use tldr_tv.Prelude.Text.{Text, codes, utf8, trim, trim_start, is_whitespace}
use tldr_tv.Prelude.Exec.{ok, err}
use tldr_tv.HashMap.{lookup, contains_key, insert}
use tldr_tv.Http.Percent.{lossy_at}
use tldr_tv.Environment.{
  Env, link, regular, Dir, written, load_local_env, ensure_regular_env_file,
  resolve_env_placeholders, BackendConfig, set_all, load_config, check_prod_jwt_secret, short,
}
use tldr_tv.Environment.Precedence.{or_else, file_value, load_local_env-lookup}
use tldr_tv.Environment.Placeholders.{
  Piece, verbatim, placeholder_of, template, resolve_env_placeholders-template,
}

abbrev process : Env
process = (codes "PORT", codes "80") ∷ []

-- `.env` is a link, so it is made anew.
abbrev backend : Dir
backend = record {
  dot_env = link;
  local = regular (utf8 (codes "KEY='k2'\nPORT=3\n"));
  example = some (utf8 (codes "# keys\nKEY = k1\nURL=a=b\n"));
  removable = true;
  writing = written;
}

load_local_env-lookup_example :
    (env' : Env) × ((load_local_env backend process).0 ≡ ok env')
    × ((k : Text)
        → lookup k env'
          ≡ or_else (lookup k process) (file_value k (ensure_regular_env_file backend)))
unfolding ensure_regular_env_file trim trim_start is_whitespace lossy_at insert lookup
load_local_env-lookup_example = load_local_env-lookup backend process refl

-- The process wins over `.env.local`, and that over `.env`.
merged :
    (load_local_env backend process).0
    ≡ ok ((codes "PORT", codes "80") ∷ (codes "KEY", codes "k2") ∷ (codes "URL", codes "a=b") ∷ [])
unfolding load_local_env set_all contains_key ensure_regular_env_file trim trim_start is_whitespace
    lossy_at insert lookup
merged = refl

abbrev address : List Piece
address =
    verbatim (codes "http://h:")
    ∷ placeholder_of (codes "PORT")
    ∷ verbatim (codes "/")
    ∷ placeholder_of (codes "NONE")
    ∷ []

resolve_env_placeholders-template_example :
    resolve_env_placeholders process (template address) ≡ codes "http://h:80/${NONE}"
unfolding lookup
resolve_env_placeholders-template_example = resolve_env_placeholders-template process address (
  (refl, (refl, (refl, (refl, (refl, (refl, (refl, (refl, (refl, tt))))))))),
  ((refl, (refl, (refl, (refl, tt)))), ((refl, tt), ((refl, (refl, (refl, (refl, tt)))), tt))),
)

short_secret : check_prod_jwt_secret (some (codes "secret")) ≡ err (short 6)
short_secret = refl

abbrev no_path : BackendConfig
no_path = load_config [] none

default_path : no_path.database.connection_string ≡ codes "./databases/MyApp.db"
unfolding load_config lookup
default_path = refl
