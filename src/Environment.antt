-- ===== src/Environment.antt =====
-- The environment and the configuration of backend/src/config.rs. The process environment is a
-- state, the files of the backend directory another; what is logged changes neither.
pub mod Precedence
pub mod Placeholders
mod Examples
use tldr_tv.Prelude.{
  ℕ, zero, suc, Bool, true, false, ◌||◌, ◌&&◌, not, Option, none, some, List, [], ◌∷◌, ◌++◌, ◌==◌,
  list_eq, nat_eq, ltb, nat_beq, length, take, reverse, every, is_nil, if◌then◌else◌, ◌and_then◌,
}
use tldr_tv.Prelude.Text.{
  Bytes, Text, codes, utf8, trim, trim_start, split_onto, split_once, text_starts_with,
}
use tldr_tv.Prelude.Exec.{Outcome, ok, err}
use tldr_tv.HashMap.{HashMap, lookup, contains_key, insert}
use tldr_tv.Http.Percent.{str_from_utf8}
use tldr_tv.Json.{Json, Items, no_item, item, get, get_str, as_arr}
use tldr_tv.Json.Parser.{parse}

abbrev pub Env : Type 0
Env = HashMap Text Text

abbrev pub is_prod : Env → Bool
is_prod env = elim (lookup (codes "NODE_ENV") env) [
  | none ↦ false
  | some v ↦ v == codes "production"
]

abbrev pub env_nonempty : Env → Text → Option Text
env_nonempty env key = lookup key env and_then λ v. if is_nil v then none else some v

-- what stands at a path: nothing, a symbolic link, a directory or the like, a file that cannot be
-- read, or one with these bytes
pub data File : Type 0 where
  absent link special unreadable : File
  regular : Bytes → File

-- how the writing of a new file ends: it can fail before the file is there, or after some bytes
pub data Writing : Type 0 where
  written refused : Writing
  cut_short : ℕ → Writing

-- `.env`, `.env.local`, what `.env.example` reads as, and how changes of `.env` end
pub record Dir : Type 0 where
  pub dot_env : File
  pub local : File
  pub example : Option Bytes
  pub removable : Bool
  pub writing : Writing

abbrev is_quote : ℕ → Bool
is_quote c = nat_beq c b'"' || nat_beq c 39

abbrev strip_last : Text → Text
strip_last s = elim (reverse s) [ [] ↦ s | c ∷ front ↦ if is_quote c then reverse front else s ]

abbrev pub strip_quotes : Text → Text
strip_quotes [] = []
strip_quotes (c ∷ s) = if is_quote c then strip_last s else strip_last (c ∷ s)

abbrev without_cr : Text → Text
without_cr line = elim (reverse line) [
  | [] ↦ []
  | c ∷ front ↦ if nat_beq c 13 then reverse front else line
]

-- `str::lines`, from the parts between line feeds
abbrev pub lines_of : List Text → List Text
lines_of [] = []
lines_of (last ∷ []) = if is_nil last then [] else last ∷ []
lines_of (line ∷ next ∷ rest) = without_cr line ∷ lines_of (next ∷ rest)

-- one round of the loop of `parse_env_file`
abbrev pub env_line : Text → Option (Text × Text)
env_line line =
    if is_nil line || text_starts_with (codes "#") (trim_start line)
    then none
    else split_once b'=' line and_then λ kv.
        if is_nil (trim kv.0) then none else some (trim kv.0, strip_quotes (trim kv.1))

abbrev pub env_lines : List Text → Env → Env
env_lines [] parsed = parsed
env_lines (line ∷ rest) parsed = elim (env_line line) [
  | none ↦ env_lines rest parsed
  | some (k, v) ↦ env_lines rest (insert k v parsed)
]

abbrev pub parse_env_file : File → Option Env
parse_env_file absent = none
parse_env_file link = none
parse_env_file special = none
parse_env_file unreadable = none
parse_env_file (regular data_) =
    str_from_utf8 data_ and_then λ s. some (env_lines (lines_of (split_onto 10 [] s)) [])

abbrev create_from_example : Dir → Bool × Dir
create_from_example d = elim d.example [
  | none ↦ (false, d)
  | some bytes ↦ elim d.writing [
    | written ↦ (true, record d { dot_env = regular bytes })
    | refused ↦ (false, d)
    | cut_short n ↦ (false, record d { dot_env = regular (take n bytes) })
  ]
]

unfoldable pub ensure_regular_env_file : Dir → Bool × Dir
ensure_regular_env_file d = elim d.dot_env [
  | regular bytes ↦ (true, d)
  | unreadable ↦ (true, d)
  | special ↦ (false, d)
  | absent ↦ create_from_example d
  | link ↦ if d.removable then create_from_example (record d { dot_env = absent }) else (false, d)
]

-- `BTreeMap::extend`
abbrev pub extend : Env → Env → Env
extend m [] = m
extend m ((k, v) ∷ rest) = extend (insert k v m) rest

abbrev pub entries : File → Env
entries f = elim (parse_env_file f) [ none ↦ [] | some m ↦ m ]

-- `from_files` of `load_local_env`, for the directory behind `ensure_regular_env_file`
abbrev pub from_files : Bool × Dir → Env
from_files (ready, d) = extend (if ready then entries d.dot_env else []) (entries d.local)

-- `set_var` panics on a NUL.
pub data Panic : Type 0 where
  nul_byte : Panic

abbrev pub is_settable : Text × Text → Bool
is_settable (k, v) = every (λ c. not (nat_beq c 0)) k && every (λ c. not (nat_beq c 0)) v

unfoldable pub set_all : Env → Env → Outcome Panic Env
set_all [] env = ok env
set_all ((k, v) ∷ rest) env = elim (contains_key k env) [
  | true ↦ set_all rest env
  | false ↦ elim (is_settable (k, v)) [
    | true ↦ set_all rest (insert k v env)
    | false ↦ err nul_byte
  ]
]

unfoldable pub load_local_env : Dir → Env → Outcome Panic Env × Dir
load_local_env d env =
    let ensured = ensure_regular_env_file d in (set_all (from_files ensured) env, ensured.1)

abbrev pub placeholder_text : Text → Text
placeholder_text name = codes "${" ++ name ++ codes "}"

-- the name in a placeholder that begins here, and what is behind it
abbrev pub placeholder : Text → Option (Text × Text)
placeholder (c ∷ d ∷ s) = if nat_beq c b'$' && nat_beq d b'{' then split_once b'}' s else none
placeholder _ = none

abbrev pub expanded : Env → Text → Text
expanded env name = elim (lookup name env) [ some v ↦ v | none ↦ placeholder_text name ]

-- The loop; each round uses a character at least.
unfoldable pub resolve : ℕ → Env → Text → Text
resolve zero env s = []
resolve (suc fuel) env [] = []
resolve (suc fuel) env (c ∷ s) = elim (placeholder (c ∷ s)) [
  | none ↦ c ∷ resolve fuel env s
  | some (name, rest) ↦ expanded env name ++ resolve fuel env rest
]

unfoldable pub resolve_env_placeholders : Env → Text → Text
resolve_env_placeholders env input = resolve (length input) env input

pub record DatabaseConfig : Type 0 where
  pub db : Text
  pub db_type : Text
  pub connection_string : Text

pub record BackendConfig : Type 0 where
  pub static_dir : Text
  pub database : DatabaseConfig

abbrev pub defaults : Env → BackendConfig
defaults env =
    let database : DatabaseConfig = record {
      db = codes "MyApp";
      db_type = codes "sqlite";
      connection_string = elim (lookup (codes "TEST_DATABASE_PATH") env) [
        | none ↦ codes "./databases/MyApp.db"
        | some path ↦ path
      ];
    } in
    record { static_dir = codes "../dist"; database = database }

abbrev static_dir_of : Json → Text
static_dir_of parsed = elim (get_str parsed (codes "staticDir")) [
  | none ↦ codes "../dist"
  | some dir ↦ if is_nil dir then codes "../dist" else dir
]

abbrev pub config_of : Env → Json → Option BackendConfig
config_of env parsed = get parsed (codes "database") and_then λ database.
    get_str database (codes "db") and_then λ db.
    get_str database (codes "dbType") and_then λ db_type.
    get_str database (codes "connectionString") and_then λ conn.
    let resolved : DatabaseConfig = record {
      db = db;
      db_type = db_type;
      connection_string = resolve_env_placeholders env conn;
    } in
    some (record { static_dir = static_dir_of parsed; database = resolved })

-- `load_config`, given what `config.json` reads as
unfoldable pub load_config : Env → Option Bytes → BackendConfig
load_config env none = defaults env
load_config env (some text) = elim (parse text) [
  | err e ↦ defaults env
  | ok parsed ↦ elim (config_of env parsed) [ none ↦ defaults env | some config ↦ config ]
]

abbrev pub lookup_keys_of : Items → List Text
lookup_keys_of no_item = []
lookup_keys_of (item v rest) = elim (get_str v (codes "lookup_key")) [
  | none ↦ lookup_keys_of rest
  | some key ↦ if is_nil (trim key) then lookup_keys_of rest else trim key ∷ lookup_keys_of rest
]

abbrev pub load_stripe_lookup_keys : Option Bytes → List Text
load_stripe_lookup_keys none = []
load_stripe_lookup_keys (some bytes) = elim (parse bytes) [
  | err e ↦ []
  | ok parsed ↦ elim (get parsed (codes "stripeProducts") and_then as_arr) [
    | none ↦ []
    | some items ↦ lookup_keys_of items
  ]
]

abbrev pub min_jwt_secret_len : ℕ
min_jwt_secret_len = 32

-- why a secret is refused
pub data SecretFault : Type 0 where
  unset : SecretFault
  short : ℕ → SecretFault
  from_example : SecretFault

abbrev pub check_prod_jwt_secret : Option Text → Outcome SecretFault Unit
check_prod_jwt_secret none = err unset
check_prod_jwt_secret (some value) =
    if ltb (length (utf8 value)) min_jwt_secret_len
    then err (short (length (utf8 value)))
    else if text_starts_with (codes "your_super_secure_jwt_secret") value
    then err from_example
    else ok tt
