-- ===== src/Environment/Precedence.antt =====
-- How `load_local_env` of backend/src/config.rs merges the process and the files.
use tldr_tv.Prelude.{
  ◌≡◌, ◌∙◌, refl, ap, Bool, true, false, Option, none, some, Bool-cases, conjuncts, inl, inr,
  ◌and_then◌, List, [], ◌∷◌, arith, ==_iff, list_eq, nat_eq, every, if◌then◌else◌,
}
use tldr_tv.Prelude.Text.{Text, split_onto}
use tldr_tv.Prelude.Exec.{Outcome, ok, err}
use tldr_tv.HashMap.{
  lookup, contains_key, contains_key-false, insert, lookup-insert, IsMap, insert-IsMap,
}
use tldr_tv.Http.Percent.{str_from_utf8}
use tldr_tv.Environment.{
  Env, File, absent, link, special, unreadable, regular, Dir, Panic, nul_byte, env_line, env_lines,
  lines_of, entries, extend, from_files, is_settable, set_all, load_local_env,
  ensure_regular_env_file,
}

abbrev pub or_else {ℓ} : {A : Type ℓ} → Option A → Option A → Option A
or_else (some a) o = some a
or_else none o = o

lookup-extend :
    (k : Text) (m new : Env)
    → IsMap new
    → lookup k (extend m new) ≡ or_else (lookup k new) (lookup k m)
unfolding lookup
lookup-extend k m [] h = refl
lookup-extend k m ((j, v) ∷ rest) h =
    ground (arith, ==_iff j k, lookup-insert j k v m, lookup-extend k (insert j v m) rest h.1)

line-IsMap :
    (o : Option (Text × Text)) (rest : List Text) (m : Env)
    → IsMap m
    → ((n : Env) → IsMap n → IsMap (env_lines rest n))
    → IsMap (elim o [ none ↦ env_lines rest m | some (k, v) ↦ env_lines rest (insert k v m) ])
line-IsMap none rest m h later = later m h
line-IsMap (some (k, v)) rest m h later = later (insert k v m) (insert-IsMap k v m h)

env_lines-IsMap : (lines : List Text) (m : Env) → IsMap m → IsMap (env_lines lines m)
env_lines-IsMap [] m h = h
env_lines-IsMap (line ∷ rest) m h =
    line-IsMap (env_line line) rest m h (λ n. env_lines-IsMap rest n)

parsed-IsMap :
    (o : Option Text)
    → IsMap (elim (o and_then λ s. some (env_lines (lines_of (split_onto 10 [] s)) [])) [
      | none ↦ []
      | some m ↦ m
    ])
parsed-IsMap none = tt
parsed-IsMap (some s) = env_lines-IsMap (lines_of (split_onto 10 [] s)) [] tt

entries-IsMap : (f : File) → IsMap (entries f)
entries-IsMap absent = tt
entries-IsMap link = tt
entries-IsMap special = tt
entries-IsMap unreadable = tt
entries-IsMap (regular bytes) = parsed-IsMap (str_from_utf8 bytes)

lookup-set :
    (j v k : Text) (rest env : Env)
    → contains_key j env ≡ true
    → or_else (lookup k env) (lookup k rest) ≡ or_else (lookup k env) (lookup k ((j, v) ∷ rest))
unfolding contains_key lookup
lookup-set j v k rest env h = ground (arith, ==_iff j k)

lookup-unset :
    (j v k : Text) (rest env : Env)
    → contains_key j env ≡ false
    → or_else (lookup k (insert j v env)) (lookup k rest)
      ≡ or_else (lookup k env) (lookup k ((j, v) ∷ rest))
unfolding contains_key lookup
lookup-unset j v k rest env h =
    ground (arith, ==_iff j k, lookup-insert j k v env, contains_key-false j env h)

-- a round of `set_all`, for whether the variable is set already, and whether it can be
abbrev set_round : Text → Text → Env → Env → Bool → Bool → Outcome Panic Env
set_round j v rest env set settable = elim set [
  | true ↦ set_all rest env
  | false ↦ elim settable [ true ↦ set_all rest (insert j v env) | false ↦ err nul_byte ]
]

set_all-lookup :
    (pairs env : Env)
    → every is_settable pairs ≡ true
    → (env' : Env) × (set_all pairs env ≡ ok env')
      × ((k : Text) → lookup k env' ≡ or_else (lookup k env) (lookup k pairs))
unfolding set_all lookup
set_all-lookup [] env h = (env, refl, λ k. nothing (lookup k env))
  where
    nothing : (o : Option Text) → o ≡ or_else o none
    nothing none = refl
    nothing (some v) = refl
set_all-lookup ((j, v) ∷ rest) env h =
    let settable : is_settable (j, v) ≡ true =
      (conjuncts (is_settable (j, v)) (every is_settable rest) h).0 in
    let later : every is_settable rest ≡ true =
      (conjuncts (is_settable (j, v)) (every is_settable rest) h).1 in
    elim (Bool-cases (contains_key j env)) [
      | inl set ↦
          let (env', e, same) = set_all-lookup rest env later in
          (
            env',
            ap (λ a. set_round j v rest env a (is_settable (j, v))) set ∙ e,
            λ k. same k ∙ lookup-set j v k rest env set,
          )
      | inr unset ↦
          let (env', e, same) = set_all-lookup rest (insert j v env) later in
          (
            env',
            ap (λ a. set_round j v rest env a (is_settable (j, v))) unset
                ∙ (ap (set_round j v rest env false) settable ∙ e),
            λ k. same k ∙ lookup-unset j v k rest env unset,
          )
    ]

-- the files in the order of their precedence
abbrev pub file_value : Text → Bool × Dir → Option Text
file_value k (ready, d) =
    or_else (lookup k (entries d.local)) (if ready then lookup k (entries d.dot_env) else none)

lookup-from_files : (k : Text) (e : Bool × Dir) → lookup k (from_files e) ≡ file_value k e
unfolding lookup
lookup-from_files k (true, d) =
    lookup-extend k (entries d.dot_env) (entries d.local) (entries-IsMap d.local)
lookup-from_files k (false, d) = lookup-extend k [] (entries d.local) (entries-IsMap d.local)

-- If no name and no value of the files has a NUL, loading ends well, and then each variable has the
-- value that the process gave it, or else that of `.env.local`, or else that of `.env` if `.env` is
-- or was made a regular file.
pub load_local_env-lookup :
    (d : Dir) (env : Env)
    → every is_settable (from_files (ensure_regular_env_file d)) ≡ true
    → (env' : Env) × ((load_local_env d env).0 ≡ ok env')
      × ((k : Text)
          → lookup k env' ≡ or_else (lookup k env) (file_value k (ensure_regular_env_file d)))
unfolding load_local_env
load_local_env-lookup d env h =
    let files = ensure_regular_env_file d in
    let (env', e, same) = set_all-lookup (from_files files) env h in
    (env', e, λ k. same k ∙ ap (or_else (lookup k env)) (lookup-from_files k files))
