-- ===== src/Daemon/Process/Env.antt =====
-- crates/are-daemon/src/process.rs: the environment variables that a child is given.
use are.Base.{
  ◌≡◌, refl, Bool, ◌||◌, List, [], ◌∷◌, Option, none, some, arith, Str, ascii, any, if◌then◌else◌,
  ◌==◌, str_eq, starts_with,
}
use are.Base.Dict.{get, insert, get-insert, NodupKeys}
use are.Core.Request.{EnvVars}

abbrev pub stripped_env_exact : List Str
stripped_env_exact = ascii "LD_PRELOAD" ∷ ascii "LD_LIBRARY_PATH" ∷ ascii "LD_AUDIT" ∷ []

abbrev pub stripped_env_prefixes : List Str
stripped_env_prefixes = ascii "LD_" ∷ ascii "DYLD_" ∷ []

-- The test of the loop in `sanitize_env`.
unfoldable pub is_stripped : Str → Bool
is_stripped key =
    any (λ exact. exact == key) stripped_env_exact
    || any (λ prefix. starts_with prefix key) stripped_env_prefixes

-- The keys of a `HashMap` are distinct, so the copy of a variable is one more entry.
unfoldable pub sanitize_env : EnvVars → EnvVars
sanitize_env [] = []
sanitize_env ((key, value) ∷ env) =
    let rest = sanitize_env env in if is_stripped key then rest else (key, value) ∷ rest

-- A loop of `merge_session_env`, which inserts every variable of a layer.
unfoldable pub insert_all : EnvVars → EnvVars → EnvVars
insert_all merged [] = merged
insert_all merged ((key, value) ∷ env) = insert_all (insert key value merged) env

unfoldable pub merge_session_env : EnvVars → EnvVars → EnvVars
unfolding sanitize_env insert_all
merge_session_env session_env request_env =
    sanitize_env (insert_all (insert_all [] session_env) request_env)

-- The dynamic loader reads the variable.
pub is_loader_key : Str → Bool
is_loader_key key = starts_with (ascii "LD_") key || starts_with (ascii "DYLD_") key

-- The three exact keys have the prefix `LD_` already.
is_stripped_prefix : (key : Str) → is_stripped key ≡ is_loader_key key
unfolding is_stripped is_loader_key
is_stripped_prefix key = ground arith

get-sanitize_env :
    (key : Str) (env : EnvVars)
    → get key (sanitize_env env) ≡ (if is_stripped key then none else get key env)
unfolding sanitize_env get
get-sanitize_env key [] = ground arith
get-sanitize_env key ((k, v) ∷ env) = ground (arith, get-sanitize_env key env)

-- A key that the later layer has wins.
pub over : Option Str → Option Str → Option Str
over (some v) below = some v
over none below = below

get-insert_all :
    (key : Str) (merged env : EnvVars)
    → NodupKeys env
    → get key (insert_all merged env) ≡ over (get key env) (get key merged)
unfolding insert_all get over
get-insert_all key merged [] u = refl
get-insert_all key merged ((k, v) ∷ env) (fresh, u) =
    ground (arith, get-insert_all key (insert k v merged) env u, get-insert k key v merged)

over-none : (o : Option Str) → over o none ≡ o
unfolding over
over-none none = refl
over-none (some v) = refl

-- What a child is given of two layers with distinct keys: a variable of the request, or else of the
-- session, unless the dynamic loader reads it (`LD_` or `DYLD_` at the front), which is never
-- given.
pub get-merge_session_env :
    (key : Str) (session_env request_env : EnvVars)
    → NodupKeys session_env
    → NodupKeys request_env
    → get key (merge_session_env session_env request_env)
      ≡ (if is_loader_key key then none else over (get key request_env) (get key session_env))
unfolding merge_session_env get
get-merge_session_env key session_env request_env u w = ground (
  arith,
  is_stripped_prefix key,
  get-sanitize_env key (insert_all (insert_all [] session_env) request_env),
  get-insert_all key (insert_all [] session_env) request_env w,
  get-insert_all key [] session_env u,
  over-none (get key session_env),
)
