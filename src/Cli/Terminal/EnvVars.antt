-- ===== src/Cli/Terminal/EnvVars.antt =====
-- crates/are-cli/src/main.rs: the variables of `--env`.
use are.Base.{
  ℕ, ◌≡◌, refl, sym, ap, ◌∙◌, false, List, [], ◌∷◌, ◌++◌, map, Option, some, Str, All, is_empty,
  contains, Message, ok, arith, if◌then◌else◌, ◌==◌, str_eq,
}
use mathlib.Core.List.{reverse, reverse_aux-eq, append_assoc, append-nil}
use are.Base.Dict.{Dict, get, insert, get-insert}
use are.Cli.Terminal.{split_once, parse_each_env_var, parse_env_vars}

-- KEY=VAL.
abbrev pub assignment : Str × Str → Str
assignment (k, v) = k ++ (b'=' ∷ v)

-- A key is not empty and has no `=`.
abbrev pub HasKey : Str × Str → Type 0
HasKey (k, v) = (is_empty k ≡ false) × (contains b'=' k ≡ false)

split_once-assignment :
    (k v : Str) → contains b'=' k ≡ false → split_once b'=' (k ++ (b'=' ∷ v)) ≡ some (k, v)
unfolding split_once
split_once-assignment [] v h = refl
split_once-assignment (c ∷ k) v h = ground (arith, split_once-assignment k v)

abbrev insert_each : List (Str × Str) → Dict Str Str → Dict Str Str
insert_each [] d = d
insert_each ((k, v) ∷ pairs) d = insert_each pairs (insert k v d)

parse_each-insert_each :
    (debug : List ℕ → Message) (pairs : List (Str × Str)) (d : Dict Str Str)
    → All HasKey pairs
    → parse_each_env_var debug (map assignment pairs) d ≡ ok (insert_each pairs d)
unfolding parse_each_env_var
parse_each-insert_each debug [] d h = refl
parse_each-insert_each debug (([], v) ∷ pairs) d h = absurd (cc)
parse_each-insert_each debug ((c ∷ k, v) ∷ pairs) d h =
    rw (split_once-assignment (c ∷ k) v h.0.1)
      (parse_each-insert_each debug pairs (insert (c ∷ k) v d) h.1)

-- Two maps that agree still agree behind the same entries.
get-behind :
    (k : Str) (front a b : Dict Str Str)
    → get k a ≡ get k b
    → get k (front ++ a) ≡ get k (front ++ b)
unfolding get
get-behind k [] a b h = h
get-behind k ((j, v) ∷ front) a b h =
    ap (λ (r : Option Str). if j == k then some v else r) (get-behind k front a b h)

get-insert_front : (k j v : Str) (d : Dict Str Str) → get k (insert j v d) ≡ get k ((j, v) ∷ d)
unfolding get
get-insert_front k j v d = get-insert j k v d

get-insert_each :
    (k : Str) (pairs d : Dict Str Str) → get k (insert_each pairs d) ≡ get k (reverse pairs ++ d)
get-insert_each k [] d = refl
get-insert_each k ((j, v) ∷ pairs) d =
    get-insert_each k pairs (insert j v d)
    ∙ get-behind k (reverse pairs) (insert j v d) ((j, v) ∷ d) (get-insert_front k j v d)
    ∙ ap (get k) (
        sym (
          ap (λ (r : Dict Str Str). r ++ d) (reverse_aux-eq pairs ((j, v) ∷ []))
          ∙ append_assoc (reverse pairs) ((j, v) ∷ []) d))

-- `--env` values that are written KEY=VAL, with keys that are not empty and have no `=`: they are
-- accepted, and a variable gets the last value that is given for it.
pub get-parse_env_vars :
    (debug : List ℕ → Message) (pairs : List (Str × Str)) (k : Str)
    → All HasKey pairs
    → (env_vars : Dict Str Str) × (parse_env_vars debug (map assignment pairs) ≡ ok env_vars)
      × (get k env_vars ≡ get k (reverse pairs))
unfolding parse_env_vars
get-parse_env_vars debug pairs k h = (
  insert_each pairs [],
  parse_each-insert_each debug pairs [] h,
  get-insert_each k pairs [] ∙ ap (get k) (append-nil (reverse pairs)),
)
