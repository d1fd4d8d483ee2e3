-- ===== src/Core/Request/Laws.antt =====
-- crates/are-core/src/request.rs: what a request that validates is.
use are.Base.{
  is_empty_iff, ◌≤◌, ◌≡◌, refl, ◌≢◌, ◌↔◌, false, List, [], ◌∷◌, none, arith, Str, length, All, ok,
  str_eq, contains,
}
use are.Base.Dict.{get}
use are.Core.Request.{
  EnvVars, path_key, validate_env_var, validate_each_env_var, validate_env_vars, ExecuteRequest,
  validate_args, validate_execute,
}

-- The text has no NUL byte.
abbrev pub NulFree : Str → Type 0
NulFree s = contains 0 s ≡ false

pub record IsEnvVar (var : Str × Str) : Type 0 where
  pub named : var.0 ≢ []
  pub not_path : var.0 ≢ path_key
  pub no_equals : contains b'=' var.0 ≡ false
  pub key_nul_free : NulFree var.0
  pub value_nul_free : NulFree var.1
  pub key_short : length var.0 ≤ 4096
  pub value_short : length var.1 ≤ 1048576

validate_env_var_iff :
    (key value : Str) → (validate_env_var key value ≡ ok tt) ↔ IsEnvVar (key, value)
unfolding validate_env_var
validate_env_var_iff [] value = (λ e. cc, λ v. absurd (v.named refl))
validate_env_var_iff (c ∷ key) value = (
  λ e. record {
    named = λ n. cc;
    not_path = ground arith;
    no_equals = ground arith;
    key_nul_free = ground arith;
    value_nul_free = ground arith;
    key_short = ground arith;
    value_short = ground arith;
  },
  λ v. ground (
    arith, v.not_path, v.no_equals, v.key_nul_free, v.value_nul_free, v.key_short, v.value_short,
  ),
)

each_iff : (env : EnvVars) → (validate_each_env_var env ≡ ok tt) ↔ All IsEnvVar env
unfolding validate_each_env_var
each_iff [] = (λ e. tt, λ h. refl)
each_iff ((key, value) ∷ env) = ground (arith, validate_env_var_iff key value, each_iff env)

-- At most 128 variables, each with a key and a value that an environment can hold, and none `PATH`.
abbrev pub IsEnv : EnvVars → Type 0
IsEnv env = (length env ≤ 128) × All IsEnvVar env

pub validate_env_vars_iff : (env : EnvVars) → (validate_env_vars env ≡ ok tt) ↔ IsEnv env
unfolding validate_env_vars
validate_env_vars_iff env = ground (arith, each_iff env)

abbrev pub IsArg : Str → Type 0
IsArg arg = NulFree arg × (length arg ≤ 32768)

args_iff : (args : List Str) → (validate_args args ≡ ok tt) ↔ All IsArg args
unfolding validate_args
args_iff [] = (λ e. tt, λ h. refl)
args_iff (arg ∷ args) = ground (arith, args_iff args)

pub record IsExecutable (req : ExecuteRequest) : Type 0 where
  pub named : req.program ≢ []
  pub program_nul_free : NulFree req.program
  pub workdir_nul_free : NulFree req.working_directory
  pub few_args : length req.args ≤ 256
  pub args : All IsArg req.args
  pub env : IsEnv req.env_vars

-- An execute request validates exactly when its program is named, nothing in it holds a NUL byte,
-- it has at most 256 arguments of at most 32 KiB each, and at most 128 variables, with keys and
-- values within their limits, of which none is `PATH`.
pub validate_execute_iff :
    (req : ExecuteRequest) → (validate_execute req ≡ ok tt) ↔ IsExecutable req
unfolding validate_execute
validate_execute_iff req =
    ground (arith, is_empty_iff req.program, args_iff req.args, validate_env_vars_iff req.env_vars)

-- No validated environment holds `PATH`.
pub get-path_of_IsEnv : (env : EnvVars) → All IsEnvVar env → get path_key env ≡ none
unfolding get
get-path_of_IsEnv [] h = refl
get-path_of_IsEnv ((key, value) ∷ env) (v, h) = ground (arith, v.not_path, get-path_of_IsEnv env h)
