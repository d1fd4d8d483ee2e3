-- ===== src/Daemon/Process/Policy.antt =====
-- crates/are-daemon/src/process.rs: the execution policy.
use are.Base.{
  ◌≡◌, ◌↔◌, ◌⊎◌, inl, inr, true, List, [], ◌∷◌, none, some, arith, Str, Any, ok, Bool-cases,
  Option-cases, ==_iff, str_eq,
}
use are.Core.Grant.{normalize_program_name}
use are.Daemon.Process.{ProcessConfig, names_program, check_policy}

names_program_iff :
    (names : List Str) (program : Str)
    → (names_program names program ≡ true)
      ↔ Any (λ name. normalize_program_name name ≡ normalize_program_name program) names
names_program_iff [] program = (λ h. cc, λ h. absurd h)
names_program_iff (name ∷ names) program = ground (
  arith,
  names_program_iff names program,
  ==_iff (normalize_program_name name) (normalize_program_name program),
)

-- A program passes the policy exactly when no denied name normalises as it does and, where there
-- is an allow list, an allowed one does; with no allow list, only in permissive mode.
pub check_policy_iff :
    (config : ProcessConfig) (program : Str)
    → (check_policy config program ≡ ok tt) ↔ (
        ¬ Any
          (λ d. normalize_program_name d ≡ normalize_program_name program)
          config.denied_executables
        × (((allowed : List Str) × (config.allowed_executables ≡ some allowed)
              × Any (λ a. normalize_program_name a ≡ normalize_program_name program) allowed)
            ⊎ ((config.allowed_executables ≡ none) × (config.permissive ≡ true))))
unfolding check_policy
check_policy_iff config program =
    elim (Bool-cases (names_program config.denied_executables program)) [
      | inl denied ↦ ground (arith, names_program_iff config.denied_executables program)
      | inr fine ↦ elim (Option-cases config.allowed_executables) [
        | inl none_listed ↦ ground (arith, names_program_iff config.denied_executables program)
        | inr (allowed, listed) ↦ ground (
          arith,
          names_program_iff config.denied_executables program,
          names_program_iff allowed program,
        )
      ]
    ]
