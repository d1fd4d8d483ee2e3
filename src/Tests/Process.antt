-- ===== src/Tests/Process.antt =====
-- Runs of the theorems on processes.
use are.Base.{
  pair_eq, ◌≤◌, ◌<◌, ◌≡◌, refl, ◌≢◌, ◌↔◌, ◌⊎◌, true, List, [], ◌∷◌, none, some, Str, ascii, length,
  Any, ok, str_eq,
}
use are.Base.Dict.{get, NodupKeys}
use are.Core.Request.{exited, pos, EnvVars}
use are.Core.Grant.{normalize_program_name}
use are.Daemon.Process.{ProcessKey, Processes, check_policy, make_room_for_spawn}
use are.Daemon.Process.Policy.{check_policy_iff}
use are.Daemon.Process.Table.{is_live, make_room_for_spawn-keeps_live, make_room_for_spawn-outcome}
use are.Tests.Data.{sid, env, process_config, key, entry}

check_policy_iff_example : (check_policy process_config (ascii "/usr/bin/git") ≡ ok tt) ↔ (
    ¬ Any
      (λ d. normalize_program_name d ≡ normalize_program_name (ascii "/usr/bin/git"))
      process_config.denied_executables
    × (((allowed : List Str) × (process_config.allowed_executables ≡ some allowed)
          × Any
              (λ a. normalize_program_name a ≡ normalize_program_name (ascii "/usr/bin/git"))
              allowed)
        ⊎ ((process_config.allowed_executables ≡ none) × (process_config.permissive ≡ true))))
check_policy_iff_example = check_policy_iff process_config (ascii "/usr/bin/git")

-- A running process, and one that ended at time 0.
abbrev two : Processes
two =
    (key, entry)
    ∷ ((env, (sid, ascii "proc-2")), record entry { status = exited (pos 0); finished_at = some 0 })
    ∷ []

two-NodupKeys : NodupKeys two
unfolding get str_eq pair_eq
two-NodupKeys = (refl, (refl, tt))

make_room_for_spawn-keeps_live_example :
    get key (make_room_for_spawn two process_config 7).1 ≡ get key two
unfolding get str_eq pair_eq
make_room_for_spawn-keeps_live_example =
    make_room_for_spawn-keeps_live two process_config 7 two-NodupKeys key refl

make_room_for_spawn-outcome_example :
    (((make_room_for_spawn two process_config 7).0 ≡ ok tt)
      × (length (make_room_for_spawn two process_config 7).1 < 1))
    ⊎ (((make_room_for_spawn two process_config 7).0 ≢ ok tt)
        × (1 ≤ length (make_room_for_spawn two process_config 7).1)
        × ((k : ProcessKey)
            → get k (make_room_for_spawn two process_config 7).1 ≢ none
            → is_live (get k (make_room_for_spawn two process_config 7).1) ≡ true))
make_room_for_spawn-outcome_example = make_room_for_spawn-outcome two process_config 7 two-NodupKeys

abbrev session_env : EnvVars
session_env = (ascii "LANG", ascii "C") ∷ (ascii "LD_PRELOAD", ascii "x.so") ∷ []

abbrev request_env : EnvVars
request_env = (ascii "LANG", ascii "de") ∷ []
