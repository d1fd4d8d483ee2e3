-- ===== src/Daemon/Main.antt =====
-- crates/are-daemon/src/main.rs: `ared listen`, from the parsed command line to the daemon's state.
-- TLS and the listener are not modelled.
pub mod Modes
use are.Base.{
  ℕ, zero, suc, Bool, true, false, not, ◌&&◌, ◌||◌, List, [], ◌∷◌, map, Option, none, some, Str,
  ascii, is_empty, keep, length, split, Message, lit, bytes, Result, ok, err, ◌>>=◌, ◌>>◌, ensure,
  map_err, ok_or, eqb, leb, is_some, if◌then◌else◌,
}
use mathlib.Core.List.{reverse}
use are.Core.Error.{◌<+>◌, to_string}
use are.Core.Ids.{try_new_environment_id}
use are.Daemon.Grants.{GrantsTable, RawGrantsFile, from_raw}
use are.Daemon.Config.{Machine, DaemonConfig, build_daemon_state}
use are.Daemon.Handler.{DaemonState}

-- The arguments of `ared listen`, but for those of the listener and of TLS.
pub record Arguments : Type 0 where
  pub environment_id : Str
  pub allowed_root : Option Str
  pub allow_exec : Option Str
  pub permissive_exec : Bool
  pub session_idle_timeout : ℕ
  pub session_max_lifetime : ℕ
  pub max_sessions : ℕ
  pub max_processes_per_session : ℕ
  pub grants_file : Option Str
  pub permissive_authz : Bool

-- What the files are: whether a path exists, the current directory, and a grants file read and
-- parsed as JSON.
pub record Files : Type 0 where
  pub machine : Machine
  pub exists : Str → Bool
  pub current_dir : Result Message Str
  pub read_grants : Str → Result Message RawGrantsFile

-- The white space of Unicode, in UTF-8.
abbrev pub is_space : ℕ → Bool
is_space c = (leb 9 c && leb c 13) || eqb c 32

abbrev pub is_space_pair : ℕ → ℕ → Bool
is_space_pair a b = eqb a 0xC2 && (eqb b 0x85 || eqb b 0xA0)

abbrev pub is_space_triple : ℕ → ℕ → ℕ → Bool
is_space_triple a b c =
    (eqb a 0xE1 && (eqb b 0x9A && eqb c 0x80))
    || ((eqb a 0xE2
          && ((eqb b 0x80
                && ((leb 0x80 c && leb c 0x8A) || (eqb c 0xA8 || (eqb c 0xA9 || eqb c 0xAF))))
              || (eqb b 0x81 && eqb c 0x9F)))
        || (eqb a 0xE3 && (eqb b 0x80 && eqb c 0x80)))

-- One white space off the front, and off the front of a text from back to front.
abbrev pub drop_space : Str → Option Str
drop_space [] = none
drop_space (a ∷ []) = if is_space a then some [] else none
drop_space (a ∷ b ∷ []) =
    if is_space a then some (b ∷ []) else if is_space_pair a b then some [] else none
drop_space (a ∷ b ∷ c ∷ s) =
    if is_space a
    then some (b ∷ c ∷ s)
    else if is_space_pair a b
    then some (c ∷ s)
    else if is_space_triple a b c
    then some s
    else none

abbrev pub drop_space_back : Str → Option Str
drop_space_back [] = none
drop_space_back (a ∷ []) = if is_space a then some [] else none
drop_space_back (a ∷ b ∷ []) =
    if is_space a then some (b ∷ []) else if is_space_pair b a then some [] else none
drop_space_back (a ∷ b ∷ c ∷ s) =
    if is_space a
    then some (b ∷ c ∷ s)
    else if is_space_pair b a
    then some (c ∷ s)
    else if is_space_triple c b a
    then some s
    else none

-- As often as there is one; there are no more than bytes.
unfoldable pub drop_all : (Str → Option Str) → ℕ → Str → Str
drop_all drop zero s = s
drop_all drop (suc n) s = elim (drop s) [ some rest ↦ drop_all drop n rest | none ↦ s ]

-- `str::trim`.
unfoldable pub trim : Str → Str
unfolding drop_all
trim s =
    let start = drop_all drop_space (length s) s in
    reverse (drop_all drop_space_back (length start) (reverse start))

-- The names of `--allow-exec`.
unfoldable pub allow_list : Str → List Str
unfolding trim
allow_list s = keep (λ name. not (is_empty name)) (map trim (split (eqb b',') s))

unfoldable pub validate_authz_mode : Option Str → Bool → Result Message (Unit {0})
validate_authz_mode grants_file permissive_authz =
    ensure (is_some grants_file || permissive_authz) (
      lit
        "neither --grants-file nor --permissive-authz given. Pass --grants-file <path> to run STRICT, or --permissive-authz to run legacy-permissive (DEVELOPMENT ONLY — every authenticated client may do anything; do not use in production)")

-- `GrantsTable::load_from_file`.
abbrev pub load_from_file : Files → Str → Result Message GrantsTable
load_from_file files path =
    files.read_grants path >>= λ raw. map_err (λ e. bytes path <+> lit ": " <+> e) (from_raw raw)

unfoldable pub load_grants : Files → Option Str → Result Message (Option GrantsTable)
load_grants files none = ok none
load_grants files (some path) = load_from_file files path >>= λ table. ok (some table)

unfoldable pub choose_root : Files → Option Str → Result Message Str
choose_root files none = files.current_dir
choose_root files (some path) =
    if files.exists path
    then ok path
    else err (lit "allowed-root path does not exist: " <+> bytes path)

-- `main`: an error is an exit before the daemon listens.
unfoldable pub listen : Files → Arguments → Result Message DaemonState
listen files args = do
  validate_authz_mode args.grants_file args.permissive_authz
  environment_id ←
      map_err (λ e. lit "invalid environment_id: " <+> to_string e)
        (try_new_environment_id args.environment_id)
  root ← choose_root files args.allowed_root
  grants ← load_grants files args.grants_file
  ok (
      build_daemon_state files.machine (record {
        environment_id = environment_id;
        max_sessions = args.max_sessions;
        max_processes_per_session = some args.max_processes_per_session;
        session_idle_timeout_secs = args.session_idle_timeout;
        session_max_lifetime_secs = args.session_max_lifetime;
        allowed_root = some root;
        allowed_executables = elim args.allow_exec [ none ↦ none | some s ↦ some (allow_list s) ];
        permissive_exec = args.permissive_exec;
        grants = grants;
      }))
