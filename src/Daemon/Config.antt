-- ===== src/Daemon/Config.antt =====
-- crates/are-daemon/src/lib.rs: the daemon's state, from its configuration.
pub mod Initial
use are.Base.{
  ℕ, ◌*◌, Bool, true, false, ◌||◌, List, [], ◌∷◌, map, Option, none, some, Str, ascii, starts_with,
  Result, ok, err, is_some, if◌then◌else◌, unwrap_or, ◌==◌, str_eq,
}
use are.Core.Ids.{EnvironmentId}
use are.Core.Grant.{ascii_lower}
use are.Core.Capability.{
  Capability, filesystem_read, filesystem_write, filesystem_list, process_execute, process_inspect,
  process_terminate, CapabilitySet, set_insert,
}
use are.Core.Platform.{Platform, debian, ubuntu, generic_linux, unknown}
use are.Daemon.Os.{Os}
use are.Daemon.Fs.{FilesystemConfig, FsError, with_max_file_bytes}
use are.Daemon.Grants.{GrantsTable}
use are.Daemon.Session.{SessionConfig, new_manager}
use are.Daemon.Process.{ProcessConfig, ProcessManager}
use are.Daemon.Handler.{DaemonState}

-- What the daemon asks of its machine when it starts: the host name, the operating system, the text
-- of /etc/os-release, the version of the crate, and the calls that `Os` has.
pub record Machine : Type 0 where
  pub hostname : Option Str
  pub operating_system : Str
  pub os_release : Option Str
  pub version : Str
  pub os : Os

abbrev pub default_session_idle_timeout_secs : ℕ
default_session_idle_timeout_secs = 3600

abbrev pub default_session_max_lifetime_secs : ℕ
default_session_max_lifetime_secs = 86400

abbrev pub default_max_processes_per_session : ℕ
default_max_processes_per_session = 32

abbrev pub default_max_file_bytes : ℕ
default_max_file_bytes = 16 * 1024 * 1024

abbrev pub default_max_output_bytes : ℕ
default_max_output_bytes = 8 * 1024 * 1024

abbrev pub default_max_processes : ℕ
default_max_processes = 128

abbrev pub default_retention_secs : ℕ
default_retention_secs = 3600

abbrev pub default_drain_timeout_secs : ℕ
default_drain_timeout_secs = 5

abbrev pub default_denied_executables : List Str
default_denied_executables =
    ascii "shutdown" ∷ ascii "reboot" ∷ ascii "poweroff" ∷ ascii "halt" ∷ ascii "init" ∷ []

-- `ProcessConfig::default`.
abbrev pub default_process_config : ProcessConfig
default_process_config = record {
  allowed_executables = none;
  permissive = false;
  denied_executables = default_denied_executables;
  max_output_bytes = default_max_output_bytes;
  max_processes = default_max_processes;
  max_processes_per_session = default_max_processes_per_session;
  retention_secs = default_retention_secs;
  drain_timeout_secs = default_drain_timeout_secs;
}

-- The port and the paths of the certificates are left to the listener.
pub record DaemonConfig : Type 0 where
  pub environment_id : EnvironmentId
  pub max_sessions : ℕ
  pub max_processes_per_session : Option ℕ
  pub session_idle_timeout_secs : ℕ
  pub session_max_lifetime_secs : ℕ
  pub allowed_root : Option Str
  pub allowed_executables : Option (List Str)
  pub permissive_exec : Bool
  pub grants : Option GrantsTable

-- `DaemonConfig::default`.
abbrev pub default_config : DaemonConfig
default_config = record {
  environment_id = ascii "default";
  max_sessions = 64;
  max_processes_per_session = none;
  session_idle_timeout_secs = default_session_idle_timeout_secs;
  session_max_lifetime_secs = default_session_max_lifetime_secs;
  allowed_root = none;
  allowed_executables = none;
  permissive_exec = false;
  grants = none;
}

-- `contains` of a text.
unfoldable pub contains_text : Str → Str → Bool
contains_text part [] = starts_with part []
contains_text part (c ∷ s) = starts_with part (c ∷ s) || contains_text part s

-- `to_lowercase` on the letters that the names are made of.
unfoldable pub detect_platform : Machine → Platform
unfolding contains_text
detect_platform machine =
    if machine.operating_system == ascii "linux"
    then elim machine.os_release [
      | none ↦ generic_linux
      | some content ↦
          let lower = map ascii_lower content in
          if contains_text (ascii "debian") lower
          then debian
          else if contains_text (ascii "ubuntu") lower
          then ubuntu
          else generic_linux
    ]
    else unknown machine.operating_system

abbrev only_ok : Result FsError FilesystemConfig → Option FilesystemConfig
only_ok (ok fs) = some fs
only_ok (err e) = none

-- The backend for the allowed root; one that fails to configure is left out, with a warning.
unfoldable pub build_fs : Machine → DaemonConfig → Option FilesystemConfig
build_fs machine config = elim config.allowed_root [
  | none ↦ none
  | some root ↦ only_ok (with_max_file_bytes machine.os (root ∷ []) default_max_file_bytes)
]

abbrev pub fs_capabilities : Bool → CapabilitySet → CapabilitySet
fs_capabilities false set = set
fs_capabilities true set =
    set_insert filesystem_write (set_insert filesystem_list (set_insert filesystem_read set))

unfoldable pub build_capabilities : Option FilesystemConfig → CapabilitySet
build_capabilities fs =
    set_insert process_terminate
      (set_insert process_inspect (set_insert process_execute (fs_capabilities (is_some fs) [])))

abbrev pub per_session_cap : DaemonConfig → ℕ
per_session_cap config =
    unwrap_or config.max_processes_per_session default_max_processes_per_session

abbrev pub build_process_config : DaemonConfig → ProcessConfig
build_process_config config = record default_process_config {
  allowed_executables = config.allowed_executables;
  permissive = config.permissive_exec;
  max_processes_per_session = per_session_cap config;
}

-- `ProcessManager::new`.
abbrev pub new_process_manager :
    EnvironmentId → ProcessConfig → Option FilesystemConfig → ProcessManager
new_process_manager environment_id config fs = record {
  environment_id = environment_id;
  config = config;
  fs = fs;
  processes = [];
}

abbrev pub build_session_config : DaemonConfig → SessionConfig
build_session_config config = record {
  idle_timeout_secs = config.session_idle_timeout_secs;
  max_lifetime_secs = config.session_max_lifetime_secs;
  max_sessions = config.max_sessions;
  max_processes_per_session = per_session_cap config;
}

unfoldable pub build_daemon_state : Machine → DaemonConfig → DaemonState
build_daemon_state machine config =
    let fs = build_fs machine config in
    record {
      environment_id = config.environment_id;
      machine_name = unwrap_or machine.hostname (ascii "unknown");
      daemon_version = machine.version;
      advertised_capabilities = build_capabilities fs;
      platform = detect_platform machine;
      fs = fs;
      proc = some (new_process_manager config.environment_id (build_process_config config) fs);
      sessions = some (new_manager config.environment_id (build_session_config config) fs);
      grants = config.grants;
    }
