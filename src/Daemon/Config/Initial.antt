-- ===== src/Daemon/Config/Initial.antt =====
-- crates/are-daemon/src/lib.rs: what a daemon advertises.
use are.Base.{◌≡◌, refl, Bool, Option, none, some, is_some, str_eq}
use are.Core.Capability.{
  Capability, filesystem_read, filesystem_write, filesystem_list, process_execute, process_inspect,
  process_terminate, set_contains,
}
use are.Daemon.Fs.{FilesystemConfig}
use are.Daemon.Config.{Machine, DaemonConfig, build_fs, build_capabilities, build_daemon_state}
use are.Daemon.Handler.{DaemonState}

-- Whether the backend of a capability is there.
abbrev pub has_backend : DaemonState → Capability → Bool
has_backend state filesystem_read = is_some state.fs
has_backend state filesystem_write = is_some state.fs
has_backend state filesystem_list = is_some state.fs
has_backend state process_execute = is_some state.proc
has_backend state process_inspect = is_some state.proc
has_backend state process_terminate = is_some state.proc

abbrev fs_backed : Bool → Capability → Bool
fs_backed fs filesystem_read = fs
fs_backed fs filesystem_write = fs
fs_backed fs filesystem_list = fs
fs_backed fs process_execute = Bool.true
fs_backed fs process_inspect = Bool.true
fs_backed fs process_terminate = Bool.true

contains-build :
    (fs : Option FilesystemConfig) (cap : Capability)
    → set_contains (build_capabilities fs) cap ≡ fs_backed (is_some fs) cap
unfolding build_capabilities str_eq
contains-build none filesystem_read = refl
contains-build none filesystem_write = refl
contains-build none filesystem_list = refl
contains-build none process_execute = refl
contains-build none process_inspect = refl
contains-build none process_terminate = refl
contains-build (some fs) filesystem_read = refl
contains-build (some fs) filesystem_write = refl
contains-build (some fs) filesystem_list = refl
contains-build (some fs) process_execute = refl
contains-build (some fs) process_inspect = refl
contains-build (some fs) process_terminate = refl

-- A daemon advertises exactly the capabilities whose backend it has.
pub advertised-has_backend :
    (machine : Machine) (config : DaemonConfig) (cap : Capability)
    → set_contains (build_daemon_state machine config).advertised_capabilities cap
      ≡ has_backend (build_daemon_state machine config) cap
unfolding build_daemon_state
advertised-has_backend machine config filesystem_read =
    contains-build (build_fs machine config) filesystem_read
advertised-has_backend machine config filesystem_write =
    contains-build (build_fs machine config) filesystem_write
advertised-has_backend machine config filesystem_list =
    contains-build (build_fs machine config) filesystem_list
advertised-has_backend machine config process_execute =
    contains-build (build_fs machine config) process_execute
advertised-has_backend machine config process_inspect =
    contains-build (build_fs machine config) process_inspect
advertised-has_backend machine config process_terminate =
    contains-build (build_fs machine config) process_terminate
