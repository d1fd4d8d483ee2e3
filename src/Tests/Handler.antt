-- ===== src/Tests/Handler.antt =====
-- Runs of the theorems on requests to the daemon.
use are.Base.{
  err, lit, false, pair_eq, ◌≡◌, refl, true, [], ◌∷◌, none, some, arith, Str, ascii, All, ok,
  str_eq, split,
}
use mathlib.Core.Path.{subst}
use are.Base.Dict.{get, insert}
use are.Core.Grant.{
  read, write, normalize_grant_root, grants_allow_fs, root_covers, normalize_program_name,
  program_basename,
}
use are.Core.Grant.Roots.{IsPlain}
use are.Core.Request.{
  PathRequest, WriteFileRequest, RenameRequest, validate_write_file, validate_rename,
  validate_create_session, validate_env_vars, validate_each_env_var,
}
use are.Daemon.Grants.{
  from_raw, load_principals, load_principal, load_roots, load_programs, validate_fingerprint,
  normalized_grants, grants_for, is_known,
}
use are.Daemon.Grants.Laws.{IsFingerprint, IsLoaded, from_raw-IsLoaded}
use are.Daemon.Paths.{components, path_join, path_text, path_starts_with, file_name, parent}
use are.Daemon.Fs.{
  resolve, resolve_no_follow, relativize, check_path_shape, resolve_roots, resolve_under,
  no_follow_roots, no_follow_under, relativize_roots, normal_names,
}
use are.Daemon.Fs.Contained.{IsCanonical, Canonicalizes}
use are.Daemon.Fs.Relative.{IsRelative, relativize-resolve}
use are.Daemon.Session.{
  SessionManager, is_expired, check_create, create_owned, create_locked, purge_expired_locked,
  expired_ids, remove_all,
}
use are.Daemon.Handler.{
  deny_unknown_principal, effective_grants, check_fs_grant, require_fs, fs_rel_for_grant,
  authorize_read, authorize_write_file, authorize_rename, session_error_to_rpc,
}
use are.Daemon.Handler.Authorize.{
  Authorized, authorize_read-Authorized, authorize_write_file-Authorized,
  authorize_rename-Authorized,
}
use are.Daemon.Handler.Serve.{require_live_session, handle_create_session}
use are.Daemon.Handler.Serve.Cascade.{
  IsKilled, require_live_session-cascade, handle_create_session-orphans,
}
use are.Tests.Data.{
  os, fs, fingerprint, raw, grants, table, sid, env, info, one_session, creation, key, entry,
  one_process, state,
}
use are.Base.Dict.{remove}
use are.Core.Ids.{
  ProcessId, process_id_text, hex, hex_digit, is_valid_id_byte, validate_id_bytes,
  try_new_process_id,
}
use are.Core.Request.{ExecuteRequest, validate_execute, validate_args}
use are.Daemon.Os.{Os}
use are.Core.Error.{◌<+>◌}
use are.Daemon.Session.{SessionError, choose_session_id, alloc_session_id}
use are.Daemon.Session.Invariant.{IsTable}
use are.Daemon.Session.{SessionRecord, get_owned, owner_permits}
use are.Daemon.Process.{
  ProcessManager, check_policy, evict_expired_terminal_entries, make_room_for_spawn,
  alloc_process_id, choose_process_key, check_start, reserve, start,
}
use are.Daemon.Process.Env.{merge_session_env, insert_all, sanitize_env}
use are.Daemon.Handler.{DaemonState, check_exec_grant, require_proc, process_error_to_rpc}
use are.Daemon.Handler.Serve.{handle_execute, kill_purged_sessions_best_effort}
use are.Daemon.Handler.Serve.Execute.{MayRun, handle_execute-ok}
use are.Core.Grant.{grants_allow_exec}

srv-IsPlain : IsPlain (ascii "srv")
srv-IsPlain = record {
  present = λ e. cc;
  not_here = λ e. cc;
  not_up = λ e. cc;
  free = (refl, (refl, (refl, tt)));
}

a-IsPlain : IsPlain (ascii "a")
a-IsPlain = record { present = λ e. cc; not_here = λ e. cc; not_up = λ e. cc; free = (refl, tt) }

srv_a-IsCanonical : IsCanonical (ascii "/srv/a")
unfolding components split str_eq
srv_a-IsCanonical = (ascii "srv" ∷ ascii "a" ∷ [], refl, (srv-IsPlain, (a-IsPlain, tt)))

pub srv-IsCanonical : IsCanonical (ascii "/srv")
unfolding components split str_eq
srv-IsCanonical = (ascii "srv" ∷ [], refl, (srv-IsPlain, tt))

pub os-Canonicalizes : Canonicalizes os
os-Canonicalizes p c e =
    let same : ascii "/srv/a" ≡ c = ground arith in subst IsCanonical same srv_a-IsCanonical

pub loaded : from_raw raw ≡ ok table
unfolding from_raw load_principals load_principal load_roots load_programs validate_fingerprint
    normalized_grants normalize_grant_root normalize_program_name program_basename split str_eq
    insert
loaded = refl

from_raw-IsLoaded_example : IsFingerprint fingerprint × All IsLoaded grants
unfolding grants_for get str_eq
from_raw-IsLoaded_example = from_raw-IsLoaded raw table fingerprint grants loaded refl

relativize-resolve_example :
    (rel : Str) × (relativize fs (ascii "/srv/a") ≡ some rel)
    × IsRelative fs.allowed_roots (ascii "/srv/a") rel
unfolding resolve resolve_no_follow relativize check_path_shape resolve_roots resolve_under
    no_follow_roots no_follow_under relativize_roots normal_names components path_join path_text
    path_starts_with file_name parent split str_eq
relativize-resolve_example =
    relativize-resolve os fs (ascii "a") (ascii "/srv/a") os-Canonicalizes (srv-IsCanonical, tt)
      refl

abbrev read_a : PathRequest
read_a = record { environment_id = env; path = ascii "a" }

abbrev pub write_a : WriteFileRequest
write_a = record {
  environment_id = env;
  path = ascii "a";
  content = [];
  overwrite = true;
  expected_hash = none;
}

abbrev rename_b : RenameRequest
rename_b = record { environment_id = env; src = ascii "b"; dst = ascii "c" }

authorize_read-Authorized_example :
    (canonical : Str) × (resolve os fs (ascii "a") ≡ ok canonical)
    × Authorized fs table (some fingerprint) read canonical
unfolding authorize_read deny_unknown_principal effective_grants check_fs_grant require_fs
    fs_rel_for_grant grants_allow_fs root_covers grants_for is_known get resolve resolve_no_follow
    relativize check_path_shape resolve_roots resolve_under no_follow_roots no_follow_under
    relativize_roots normal_names components path_join path_text path_starts_with file_name parent
    split str_eq
authorize_read-Authorized_example =
    authorize_read-Authorized os state (some fingerprint) fs table os-Canonicalizes
      (srv-IsCanonical, tt) refl refl raw loaded read read_a refl

authorize_write_file-Authorized_example :
    (canonical : Str) × (resolve os fs (ascii "a") ≡ ok canonical)
    × Authorized fs table (some fingerprint) write canonical
unfolding authorize_write_file validate_write_file deny_unknown_principal effective_grants
    check_fs_grant require_fs fs_rel_for_grant grants_allow_fs root_covers grants_for is_known get
    resolve resolve_no_follow relativize check_path_shape resolve_roots resolve_under
    no_follow_roots no_follow_under relativize_roots normal_names components path_join path_text
    path_starts_with file_name parent split str_eq
authorize_write_file-Authorized_example =
    authorize_write_file-Authorized os state (some fingerprint) fs table os-Canonicalizes
      (srv-IsCanonical, tt) refl refl raw loaded write_a refl

authorize_rename-Authorized_example :
    ((from : Str) × (resolve_no_follow os fs (ascii "b") ≡ ok from)
      × Authorized fs table (some fingerprint) write from)
    × ((to : Str) × (resolve_no_follow os fs (ascii "c") ≡ ok to)
        × Authorized fs table (some fingerprint) write to)
unfolding authorize_rename validate_rename deny_unknown_principal effective_grants check_fs_grant
    require_fs fs_rel_for_grant grants_allow_fs root_covers grants_for is_known get resolve
    resolve_no_follow relativize check_path_shape resolve_roots resolve_under no_follow_roots
    no_follow_under relativize_roots normal_names components path_join path_text path_starts_with
    file_name parent split str_eq
authorize_rename-Authorized_example =
    authorize_rename-Authorized os state (some fingerprint) fs table os-Canonicalizes
      (srv-IsCanonical, tt) refl refl raw loaded rename_b refl

require_live_session-cascade_example :
    ((left : SessionManager) × ((require_live_session state none sid 50).1.sessions ≡ some left)
      × (get sid left.sessions ≡ none))
    × IsKilled (require_live_session state none sid 50).1.proc key entry
unfolding get is_expired str_eq pair_eq
require_live_session-cascade_example =
    require_live_session-cascade state none sid 50 one_session one_process (record { info = info })
      key entry refl refl refl refl refl refl refl

-- A host whose random source fails.
abbrev no_entropy : Os
no_entropy = record os { random = λ i. err (lit "no entropy") }

abbrev no_id : SessionError
no_id = SessionError.internal (lit "failed to generate session id: " <+> lit "no entropy")

one_session-IsTable : IsTable one_session
unfolding get
one_session-IsTable = ((refl, tt), omega arith, ((refl, refl), tt))

handle_create_session-orphans_example :
    let x = handle_create_session no_entropy state (some fingerprint) creation 50 in
    ((left : SessionManager) × (x.1.sessions ≡ some left)
      × (get sid left.sessions ≡ none)
      × ((e : SessionError) × (choose_session_id no_entropy left.sessions 8 0 ≡ err e)
          × (session_error_to_rpc no_id ≡ session_error_to_rpc e)))
    × ((kept : ProcessManager) × (x.1.proc ≡ some kept) × (get key kept.processes ≡ some entry))
unfolding handle_create_session create_owned create_locked check_create purge_expired_locked
    expired_ids remove_all remove choose_session_id alloc_session_id is_expired session_error_to_rpc
    validate_create_session validate_env_vars validate_each_env_var deny_unknown_principal is_known
    get resolve check_path_shape resolve_roots resolve_under relativize relativize_roots
    normal_names components path_join path_text path_starts_with split str_eq pair_eq
handle_create_session-orphans_example =
    handle_create_session-orphans no_entropy state (some fingerprint) creation 50 one_session
      one_process (ascii ".") sid (record { info = info }) key entry (session_error_to_rpc no_id)
      refl refl one_session-IsTable refl refl refl refl refl refl refl refl refl

-- A daemon with a grants file, a session of the named caller, and no process yet.
abbrev idle : DaemonState
idle = record state {
  sessions = some (record one_session {
    sessions = (sid, record { info = record info { owner = some fingerprint } }) ∷ [];
  });
  proc = some (record one_process { processes = [] });
}

abbrev git_status : ExecuteRequest
git_status = record {
  environment_id = env;
  session_id = sid;
  program = ascii "git";
  args = ascii "status" ∷ [];
  working_directory = [];
  env_vars = [];
}

abbrev pid : ProcessId
pid = process_id_text (0 ∷ 0 ∷ 0 ∷ 0 ∷ 0 ∷ 0 ∷ 0 ∷ 0 ∷ 0 ∷ 0 ∷ 0 ∷ 0 ∷ 0 ∷ 0 ∷ 0 ∷ 0 ∷ [])

handle_execute-ok_example :
    ((proc : ProcessManager) × (idle.proc ≡ some proc)
      × (check_policy proc.config (ascii "git") ≡ ok tt))
    × (validate_execute git_status ≡ ok tt)
    × ((m : SessionManager) × (idle.sessions ≡ some m)
        × ((r : SessionRecord) × (get sid m.sessions ≡ some r)
            × (owner_permits r.info.owner (some fingerprint) ≡ true)
            × (is_expired r.info m.config 3 ≡ false)))
    × MayRun idle (some fingerprint) (ascii "git")
unfolding handle_execute require_proc require_live_session kill_purged_sessions_best_effort
    get_owned owner_permits is_expired deny_unknown_principal validate_execute validate_args
    validate_env_vars validate_each_env_var check_policy normalize_program_name program_basename
    check_exec_grant effective_grants is_known grants_for grants_allow_exec start check_start
    reserve evict_expired_terminal_entries make_room_for_spawn choose_process_key alloc_process_id
    try_new_process_id validate_id_bytes is_valid_id_byte hex hex_digit merge_session_env insert_all
    sanitize_env process_error_to_rpc get insert remove pair_eq resolve check_path_shape
    resolve_roots resolve_under components path_join path_text path_starts_with split str_eq
handle_execute-ok_example =
    handle_execute-ok os idle (some fingerprint) git_status 3 3500000000 pid refl
