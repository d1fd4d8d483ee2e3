-- ===== src/Daemon/Handler/Serve/Execute.antt =====
-- crates/are-daemon/src/handler.rs: what has been checked when a process starts.
use are.Base.{
  Any, Bool, ◌⊎◌, ◌≢◌, none, ℕ, List, [], ◌∷◌, sym, ◌∙◌, ◌≡◌, refl, inl, inr, true, false, some,
  arith, Str, Result, ok, err, ensure, map_err, Option-cases, ◌==◌, str_eq,
}
use are.Base.Dict.{get}
use are.Core.Ids.{ProcessId}
use are.Core.Error.{to_string}
use are.Core.Grant.{Grant, normalize_program_name}
use are.Core.Grant.Scopes.{Runs, grants_allow_exec_iff}
use are.Daemon.Grants.{GrantsTable, grants_for, is_known}
use are.Core.Request.{ExecuteRequest, SessionInfo, validate_execute}
use are.Daemon.Os.{Os}
use are.Daemon.Session.{SessionManager, SessionRecord, is_expired, owner_permits, get_owned}
use are.Daemon.Session.Access.{get_owned-ok}
use are.Daemon.Process.{ProcessManager, check_policy}
use are.Daemon.Handler.{
  RpcError, DaemonState, Caller, invalid_request, session_error_to_rpc, process_error_to_rpc,
  deny_unknown_principal, check_exec_grant, effective_grants, require_proc,
}
use are.Daemon.Handler.Serve.{
  Served, and_then, check, require_live_session, handle_execute, kill_session_processes_best_effort,
  kill_purged_sessions_best_effort,
}

module _ {A B : Type 0} {b : B} where
  check-ok :
      (r : Result RpcError A) (state : DaemonState) (f : A → Served B)
      → (check r state f).0 ≡ ok b
      → (a : A) × (r ≡ ok a) × ((f a).0 ≡ ok b)
  check-ok (ok a) state f h = (a, refl, h)
  check-ok (err e) state f h = cc

  and_then-ok :
      (s : Served A) (f : A → DaemonState → Served B)
      → (and_then s f).0 ≡ ok b
      → (a : A) × (s.0 ≡ ok a) × ((f a s.1).0 ≡ ok b)
  and_then-ok (ok a, state) f h = (a, refl, h)
  and_then-ok (err e, state) f h = cc

map_err-unit :
    {E F : Type 0} (f : E → F) (r : Result E (Unit {0})) {a : Unit {0}}
    → map_err f r ≡ ok a
    → r ≡ ok tt
map_err-unit f (ok a) h = refl
map_err-unit f (err e) h = cc

map_err-value :
    {E F A : Type 0} (f : E → F) (r : Result E A) {a : A} → map_err f r ≡ ok a → r ≡ ok a
map_err-value f (ok a) h = ground arith
map_err-value f (err e) h = cc

-- A session that passes is one of the table that the caller may use and that has not expired.
require_live_session-ok :
    (state : DaemonState) (caller : Caller) (id : Str) (now : ℕ) (session : SessionInfo)
    → (require_live_session state caller id now).0 ≡ ok session
    → (m : SessionManager) × (state.sessions ≡ some m)
      × ((r : SessionRecord) × (get id m.sessions ≡ some r)
          × (owner_permits r.info.owner caller ≡ true)
          × (is_expired r.info m.config now ≡ false))
unfolding require_live_session
require_live_session-ok state caller id now session e = elim (Option-cases state.sessions) [
  | inl none_there ↦ absurd (cc (rw (none_there, require_live_session) at e))
  | inr (m, here) ↦
      let result : map_err session_error_to_rpc (get_owned m id caller now).0.0 ≡ ok session =
        rw (here, require_live_session) at e in
      let (r, there, same, mine, live, after) =
        get_owned-ok m id caller now session
          (map_err-value session_error_to_rpc (get_owned m id caller now).0.0 result) in
      (m, here, (r, there, mine, live))
]

require_proc-found :
    (state : DaemonState) (environment_id : Str) (proc : ProcessManager)
    → require_proc state environment_id ≡ ok proc
    → state.proc ≡ some proc
unfolding require_proc
require_proc-found state environment_id proc e = ground arith

-- The cascade leaves the grants alone.
kill_purged-grants :
    (ids : List Str) (state : DaemonState)
    → (kill_purged_sessions_best_effort state ids).grants ≡ state.grants
unfolding kill_purged_sessions_best_effort kill_session_processes_best_effort
kill_purged-grants [] state = refl
kill_purged-grants (id ∷ ids) state =
    kill_purged-grants ids (kill_session_processes_best_effort state id)
    ∙ elim (Option-cases state.proc) [ inl idle ↦ rw idle refl | inr (proc, there) ↦ rw there refl ]

pub require_live_session-grants :
    (state : DaemonState) (caller : Caller) (id : Str) (now : ℕ)
    → (require_live_session state caller id now).1.grants ≡ state.grants
unfolding require_live_session
require_live_session-grants state caller id now = elim (Option-cases state.sessions) [
  | inl none_there ↦ rw (none_there, require_live_session) refl
  | inr (m, here) ↦
      rw (here, require_live_session)
        (kill_purged-grants (get_owned m id caller now).0.1
          (record state { sessions = some (get_owned m id caller now).1 }))
]

module _ (after before : DaemonState) (caller : Caller) (same : after.grants ≡ before.grants) where
  pub deny-same : deny_unknown_principal after caller ≡ deny_unknown_principal before caller
  unfolding deny_unknown_principal
  deny-same = rw same refl

  exec-same :
      (program : Str)
      → check_exec_grant after caller program ≡ check_exec_grant before caller program
  unfolding check_exec_grant effective_grants
  exec-same program = rw same refl

-- In permissive mode anybody may run a program; in strict mode a caller whom the grants file names,
-- with a grant that lists a program of the same normalized name, which is not empty.
abbrev pub MayRun : DaemonState → Caller → Str → Type 0
MayRun state caller program =
    (state.grants ≡ none)
    ⊎ ((table : GrantsTable) × (state.grants ≡ some table)
        × ((fingerprint : Str) × (caller ≡ some fingerprint)
            × ((grants : List Grant) × (grants_for table fingerprint ≡ some grants)
                × (normalize_program_name program ≢ [])
                × Any (Runs program) grants)))

ensure-true : {E : Type 0} (b : Bool) (e : E) → ensure b e ≡ ok tt → b ≡ true
ensure-true true e h = refl
ensure-true false e h = cc

check_exec_grant-MayRun :
    (state : DaemonState) (caller : Caller) (program : Str)
    → deny_unknown_principal state caller ≡ ok tt
    → check_exec_grant state caller program ≡ ok tt
    → MayRun state caller program
unfolding deny_unknown_principal check_exec_grant effective_grants is_known grants_for
check_exec_grant-MayRun state caller program known allowed = elim (Option-cases state.grants) [
  | inl permissive ↦ inl permissive
  | inr (table, strict) ↦ elim (Option-cases caller) [
    | inl anonymous ↦ absurd (cc (rw (strict, anonymous) at known))
    | inr (fp, is) ↦ elim (Option-cases (get fp table.principals)) [
      | inl stranger ↦ absurd (cc (rw (strict, is, stranger) at known))
      | inr (grants, found) ↦
          let listed = ensure-true _ _ (rw (strict, is, found) at allowed) in
          let (present, runs) = (grants_allow_exec_iff grants program).0 listed in
          inr (table, strict, (fp, is, (grants, found, present, runs)))
    ]
  ]
]

-- A process is started only in a daemon with a process manager whose policy lets the program run,
-- by a request that validates, in a session of the table that the caller's identity may use and
-- that has not expired; and in strict mode only for a caller whom the grants file names, with a
-- grant that lists a program of the same normalized name.
pub handle_execute-ok :
    (os : Os) (state : DaemonState) (caller : Caller) (req : ExecuteRequest) (now spawned_at : ℕ)
    (pid : ProcessId)
    → (handle_execute os state caller req now spawned_at).0 ≡ ok pid
    → ((proc : ProcessManager) × (state.proc ≡ some proc)
        × (check_policy proc.config req.program ≡ ok tt))
      × (validate_execute req ≡ ok tt)
      × ((m : SessionManager) × (state.sessions ≡ some m)
          × ((r : SessionRecord) × (get req.session_id m.sessions ≡ some r)
              × (owner_permits r.info.owner caller ≡ true)
              × (is_expired r.info m.config now ≡ false)))
      × MayRun state caller req.program
unfolding handle_execute
handle_execute-ok os state caller req now spawned_at pid e =
    let (configured, found, e1) = check-ok (require_proc state req.environment_id) state _ e in
    let (session, live, e2) =
      and_then-ok (require_live_session state caller req.session_id now) _ e1 in
    let after = (require_live_session state caller req.session_id now).1 in
    let (u1, same, e3) =
      check-ok (ensure (session.environment_id == req.environment_id) _) after _ e2 in
    let (u2, known, e4) = check-ok (deny_unknown_principal after caller) after _ e3 in
    let (u3, valid, e5) =
      check-ok (map_err (λ x. invalid_request (to_string x)) (validate_execute req)) after _ e4 in
    let (u4, policy, e6) =
      check-ok (map_err process_error_to_rpc (check_policy configured.config req.program)) after _
        e5 in
    let (u5, granted, e7) = check-ok (check_exec_grant after caller req.program) after _ e6 in
    let kept = require_live_session-grants state caller req.session_id now in
    (
      (
        configured,
        require_proc-found state req.environment_id configured found,
        map_err-unit process_error_to_rpc _ policy,
      ),
      map_err-unit _ (validate_execute req) valid,
      require_live_session-ok state caller req.session_id now session live,
      check_exec_grant-MayRun state caller req.program
          (sym (deny-same after state caller kept) ∙ known)
          (sym (exec-same after state caller kept req.program) ∙ granted),
    )
