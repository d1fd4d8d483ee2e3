-- ===== src/Daemon/Handler/Serve/Cascade.antt =====
-- crates/are-daemon/src/handler.rs: the cascade from sessions to their processes.
use are.Base.{
  false, Result-cases, leb, length, ◌<◌, pair_eq, ℕ, ◌≡◌, refl, ap, ◌∙◌, ◌⊎◌, inl, inr, true, List,
  [], ◌∷◌, Option, none, some, arith, Str, ok, err, ◌==◌, ==_iff, ==_refl, str_eq,
}
use are.Base.Dict.{get, remove, get-remove}
use are.Core.Ids.{SessionId}
use are.Core.Request.{CreateSessionRequest, SessionInfo, running}
use are.Daemon.Os.{Os}
use are.Daemon.Session.{
  SessionRecord, SessionManager, SessionError, is_expired, check_create, new_session, create_owned,
  create_locked, choose_session_id, get_owned, purge_expired_locked,
}
use are.Daemon.Session.Table.{live_at, get-purge, length-purge}
use are.Daemon.Session.Invariant.{IsTable}
use are.Daemon.Process.{
  ProcessManager, ProcessEntry, ProcessKey, in_session, kill_all, kill_session_processes,
}
use are.Daemon.Process.Table.{get-kill_all}
use are.Daemon.Handler.{RpcError, DaemonState, Caller, deny_unknown_principal, session_error_to_rpc}
use are.Daemon.Handler.Serve.{
  require_live_session, kill_session_processes_best_effort, handle_create_session,
}

-- The process of this key, as `table` has it, is told to die.
abbrev pub IsKilled : Option ProcessManager → ProcessKey → ProcessEntry → Type 0
IsKilled none key entry = ⊥
IsKilled (some proc) key entry =
    get key proc.processes ≡ some (record entry { kill_requested = true })

-- An access to an expired session, by anybody, removes it and reports it.
module _ (m : SessionManager) (id : SessionId) (caller : Caller) (now : ℕ) (r : SessionRecord)
    (there : get id m.sessions ≡ some r) (old : is_expired r.info m.config now ≡ true) where
  get_owned-expired : (get_owned m id caller now).1 ≡ record m { sessions = remove id m.sessions }
  unfolding get_owned
  get_owned-expired = ground arith

  get_owned-purges : (get_owned m id caller now).0.1 ≡ id ∷ []
  unfolding get_owned
  get_owned-purges = ground arith

-- In a daemon with sessions and processes, the check of a session that has expired, whoever asks,
-- removes the session and tells every process that still runs in it to die.
pub require_live_session-cascade :
    (state : DaemonState) (caller : Caller) (id : SessionId) (now : ℕ) (m : SessionManager)
    (proc : ProcessManager) (r : SessionRecord) (key : ProcessKey) (entry : ProcessEntry)
    → state.sessions ≡ some m
    → state.proc ≡ some proc
    → get id m.sessions ≡ some r
    → is_expired r.info m.config now ≡ true
    → in_session state.environment_id id key ≡ true
    → get key proc.processes ≡ some entry
    → entry.status ≡ running
    → ((left : SessionManager) × ((require_live_session state caller id now).1.sessions ≡ some left)
        × (get id left.sessions ≡ none))
      × IsKilled (require_live_session state caller id now).1.proc key entry
unfolding require_live_session kill_session_processes_best_effort kill_session_processes
require_live_session-cascade state caller id now m proc r key entry here backend there old inside
      found alive =
    let gone : (get_owned m id caller now).1 ≡ record m { sessions = remove id m.sessions } =
      get_owned-expired m id caller now r there old in
    let reported : (get_owned m id caller now).0.1 ≡ id ∷ [] =
      get_owned-purges m id caller now r there old in
    let all = get-kill_all state.environment_id id proc.processes key in
    let flagged : get key (kill_all state.environment_id id proc.processes).1
        ≡ some (record entry { kill_requested = true }) =
      all ∙ rw (found, inside, alive) refl in
    (
      rw (here, reported, require_live_session)
          (
            record m { sessions = remove id m.sessions },
            rw (backend, kill_session_processes_best_effort, gone) refl,
            ground (arith, get-remove id id m.sessions, ==_refl id),
          ),
      rw (here, reported, require_live_session)
          (rw (backend, kill_session_processes_best_effort) flagged),
    )

-- With room after the purge, a creation whose checks have passed fails only if no id is found.
create_owned_cases :
    (os : Os) (m : SessionManager) (caller : Caller) (req : CreateSessionRequest) (now : ℕ)
    (workdir : Str)
    → check_create os m req ≡ ok workdir
    → let table = (purge_expired_locked m.sessions m.config now).0 in
      length table < m.config.max_sessions
      → ((x : SessionError) × (choose_session_id os table 8 0 ≡ err x)
          × (create_owned os m req caller now ≡ (err x, record m { sessions = table })))
        ⊎ ((made : SessionInfo × List SessionId) × ((create_owned os m req caller now).0 ≡ ok made))
unfolding create_owned create_locked
create_owned_cases os m caller req now workdir checked room =
    let table = (purge_expired_locked m.sessions m.config now).0 in
    let free : leb m.config.max_sessions (length table) ≡ false = ground arith in
    elim (Result-cases (choose_session_id os table 8 0)) [
      | inl (id, chosen) ↦ inr (
        (new_session id req workdir caller now, (purge_expired_locked m.sessions m.config now).1),
        rw (checked, free, chosen, create_owned, create_locked) refl,
      )
      | inr (x, failed) ↦
          inl (x, failed, rw (checked, free, failed, create_owned, create_locked) refl)
    ]

-- In a daemon with processes whose session table satisfies its invariant, a creation by a known
-- caller in the daemon's own environment, whose checks pass, while a session has expired in which a
-- process runs. If it is refused, then because no id was found: the purge has made room. The expired
-- session is gone all the same, and its process runs on as it was, not told to die, with no session
-- that leads to it.
pub handle_create_session-orphans :
    (os : Os) (state : DaemonState) (caller : Caller) (req : CreateSessionRequest) (now : ℕ)
    (m : SessionManager) (proc : ProcessManager) (workdir : Str) (id : SessionId)
    (r : SessionRecord) (key : ProcessKey) (entry : ProcessEntry) (e : RpcError)
    → state.sessions ≡ some m
    → state.proc ≡ some proc
    → IsTable m
    → req.environment_id ≡ state.environment_id
    → deny_unknown_principal state caller ≡ ok tt
    → check_create os m req ≡ ok workdir
    → get id m.sessions ≡ some r
    → is_expired r.info m.config now ≡ true
    → in_session state.environment_id id key ≡ true
    → get key proc.processes ≡ some entry
    → entry.status ≡ running
    → (handle_create_session os state caller req now).0 ≡ err e
    → ((left : SessionManager) × ((handle_create_session os state caller req now).1.sessions
          ≡ some left)
        × (get id left.sessions ≡ none)
        × ((x : SessionError) × (choose_session_id os left.sessions 8 0 ≡ err x)
            × (e ≡ session_error_to_rpc x)))
      × ((kept : ProcessManager) × ((handle_create_session os state caller req now).1.proc
            ≡ some kept)
          × (get key kept.processes ≡ some entry))
unfolding handle_create_session live_at
handle_create_session-orphans os state caller req now m proc workdir id r key entry e here backend
      valid env known checked there old inside found alive refused =
    let same : (req.environment_id == state.environment_id) ≡ true = (==_iff _ _).1 env in
    let smaller = length-purge m.sessions m.config now id r valid.0 there old in
    let room : length (purge_expired_locked m.sessions m.config now).0 < m.config.max_sessions =
      omega (arith, smaller, valid.1) in
    let gone : get id (purge_expired_locked m.sessions m.config now).0 ≡ none =
      get-purge m.sessions m.config now id valid.0 ∙ rw (there, old, live_at) refl in
    elim (create_owned_cases os m caller req now workdir checked room) [
      | inl (x, no_id, created) ↦
          let left = record m { sessions = (purge_expired_locked m.sessions m.config now).0 } in
          let served : handle_create_session os state caller req now
              ≡ (err (session_error_to_rpc x), record state { sessions = some left }) =
            rw (same, known, here) (rw created refl) in
          let answer : e ≡ session_error_to_rpc x = ground (arith, served, refused) in
          (
            (left, ap (λ s. s.1.sessions) served, gone, (x, no_id, answer)),
            (proc, ap (λ s. s.1.proc) served ∙ backend, found),
          )
      | inr (made, created) ↦ absurd (cc (rw (same, known, here, created) at refused))
    ]
