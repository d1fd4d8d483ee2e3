-- ===== src/Daemon/Session/Invariant.antt =====
-- crates/are-daemon/src/session.rs: the invariant of the session table, through every operation.
use are.Base.{
  Result-cases, ℕ, ◌≤◌, ◌≡◌, refl, inl, inr, List, [], ◌∷◌, Option, none, some, arith, Str, length,
  All, ok, >>=-eq-ok, ensure, map_err, Bool-cases, Option-cases, ◌==◌, ==_iff, str_eq,
}
use are.Base.Dict.{
  get, insert, remove, NodupKeys, insert-NodupKeys, remove-NodupKeys, length-insert_new,
  length-insert_old, length-remove-le, insert-AllEntries, remove-AllEntries, get-AllEntries,
}
use are.Core.Ids.{EnvironmentId, SessionId}
use are.Core.Request.{CreateSessionRequest, validate_create_session}
use are.Daemon.Os.{Os}
use are.Daemon.Fs.{FilesystemConfig}
use are.Daemon.Session.{
  SessionConfig, SessionRecord, Sessions, SessionManager, is_expired, owner_permits,
  purge_expired_locked, check_create, new_session, create_owned, get_session, list, get_owned,
  list_owned, terminate_owned, terminate, bump, new_manager,
}
use are.Daemon.Session.Table.{purge-NodupKeys, purge-AllEntries, length-purge-le}
use are.Daemon.Session.Create.{create_locked_cases}

-- An entry stands under its own id, in the managed environment.
abbrev pub IsEntry : EnvironmentId → SessionId → SessionRecord → Type 0
IsEntry environment_id id r = (r.info.session_id ≡ id) × (r.info.environment_id ≡ environment_id)

abbrev IsSessions : EnvironmentId → SessionConfig → Sessions → Type 0
IsSessions environment_id config table =
    NodupKeys table
    × (length table ≤ config.max_sessions)
    × All (λ (id, r). IsEntry environment_id id r) table

-- Every id stands once, every entry is well placed, and the table is within its bound.
abbrev pub IsTable : SessionManager → Type 0
IsTable m = IsSessions m.environment_id m.config m.sessions

module _ (env : EnvironmentId) (config : SessionConfig) (table : Sessions)
    (valid : IsSessions env config table) where
  remove-IsSessions : (id : SessionId) → IsSessions env config (remove id table)
  remove-IsSessions id = (
    remove-NodupKeys id table valid.0,
    omega (arith, length-remove-le id table, valid.1),
    remove-AllEntries (IsEntry env) id table valid.2,
  )

  purge-IsSessions : (now : ℕ) → IsSessions env config (purge_expired_locked table config now).0
  purge-IsSessions now = (
    purge-NodupKeys table config now valid.0,
    omega (arith, length-purge-le table config now, valid.1),
    purge-AllEntries table config now (IsEntry env) valid.2,
  )

  bump-IsSessions :
      (id : SessionId) (r : SessionRecord) (now : ℕ)
      → get id table ≡ some r
      → IsSessions env config (insert id (bump r now) table)
  bump-IsSessions id r now there = (
    insert-NodupKeys id (bump r now) table valid.0,
    omega (arith, length-insert_old id (bump r now) r table there, valid.1),
    insert-AllEntries (IsEntry env) id (bump r now) table
        (get-AllEntries (IsEntry env) table id valid.2 there) valid.2,
  )

check_create-environment :
    (os : Os) (m : SessionManager) (req : CreateSessionRequest) (workdir : Str)
    → check_create os m req ≡ ok workdir
    → req.environment_id ≡ m.environment_id
unfolding check_create
check_create-environment os m req workdir e =
    let (u, checked, e1) = >>=-eq-ok (map_err _ (validate_create_session req)) _ e in
    let (v, same, e2) = >>=-eq-ok (ensure (req.environment_id == m.environment_id) _) _ e1 in
    elim (Bool-cases (req.environment_id == m.environment_id)) [
      | inl equal ↦ (==_iff req.environment_id m.environment_id).0 equal
      | inr differ ↦ absurd (cc (rw differ at same))
    ]

create_owned-IsTable :
    (os : Os) (m : SessionManager) (req : CreateSessionRequest) (owner : Option Str) (now : ℕ)
    → IsTable m
    → IsTable (create_owned os m req owner now).1
unfolding create_owned
create_owned-IsTable os m req owner now valid = elim (Result-cases (check_create os m req)) [
  | inr (x, refused) ↦ rw (refused, create_owned) valid
  | inl (workdir, checked) ↦
      let table = (purge_expired_locked m.sessions m.config now).0 in
      let purged = purge-IsSessions m.environment_id m.config m.sessions valid now in
      elim (create_locked_cases os m.config m.sessions req workdir owner now) [
        | inl (x, failed) ↦ rw (checked, failed, create_owned) purged
        | inr (id, fresh, room, done) ↦
            let r : SessionRecord = record { info = new_session id req workdir owner now } in
            rw (checked, done, create_owned)
              (
                insert-NodupKeys id r table purged.0,
                omega (arith, length-insert_new id r table fresh, room),
                insert-AllEntries (IsEntry m.environment_id) id r table
                    (rw (check_create-environment os m req workdir checked) (refl, refl)) purged.2,
              )
      ]
]

module _ (m : SessionManager) (now : ℕ) (valid : IsTable m) where
  get_session-IsTable : (id : SessionId) → IsTable (get_session m id now).1
  unfolding get_session
  get_session-IsTable id = elim (Option-cases (get id m.sessions)) [
    | inl missing ↦ rw (missing, get_session) valid
    | inr (r, there) ↦ elim (Bool-cases (is_expired r.info m.config now)) [
      | inl old ↦
          rw (there, old, get_session)
            (remove-IsSessions m.environment_id m.config m.sessions valid id)
      | inr live ↦
          rw (there, live, get_session)
            (bump-IsSessions m.environment_id m.config m.sessions valid id r now there)
    ]
  ]

  get_owned-IsTable : (id : SessionId) (caller : Option Str) → IsTable (get_owned m id caller now).1
  unfolding get_owned
  get_owned-IsTable id caller = elim (Option-cases (get id m.sessions)) [
    | inl missing ↦ rw (missing, get_owned) valid
    | inr (r, there) ↦
        let removed = remove-IsSessions m.environment_id m.config m.sessions valid id in
        let touched = bump-IsSessions m.environment_id m.config m.sessions valid id r now there in
        elim (Bool-cases (owner_permits r.info.owner caller)) [
          | inl mine ↦ elim (Bool-cases (is_expired r.info m.config now)) [
            | inl old ↦ rw (there, mine, old, get_owned) removed
            | inr live ↦ rw (there, mine, live, get_owned) touched
          ]
          | inr theirs ↦ elim (Bool-cases (is_expired r.info m.config now)) [
            | inl old ↦ rw (there, theirs, old, get_owned) removed
            | inr live ↦ rw (there, theirs, live, get_owned) valid
          ]
        ]
  ]

  terminate_owned-IsTable :
      (id : SessionId) (caller : Option Str) → IsTable (terminate_owned m id caller now).1
  unfolding terminate_owned
  terminate_owned-IsTable id caller = elim (Option-cases (get id m.sessions)) [
    | inl missing ↦ rw (missing, terminate_owned) valid
    | inr (r, there) ↦
        let removed = remove-IsSessions m.environment_id m.config m.sessions valid id in
        elim (Bool-cases (owner_permits r.info.owner caller)) [
          | inl mine ↦ elim (Bool-cases (is_expired r.info m.config now)) [
            | inl old ↦ rw (there, mine, old, terminate_owned) removed
            | inr live ↦ rw (there, mine, live, terminate_owned) removed
          ]
          | inr theirs ↦ elim (Bool-cases (is_expired r.info m.config now)) [
            | inl old ↦ rw (there, theirs, old, terminate_owned) removed
            | inr live ↦ rw (there, theirs, live, terminate_owned) valid
          ]
        ]
  ]

-- A call on the manager, with the time it is made at.
pub data Call : Type 0 where
  create : Os → CreateSessionRequest → Option Str → Call
  look_up : SessionId → Call
  look_up_owned : SessionId → Option Str → Call
  list_all : EnvironmentId → Call
  list_visible : EnvironmentId → Option Str → Call
  end_owned : SessionId → Option Str → Call
  end_any : SessionId → Call

pub step : SessionManager → Call → ℕ → SessionManager
step m (create os req owner) now = (create_owned os m req owner now).1
step m (look_up id) now = (get_session m id now).1
step m (look_up_owned id caller) now = (get_owned m id caller now).1
step m (list_all env) now = (list m env now).1
step m (list_visible env caller) now = (list_owned m env caller now).1
step m (end_owned id caller) now = (terminate_owned m id caller now).1
step m (end_any id) now = (terminate m id now).1

step-IsTable : (m : SessionManager) (call : Call) (now : ℕ) → IsTable m → IsTable (step m call now)
unfolding step list list_owned terminate
step-IsTable m (create os req owner) now valid = create_owned-IsTable os m req owner now valid
step-IsTable m (look_up id) now valid = get_session-IsTable m now valid id
step-IsTable m (look_up_owned id caller) now valid = get_owned-IsTable m now valid id caller
step-IsTable m (list_all env) now valid =
    purge-IsSessions m.environment_id m.config m.sessions valid now
step-IsTable m (list_visible env caller) now valid =
    purge-IsSessions m.environment_id m.config m.sessions valid now
step-IsTable m (end_owned id caller) now valid = terminate_owned-IsTable m now valid id caller
step-IsTable m (end_any id) now valid = terminate_owned-IsTable m now valid id none

pub run : SessionManager → List (Call × ℕ) → SessionManager
unfolding step
run m [] = m
run m ((call, now) ∷ calls) = run (step m call now) calls

run-from : (m : SessionManager) (calls : List (Call × ℕ)) → IsTable m → IsTable (run m calls)
unfolding run
run-from m [] valid = valid
run-from m ((call, now) ∷ calls) valid =
    run-from (step m call now) calls (step-IsTable m call now valid)

-- From a new manager, any sequence of calls, at any times, leaves a table in which every id stands
-- once, with no more sessions than `max_sessions`, each under its own id and in the managed
-- environment.
pub run-IsTable :
    (environment_id : EnvironmentId) (config : SessionConfig) (fs : Option FilesystemConfig)
    (calls : List (Call × ℕ))
    → IsTable (run (new_manager environment_id config fs) calls)
run-IsTable environment_id config fs calls =
    run-from (new_manager environment_id config fs) calls (tt, omega arith, tt)
