-- ===== src/Daemon/Session/Create.antt =====
-- crates/are-daemon/src/session.rs: creation.
use are.Base.{
  Result-cases, ℕ, zero, suc, ◌+◌, ◌<◌, ◌≡◌, refl, sym, ◌∙◌, ◌⊎◌, inl, inr, List, Option, none,
  some, arith, Str, length, Result, ok, err, >>=-eq-ok, leb, if◌then◌else◌, Bool-cases,
  Option-cases, ◌==◌, str_eq,
}
use are.Base.Dict.{get, insert, get-insert, NodupKeys}
use are.Core.Ids.{SessionId}
use are.Core.Request.{SessionInfo, CreateSessionRequest}
use are.Daemon.Os.{Os}
use are.Daemon.Session.{
  SessionConfig, Sessions, SessionManager, SessionError, purge_expired_locked, alloc_session_id,
  choose_session_id, check_create, new_session, table_full, create_locked, create_owned,
}
use are.Daemon.Session.Table.{holds, live_at, is_dead, get-purge, holds-purge}

choose_session_id-fresh :
    (os : Os) (table : Sessions) (rounds i : ℕ) (id : SessionId)
    → choose_session_id os table rounds i ≡ ok id
    → get id table ≡ none
unfolding choose_session_id
choose_session_id-fresh os table zero i id e = cc
choose_session_id-fresh os table (suc rounds) i id e =
    let (candidate, drawn, e1) = >>=-eq-ok (alloc_session_id os i) _ e in
    elim (Option-cases (get candidate table)) [
      | inl fresh ↦ ground arith
      | inr (r, taken) ↦ choose_session_id-fresh os table rounds (i + 1) id (ground arith)
    ]

-- What `create_owned` does once its checks have passed: the table is purged, and either it keeps
-- what is left and fails, or it takes in one new session.
pub create_locked_cases :
    (os : Os) (config : SessionConfig) (before : Sessions) (req : CreateSessionRequest)
    (workdir : Str) (owner : Option Str) (now : ℕ)
    → let table = (purge_expired_locked before config now).0 in
      let purged = (purge_expired_locked before config now).1 in
      let after = create_locked os config before req workdir owner now in
      ((e : SessionError) × (after ≡ (err e, table)))
      ⊎ ((id : SessionId) × (get id table ≡ none)
          × (length table < config.max_sessions)
          × (after ≡ (
            ok (new_session id req workdir owner now, purged),
            insert id (record { info = new_session id req workdir owner now }) table,
          )))
unfolding create_locked
create_locked_cases os config before req workdir owner now =
    let table = (purge_expired_locked before config now).0 in
    elim (Bool-cases (leb config.max_sessions (length table))) [
      | inl full ↦ inl (table_full table, rw full)
      | inr room ↦ elim (Result-cases (choose_session_id os table 8 0)) [
        | inl (id, chosen) ↦ inr (
          id,
          choose_session_id-fresh os table 8 0 id chosen,
          ground arith,
          rw (room, chosen, create_locked),
        )
        | inr (e, failed) ↦ inl (e, rw (room, failed, create_locked))
      ]
    ]

-- With every id once in the table, the session that a successful creation returns: under an id that
-- no live session has, owned by the caller, created now; it is in the table, every other live
-- session is there as it was, and the ids purged on the way are those of the expired sessions.
pub create_owned-ok :
    (os : Os) (m : SessionManager) (req : CreateSessionRequest) (owner : Option Str) (now : ℕ)
    (info : SessionInfo) (purged : List SessionId)
    → NodupKeys m.sessions
    → (create_owned os m req owner now).0 ≡ ok (info, purged)
    → (live_at m.config now (get info.session_id m.sessions) ≡ none)
      × (info.owner ≡ owner)
      × (info.created_at ≡ now)
      × (info.last_activity ≡ now)
      × ((j : SessionId)
          → (get j (create_owned os m req owner now).1.sessions ≡ (
              if info.session_id == j
              then some (record { info = info })
              else live_at m.config now (get j m.sessions)))
            × (holds purged j ≡ is_dead m.config now (get j m.sessions)))
unfolding create_owned
create_owned-ok os m req owner now info purged u e = elim (Result-cases (check_create os m req)) [
  | inr (x, refused) ↦ absurd (cc (rw (refused, create_owned) at e))
  | inl (workdir, checked) ↦
      elim (create_locked_cases os m.config m.sessions req workdir owner now) [
        | inl (x, failed) ↦ absurd (cc (rw (checked, failed, create_owned) at e))
        | inr (id, fresh, room, done) ↦
            let e' : Path (Result SessionError (SessionInfo × List SessionId))
                (ok (
                  new_session id req workdir owner now,
                  (purge_expired_locked m.sessions m.config now).1,
                ))
                (ok (info, purged)) =
              rw (checked, done, create_owned) at e in
            let made : info ≡ new_session id req workdir owner now = ground arith in
            let reported : purged ≡ (purge_expired_locked m.sessions m.config now).1 =
              ground arith in
            let table = (purge_expired_locked m.sessions m.config now).0 in
            let after : (create_owned os m req owner now).1.sessions
                ≡ insert id (record { info = info }) table =
              rw (checked, done, create_owned, made) refl in
            let same_id : info.session_id ≡ id = rw made refl in
            (
              rw same_id (sym (get-purge m.sessions m.config now id u) ∙ fresh),
              rw made refl,
              rw made refl,
              rw made refl,
              λ j. (
                rw (after, same_id) ground
                    (
                      arith,
                      get-insert id j (record { info = info }) table,
                      get-purge m.sessions m.config now j u,
                    ),
                rw reported (holds-purge m.sessions m.config now j u),
              ),
            )
      ]
]
