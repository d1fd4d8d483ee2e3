-- ===== src/Daemon/Session/Access.antt =====
-- crates/are-daemon/src/session.rs: who can reach a session, and what an access reveals.
use are.Base.{
  ◌↔◌, refl, Bool-cases, ℕ, ◌≡◌, ◌⊎◌, inl, inr, true, false, Option, none, some, arith, Str, ok,
  err, if◌then◌else◌, Option-cases, ◌==◌, ==_iff, ==_refl, str_eq,
}
use are.Base.Dict.{get, get-insert, get-remove}
use are.Core.Ids.{SessionId}
use are.Core.Request.{SessionInfo}
use are.Daemon.Session.{
  SessionRecord, SessionManager, is_expired, owner_permits, get_session, get_owned, terminate_owned,
  unknown_session, bump,
}
use are.Daemon.Session.Table.{holds, live_at}

-- What is known of an entry after an access by a caller that the owner rule refuses.
abbrev pub Untouched : SessionManager → SessionManager → SessionId → ℕ → Type 0
Untouched m m' id now =
    (j : SessionId)
    → get j m'.sessions
      ≡ (if j == id then live_at m.config now (get j m.sessions) else get j m.sessions)

module _ (m : SessionManager) (id : SessionId) (caller : Option Str) (now : ℕ) (r : SessionRecord)
    (there : get id m.sessions ≡ some r) where
  -- A caller that the owner rule refuses gets the answer for an id that was never given, whether
  -- the session is live or expired; a live session keeps its record, its last activity included,
  -- an expired one is removed, and no other entry changes.
  pub get_owned-stranger :
      owner_permits r.info.owner caller ≡ false
      → ((get_owned m id caller now).0.0 ≡ err (unknown_session id))
        × Untouched m (get_owned m id caller now).1 id now
  unfolding get_owned live_at
  get_owned-stranger denied =
      (ground arith, λ j. ground (arith, get-remove id j m.sessions, ==_iff j id))

  -- A termination by a caller that the owner rule refuses answers as for an id that was never
  -- given; a live session stays with its record, an expired one is removed, and no other entry
  -- changes.
  pub terminate_owned-stranger :
      owner_permits r.info.owner caller ≡ false
      → ((terminate_owned m id caller now).0.0 ≡ err (unknown_session id))
        × Untouched m (terminate_owned m id caller now).1 id now
  unfolding terminate_owned live_at
  terminate_owned-stranger denied =
      (ground arith, λ j. ground (arith, get-remove id j m.sessions, ==_iff j id))

-- A successful access returns the session of that id as it stands, with its last activity set to
-- `now`, to a caller whom its owner rule permits and before it expires; the table holds the same.
pub get_owned-ok :
    (m : SessionManager) (id : SessionId) (caller : Option Str) (now : ℕ) (info : SessionInfo)
    → (get_owned m id caller now).0.0 ≡ ok info
    → (r : SessionRecord) × (get id m.sessions ≡ some r)
      × (info ≡ record (r.info) { last_activity = now })
      × (owner_permits r.info.owner caller ≡ true)
      × (is_expired r.info m.config now ≡ false)
      × (get id (get_owned m id caller now).1.sessions ≡ some (record { info = info }))
unfolding get_owned
get_owned-ok m id caller now info e = elim (Option-cases (get id m.sessions)) [
  | inl missing ↦ absurd (cc (rw (missing, get_owned) at e))
  | inr (r, found) ↦ (
    r,
    found,
    ground arith,
    ground arith,
    ground arith,
    ground (arith, get-insert id id (bump r now) m.sessions),
  )
]

-- Every session that an access by id takes out of the table is reported as purged, and its time is
-- over.
pub get_owned-reports :
    (m : SessionManager) (id : SessionId) (caller : Option Str) (now : ℕ) (j : SessionId)
    (r : SessionRecord)
    → get j m.sessions ≡ some r
    → get j (get_owned m id caller now).1.sessions ≡ none
    → (holds (get_owned m id caller now).0.1 j ≡ true) × (is_expired r.info m.config now ≡ true)
unfolding get_owned
get_owned-reports m id caller now j r there gone = elim (Option-cases (get id m.sessions)) [
  | inl missing ↦ absurd (cc (rw (missing, get_owned) at gone))
  | inr (s, found) ↦
      ground (arith, get-remove id j m.sessions, get-insert id j (bump s now) m.sessions, ==_refl j)
]

-- A session that a termination takes out of the table is either reported, with its time over, or
-- it is the one that the call asked for and the call succeeded.
pub terminate_owned-reports :
    (m : SessionManager) (id : SessionId) (caller : Option Str) (now : ℕ) (j : SessionId)
    (r : SessionRecord)
    → get j m.sessions ≡ some r
    → get j (terminate_owned m id caller now).1.sessions ≡ none
    → ((holds (terminate_owned m id caller now).0.1 j ≡ true)
        × (is_expired r.info m.config now ≡ true))
      ⊎ ((j ≡ id) × ((terminate_owned m id caller now).0.0 ≡ ok tt))
unfolding terminate_owned
terminate_owned-reports m id caller now j r there gone = ground (arith, get-remove id j m.sessions)

-- Whether the session has an owner.
abbrev pub IsOwned : Option SessionRecord → Type 0
IsOwned none = ⊥
IsOwned (some r) = (owner : Str) × (r.info.owner ≡ some owner)

-- `get_owned` of a caller without an identity does what `get` does, in its answer and in the table
-- that it leaves, exactly if the id does not belong to a session with an owner: for an unknown id,
-- and for a session without an owner, live or expired.
pub get_owned-get_session_iff :
    (m : SessionManager) (id : SessionId) (now : ℕ)
    → (((get_owned m id none now).0.0 ≡ (get_session m id now).0)
        × ((get_owned m id none now).1 ≡ (get_session m id now).1))
      ↔ ¬ IsOwned (get id m.sessions)
unfolding get_session get_owned owner_permits
get_owned-get_session_iff m id now = elim (Option-cases (get id m.sessions)) [
  | inl missing ↦ rw (missing, get_owned, get_session) ((λ same h. h), λ free. (refl, refl))
  | inr (r, there) ↦ elim (Option-cases r.info.owner) [
    | inl free ↦ ((λ same h. ground arith), λ unowned. (ground arith, ground arith))
    | inr (owner, owned) ↦ (
      (λ same h. elim (Bool-cases (is_expired r.info m.config now)) [
        | inl old ↦ ground arith
        | inr live ↦ ground arith
      ]),
      λ unowned. absurd (unowned (rw there (owner, owned))),
    )
  ]
]
