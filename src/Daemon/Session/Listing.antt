-- ===== src/Daemon/Session/Listing.antt =====
-- crates/are-daemon/src/session.rs: what a listing shows.
use are.Base.{
  ℕ, ◌≡◌, refl, sym, ◌∙◌, ◌↔◌, ◌⊎◌, inl, inr, Bool, true, List, [], ◌∷◌, map, Option, none, some,
  arith, Str, keep, All, In, Bool-cases, Option-cases, ◌==◌, ==_iff, str_eq,
}
use are.Base.Dict.{get, values, NodupKeys}
use are.Core.Ids.{EnvironmentId}
use are.Core.Request.{SessionInfo}
use are.Daemon.Session.{Sessions, SessionManager, purge_expired_locked, list_owned, is_visible}
use are.Daemon.Session.Table.{live_at, get-purge, purge-NodupKeys, purge-AllEntries}
use are.Daemon.Session.Invariant.{IsEntry, IsTable}

In-keep :
    (p : SessionInfo → Bool) (infos : List SessionInfo) (info : SessionInfo)
    → In info (keep p infos) ↔ (In info infos × (p info ≡ true))
In-keep p [] info = (λ h. absurd h, λ h. absurd h.0)
In-keep p (x ∷ infos) info = elim (Bool-cases (p x)) [
  | inl kept ↦ ground (arith, In-keep p infos info)
  | inr dropped ↦ ground (arith, In-keep p infos info)
]

abbrev infos_of : Sessions → List SessionInfo
infos_of table = map (λ r. r.info) (values table)

In-infos :
    (env : EnvironmentId) (table : Sessions) (info : SessionInfo)
    → NodupKeys table
    → All (λ (id, r). IsEntry env id r) table
    → In info (infos_of table) ↔ (get info.session_id table ≡ some (record { info = info }))
unfolding get
In-infos env [] info u placed = (λ h. absurd h, λ h. cc)
In-infos env ((j, r) ∷ table) info (fresh, u) (here, placed) =
    let rest = In-infos env table info u placed in
    elim (Bool-cases (j == info.session_id)) [
      | inl same ↦ (
        λ h. elim h [
          | inl e ↦ rw (same, e) refl
          | inr later ↦ absurd (cc (rw (sym ((==_iff j info.session_id).0 same)) at (rest.0 later)))
        ],
        λ h. inl (let e : r ≡ record { info = info } = ground arith in rw e refl),
      )
      | inr differ ↦ (
        λ h. elim h [
          | inl e ↦ ground (arith, ==_iff j info.session_id, here.0)
          | inr later ↦ rw differ (rest.0 later)
        ],
        λ h. inr (rest.1 (rw differ at h)),
      )
    ]

is_visible_iff :
    (caller : Option Str) (info : SessionInfo)
    → (is_visible caller info ≡ true)
      ↔ ((caller ≡ none) ⊎ (info.owner ≡ none) ⊎ (info.owner ≡ caller))
is_visible_iff none info = (λ h. inl refl, λ h. refl)
is_visible_iff (some fp) info = elim (Option-cases info.owner) [
  | inl free ↦ rw free (λ h. inr (inl refl), λ h. refl)
  | inr (owner, owned) ↦ ground (arith, ==_iff owner fp)
]

-- Of a table that satisfies the invariant, a listing shows a session exactly when it is in the
-- table, has not expired, belongs to the asked environment, and is visible to the caller: the
-- caller is anonymous, or the session has no owner, or the owner is the caller.
pub list_owned_iff :
    (m : SessionManager) (environment_id : EnvironmentId) (caller : Option Str) (now : ℕ)
    (info : SessionInfo)
    → IsTable m
    → In info (list_owned m environment_id caller now).0.0 ↔ (
        (live_at m.config now (get info.session_id m.sessions) ≡ some (record { info = info }))
        × (info.environment_id ≡ environment_id)
        × ((caller ≡ none) ⊎ (info.owner ≡ none) ⊎ (info.owner ≡ caller)))
unfolding list_owned
list_owned_iff m environment_id caller now info (u, bound, placed) =
    let table = (purge_expired_locked m.sessions m.config now).0 in
    let p = λ (x : SessionInfo). x.environment_id == environment_id in
    let visible = In-keep (is_visible caller) (keep p (infos_of table)) info in
    let here = In-keep p (infos_of table) info in
    let there =
      In-infos m.environment_id table info (purge-NodupKeys m.sessions m.config now u)
        (purge-AllEntries m.sessions m.config now (IsEntry m.environment_id) placed) in
    let live = get-purge m.sessions m.config now info.session_id u in
    let seen = is_visible_iff caller info in
    let same = ==_iff info.environment_id environment_id in
    (
      λ h.
          let (listed, vis) = visible.0 h in
          let (inside, env) = here.0 listed in (sym live ∙ there.0 inside, same.0 env, seen.0 vis),
      λ h. visible.1 (here.1 (there.1 (live ∙ h.0), same.1 h.1), seen.1 h.2),
    )
