-- ===== src/Daemon/Session/Table.antt =====
-- crates/are-daemon/src/session.rs: what the purge of expired sessions leaves in the table.
use are.Base.{
  ◌<◌, ◌≢◌, ◌∙◌, true, inl, inr, Bool-cases, ==_iff, ℕ, ◌≤◌, ◌≡◌, refl, Bool, false, List, [], ◌∷◌,
  Option, none, some, arith, any, length, All, if◌then◌else◌, ◌==◌, str_eq,
}
use are.Base.Dict.{
  get, remove, get-remove, length-remove, NodupKeys, remove-NodupKeys, length-remove-le,
  remove-AllEntries,
}
use are.Core.Ids.{SessionId}
use are.Daemon.Session.{
  SessionConfig, SessionRecord, Sessions, is_expired, expired_ids, remove_all, purge_expired_locked,
}

-- An id is among the purged ones.
abbrev pub holds : List SessionId → SessionId → Bool
holds ids id = any (λ j. j == id) ids

-- What a session that is live at `now` is looked up as.
unfoldable pub live_at : SessionConfig → ℕ → Option SessionRecord → Option SessionRecord
live_at config now none = none
live_at config now (some r) = if is_expired r.info config now then none else some r

-- The entry is there, and expired.
unfoldable pub is_dead : SessionConfig → ℕ → Option SessionRecord → Bool
is_dead config now none = false
is_dead config now (some r) = is_expired r.info config now

get-remove_all :
    (ids : List SessionId) (id : SessionId) (table : Sessions)
    → get id (remove_all ids table) ≡ (if holds ids id then none else get id table)
unfolding remove_all
get-remove_all [] id table = refl
get-remove_all (j ∷ ids) id table =
    ground (arith, get-remove_all ids id (remove j table), get-remove j id table)

holds-expired_ids :
    (table : Sessions) (config : SessionConfig) (now : ℕ) (id : SessionId)
    → NodupKeys table
    → holds (expired_ids table config now) id ≡ is_dead config now (get id table)
unfolding expired_ids is_dead get
holds-expired_ids [] config now id u = refl
holds-expired_ids ((j, r) ∷ table) config now id (fresh, u) =
    ground (arith, holds-expired_ids table config now id u)

module _ (table : Sessions) (config : SessionConfig) (now : ℕ) (id : SessionId)
    (u : NodupKeys table) where
  -- A purge keeps each live session as it is, and drops the expired ones.
  pub get-purge :
      get id (purge_expired_locked table config now).0 ≡ live_at config now (get id table)
  unfolding purge_expired_locked live_at is_dead
  get-purge = ground (
    arith,
    get-remove_all (expired_ids table config now) id table,
    holds-expired_ids table config now id u,
  )

  -- It reports the ids of the expired sessions, and no other.
  pub holds-purge :
      holds (purge_expired_locked table config now).1 id ≡ is_dead config now (get id table)
  unfolding purge_expired_locked
  holds-purge = holds-expired_ids table config now id u

remove_all-NodupKeys :
    (ids : List SessionId) (table : Sessions) → NodupKeys table → NodupKeys (remove_all ids table)
unfolding remove_all
remove_all-NodupKeys [] table u = u
remove_all-NodupKeys (j ∷ ids) table u =
    remove_all-NodupKeys ids (remove j table) (remove-NodupKeys j table u)

remove_all-AllEntries :
    (P : SessionId → SessionRecord → Type 0) (ids : List SessionId) (table : Sessions)
    → All (λ (j, r). P j r) table
    → All (λ (j, r). P j r) (remove_all ids table)
unfolding remove_all
remove_all-AllEntries P [] table h = h
remove_all-AllEntries P (j ∷ ids) table h =
    remove_all-AllEntries P ids (remove j table) (remove-AllEntries P j table h)

length-remove_all-le :
    (ids : List SessionId) (table : Sessions) → length (remove_all ids table) ≤ length table
unfolding remove_all
length-remove_all-le [] table = omega arith
length-remove_all-le (j ∷ ids) table =
    omega (arith, length-remove_all-le ids (remove j table), length-remove-le j table)

module _ (table : Sessions) (config : SessionConfig) (now : ℕ) where
  pub purge-NodupKeys : NodupKeys table → NodupKeys (purge_expired_locked table config now).0
  unfolding purge_expired_locked
  purge-NodupKeys = remove_all-NodupKeys (expired_ids table config now) table

  pub purge-AllEntries :
      (P : SessionId → SessionRecord → Type 0)
      → All (λ (j, r). P j r) table
      → All (λ (j, r). P j r) (purge_expired_locked table config now).0
  unfolding purge_expired_locked
  purge-AllEntries P = remove_all-AllEntries P (expired_ids table config now) table

  pub length-purge-le : length (purge_expired_locked table config now).0 ≤ length table
  unfolding purge_expired_locked
  length-purge-le = length-remove_all-le (expired_ids table config now) table

length-remove_all :
    (ids : List SessionId) (id : SessionId) (table : Sessions)
    → NodupKeys table
    → holds ids id ≡ true
    → get id table ≢ none
    → length (remove_all ids table) < length table
unfolding remove_all
length-remove_all [] id table u h there = cc
length-remove_all (j ∷ ids) id table u h there = elim (Bool-cases (j == id)) [
  | inl same ↦
      let here : get j table ≢ none = ground (arith, ==_iff j id) in
      omega (arith, length-remove j table u here, length-remove_all-le ids (remove j table))
  | inr other ↦
      let still : get id (remove j table) ≢ none = ground (arith, get-remove j id table) in
      let later : holds ids id ≡ true = ground arith in
      omega (
        arith,
        length-remove_all ids id (remove j table) (remove-NodupKeys j table u) later still,
        length-remove-le j table,
      )
]

-- A purge of a table with an expired session makes room.
pub length-purge :
    (table : Sessions) (config : SessionConfig) (now : ℕ) (id : SessionId) (r : SessionRecord)
    → NodupKeys table
    → get id table ≡ some r
    → is_expired r.info config now ≡ true
    → length (purge_expired_locked table config now).0 < length table
unfolding purge_expired_locked is_dead
length-purge table config now id r u there old =
    let dead : is_dead config now (get id table) ≡ true = rw (there, is_dead) old in
    length-remove_all (expired_ids table config now) id table u
      (holds-expired_ids table config now id u ∙ dead) (ground arith)
