-- ===== src/Daemon/Process/Table.antt =====
-- crates/are-daemon/src/process.rs: eviction.
use are.Base.{
  pair_eq, ℕ, ◌≤◌, ◌<◌, ◌≡◌, refl, ap, ◌∙◌, ◌≢◌, ◌⊎◌, inl, inr, Bool, true, false, not, ◌&&◌, ◌||◌,
  List, [], ◌∷◌, Option, none, some, arith, any, length, ok, leb, ltb, if◌then◌else◌, Bool-cases,
  Option-cases, ◌==◌, ==_iff, str_eq,
}
use are.Base.Dict.{get, remove, get-remove, NodupKeys, remove-NodupKeys}
use are.Core.Ids.{EnvironmentId, SessionId}
use are.Daemon.Process.{
  ProcessConfig, ProcessEntry, ProcessKey, Processes, is_terminal, is_evictable,
  evict_expired_terminal_entries, terminal_keys, insert_by_time, sort_by_time, remove_until,
  evict_oldest_terminal_entries, make_room_for_spawn, in_session, kill_all,
}

-- An entry that is not terminal.
abbrev pub is_live : Option ProcessEntry → Bool
is_live none = false
is_live (some entry) = not (is_terminal entry.status)

get-evict_expired :
    (table : Processes) (retention now : ℕ) (key : ProcessKey)
    → NodupKeys table
    → get key (evict_expired_terminal_entries table retention now) ≡ elim (get key table) [
      | none ↦ none
      | some entry ↦ if is_evictable entry retention now then none else some entry
    ]
unfolding evict_expired_terminal_entries get
get-evict_expired [] retention now key u = refl
get-evict_expired ((k, entry) ∷ table) retention now key (fresh, u) =
    ground (arith, get-evict_expired table retention now key u)

pub evict_expired-NodupKeys :
    (table : Processes) (retention now : ℕ)
    → NodupKeys table
    → NodupKeys (evict_expired_terminal_entries table retention now)
unfolding evict_expired_terminal_entries
evict_expired-NodupKeys [] retention now u = tt
evict_expired-NodupKeys ((k, entry) ∷ table) retention now (fresh, u) = ground (
  arith,
  evict_expired-NodupKeys table retention now u,
  get-evict_expired table retention now k u,
)

-- What `remove_until` does to a key that is not listed: nothing.
remove_until-others :
    (entries : List (ℕ × ProcessKey)) (table : Processes) (most : ℕ) (key : ProcessKey)
    → any (λ (t, k). k == key) entries ≡ false
    → get key (remove_until entries table most) ≡ get key table
unfolding remove_until
remove_until-others [] table most key h = refl
remove_until-others ((t, k) ∷ entries) table most key h =
    ground (arith, remove_until-others entries (remove k table) most key, get-remove k key table)

pub remove_until-NodupKeys :
    (entries : List (ℕ × ProcessKey)) (table : Processes) (most : ℕ)
    → NodupKeys table
    → NodupKeys (remove_until entries table most)
unfolding remove_until
remove_until-NodupKeys [] table most u = u
remove_until-NodupKeys ((t, k) ∷ entries) table most u =
    ground (arith, remove_until-NodupKeys entries (remove k table) most, remove-NodupKeys k table u)

-- It ends below the bound, or with none of the listed keys.
remove_until-all :
    (entries : List (ℕ × ProcessKey)) (table : Processes) (most : ℕ) (key : ProcessKey)
    → any (λ (t, k). k == key) entries ≡ true
    → most ≤ length (remove_until entries table most)
    → get key (remove_until entries table most) ≡ none
unfolding remove_until
remove_until-all [] table most key h full = cc
remove_until-all ((t, k) ∷ entries) table most key h full =
    elim (Bool-cases (ltb (length table) most)) [
      | inl below ↦ absurd (ground (arith, full))
      | inr above ↦ elim (Bool-cases (any (λ (s, j). j == key) entries)) [
        | inl later ↦
            rw above (remove_until-all entries (remove k table) most key later (rw above at full))
        | inr last ↦ rw above (
            remove_until-others entries (remove k table) most key last
            ∙ ground (arith, get-remove k key table))
      ]
    ]

any-insert_by_time :
    (entry : ℕ × ProcessKey) (sorted : List (ℕ × ProcessKey)) (p : ℕ × ProcessKey → Bool)
    → any p (insert_by_time entry sorted) ≡ (p entry || any p sorted)
unfolding insert_by_time
any-insert_by_time (t, key) [] p = refl
any-insert_by_time (t, key) ((s, k) ∷ sorted) p =
    ground (arith, any-insert_by_time (t, key) sorted p)

any-sort_by_time :
    (entries : List (ℕ × ProcessKey)) (p : ℕ × ProcessKey → Bool)
    → any p (sort_by_time entries) ≡ any p entries
unfolding sort_by_time
any-sort_by_time [] p = refl
any-sort_by_time (entry ∷ entries) p =
    ground (arith, any-insert_by_time entry (sort_by_time entries) p, any-sort_by_time entries p)

any-terminal_keys :
    (table : Processes) (key : ProcessKey)
    → NodupKeys table
    → any (λ (t, k). k == key) (terminal_keys table)
      ≡ elim (get key table) [ none ↦ false | some entry ↦ is_terminal entry.status ]
unfolding terminal_keys get
any-terminal_keys [] key u = refl
any-terminal_keys ((k, entry) ∷ table) key (fresh, u) =
    ground (arith, any-terminal_keys table key u)

module _ (table : Processes) (most : ℕ) (u : NodupKeys table) where
  evict_oldest-keeps :
      (key : ProcessKey)
      → is_live (get key table) ≡ true
      → get key (evict_oldest_terminal_entries table most) ≡ get key table
  unfolding evict_oldest_terminal_entries
  evict_oldest-keeps key live =
      remove_until-others (sort_by_time (terminal_keys table)) table most key (
        any-sort_by_time (terminal_keys table) (λ (t, k). k == key)
        ∙ any-terminal_keys table key u
        ∙ ground arith)

  evict_oldest-live :
      (key : ProcessKey)
      → most ≤ length (evict_oldest_terminal_entries table most)
      → get key (evict_oldest_terminal_entries table most) ≢ none
      → is_live (get key table) ≡ true
  unfolding evict_oldest_terminal_entries
  evict_oldest-live key full there =
      let listed = any-sort_by_time (terminal_keys table) (λ (t, k). k == key) in
      let terminal = any-terminal_keys table key u in
      let all_gone = remove_until-all (sort_by_time (terminal_keys table)) table most key in
      let others = remove_until-others (sort_by_time (terminal_keys table)) table most key in
      elim (Option-cases (get key table)) [
        | inl missing ↦ absurd (there (others (listed ∙ terminal ∙ ground arith) ∙ missing))
        | inr (entry, found) ↦ elim (Bool-cases (is_terminal entry.status)) [
          | inl ended ↦ absurd (there (all_gone (listed ∙ terminal ∙ ground arith) full))
          | inr live ↦ ground arith
        ]
      ]

module _ (before : Processes) (config : ProcessConfig) (now : ℕ) (u : NodupKeys before) where
  -- With every key once in the table, making room for a new process never drops one that is still
  -- running: it stays under its key, with its output and its flags.
  pub make_room_for_spawn-keeps_live :
      (key : ProcessKey)
      → is_live (get key before) ≡ true
      → get key (make_room_for_spawn before config now).1 ≡ get key before
  unfolding make_room_for_spawn is_evictable
  make_room_for_spawn-keeps_live key live =
      let expired = evict_expired_terminal_entries before config.retention_secs now in
      let same : get key expired ≡ get key before =
        get-evict_expired before config.retention_secs now key u ∙ ground arith in
      let kept =
        evict_oldest-keeps expired config.max_processes
          (evict_expired-NodupKeys before config.retention_secs now u) key
          (ap is_live same ∙ live) in
      ground (arith, same, kept)

  -- With every key once in the table, making room ends in one of two ways: it succeeds and a slot
  -- is free, or it is refused, the table is full, and every entry is one of a running process.
  pub make_room_for_spawn-outcome :
      (((make_room_for_spawn before config now).0 ≡ ok tt)
        × (length (make_room_for_spawn before config now).1 < config.max_processes))
      ⊎ (((make_room_for_spawn before config now).0 ≢ ok tt)
          × (config.max_processes ≤ length (make_room_for_spawn before config now).1)
          × ((key : ProcessKey)
              → get key (make_room_for_spawn before config now).1 ≢ none
              → is_live (get key (make_room_for_spawn before config now).1) ≡ true))
  unfolding make_room_for_spawn
  make_room_for_spawn-outcome =
      let expired = evict_expired_terminal_entries before config.retention_secs now in
      let nodup = evict_expired-NodupKeys before config.retention_secs now u in
      let table = evict_oldest_terminal_entries expired config.max_processes in
      elim (Bool-cases (ltb (length expired) config.max_processes)) [
        | inl room ↦ inl (rw (room, make_room_for_spawn) (refl, ground arith))
        | inr full ↦ elim (Bool-cases (leb config.max_processes (length table))) [
          | inl stuck ↦ inr (
              rw (full, stuck, make_room_for_spawn)
                (
                  (λ h. cc),
                  (ground arith),
                  (λ key there.
                      let live =
                        evict_oldest-live expired config.max_processes nodup key (ground arith)
                          there in
                      ap is_live (evict_oldest-keeps expired config.max_processes nodup key live)
                      ∙ live),
                ))
          | inr freed ↦ inl (rw (full, freed, make_room_for_spawn) (refl, ground arith))
        ]
      ]

-- The cascade sets the kill flag of exactly the running processes of the session, and changes
-- nothing else.
pub get-kill_all :
    (env : EnvironmentId) (sess : SessionId) (table : Processes) (key : ProcessKey)
    → get key (kill_all env sess table).1 ≡ elim (get key table) [
      | none ↦ none
      | some entry ↦
          if in_session env sess key && not (is_terminal entry.status)
          then some (record entry { kill_requested = true })
          else some entry
    ]
unfolding kill_all get
get-kill_all env sess [] key = refl
get-kill_all env sess ((k, entry) ∷ table) key =
    ground (arith, get-kill_all env sess table key, ==_iff k key)
