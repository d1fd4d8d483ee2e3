-- ===== src/Daemon/Process/Bounded.antt =====
-- crates/are-daemon/src/process.rs: what each operation does to the bound on the table.
pub mod Runs
use mathlib.Core.Path.{subst}
use are.Base.{
  pair_eq, str_eq, ℕ, ◌+◌, ◌≤◌, ◌<◌, ◌≡◌, ◌≢◌, ◌⊎◌, inl, inr, refl, sym, ◌∙◌, Bool, true, false,
  not, ◌&&◌, List, [], ◌∷◌, Option, none, some, arith, length, Result, ok, err, Result-cases,
  Option-cases, Bool-cases, ltb, leb, keep, if◌then◌else◌, ==_iff, is_some,
}
use are.Base.Dict.{
  Dict, get, insert, remove, keys, contains_key, NodupKeys, insert-NodupKeys, remove-NodupKeys,
  length-insert_new, length-insert_old, length-remove-le,
}
use are.Core.Ids.{EnvironmentId, SessionId}
use are.Core.Request.{ExecuteRequest, TerminateProcessRequest, SessionInfo}
use are.Daemon.Os.{Os}
use are.Daemon.Process.{
  ProcessKey, ProcessEntry, Processes, ProcessConfig, ProcessManager, ProcessError, new_entry,
  evict_expired_terminal_entries, evict_oldest_terminal_entries, make_room_for_spawn, terminal_keys,
  sort_by_time, remove_until, reserve, check_start, choose_process_key, start, lookup, terminate,
  kill_all, kill_session_processes, in_session, is_evictable, is_terminal,
}
use are.Daemon.Process.Table.{
  evict_expired-NodupKeys, remove_until-NodupKeys, make_room_for_spawn-outcome, get-kill_all,
}

-- Every key stands once, and the bound is kept.
abbrev pub IsBoundedTable : ProcessConfig → Processes → Type 0
IsBoundedTable config table = NodupKeys table × (length table ≤ config.max_processes)

length-insert-le :
    (k : ProcessKey) (v : ProcessEntry) (d : Processes) → length (insert k v d) ≤ length d + 1
length-insert-le k v d = elim (Option-cases (get k d)) [
  | inl new ↦ omega (arith, length-insert_new k v d new)
  | inr (w, old) ↦ omega (arith, length-insert_old k v w d old)
]

length-evict_expired-le :
    (table : Processes) (retention now : ℕ)
    → length (evict_expired_terminal_entries table retention now) ≤ length table
unfolding evict_expired_terminal_entries
length-evict_expired-le [] retention now = omega arith
length-evict_expired-le ((k, entry) ∷ table) retention now =
    ground (arith, length-evict_expired-le table retention now)

length-remove_until-le :
    (entries : List (ℕ × ProcessKey)) (table : Processes) (most : ℕ)
    → length (remove_until entries table most) ≤ length table
unfolding remove_until
length-remove_until-le [] table most = omega arith
length-remove_until-le ((t, k) ∷ entries) table most =
    ground (arith, length-remove_until-le entries (remove k table) most, length-remove-le k table)

evict_expired-IsBoundedTable :
    (config : ProcessConfig) (table : Processes) (now : ℕ)
    → IsBoundedTable config table
    → IsBoundedTable config (evict_expired_terminal_entries table config.retention_secs now)
evict_expired-IsBoundedTable config table now (u, bound) = (
  evict_expired-NodupKeys table config.retention_secs now u,
  omega (arith, length-evict_expired-le table config.retention_secs now, bound),
)

make_room-IsBoundedTable :
    (table : Processes) (config : ProcessConfig) (now : ℕ)
    → IsBoundedTable config table
    → IsBoundedTable config (make_room_for_spawn table config now).1
unfolding make_room_for_spawn evict_oldest_terminal_entries
make_room-IsBoundedTable table config now h =
    let expired = evict_expired_terminal_entries table config.retention_secs now in
    let kept = evict_expired-IsBoundedTable config table now h in
    let oldest = sort_by_time (terminal_keys expired) in
    let left : IsBoundedTable config (remove_until oldest expired config.max_processes) = (
      remove_until-NodupKeys oldest expired config.max_processes kept.0,
      omega (arith, length-remove_until-le oldest expired config.max_processes, kept.1),
    ) in
    elim (Bool-cases (ltb (length expired) config.max_processes)) [
      | inl room ↦ rw (make_room_for_spawn, room) kept
      | inr full ↦
          elim (Bool-cases (
            leb config.max_processes
              (length (evict_oldest_terminal_entries expired config.max_processes)))) [
                | inl stuck ↦ rw (make_room_for_spawn, full, stuck) left
                | inr freed ↦ rw (make_room_for_spawn, full, freed) left
              ]
    ]

pub kill_all-same :
    (env : EnvironmentId) (sess : SessionId) (table : Processes)
    → NodupKeys table
    → NodupKeys (kill_all env sess table).1 × (length (kill_all env sess table).1 ≡ length table)
unfolding kill_all
kill_all-same env sess [] u = (tt, refl)
kill_all-same env sess ((k, entry) ∷ table) (fresh, u) =
    let rest = kill_all-same env sess table u in
    let gone : get k (kill_all env sess table).1 ≡ none =
      get-kill_all env sess table k ∙ (rw (fresh) refl) in
    elim (Bool-cases (in_session env sess k && not (is_terminal entry.status))) [
      | inl killed ↦ rw (kill_all, killed) ((gone, rest.0), omega (arith, rest.1))
      | inr spared ↦ rw (kill_all, spared) ((gone, rest.0), omega (arith, rest.1))
    ]

-- An entry under a key that is there.
pub replace-IsBoundedTable :
    (config : ProcessConfig) (k : ProcessKey) (v w : ProcessEntry) (table : Processes)
    → get k table ≡ some w
    → IsBoundedTable config table
    → IsBoundedTable config (insert k v table)
replace-IsBoundedTable config k v w table there (u, bound) =
    (insert-NodupKeys k v table u, omega (arith, length-insert_old k v w table there, bound))

pub remove-IsBoundedTable :
    (config : ProcessConfig) (k : ProcessKey) (table : Processes)
    → IsBoundedTable config table
    → IsBoundedTable config (remove k table)
remove-IsBoundedTable config k table (u, bound) =
    (remove-NodupKeys k table u, omega (arith, length-remove-le k table, bound))

pub reserve-IsBoundedTable :
    (os : Os) (config : ProcessConfig) (before : Processes) (req : ExecuteRequest) (now : ℕ)
    → IsBoundedTable config before
    → IsBoundedTable config (reserve os config before req now).1
unfolding reserve
reserve-IsBoundedTable os config before req now h =
    let expired = evict_expired_terminal_entries before config.retention_secs now in
    let kept = evict_expired-IsBoundedTable config before now h in
    let roomy = make_room-IsBoundedTable expired config now kept in
    let table = (make_room_for_spawn expired config now).1 in
    elim (Bool-cases (
      leb config.max_processes_per_session
        (length (keep (in_session req.environment_id req.session_id) (keys expired))))) [
          | inl over ↦ rw (reserve, over) kept
          | inr under ↦ elim (make_room_for_spawn-outcome expired config now kept.0) [
            | inl made ↦
                elim (Result-cases
                  (choose_process_key os table req.environment_id req.session_id 8 0)) [
                    | inl (key, chosen) ↦
                        rw (reserve, under, made.0, chosen)
                          (
                            insert-NodupKeys key (new_entry req.program now) table roomy.0,
                            omega (
                              arith,
                              length-insert-le key (new_entry req.program now) table,
                              made.1,
                            ),
                          )
                    | inr (e, failed) ↦ rw (reserve, under, made.0, failed) roomy
                  ]
            | inr refused ↦ elim (Result-cases (make_room_for_spawn expired config now).0) [
              | inl (u, fine) ↦ absurd (refused.0 fine)
              | inr (e, failed) ↦ rw (reserve, under, failed) roomy
            ]
          ]
        ]
