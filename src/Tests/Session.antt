-- ===== src/Tests/Session.antt =====
-- Runs of the theorems on the session table.
use are.Base.{
  ℕ, ◌≡◌, refl, ◌↔◌, ◌⊎◌, List, [], ◌∷◌, none, some, arith, Str, ascii, In, err, if◌then◌else◌,
  ◌==◌, str_eq, split,
}
use are.Base.Dict.{remove, insert}
use are.Core.Request.{validate_create_session, validate_env_vars, validate_each_env_var}
use are.Daemon.Fs.{resolve, check_path_shape, resolve_roots, resolve_under}
use are.Daemon.Paths.{path_starts_with, components, path_join, path_text}
use are.Daemon.Session.{
  create_locked, purge_expired_locked, choose_session_id, alloc_session_id, expired_ids, remove_all,
}
use are.Core.Ids.{validate_id_bytes, try_new_session_id, hex, hex_digit, is_valid_id_byte}
use are.Daemon.Process.Env.{sanitize_env}
use are.Core.Ids.{session_id_text}
use are.Base.Dict.{get, NodupKeys}
use are.Core.Ids.{SessionId}
use are.Core.Request.{SessionInfo}
use are.Daemon.Session.{
  SessionRecord, owner_permits, create_owned, get_session, get_owned, terminate_owned, list_owned,
  unknown_session, new_manager, is_expired, check_create, new_session,
}
use are.Daemon.Session.Table.{holds, live_at, is_dead}
use are.Daemon.Session.Access.{
  Untouched, get_owned-stranger, terminate_owned-stranger, IsOwned, get_owned-get_session_iff,
}
use are.Daemon.Session.Create.{create_owned-ok}
use are.Daemon.Session.Invariant.{IsTable, Call, create, look_up_owned, end_owned, run, run-IsTable}
use are.Daemon.Session.Listing.{list_owned_iff}
use are.Tests.Data.{os, fs, session_config, alice, sid, env, info, one_session, creation}

abbrev r : SessionRecord
r = record { info = info }

abbrev bob : Str
bob = ascii "bob"

one_session-NodupKeys : NodupKeys one_session.sessions
unfolding get
one_session-NodupKeys = (refl, tt)

one_session-IsTable : IsTable one_session
one_session-IsTable = (one_session-NodupKeys, omega arith, ((refl, refl), tt))

there : get sid one_session.sessions ≡ some r
unfolding get str_eq
there = refl

get_owned-stranger_example :
    ((get_owned one_session sid (some bob) 3).0.0 ≡ err (unknown_session sid))
    × Untouched one_session (get_owned one_session sid (some bob) 3).1 sid 3
unfolding owner_permits str_eq
get_owned-stranger_example = get_owned-stranger one_session sid (some bob) 3 r there refl

terminate_owned-stranger_example :
    ((terminate_owned one_session sid (some bob) 3).0.0 ≡ err (unknown_session sid))
    × Untouched one_session (terminate_owned one_session sid (some bob) 3).1 sid 3
unfolding owner_permits str_eq
terminate_owned-stranger_example =
    terminate_owned-stranger one_session sid (some bob) 3 r there refl

get_owned-get_session_iff_example :
    (((get_owned one_session sid none 3).0.0 ≡ (get_session one_session sid 3).0)
      × ((get_owned one_session sid none 3).1 ≡ (get_session one_session sid 3).1))
    ↔ ¬ IsOwned (get sid one_session.sessions)
get_owned-get_session_iff_example = get_owned-get_session_iff one_session sid 3

list_owned_iff_example : In info (list_owned one_session env (some alice) 3).0.0 ↔ (
    (live_at session_config 3 (get sid one_session.sessions) ≡ some (record { info = info }))
    × (env ≡ env)
    × ((some alice ≡ none) ⊎ (some alice ≡ none) ⊎ (some alice ≡ some alice)))
list_owned_iff_example = list_owned_iff one_session env (some alice) 3 info one_session-IsTable

abbrev calls : List (Call × ℕ)
calls =
    (create os creation (some alice), 1)
    ∷ (create os creation none, 2)
    ∷ (look_up_owned sid none, 3)
    ∷ (end_owned sid (some bob), 200)
    ∷ []

run-IsTable_example : IsTable (run (new_manager env session_config (some fs)) calls)
run-IsTable_example = run-IsTable env session_config (some fs) calls

abbrev made : SessionInfo
made =
    new_session
      (session_id_text (0 ∷ 0 ∷ 0 ∷ 0 ∷ 0 ∷ 0 ∷ 0 ∷ 0 ∷ 0 ∷ 0 ∷ 0 ∷ 0 ∷ 0 ∷ 0 ∷ 0 ∷ 0 ∷ []))
      creation (ascii ".") (some bob) 50

create_owned-ok_example :
    (live_at session_config 50 (get made.session_id one_session.sessions) ≡ none)
    × (made.owner ≡ some bob)
    × (made.created_at ≡ 50)
    × (made.last_activity ≡ 50)
    × ((j : SessionId)
        → (get j (create_owned os one_session creation (some bob) 50).1.sessions ≡ (
            if made.session_id == j
            then some (record { info = made })
            else live_at session_config 50 (get j one_session.sessions)))
          × (holds (sid ∷ []) j ≡ is_dead session_config 50 (get j one_session.sessions)))
unfolding create_owned check_create validate_create_session validate_env_vars validate_each_env_var
    resolve check_path_shape resolve_roots resolve_under path_starts_with components path_join
    path_text create_locked purge_expired_locked choose_session_id alloc_session_id expired_ids
    remove_all validate_id_bytes try_new_session_id hex hex_digit is_valid_id_byte sanitize_env
    split get remove insert is_expired str_eq
create_owned-ok_example =
    create_owned-ok os one_session creation (some bob) 50 made (sid ∷ []) one_session-NodupKeys refl
