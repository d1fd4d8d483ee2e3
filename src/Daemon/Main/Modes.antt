-- ===== src/Daemon/Main/Modes.antt =====
-- crates/are-daemon/src/main.rs: a daemon that starts runs in the mode that was asked for.
use are.Base.{
  ◌≡◌, refl, ◌∙◌, ap, ◌⊎◌, inl, inr, true, Option, none, some, Message, lit, Str, Result, ok, err,
  >>=-eq-ok, map_err, arith,
}
use are.Core.Error.{◌<+>◌, to_string}
use are.Core.Ids.{try_new_environment_id}
use are.Daemon.Grants.{GrantsTable}
use are.Daemon.Config.{build_daemon_state}
use are.Daemon.Handler.{DaemonState}
use are.Daemon.Main.{
  Arguments, Files, load_from_file, load_grants, choose_root, validate_authz_mode, listen,
}

-- The table of the grants file, or none where the development flag allows that.
abbrev pub HasMode : Files → Arguments → DaemonState → Type 0
HasMode files args state =
    ((path : Str) × (args.grants_file ≡ some path)
      × ((table : GrantsTable) × (load_from_file files path ≡ ok table)
          × (state.grants ≡ some table)))
    ⊎ ((args.grants_file ≡ none) × (args.permissive_authz ≡ true) × (state.grants ≡ none))

load_grants-some :
    (files : Files) (path : Str) (grants : Option GrantsTable)
    → load_grants files (some path) ≡ ok grants
    → (table : GrantsTable) × (load_from_file files path ≡ ok table) × (grants ≡ some table)
unfolding load_grants
load_grants-some files path grants h =
    let (table, there, same) = >>=-eq-ok (load_from_file files path) (λ t. ok (some t)) h in
    (table, there, ground arith)

module _ (files : Files) (args : Arguments) {state : DaemonState} where
  -- The checks that a daemon which starts has passed.
  listen-passes :
      listen files args ≡ ok state
      → (validate_authz_mode args.grants_file args.permissive_authz ≡ ok tt)
        × (load_grants files args.grants_file ≡ ok state.grants)
  unfolding listen build_daemon_state
  listen-passes h =
      let (a, mode, h1) =
        >>=-eq-ok (validate_authz_mode args.grants_file args.permissive_authz) _ h in
      let (environment_id, valid, h2) =
        >>=-eq-ok
          (map_err (λ e. lit "invalid environment_id: " <+> to_string e)
            (try_new_environment_id args.environment_id))
          _ h1 in
      let (root, there, h3) = >>=-eq-ok (choose_root files args.allowed_root) _ h2 in
      let (grants, loads, h4) = >>=-eq-ok (load_grants files args.grants_file) _ h3 in
      (ground arith, loads ∙ ap ok (ap (λ (r : Result Message DaemonState). grants_of r) h4))
    where
      grants_of : Result Message DaemonState → Option GrantsTable
      grants_of (ok s) = s.grants
      grants_of (err e) = none

  -- A daemon that starts has the table of its grants file; or it was given none, and was told to
  -- run without.
  pub listen-HasMode : listen files args ≡ ok state → HasMode files args state
  unfolding validate_authz_mode load_grants
  listen-HasMode h = by_file args.grants_file (listen-passes h).0 (listen-passes h).1
    where
      by_file :
          (grants_file : Option Str)
          → validate_authz_mode grants_file args.permissive_authz ≡ ok tt
          → load_grants files grants_file ≡ ok state.grants
          → ((path : Str) × (grants_file ≡ some path)
              × ((table : GrantsTable) × (load_from_file files path ≡ ok table)
                  × (state.grants ≡ some table)))
            ⊎ ((grants_file ≡ none) × (args.permissive_authz ≡ true) × (state.grants ≡ none))
      by_file none mode loads = inr (refl, ground arith, ground arith)
      by_file (some path) mode loads =
          inl (path, refl, load_grants-some files path state.grants loads)
