-- ===== src/Cli/Sess.antt =====
-- crates/are-cli/src/main.rs: `are sess`.
pub mod Show
use are.Base.{
  ℕ, Bool, true, false, ◌||◌, ◌&&◌, List, [], ◌∷◌, ◌++◌, map, Option, none, some, Str, length,
  Message, lit, bytes, num, Result, ok, err, eqb, ltb, if◌then◌else◌, unwrap_or, str_eq,
}
use are.Base.Dict.{Dict, get, keys}
use are.Core.Error.{◌<+>◌}
use are.Core.Ids.{EnvironmentId, SessionId}
use are.Core.Info.{RpcRequest, RpcResponse}
use are.Core.Request.{EnvVars, SessionInfo}
use are.Core.Identity.{str_leb}
use are.Daemon.Framing.{Json}
use are.Client.Connection.{Link}
use are.Client.Connection as Client
use are.Cli.Terminal.{
  Console, Ran, prints, or_exit, answered, parse_env_id, parse_session_id, parse_env_vars,
  make_client,
}

pub data SessAction : Type 0 where
  create : Str → Str → List Str → SessAction
  show : Str → Str → SessAction
  list : Str → SessAction
  rm : Str → Str → SessAction

-- `keys.sort()`.
unfoldable pub insert_sorted : Str → List Str → List Str
insert_sorted k [] = k ∷ []
insert_sorted k (j ∷ ks) =
    let rest = insert_sorted k ks in if str_leb k j then k ∷ j ∷ ks else j ∷ rest

unfoldable pub sort : List Str → List Str
unfolding insert_sorted
sort [] = []
sort (k ∷ ks) = insert_sorted k (sort ks)

abbrev pub env_line : EnvVars → Str → Message
env_line env_vars k = lit "    " <+> bytes k <+> lit "=" <+> bytes (unwrap_or (get k env_vars) [])

unfoldable pub session_lines : SessionInfo → List Message
unfolding sort
session_lines s =
    (lit "session: " <+> bytes s.session_id)
    ∷ (lit "  environment: " <+> bytes s.environment_id)
    ∷ (lit "  workdir:     " <+> bytes s.working_directory)
    ∷ (lit "  created:     " <+> num s.created_at)
    ∷ (lit "  last-active: " <+> num s.last_activity)
    ∷ lit "  env:"
    ∷ map (env_line s.env_vars) (sort (keys s.env_vars))

abbrev pub session_line : SessionInfo → Message
session_line s =
    bytes s.session_id
    <+> lit "  workdir="
    <+> bytes s.working_directory
    <+> lit "  env_vars="
    <+> num (length s.env_vars)
    <+> lit "  created="
    <+> num s.created_at
    <+> lit "  last-active="
    <+> num s.last_activity

module _ (requests : Json RpcRequest) (responses : Json RpcResponse) (console : Console) where
  unfoldable pub sess_create : Str → Str → List Str → Ran
  sess_create env_id workdir env = or_exit (parse_env_id env_id) (λ environment_id.
      or_exit (make_client console) (λ link.
        or_exit (parse_env_vars console.debug_bytes env) (λ env_vars.
          answered
            (Client.create_session requests responses link (record {
              environment_id = environment_id;
              working_directory = some workdir;
              env_vars = env_vars;
            }))
            (λ session. prints (bytes session.session_id ∷ [])))))

  -- The ids of a command on a session, and the client.
  abbrev pub with_session : Str → Str → (EnvironmentId → SessionId → Link → Ran) → Ran
  with_session env_id id f = or_exit (parse_session_id id) (λ session_id.
      or_exit (parse_env_id env_id) (λ environment_id.
        or_exit (make_client console) (λ link. f environment_id session_id link)))

  unfoldable pub sess_show : Str → Str → Ran
  sess_show env_id id = with_session env_id id (λ environment_id session_id link.
      answered
        (Client.get_session requests responses link
          (record { environment_id = environment_id; session_id = session_id }))
        (λ session. prints (session_lines session)))

  unfoldable pub sess_list : Str → Ran
  sess_list env_id = or_exit (parse_env_id env_id) (λ environment_id.
      or_exit (make_client console) (λ link.
        answered
          (Client.list_sessions requests responses link
            (record { environment_id = environment_id }))
          (λ sessions. prints (map session_line sessions))))

  unfoldable pub sess_rm : Str → Str → Ran
  sess_rm env_id id = with_session env_id id (λ environment_id session_id link.
      answered
        (Client.terminate_session requests responses link
          (record { environment_id = environment_id; session_id = session_id }))
        (λ count.
          prints ((lit "terminated session (" <+> num count <+> lit " processes reaped)") ∷ [])))

  unfoldable pub run_sess : SessAction → Ran
  run_sess (SessAction.create env_id workdir env) = sess_create env_id workdir env
  run_sess (SessAction.show env_id id) = sess_show env_id id
  run_sess (SessAction.list env_id) = sess_list env_id
  run_sess (SessAction.rm env_id id) = sess_rm env_id id
