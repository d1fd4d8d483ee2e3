-- ===== src/Cli/Info.antt =====
-- crates/are-cli/src/main.rs: `are connect`, `are doctor` and `are fingerprint`.
pub mod Fingerprint
use are.Base.{
  ℕ, List, [], ◌∷◌, ◌++◌, map, Option, none, some, Str, ascii, Message, lit, bytes, Result, ok, err,
}
use are.Core.Error.{CoreError, ◌<+>◌, to_string}
use are.Core.Ids.{EnvironmentId, try_new_environment_id}
use are.Core.Info.{RpcRequest, RpcResponse, GetEnvironmentInfoResponse}
use are.Core.Platform.{platform_text}
use are.Daemon.Framing.{Json}
use are.Client.Connection.{Link, ConnectionError, connection_error_text}
use are.Client.Connection as Client
use are.Cli.Terminal.{
  Console, Ran, Output, print, println, eprintln, prints, exits, or_exit, answered, parse_env_id,
  make_client, capability_lines,
}

abbrev pub info_lines : GetEnvironmentInfoResponse → List Message
info_lines info =
    (lit "Environment: " <+> bytes info.environment_id)
    ∷ (lit "  Machine:   " <+> bytes info.machine_name)
    ∷ (lit "  OS:        " <+> bytes info.operating_system)
    ∷ (lit "  Platform:  " <+> platform_text info.platform)
    ∷ (lit "  Version:   " <+> bytes info.daemon_version)
    ∷ lit "  Capabilities:"
    ∷ capability_lines info.advertised_capabilities

abbrev pub caller_line : Option Str → Message
caller_line none = lit "  Caller:      <unknown (pre-Gate-8 daemon)>"
caller_line (some fp) = lit "  Caller:      " <+> bytes fp

abbrev pub doctor_lines : GetEnvironmentInfoResponse → List Message
doctor_lines info =
    lit "ok"
    ∷ lit ""
    ∷ (lit "  Environment: " <+> bytes info.environment_id)
    ∷ (lit "  Machine:     " <+> bytes info.machine_name)
    ∷ (lit "  Platform:    " <+> platform_text info.platform)
    ∷ (lit "  Version:     " <+> bytes info.daemon_version)
    ∷ caller_line info.caller_fingerprint
    ∷ lit "  Capabilities:"
    ∷ (capability_lines info.advertised_capabilities ++ (lit "" ∷ lit "All checks passed." ∷ []))

-- A check that fails ends its line with the error.
abbrev pub check_fails : List Output → ConnectionError → Ran
check_fails printed e = record {
  out = printed ++ (println (lit "FAIL (" <+> connection_error_text e <+> lit ")") ∷ []);
  status = 1;
}

abbrev first_check : List Output
first_check =
    println (lit "ARE Doctor v0.1.0")
    ∷ println (lit "")
    ∷ print (lit "  TLS configuration ... ")
    ∷ []

abbrev second_check : List Output
second_check = first_check ++ (println (lit "ok") ∷ print (lit "  Daemon reachable ... ") ∷ [])

unfoldable pub fingerprint_text : Console → List ℕ → Str
fingerprint_text console der = ascii "blake3:" ++ console.hash der

abbrev pub print_fingerprint : Console → Str → Option (Result Message (List ℕ)) → Ran
print_fingerprint console cert (some (ok der)) = prints (bytes (fingerprint_text console der) ∷ [])
print_fingerprint console cert (some (err e)) =
    exits (lit "error: no certificate found in " <+> bytes cert)
print_fingerprint console cert none = exits (lit "error: no certificate found in " <+> bytes cert)

unfoldable pub fingerprint : Console → Str → Ran
unfolding fingerprint_text
fingerprint console cert = elim (console.read cert) [
  | err e ↦ exits (lit "error: failed to read " <+> bytes cert <+> lit ": " <+> e)
  | ok text ↦ print_fingerprint console cert (console.first_certificate text)
]

module _ (requests : Json RpcRequest) (responses : Json RpcResponse) (console : Console) where
  unfoldable pub connect : Str → Ran
  connect env_id = or_exit (parse_env_id env_id) (λ environment_id.
      or_exit (make_client console) (λ link.
        answered (Client.get_environment_info requests responses link environment_id)
          (λ info. prints (info_lines info))))

  -- The second check, with the client that the first has made.
  abbrev doctor_reaches : EnvironmentId → Result ConnectionError Link → Ran
  doctor_reaches environment_id (err e) = check_fails first_check e
  doctor_reaches environment_id (ok link) =
      elim (Client.get_environment_info requests responses link environment_id) [
        | err e ↦ check_fails second_check e
        | ok info ↦ record { out = second_check ++ map println (doctor_lines info); status = 0 }
      ]

  unfoldable pub doctor : Str → Ran
  doctor env_id = elim (try_new_environment_id env_id) [
    | err e ↦ exits (lit "FAIL: invalid environment_id: " <+> to_string e)
    | ok environment_id ↦ doctor_reaches environment_id console.client
  ]
