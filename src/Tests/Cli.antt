-- ===== src/Tests/Cli.antt =====
-- Runs of the theorems on the commands.
use are.Base.{
  false, not, is_some, ◌≤◌, ◌≡◌, refl, List, [], ◌∷◌, map, none, some, Str, true, ascii, length,
  str_eq, lit, num, bytes, ok, err,
}
use are.Base.Dict.{Dict, get, NodupKeys}
use mathlib.Core.List.{reverse, Permᴰ}
use are.Core.Request.{EnvVars, FileMetadata, WriteFileRequest, validate_write_file, is_valid_hash}
use are.Client.Connection.{Link, tcp}
use are.Cli.Terminal.{
  make_client, Console, parse_env_id, normalize_expect_hash, max_cli_content_bytes, parse_env_vars,
}
use are.Cli.Terminal.EnvVars.{assignment, get-parse_env_vars}
use are.Cli.Fs.{write_content, content_source, read_local, check_expect_hash, fs_write}
use are.Cli.Fs.Writes.{fs_write-sends}
use are.Core.Info.{RpcRequest, RpcResponse, RpcResponsePayload}
use are.Daemon.Framing.{Json}
use are.Client.Connection as Client
use are.Client.{write_message, read_message, read_message_sized}
use are.Wire.{write_all, drop, read_exact, to_be_bytes, from_be_bytes}
use are.Core.Ids.{try_new_environment_id, validate_id_bytes, is_valid_id_byte}
use are.Cli.Sess.{session_lines}
use are.Cli.Sess.Show.{session_lines-perm}
use are.Tests.Data.{env, info}

-- No daemon, and an empty standard input.
abbrev console : Console
console = record {
  client = err (tcp (lit "refused"));
  stdin = ok [];
  file_len = λ path. ok 3;
  read = λ path. ok (1 ∷ 2 ∷ 3 ∷ []);
  write_stdout = λ content. ok tt;
  write_stderr = λ content. ok tt;
  first_certificate = λ text. none;
  hash = λ content. ascii "00";
  debug_time = λ t. num t;
  debug_text = λ m. m;
  debug_bytes = λ text. bytes text;
  padded = λ n. num n;
}

abbrev given : List (Str × Str)
given = (ascii "LANG", ascii "C") ∷ (ascii "A", ascii "x=y") ∷ (ascii "LANG", ascii "de") ∷ []

get-parse_env_vars_example :
    (env_vars : Dict Str Str) × (parse_env_vars bytes (map assignment given) ≡ ok env_vars)
    × (get (ascii "LANG") env_vars ≡ get (ascii "LANG") (reverse given))
get-parse_env_vars_example =
    get-parse_env_vars bytes given (ascii "LANG") ((refl, refl), ((refl, refl), ((refl, refl), tt)))

abbrev digest : Str
digest = ascii "00112233445566778899AABBCCDDEEFF00112233445566778899aabbccddeeff"

abbrev lower_digest : Str
lower_digest = ascii "00112233445566778899aabbccddeeff00112233445566778899aabbccddeeff"

abbrev requests : Json RpcRequest
requests = record { to_vec = λ r. ok (ascii "q"); from_slice = λ t. err (lit "no request") }

abbrev written : FileMetadata
written = record {
  size = 3;
  modified_at = none;
  is_dir = false;
  is_file = true;
  hash = some lower_digest;
}

abbrev responses : Json RpcResponse
responses = record {
  to_vec = λ r. ok (ascii "p");
  from_slice = λ t. ok (record { result = ok (RpcResponsePayload.write_file written) });
}

-- A daemon that answers every request with a frame of one byte.
abbrev link : Link
link = record {
  connect = ok tt;
  handshake = ok tt;
  faults = λ i. none;
  peer = λ sent. 0 ∷ 0 ∷ 0 ∷ 1 ∷ 112 ∷ [];
}

abbrev online : Console
online = record console { client = ok link }

written-status :
    (fs_write requests responses online env
      (ascii "a")
      none
      (some (ascii "f"))
      (some digest)
      true).status
    ≡ 0
unfolding fs_write parse_env_id try_new_environment_id validate_id_bytes is_valid_id_byte
    write_content content_source read_local check_expect_hash normalize_expect_hash is_valid_hash
    make_client Client.write_file Client.send_rpc write_message read_message read_message_sized
    write_all drop read_exact to_be_bytes from_be_bytes
written-status = refl

fs_write-sends_example :
    (req : WriteFileRequest) × (to : Link) × (meta : FileMetadata) × (online.client ≡ ok to)
    × (Client.write_file requests responses to req ≡ ok meta)
    × (validate_write_file req ≡ ok tt)
    × (content_source online none (some (ascii "f")) ≡ ok req.content)
    × (length req.content ≤ max_cli_content_bytes)
    × (parse_env_id env ≡ ok req.environment_id)
    × (req.path ≡ ascii "a")
    × (req.overwrite ≡ not true)
    × (is_some req.expected_hash ≡ is_some (some digest))
fs_write-sends_example =
    fs_write-sends requests responses online env (ascii "a") none (some (ascii "f")) (some digest)
      true written-status refl

-- The variables of a session, in both orders.
abbrev shown : EnvVars
shown = (ascii "LANG", ascii "C") ∷ (ascii "A", ascii "x") ∷ []

abbrev reordered : EnvVars
reordered = (ascii "A", ascii "x") ∷ (ascii "LANG", ascii "C") ∷ []

shown-NodupKeys : NodupKeys shown
unfolding get str_eq
shown-NodupKeys = (refl, (refl, tt))

session_lines-perm_example :
    session_lines (record info { env_vars = reordered })
    ≡ session_lines (record info { env_vars = shown })
session_lines-perm_example =
    session_lines-perm (record info { env_vars = shown }) reordered shown-NodupKeys
      (Permᴰ.swap refl refl)
