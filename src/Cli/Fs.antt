-- ===== src/Cli/Fs.antt =====
-- crates/are-cli/src/main.rs: `are fs`.
pub mod Writes
use are.Base.{
  ℕ, Bool, true, false, not, List, [], ◌∷◌, ◌++◌, map, Option, none, some, Str, length, Message,
  lit, bytes, num, Result, ok, err, ◌>>=◌, ltb, if◌then◌else◌,
}
use are.Core.Error.{◌<+>◌}
use are.Core.Ids.{EnvironmentId}
use are.Core.Info.{RpcRequest, RpcResponse}
use are.Core.Request.{FileMetadata, DirectoryEntry}
use are.Daemon.Framing.{Json}
use are.Client.Connection.{Link}
use are.Client.Connection as Client
use are.Cli.Terminal.{
  Console, Ran, Output, println, raw, prints, exits, or_exit, answered, parse_env_id, make_client,
  max_cli_content_bytes, read_stdin_capped, normalize_expect_hash, bool_text,
}

pub data FsAction : Type 0 where
  read : Str → Str → FsAction
  list : Str → Str → FsAction
  metadata : Str → Str → FsAction
  write : Str → Str → Option Str → Option Str → Option Str → Bool → FsAction
  mkdir : Str → Str → FsAction
  mv : Str → Str → Str → FsAction
  rm : Str → Str → FsAction

-- What a read prints, when the stream takes it.
abbrev pub print_bytes : Console → List ℕ → Ran
print_bytes console content = elim (console.write_stdout content) [
  | ok u ↦ record { out = raw content ∷ []; status = 0 }
  | err e ↦ exits (lit "error: failed to write to stdout: " <+> e)
]

abbrev pub kind_mark : FileMetadata → Message
kind_mark meta = if meta.is_dir then lit "d" else if meta.is_file then lit "-" else lit "?"

abbrev pub entry_line : Console → DirectoryEntry → Message
entry_line console entry =
    kind_mark entry.metadata
    <+> lit " "
    <+> console.padded entry.metadata.size
    <+> lit " "
    <+> bytes entry.path

abbrev pub modified_line : Console → Option ℕ → List Message
modified_line console none = []
modified_line console (some modified) = (lit "Modified: " <+> console.debug_time modified) ∷ []

-- The line that ends in `blake3:` and the hash, if there is one.
abbrev pub hash_line : Message → Option Str → List Message
hash_line label none = []
hash_line label (some hash) = (label <+> lit "blake3:" <+> bytes hash) ∷ []

abbrev pub metadata_lines : Console → FileMetadata → List Message
metadata_lines console meta =
    (lit "Size:     " <+> num meta.size <+> lit " bytes")
    ∷ (lit "Is file:  " <+> bool_text meta.is_file)
    ∷ (lit "Is dir:   " <+> bool_text meta.is_dir)
    ∷ (modified_line console meta.modified_at ++ hash_line (lit "Hash:     ") meta.hash)

-- The local file of `--from-file`: its length first, then its content.
unfoldable pub read_local : Console → Str → Result Message (List ℕ)
read_local console local = elim (console.file_len local) [
  | err e ↦ err (lit "error: failed to stat --from-file " <+> bytes local <+> lit ": " <+> e)
  | ok size ↦
      if ltb max_cli_content_bytes size
      then err (
          lit "error: --from-file "
          <+> bytes local
          <+> lit " is "
          <+> num size
          <+> lit " bytes, exceeds "
          <+> num max_cli_content_bytes
          <+> lit "-byte cap")
      else elim (console.read local) [
        | ok content ↦ ok content
        | err e ↦ err (lit "error: failed to read --from-file " <+> bytes local <+> lit ": " <+> e)
      ]
]

-- One source: `--content`, `--from-file`, or the standard input.
unfoldable pub content_source : Console → Option Str → Option Str → Result Message (List ℕ)
content_source console (some text) none = ok text
content_source console none (some local) = read_local console local
content_source console none none = read_stdin_capped console
content_source console (some text) (some local) =
    err (lit "error: --content and --from-file are mutually exclusive")

unfoldable pub write_content : Console → Option Str → Option Str → Result Message (List ℕ)
write_content console content from_file = content_source console content from_file >>= λ bytes.
    if ltb max_cli_content_bytes (length bytes)
    then err (
        lit "error: content is "
        <+> num (length bytes)
        <+> lit " bytes, exceeds "
        <+> num max_cli_content_bytes
        <+> lit "-byte cap")
    else ok bytes

unfoldable pub check_expect_hash : Option Str → Result Message (Option Str)
check_expect_hash none = ok none
check_expect_hash (some h) = elim (normalize_expect_hash h) [
  | some normalized ↦ ok (some normalized)
  | none ↦ err (lit "error: --expect-hash must be 64 hex chars")
]

module _ (requests : Json RpcRequest) (responses : Json RpcResponse) (console : Console) where
  -- The environment and the client that every command begins with.
  abbrev pub with_client : Str → (EnvironmentId → Link → Ran) → Ran
  with_client env_id f =
      or_exit (parse_env_id env_id) (λ env. or_exit (make_client console) (λ link. f env link))

  unfoldable pub fs_read : Str → Str → Ran
  fs_read env_id path = with_client env_id (λ env link.
      answered
        (Client.read_file requests responses link (record { environment_id = env; path = path }))
        (λ resp. print_bytes console resp.0))

  unfoldable pub fs_list : Str → Str → Ran
  fs_list env_id path = with_client env_id (λ env link.
      answered
        (Client.list_directory requests responses link
          (record { environment_id = env; path = path }))
        (λ entries. prints (map (entry_line console) entries)))

  unfoldable pub fs_metadata : Str → Str → Ran
  fs_metadata env_id path = with_client env_id (λ env link.
      answered
        (Client.file_metadata requests responses link
          (record { environment_id = env; path = path }))
        (λ meta. prints (metadata_lines console meta)))

  unfoldable pub fs_write : Str → Str → Option Str → Option Str → Option Str → Bool → Ran
  fs_write env_id path content from_file expect_hash no_overwrite =
      or_exit (parse_env_id env_id) (λ env.
        or_exit (write_content console content from_file) (λ bytes.
          or_exit (check_expect_hash expect_hash) (λ hash. or_exit (make_client console) (λ link.
            answered
              (Client.write_file requests responses link (record {
                environment_id = env;
                path = path;
                content = bytes;
                overwrite = not no_overwrite;
                expected_hash = hash;
              }))
              (λ meta. prints (
                (lit "Wrote " <+> num meta.size <+> lit " bytes")
                ∷ hash_line (lit "Hash: ") meta.hash))))))

  unfoldable pub fs_mkdir : Str → Str → Ran
  fs_mkdir env_id path = with_client env_id (λ env link.
      answered
        (Client.create_directory requests responses link
          (record { environment_id = env; path = path }))
        (λ resp. prints (lit "Created directory" ∷ [])))

  unfoldable pub fs_mv : Str → Str → Str → Ran
  fs_mv env_id src dst = with_client env_id (λ env link.
      answered
        (Client.rename requests responses link
          (record { environment_id = env; src = src; dst = dst }))
        (λ meta. prints (
          (lit "Renamed (" <+> num meta.size <+> lit " bytes)")
          ∷ hash_line (lit "Hash: ") meta.hash)))

  unfoldable pub fs_rm : Str → Str → Ran
  fs_rm env_id path = with_client env_id (λ env link.
      answered
        (Client.delete_file requests responses link (record { environment_id = env; path = path }))
        (λ resp. prints (lit "Deleted" ∷ [])))

  unfoldable pub run_fs : FsAction → Ran
  run_fs (FsAction.read env_id path) = fs_read env_id path
  run_fs (FsAction.list env_id path) = fs_list env_id path
  run_fs (FsAction.metadata env_id path) = fs_metadata env_id path
  run_fs (FsAction.write env_id path content from_file expect_hash no_overwrite) =
      fs_write env_id path content from_file expect_hash no_overwrite
  run_fs (FsAction.mkdir env_id path) = fs_mkdir env_id path
  run_fs (FsAction.mv env_id src dst) = fs_mv env_id src dst
  run_fs (FsAction.rm env_id path) = fs_rm env_id path
