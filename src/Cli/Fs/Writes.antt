-- ===== src/Cli/Fs/Writes.antt =====
-- crates/are-cli/src/main.rs: what `are fs write` sends.
use are.Base.{
  Message, Result, err, not, is_some, ℕ, ◌≤◌, ◌≡◌, refl, ap, ◌∙◌, Bool, true, false, List, ◌++◌,
  map, Option, none, some, Str, ascii, is_empty, length, ok, arith, >>=-eq-ok,
}
use are.Core.Grant.{ascii_lower}
use are.Core.Ids.{EnvironmentId}
use are.Core.Request.{FileMetadata, WriteFileRequest, is_valid_hash, validate_write_file}
use are.Core.Info.{RpcRequest, RpcResponse}
use are.Daemon.Framing.{Json}
use are.Client.Connection.{Link, ConnectionError}
use are.Client.Connection as Client
use are.Cli.Terminal.{
  Console, Ran, configured, or_exit, answered, parse_env_id, make_client, max_cli_content_bytes,
  normalize_expect_hash,
}
use are.Cli.Fs.{fs_write, content_source, write_content, check_expect_hash}

-- A hash that the commands print, with `blake3:` before it, is taken back as it is.
normalize_expect_hash-printed :
    (h : Str)
    → is_valid_hash h ≡ true
    → map ascii_lower h ≡ h
    → normalize_expect_hash (ascii "blake3:" ++ h) ≡ some h
unfolding normalize_expect_hash
normalize_expect_hash-printed h valid lower = rw (lower, valid) refl

normalized-valid :
    (input : Str) (h : Str) → normalize_expect_hash input ≡ some h → is_valid_hash h ≡ true
unfolding normalize_expect_hash
normalized-valid input h e = ground arith

write_content-bounded :
    (console : Console) (content from_file : Option Str) (bytes : List ℕ)
    → write_content console content from_file ≡ ok bytes
    → (content_source console content from_file ≡ ok bytes) × (length bytes ≤ max_cli_content_bytes)
unfolding write_content
write_content-bounded console content from_file bytes read =
    let (value, found, kept) = >>=-eq-ok (content_source console content from_file) _ read in
    let same : value ≡ bytes = ground arith in (found ∙ ap ok same, ground arith)

-- What is read and checked, for a path that is not empty, makes a request that the daemon's
-- validation accepts.
write_content-validates :
    (console : Console) (content from_file expect_hash : Option Str) (env : EnvironmentId)
    (path : Str) (overwrite : Bool) (bytes : List ℕ) (hash : Option Str)
    → write_content console content from_file ≡ ok bytes
    → check_expect_hash expect_hash ≡ ok hash
    → is_empty path ≡ false
    → (length bytes ≤ max_cli_content_bytes)
      × (validate_write_file (record {
        environment_id = env;
        path = path;
        content = bytes;
        overwrite = overwrite;
        expected_hash = hash;
      })
          ≡ ok tt)
unfolding write_content check_expect_hash validate_write_file
write_content-validates console content from_file expect_hash env path overwrite bytes hash read
      checked named =
    (
      (write_content-bounded console content from_file bytes read).1,
      hash_taken expect_hash hash checked,
    )
  where
    hash_taken :
        (expect_hash hash : Option Str)
        → check_expect_hash expect_hash ≡ ok hash
        → validate_write_file (record {
          environment_id = env;
          path = path;
          content = bytes;
          overwrite = overwrite;
          expected_hash = hash;
        })
          ≡ ok tt
    hash_taken none none h = ground arith
    hash_taken none (some i) h = cc
    hash_taken (some i) none h = ground arith
    hash_taken (some i) (some j) h =
        let accepted : normalize_expect_hash i ≡ some j = ground arith in
        let valid = normalized-valid i j accepted in ground arith

-- A step that does not end the program with an error.
or_exit-ok :
    {A : Type 0} (r : Result Message A) (f : A → Ran)
    → (or_exit r f).status ≡ 0
    → (a : A) × (r ≡ ok a) × ((f a).status ≡ 0)
or_exit-ok (ok a) f done = (a, refl, done)
or_exit-ok (err m) f done = absurd (cc)

answered-ok :
    {A : Type 0} (r : Result ConnectionError A) (f : A → Ran)
    → (answered r f).status ≡ 0
    → (a : A) × (r ≡ ok a) × ((f a).status ≡ 0)
answered-ok (ok a) f done = (a, refl, done)
answered-ok (err e) f done = absurd (cc)

configured-ok :
    {link : Link} (client : Result ConnectionError Link)
    → configured client ≡ ok link
    → client ≡ ok link
configured-ok (ok l) made = cc
configured-ok (err e) made = cc

check_expect_hash-is_some :
    (expect_hash : Option Str) {hash : Option Str}
    → check_expect_hash expect_hash ≡ ok hash
    → is_some hash ≡ is_some expect_hash
unfolding check_expect_hash
check_expect_hash-is_some none checked = ground arith
check_expect_hash-is_some (some h) checked = ground arith

module _ (requests : Json RpcRequest) (responses : Json RpcResponse) (console : Console)
    (env_id path : Str) (content from_file expect_hash : Option Str) (no_overwrite : Bool) where
  -- `are fs write` of a path that is not empty exits with status 0 only if the daemon has answered
  -- with the metadata of the file: to a request that its validation accepts, for the environment
  -- and the path as given, with the content of the one source that was named, at most 16 MiB, that overwrites unless told
  -- not to, and that carries a hash if and only if one was asked for.
  pub fs_write-sends :
      (fs_write requests responses console env_id path content from_file expect_hash
          no_overwrite).status
        ≡ 0
      → is_empty path ≡ false
      → (req : WriteFileRequest) × (link : Link) × (meta : FileMetadata) × (console.client
          ≡ ok link)
        × (Client.write_file requests responses link req ≡ ok meta)
        × (validate_write_file req ≡ ok tt)
        × (content_source console content from_file ≡ ok req.content)
        × (length req.content ≤ max_cli_content_bytes)
        × (parse_env_id env_id ≡ ok req.environment_id)
        × (req.path ≡ path)
        × (req.overwrite ≡ not no_overwrite)
        × (is_some req.expected_hash ≡ is_some expect_hash)
  unfolding fs_write make_client
  fs_write-sends done named =
      let (env, parsed, done_content) = or_exit-ok (parse_env_id env_id) _ done in
      let (bytes, read, done_hash) =
        or_exit-ok (write_content console content from_file) _ done_content in
      let (hash, checked, done_client) = or_exit-ok (check_expect_hash expect_hash) _ done_hash in
      let (link, made, done_call) = or_exit-ok (make_client console) _ done_client in
      let (meta, sent, printed) = answered-ok _ _ done_call in
      let (small, valid) =
        write_content-validates console content from_file expect_hash env path (not no_overwrite)
          bytes hash read checked named in
      (
        record {
          environment_id = env;
          path = path;
          content = bytes;
          overwrite = not no_overwrite;
          expected_hash = hash;
        },
        link,
        meta,
        configured-ok console.client made,
        sent,
        valid,
        (write_content-bounded console content from_file bytes read).0,
        small,
        parsed,
        refl,
        refl,
        check_expect_hash-is_some expect_hash checked,
      )
