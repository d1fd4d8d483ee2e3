-- ===== src/Tests/Files.antt =====
-- Runs of the theorems on the operations on files.
use are.Base.{
  ℕ, ◌==◌, if◌then◌else◌, lit, err, false, ℕ, ◌≡◌, refl, ◌⊎◌, true, false, not, List, [], ◌∷◌, none,
  some, Option, Str, All, ascii, ok, err, lit, split, str_eq,
}
use are.Base.Dict.{get, insert, remove}
use are.Core.Request.{FileMetadata}
use are.Daemon.Os.{not_found}
use are.Core.Ids.{hex, hex_digit}
use are.Daemon.Paths.{path_starts_with, path_join, parent, components, path_text, file_name}
use are.Daemon.Disk.{
  Calls, Disk, file, directory, ◌>>=◌, lift, attempt, call, create_new, has_parent, map_error,
  metadata, read_bytes, remove_file, rename, rename_exclusive, symlink_metadata, sync_all,
  write_all,
}
use are.Daemon.Disk.Logic.{Ends}
use are.Daemon.Fs.{resolve}
use are.Daemon.Fs.Files.{
  from_io, resolved, make_metadata, rename_noreplace, with_content_hash, read_file,
}
use are.Daemon.Fs.Write.{
  write_resolved, check_target, atomic_commit, check_hash, create_temp, sync_dir, temp_name,
  write_and_rename, write_file,
}
use are.Daemon.Fs.Write.Commit.{Quiet, Untouched, Spares, CommitsOnce}
use are.Daemon.Fs.Write.Atomic.{write_file_atomic}
use are.Daemon.Fs.Write.ReadBack.{read_file-write_file}
use are.Tests.Data.{fs}
use are.Tests.Data

-- A tree without links, that nobody else changes, and calls that do not fail.
abbrev pub calls : Calls
calls = record {
  os = λ tree. record Data.os {
    canonicalize = λ p. elim (get p tree) [
      | none ↦ err (not_found (lit "No such file or directory"))
      | some node ↦ ok p
    ];
  };
  others = λ i tree. tree;
  fault = λ i. none;
  other_len = λ tree p. 0;
  modified = λ tree p. some 7;
  hash = λ content. ascii "digest";
}

abbrev start : Disk
start = record {
  tree =
      (ascii "/srv", directory)
      ∷ (ascii "/srv/old", file (1 ∷ 2 ∷ []))
      ∷ (ascii "/srv/d", directory)
      ∷ [];
  calls = 0;
  steps = [];
}

abbrev root : Str
root = ascii "/srv"

abbrev target : Str
target = ascii "/srv/new"

abbrev content : List ℕ
content = 5 ∷ 6 ∷ 7 ∷ []

quiet : Quiet calls root
quiet i tree p temp = refl

untouched : Untouched calls target
untouched i tree = refl

resolves : resolve (calls.os start.tree) fs (ascii "new") ≡ ok target
unfolding resolve get str_eq path_join parent components split path_text path_starts_with file_name
resolves = refl

write_file_atomic_example :
    let x = write_file calls fs (ascii "new") content false none start in
    Ends
      (λ d. All (Spares root) d.steps ⊎ CommitsOnce root target content (not false) d.steps)
      (λ meta d. CommitsOnce root target content (not false) d.steps)
      x.0
      x.1
unfolding parent components split str_eq path_text
write_file_atomic_example =
    write_file_atomic calls root target content false quiet fs (ascii "new") none start resolves
      refl refl

abbrev meta : FileMetadata
meta = record {
  size = 3;
  modified_at = some 7;
  is_dir = false;
  is_file = true;
  hash = some (ascii "digest");
}

abbrev written : Disk
written = (write_file calls fs (ascii "new") content false none start).1

writes : write_file calls fs (ascii "new") content false none start ≡ (ok meta, written)
unfolding write_file ◌>>=◌ lift resolved resolve get str_eq path_join parent components split
    path_text path_starts_with file_name write_resolved attempt check_target insert remove hex
    hex_digit call create_new has_parent map_error metadata read_bytes remove_file rename
    rename_exclusive symlink_metadata sync_all write_all from_io make_metadata rename_noreplace
    with_content_hash atomic_commit check_hash create_temp sync_dir temp_name write_and_rename
writes = refl

still_resolves : resolve (calls.os written.tree) fs (ascii "new") ≡ ok target
unfolding write_file ◌>>=◌ lift resolved resolve get str_eq path_join parent components split
    path_text path_starts_with file_name write_resolved attempt check_target insert remove hex
    hex_digit call create_new has_parent map_error metadata read_bytes remove_file rename
    rename_exclusive symlink_metadata sync_all write_all from_io make_metadata rename_noreplace
    with_content_hash atomic_commit check_hash create_temp sync_dir temp_name write_and_rename
still_resolves = refl

read_file-write_file_example :
    (now : Option ℕ) × ((read_file calls fs (ascii "new") written).0
      ≡ ok (
        content,
        record {
          size = 3;
          modified_at = now;
          is_dir = false;
          is_file = true;
          hash = some (ascii "digest");
        },
      ))
unfolding parent components split str_eq path_text
read_file-write_file_example =
    read_file-write_file calls root target content false fs (ascii "new") none start written meta
      quiet untouched resolves refl refl writes still_resolves refl refl

-- A tree where `/srv/x` and `/srv/x/y` lead to themselves.
abbrev creating : Calls
creating = record calls {
  os = λ tree. record Data.os {
    canonicalize = λ p.
        if p == ascii "/srv/x"
        then ok (ascii "/srv/x")
        else if p == ascii "/srv/x/y"
        then ok (ascii "/srv/x/y")
        else err (not_found (lit "No such file or directory"));
  };
}

abbrev old_bytes : List ℕ
old_bytes = 1 ∷ 2 ∷ []
