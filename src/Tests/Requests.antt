-- ===== src/Tests/Requests.antt =====
-- Runs of the theorems on the handlers of the requests on files.
use are.Base.{◌≡◌, ◌⊎◌, refl, not, true, [], ◌∷◌, some, ascii, str_eq, split}
use are.Core.Grant.{write}
use are.Daemon.Paths.{components, path_join, path_text, path_starts_with, parent}
use are.Daemon.Disk.{Calls, Disk, directory}
use are.Daemon.Fs.{resolve}
use are.Daemon.Fs.Write.Commit.{Quiet}
use are.Daemon.Handler.Authorize.{Authorized}
use are.Daemon.Handler.Files.{handle_write_file, handle_rename, handle_delete_file}
use are.Daemon.Handler.Files.Entries.{
  RenameEnds, DeleteEnds, handle_rename-changes, handle_delete_file-changes,
}
use are.Core.Request.{PathRequest, RenameRequest}
use are.Daemon.Fs.{resolve_no_follow}
use are.Daemon.Paths.{file_name}
use are.Daemon.Handler.Files.Changes.{Written, handle_write_file-changes}
use are.Tests.Data.{env, os, fs, table, raw, state, fingerprint}
use are.Tests.Files.{calls}
use are.Tests.Handler.{srv-IsCanonical, os-Canonicalizes, loaded, write_a}

-- Every path leads to `/srv/a`.
abbrev pub one_target : Calls
one_target = record calls { os = λ tree. os }

abbrev pub start : Disk
start = record { tree = (ascii "/srv", directory) ∷ []; calls = 0; steps = [] }

quiet : Quiet one_target (ascii "/srv")
quiet i tree p temp = refl

handle_write_file-changes_example :
    let steps = (handle_write_file one_target state (some fingerprint) write_a start).1.steps in
    (steps ≡ [])
    ⊎ (Authorized fs table (some fingerprint) write (ascii "/srv/a")
        × Written (ascii "/srv") (ascii "/srv/a") [] (not true) steps)
unfolding resolve parent components split str_eq path_text path_join path_starts_with
handle_write_file-changes_example =
    handle_write_file-changes one_target state (some fingerprint) fs table raw (srv-IsCanonical, tt)
      refl refl loaded start os-Canonicalizes refl write_a (ascii "/srv/a") (ascii "/srv") refl refl
      refl quiet

abbrev rename_b : RenameRequest
rename_b = record { environment_id = env; src = ascii "b"; dst = ascii "c" }

handle_rename-changes_example :
    let x = handle_rename one_target state (some fingerprint) rename_b start in
    (x.1.steps ≡ [])
    ⊎ (Authorized fs table (some fingerprint) write (ascii "/srv/a/b")
        × Authorized fs table (some fingerprint) write (ascii "/srv/a/c")
        × RenameEnds (ascii "/srv/a/b") (ascii "/srv/a/c") x.0 x.1)
unfolding resolve_no_follow parent components split str_eq path_text path_join path_starts_with
    file_name
handle_rename-changes_example =
    handle_rename-changes one_target state (some fingerprint) fs table raw (srv-IsCanonical, tt)
      refl refl loaded start os-Canonicalizes refl rename_b (ascii "/srv/a/b") (ascii "/srv/a/c")
      refl refl refl refl

abbrev delete_b : PathRequest
delete_b = record { environment_id = env; path = ascii "b" }

handle_delete_file-changes_example :
    let x = handle_delete_file one_target state (some fingerprint) delete_b start in
    (x.1.steps ≡ [])
    ⊎ (Authorized fs table (some fingerprint) write (ascii "/srv/a/b")
        × DeleteEnds (ascii "/srv/a/b") x.0 x.1)
unfolding resolve_no_follow parent components split str_eq path_text path_join path_starts_with
    file_name
handle_delete_file-changes_example =
    handle_delete_file-changes one_target state (some fingerprint) fs table raw
      (srv-IsCanonical, tt) refl refl loaded start os-Canonicalizes refl delete_b (ascii "/srv/a/b")
      refl refl
