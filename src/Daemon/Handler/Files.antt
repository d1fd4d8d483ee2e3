-- ===== src/Daemon/Handler/Files.antt =====
-- crates/are-daemon/src/handler.rs: the handlers of the requests on files. The authorisation and the
-- operation each resolve the path, and other processes can change the tree between the two.
pub mod Guarded
pub mod Changes
pub mod Entries
use are.Base.{ℕ, List, ◌++◌, ascii, Str, Bool, true, Result, ok, err, map_err}
use are.Core.Grant.{FsGrantKind, read, list}
use are.Core.Request.{PathRequest, WriteFileRequest, RenameRequest, FileMetadata, DirectoryEntry}
use are.Daemon.Os.{Os}
use are.Daemon.Disk.{Calls, Disk, Run, ◌>>=◌, ◌>>◌, lift, map_error, stepped}
use are.Daemon.Fs.{FsError}
use are.Daemon.Fs.Files.{read_file, list_directory, file_metadata}
use are.Daemon.Fs.Write.{write_file}
use are.Daemon.Fs.Change.{create_directory, rename_path, delete_path}
use are.Daemon.Handler.{
  RpcError, DaemonState, Caller, fs_error_to_rpc, require_fs, authorize_read, authorize_write_file,
  authorize_create_directory, authorize_rename, authorize_delete_file,
}

-- The authorisation in the tree as it is, and then what other processes do.
abbrev pub after_check :
    {E : Type 0} → Calls → Disk → Result E (Unit {0}) → Result E (Unit {0}) × Disk
after_check os d (ok u) =
    let before = os.others d.calls d.tree in
    (ok tt, (stepped {A = Unit {0}} d before (ok tt, before)).1)
after_check os d (err e) = (err e, d)

unfoldable pub authorized : Calls → (Os → Result RpcError (Unit {0})) → Run RpcError (Unit {0})
authorized os check d = after_check os d (check (os.os d.tree))

-- `map_err` with the path of the request.
abbrev pub backend : {A : Type 0} → Str → Run FsError A → Run RpcError A
backend path m = map_error (λ e. fs_error_to_rpc e path) m

unfoldable pub handle_read_file :
    Calls → DaemonState → Caller → PathRequest → Run RpcError (List ℕ × FileMetadata)
handle_read_file os state caller req = do
  authorized os (λ now. authorize_read now state caller read req)
  fs ← lift (require_fs state req.environment_id)
  backend req.path (read_file os fs req.path)

unfoldable pub handle_list_directory :
    Calls → DaemonState → Caller → PathRequest → Run RpcError (List DirectoryEntry)
handle_list_directory os state caller req = do
  authorized os (λ now. authorize_read now state caller list req)
  fs ← lift (require_fs state req.environment_id)
  backend req.path (list_directory os fs req.path)

unfoldable pub handle_get_file_metadata :
    Calls → DaemonState → Caller → PathRequest → Run RpcError FileMetadata
handle_get_file_metadata os state caller req = do
  authorized os (λ now. authorize_read now state caller read req)
  fs ← lift (require_fs state req.environment_id)
  backend req.path (file_metadata os fs req.path)

unfoldable pub handle_write_file :
    Calls → DaemonState → Caller → WriteFileRequest → Run RpcError FileMetadata
handle_write_file os state caller req = do
  authorized os (λ now. authorize_write_file now state caller req)
  fs ← lift (require_fs state req.environment_id)
  backend req.path (write_file os fs req.path req.content req.overwrite req.expected_hash)

unfoldable pub handle_create_directory :
    Calls → DaemonState → Caller → PathRequest → Run RpcError FileMetadata
handle_create_directory os state caller req = do
  authorized os (λ now. authorize_create_directory state caller req)
  fs ← lift (require_fs state req.environment_id)
  backend req.path (create_directory os fs req.path)

unfoldable pub handle_rename :
    Calls → DaemonState → Caller → RenameRequest → Run RpcError FileMetadata
handle_rename os state caller req = do
  authorized os (λ now. authorize_rename now state caller req)
  fs ← lift (require_fs state req.environment_id)
  backend (req.src ++ (ascii " -> " ++ req.dst)) (rename_path os fs req.src req.dst)

-- The answer is `deleted: true`.
unfoldable pub handle_delete_file : Calls → DaemonState → Caller → PathRequest → Run RpcError Bool
handle_delete_file os state caller req = do
  authorized os (λ now. authorize_delete_file now state caller req)
  fs ← lift (require_fs state req.environment_id)
  backend req.path (delete_path os fs req.path)
  lift (ok true)
