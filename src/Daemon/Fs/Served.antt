-- ===== src/Daemon/Fs/Served.antt =====
-- crates/are-daemon/src/fs.rs: what `read_file` answers.
use are.Base.{ℕ, List, Str, str_eq}
use are.Core.Request.{FileMetadata}
use are.Daemon.Disk.{file, Calls, Disk, metadata_of}
use are.Daemon.Disk.Logic.{found}
use are.Daemon.Fs.Files.{make_metadata, with_content_hash}

-- The metadata of a file, as `read_file` gives it.
abbrev pub described : Calls → Disk → Str → List ℕ → FileMetadata
described os d canonical content =
    with_content_hash os (make_metadata (metadata_of os (found os d) canonical (file content)))
      content
