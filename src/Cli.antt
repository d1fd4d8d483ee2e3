-- ===== src/Cli.antt =====
-- crates/are-cli/src/main.rs: the commands, from the parsed flags to what is printed and the status
-- of the exit. The flags of the address and the certificates go to the client, which is a part of the
-- console.
pub mod Terminal
pub mod Fs
pub mod Proc
pub mod Sess
pub mod Info
use are.Base.{ℕ, Bool, List, [], ◌∷◌, Option, Str, lit, bytes}
use are.Core.Error.{◌<+>◌}
use are.Core.Info.{RpcRequest, RpcResponse}
use are.Daemon.Framing.{Json}
use are.Cli.Terminal.{Console, Ran, prints}
use are.Cli.Fs.{FsAction, run_fs}
use are.Cli.Proc.{ProcAction, run_proc}
use are.Cli.Sess.{SessAction, run_sess}
use are.Cli.Info

pub data EnvAction : Type 0 where
  list : EnvAction
  add : Str → EnvAction
  remove : Str → EnvAction

unfoldable pub run_env : EnvAction → Ran
run_env EnvAction.list = prints (lit "env list: no environments configured yet" ∷ [])
run_env (EnvAction.add name) = prints ((lit "env add: " <+> bytes name <+> lit " (stub)") ∷ [])
run_env (EnvAction.remove name) =
    prints ((lit "env remove: " <+> bytes name <+> lit " (stub)") ∷ [])

pub data Commands : Type 0 where
  connect : Str → Commands
  doctor : Str → Commands
  fs : FsAction → Commands
  proc : ProcAction → Commands
  sess : SessAction → Commands
  env : EnvAction → Commands
  fingerprint : Str → Commands

module _ (requests : Json RpcRequest) (responses : Json RpcResponse) (console : Console) where
  unfoldable pub main : Commands → Ran
  main (Commands.connect env_id) = Info.connect requests responses console env_id
  main (Commands.doctor env_id) = Info.doctor requests responses console env_id
  main (Commands.fs action) = run_fs requests responses console action
  main (Commands.proc action) = run_proc requests responses console action
  main (Commands.sess action) = run_sess requests responses console action
  main (Commands.env action) = run_env action
  main (Commands.fingerprint cert) = Info.fingerprint console cert
