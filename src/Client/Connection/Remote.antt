-- ===== src/Client/Connection/Remote.antt =====
-- crates/are-client/src/connection.rs and crates/are-daemon/src/server.rs: a call of a method of the
-- client is the call of the daemon's handler.
use are.Base.{◌≡◌, refl, sym, ap, Option, some, Result, ok, err, ◌>>=◌}
use are.Core.Info.{RpcRequest, RpcResponse, RpcResponsePayload, RpcError, rpc_error_text}
use are.Client.Connection.{
  as_get_environment_info, as_read_file, as_list_directory, as_get_file_metadata, as_execute,
  as_process_status, as_terminate_process, as_wait_process, as_create_session, as_get_session,
  as_list_sessions, as_terminate_session, as_write_file, as_create_directory, as_rename,
  as_delete_file, ConnectionError, rpc_error, Link, expect, send_rpc, get_environment_info,
  read_file, list_directory, file_metadata, execute, process_status, terminate_process,
  wait_process, create_session, get_session, list_sessions, terminate_session, write_file,
  create_directory, rename, delete_file,
}
use are.Daemon.Framing.{Json}
use are.Daemon.Handler.Dispatch.Kinds.{Kind, request_kind, payload_kind, HasKind}

-- What a caller of the handler itself would have.
abbrev pub local : RpcResponse → Result ConnectionError RpcResponsePayload
local response = elim response.result [ ok p ↦ ok p | err e ↦ err (rpc_error (rpc_error_text e)) ]

module _ (requests : Json RpcRequest) (responses : Json RpcResponse) (link : Link) where
  -- The method for a request, with its result in the payload that it came in.
  pub invoke : RpcRequest → Result ConnectionError RpcResponsePayload
  invoke (RpcRequest.get_environment_info req) =
      get_environment_info requests responses link req.environment_id >>= λ a.
      ok (RpcResponsePayload.get_environment_info a)
  invoke (RpcRequest.read_file req) =
      read_file requests responses link req >>= λ a. ok (RpcResponsePayload.read_file a)
  invoke (RpcRequest.list_directory req) =
      list_directory requests responses link req >>= λ a. ok (RpcResponsePayload.list_directory a)
  invoke (RpcRequest.get_file_metadata req) =
      file_metadata requests responses link req >>= λ a. ok (RpcResponsePayload.get_file_metadata a)
  invoke (RpcRequest.execute req) =
      execute requests responses link req >>= λ a. ok (RpcResponsePayload.execute a)
  invoke (RpcRequest.process_status req) =
      process_status requests responses link req >>= λ a. ok (RpcResponsePayload.process_status a)
  invoke (RpcRequest.terminate_process req) = terminate_process requests responses link req >>= λ a.
      ok (RpcResponsePayload.terminate_process a)
  invoke (RpcRequest.wait_process req) =
      wait_process requests responses link req >>= λ a. ok (RpcResponsePayload.wait_process a)
  invoke (RpcRequest.create_session req) =
      create_session requests responses link req >>= λ a. ok (RpcResponsePayload.create_session a)
  invoke (RpcRequest.get_session req) =
      get_session requests responses link req >>= λ a. ok (RpcResponsePayload.get_session a)
  invoke (RpcRequest.list_sessions req) =
      list_sessions requests responses link req >>= λ a. ok (RpcResponsePayload.list_sessions a)
  invoke (RpcRequest.terminate_session req) = terminate_session requests responses link req >>= λ a.
      ok (RpcResponsePayload.terminate_session a)
  invoke (RpcRequest.write_file req) =
      write_file requests responses link req >>= λ a. ok (RpcResponsePayload.write_file a)
  invoke (RpcRequest.create_directory req) = create_directory requests responses link req >>= λ a.
      ok (RpcResponsePayload.create_directory a)
  invoke (RpcRequest.rename req) =
      rename requests responses link req >>= λ a. ok (RpcResponsePayload.rename a)
  invoke (RpcRequest.delete_file req) =
      delete_file requests responses link req >>= λ a. ok (RpcResponsePayload.delete_file a)

-- `extract` gives what `wrap` has put into a payload, of every payload of the kind.
abbrev Extracts :
    {A : Type 0}
    → (RpcResponsePayload → Option A)
    → (A → RpcResponsePayload)
    → Kind
    → RpcResponsePayload
    → Type 0
Extracts {A} extract wrap k p = payload_kind p ≡ k → (a : A) × (p ≡ wrap a) × (extract p ≡ some a)

module _ {A : Type 0} (extract : RpcResponsePayload → Option A) (wrap : A → RpcResponsePayload)
    (k : Kind) (extracts : (p : RpcResponsePayload) → Extracts extract wrap k p) where
  result-local :
      (r : Result RpcError RpcResponsePayload)
      → HasKind k (some (record { result = r }))
      → (expect extract (record { result = r }) >>= λ a. ok (wrap a))
        ≡ local (record { result = r })
  result-local (err e) of_kind = refl
  result-local (ok p) of_kind =
      let (a, wrapped, extracted) = extracts p (of_kind p refl) in
      rw (extracted, expect) (ap ok (sym wrapped))

  expect-local :
      (response : RpcResponse)
      → HasKind k (some response)
      → (expect extract response >>= λ a. ok (wrap a)) ≡ local response
  expect-local response = result-local response.result

module _ (requests : Json RpcRequest) (responses : Json RpcResponse) (link : Link)
    (response : RpcResponse) where
  pub invoke-local :
      (request : RpcRequest)
      → send_rpc requests responses link request ≡ ok response
      → HasKind (request_kind request) (some response)
      → invoke requests responses link request ≡ local response
  unfolding invoke get_environment_info read_file list_directory file_metadata execute
      process_status terminate_process wait_process create_session get_session list_sessions
      terminate_session write_file create_directory rename delete_file
  invoke-local (RpcRequest.get_environment_info req) sent of_kind = rw sent (
      expect-local as_get_environment_info RpcResponsePayload.get_environment_info
        Kind.get_environment_info
        (λ p.
          elim p
            as (Extracts as_get_environment_info RpcResponsePayload.get_environment_info
              Kind.get_environment_info) [
                | RpcResponsePayload.get_environment_info a ↦ λ e. (a, refl, refl)
                | _ ↦ λ e. absurd (cc)
              ])
        response of_kind)
  invoke-local (RpcRequest.read_file req) sent of_kind = rw sent (
      expect-local as_read_file RpcResponsePayload.read_file Kind.read_file
        (λ p. elim p as (Extracts as_read_file RpcResponsePayload.read_file Kind.read_file) [
          | RpcResponsePayload.read_file a ↦ λ e. (a, refl, refl)
          | _ ↦ λ e. absurd (cc)
        ])
        response of_kind)
  invoke-local (RpcRequest.list_directory req) sent of_kind = rw sent (
      expect-local as_list_directory RpcResponsePayload.list_directory Kind.list_directory
        (λ p.
          elim p
            as (Extracts as_list_directory RpcResponsePayload.list_directory Kind.list_directory) [
              | RpcResponsePayload.list_directory a ↦ λ e. (a, refl, refl)
              | _ ↦ λ e. absurd (cc)
            ])
        response of_kind)
  invoke-local (RpcRequest.get_file_metadata req) sent of_kind = rw sent (
      expect-local as_get_file_metadata RpcResponsePayload.get_file_metadata Kind.get_file_metadata
        (λ p.
          elim p
            as (Extracts as_get_file_metadata RpcResponsePayload.get_file_metadata
              Kind.get_file_metadata) [
                | RpcResponsePayload.get_file_metadata a ↦ λ e. (a, refl, refl)
                | _ ↦ λ e. absurd (cc)
              ])
        response of_kind)
  invoke-local (RpcRequest.execute req) sent of_kind = rw sent (
      expect-local as_execute RpcResponsePayload.execute Kind.execute
        (λ p. elim p as (Extracts as_execute RpcResponsePayload.execute Kind.execute) [
          | RpcResponsePayload.execute a ↦ λ e. (a, refl, refl)
          | _ ↦ λ e. absurd (cc)
        ])
        response of_kind)
  invoke-local (RpcRequest.process_status req) sent of_kind = rw sent (
      expect-local as_process_status RpcResponsePayload.process_status Kind.process_status
        (λ p.
          elim p
            as (Extracts as_process_status RpcResponsePayload.process_status Kind.process_status) [
              | RpcResponsePayload.process_status a ↦ λ e. (a, refl, refl)
              | _ ↦ λ e. absurd (cc)
            ])
        response of_kind)
  invoke-local (RpcRequest.terminate_process req) sent of_kind = rw sent (
      expect-local as_terminate_process RpcResponsePayload.terminate_process Kind.terminate_process
        (λ p.
          elim p
            as (Extracts as_terminate_process RpcResponsePayload.terminate_process
              Kind.terminate_process) [
                | RpcResponsePayload.terminate_process a ↦ λ e. (a, refl, refl)
                | _ ↦ λ e. absurd (cc)
              ])
        response of_kind)
  invoke-local (RpcRequest.wait_process req) sent of_kind = rw sent (
      expect-local as_wait_process RpcResponsePayload.wait_process Kind.wait_process
        (λ p.
          elim p as (Extracts as_wait_process RpcResponsePayload.wait_process Kind.wait_process) [
            | RpcResponsePayload.wait_process a ↦ λ e. (a, refl, refl)
            | _ ↦ λ e. absurd (cc)
          ])
        response of_kind)
  invoke-local (RpcRequest.create_session req) sent of_kind = rw sent (
      expect-local as_create_session RpcResponsePayload.create_session Kind.create_session
        (λ p.
          elim p
            as (Extracts as_create_session RpcResponsePayload.create_session Kind.create_session) [
              | RpcResponsePayload.create_session a ↦ λ e. (a, refl, refl)
              | _ ↦ λ e. absurd (cc)
            ])
        response of_kind)
  invoke-local (RpcRequest.get_session req) sent of_kind = rw sent (
      expect-local as_get_session RpcResponsePayload.get_session Kind.get_session
        (λ p. elim p as (Extracts as_get_session RpcResponsePayload.get_session Kind.get_session) [
          | RpcResponsePayload.get_session a ↦ λ e. (a, refl, refl)
          | _ ↦ λ e. absurd (cc)
        ])
        response of_kind)
  invoke-local (RpcRequest.list_sessions req) sent of_kind = rw sent (
      expect-local as_list_sessions RpcResponsePayload.list_sessions Kind.list_sessions
        (λ p.
          elim p
            as (Extracts as_list_sessions RpcResponsePayload.list_sessions Kind.list_sessions) [
              | RpcResponsePayload.list_sessions a ↦ λ e. (a, refl, refl)
              | _ ↦ λ e. absurd (cc)
            ])
        response of_kind)
  invoke-local (RpcRequest.terminate_session req) sent of_kind = rw sent (
      expect-local as_terminate_session RpcResponsePayload.terminate_session Kind.terminate_session
        (λ p.
          elim p
            as (Extracts as_terminate_session RpcResponsePayload.terminate_session
              Kind.terminate_session) [
                | RpcResponsePayload.terminate_session a ↦ λ e. (a, refl, refl)
                | _ ↦ λ e. absurd (cc)
              ])
        response of_kind)
  invoke-local (RpcRequest.write_file req) sent of_kind = rw sent (
      expect-local as_write_file RpcResponsePayload.write_file Kind.write_file
        (λ p. elim p as (Extracts as_write_file RpcResponsePayload.write_file Kind.write_file) [
          | RpcResponsePayload.write_file a ↦ λ e. (a, refl, refl)
          | _ ↦ λ e. absurd (cc)
        ])
        response of_kind)
  invoke-local (RpcRequest.create_directory req) sent of_kind = rw sent (
      expect-local as_create_directory RpcResponsePayload.create_directory Kind.create_directory
        (λ p.
          elim p
            as (Extracts as_create_directory RpcResponsePayload.create_directory
              Kind.create_directory) [
                | RpcResponsePayload.create_directory a ↦ λ e. (a, refl, refl)
                | _ ↦ λ e. absurd (cc)
              ])
        response of_kind)
  invoke-local (RpcRequest.rename req) sent of_kind = rw sent (
      expect-local as_rename RpcResponsePayload.rename Kind.rename
        (λ p. elim p as (Extracts as_rename RpcResponsePayload.rename Kind.rename) [
          | RpcResponsePayload.rename a ↦ λ e. (a, refl, refl)
          | _ ↦ λ e. absurd (cc)
        ])
        response of_kind)
  invoke-local (RpcRequest.delete_file req) sent of_kind = rw sent (
      expect-local as_delete_file RpcResponsePayload.delete_file Kind.delete_file
        (λ p. elim p as (Extracts as_delete_file RpcResponsePayload.delete_file Kind.delete_file) [
          | RpcResponsePayload.delete_file a ↦ λ e. (a, refl, refl)
          | _ ↦ λ e. absurd (cc)
        ])
        response of_kind)
