-- ===== src/Daemon/Process/Wait.antt =====
-- crates/are-daemon/src/process.rs: `wait`, over what its rounds find, which the supervisor and the
-- clock choose.
pub mod Returns
use are.Base.{
  ℕ, ◌+◌, ◌*◌, Bool, true, false, List, [], ◌∷◌, Option, none, some, Result, ok, err, ◌>>=◌, ◌>>◌,
  map_err, leb, if◌then◌else◌,
}
use are.Core.Error.{to_string}
use are.Core.Request.{
  ℤ, WaitProcessResponse, ProcessState, running, exited, failed, WaitProcessRequest, validate_wait,
}
use are.Daemon.Process.{ProcessError, ProcessEntry, ProcessManager, lookup, nanos_per_sec}

-- The response that clones the buffers of the entry.
abbrev pub respond : ProcessEntry → Option ℤ → Bool → WaitProcessResponse
respond entry exit_code timed_out = record {
  stdout = entry.stdout;
  stderr = entry.stderr;
  exit_code = exit_code;
  timed_out = timed_out;
  truncated = entry.truncated;
}

-- The `match` on the status.
abbrev pub finished : ProcessEntry → ProcessState → Option WaitProcessResponse
finished entry running = none
finished entry (exited code) = some (respond entry (some code) false)
finished entry (failed m) = some (respond entry none false)

-- What a round finds: the entry under the first lock, the time, and the entry under the second
-- lock, which is taken when the time is over.
pub record Round : Type 0 where
  pub seen : ProcessEntry
  pub now : ℕ
  pub seen_late : ProcessEntry

-- One round: a response, or none to go on.
unfoldable pub wait_round : ℕ → Round → Option WaitProcessResponse
wait_round deadline round = elim (finished round.seen round.seen.status) [
  | some response ↦ some response
  | none ↦ if leb deadline round.now then some (respond round.seen_late none true) else none
]

-- The loop, up to the rounds that are given.
unfoldable pub wait_loop : ℕ → List Round → Option WaitProcessResponse
wait_loop deadline [] = none
wait_loop deadline (round ∷ rounds) =
    let rest = wait_loop deadline rounds in
    elim (wait_round deadline round) [ some response ↦ some response | none ↦ rest ]

-- `wait`, called at `now`, with the rounds of its loop, each with the lock of the entry that the
-- lookup has given.
unfoldable pub wait :
    ProcessManager
    → WaitProcessRequest
    → ℕ
    → List Round
    → Result ProcessError (Option WaitProcessResponse)
wait m req now rounds = do
  map_err (λ e. ProcessError.invalid_request (to_string e)) (validate_wait req)
  entry ← lookup m req.environment_id req.session_id req.process_id
  ok (wait_loop (now + req.timeout_secs * nanos_per_sec) rounds)
