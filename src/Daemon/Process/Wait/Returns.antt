-- ===== src/Daemon/Process/Wait/Returns.antt =====
-- crates/are-daemon/src/process.rs: `wait` ends, and says what it has seen.
use are.Base.{
  pair_eq, str_eq, ℕ, ◌+◌, ◌*◌, ◌≤◌, ◌<◌, ◌≡◌, ◌⊎◌, inl, inr, refl, true, false, List, [], ◌∷◌,
  ◌++◌, Option, none, some, All, ok, leb, arith,
}
use are.Base.Dict.{get}
use are.Core.Request.{ℤ, ProcessState, running, exited, failed, WaitProcessRequest, validate_wait}
use are.Daemon.Process.{ProcessEntry, ProcessManager, is_terminal, lookup, nanos_per_sec}
use are.Core.Request.{WaitProcessResponse}
use are.Daemon.Process.Wait.{Round, respond, wait_round, wait_loop, wait}

-- The code of a status.
abbrev pub exit_code : ProcessState → Option ℤ
exit_code (exited code) = some code
exit_code _ = none

-- What a round answers that finds the process ended, or the time over.
abbrev pub answer : Round → ProcessState → WaitProcessResponse
answer round running = respond round.seen_late none true
answer round status = respond round.seen (exit_code status) false

-- A round that goes on.
abbrev pub IsIdle : ℕ → Round → Type 0
IsIdle deadline round = (round.seen.status ≡ running) × (round.now < deadline)

wait_round-idle :
    (deadline : ℕ) (round : Round) → IsIdle deadline round → wait_round deadline round ≡ none
unfolding wait_round
wait_round-idle deadline round (live, early) =
    let before : leb deadline round.now ≡ false = ground arith in rw (live, before) refl

wait_round-ends :
    (deadline : ℕ) (round : Round) (status : ProcessState)
    → round.seen.status ≡ status
    → (is_terminal status ≡ true) ⊎ (deadline ≤ round.now)
    → wait_round deadline round ≡ some (answer round status)
unfolding wait_round
wait_round-ends deadline round running e (inl ends) = cc
wait_round-ends deadline round running e (inr late) =
    let after : leb deadline round.now ≡ true = ground arith in rw (e, after) refl
wait_round-ends deadline round (exited code) e h = rw (e) refl
wait_round-ends deadline round (failed m) e h = rw (e) refl

wait_loop-ends :
    (deadline : ℕ) (early : List Round) (round : Round) (later : List Round)
    → All (IsIdle deadline) early
    → (is_terminal round.seen.status ≡ true) ⊎ (deadline ≤ round.now)
    → wait_loop deadline (early ++ round ∷ later) ≡ some (answer round round.seen.status)
unfolding wait_loop
wait_loop-ends deadline [] round later h ends =
    rw (wait_loop, wait_round-ends deadline round round.seen.status refl ends) refl
wait_loop-ends deadline (first ∷ early) round later (idle, h) ends =
    rw (wait_loop, wait_round-idle deadline first idle)
      (wait_loop-ends deadline early round later h ends)

-- A valid request for a process that is in the table returns at the first round that finds the
-- process ended or the time over, whatever would come later. If that round has found the process
-- ended, the response has the output and the exit code that it found, without `timed_out`; else it
-- has `timed_out`, no code, and the output that the second lock finds.
pub wait-returns :
    (m : ProcessManager) (req : WaitProcessRequest) (start : ℕ) (found : ProcessEntry)
    (early : List Round) (round : Round) (later : List Round)
    → validate_wait req ≡ ok tt
    → get (req.environment_id, (req.session_id, req.process_id)) m.processes ≡ some found
    → let deadline = start + req.timeout_secs * nanos_per_sec in
      All (IsIdle deadline) early
      → (is_terminal round.seen.status ≡ true) ⊎ (deadline ≤ round.now)
      → wait m req start (early ++ round ∷ later) ≡ ok (some (answer round round.seen.status))
unfolding wait lookup
wait-returns m req start found early round later valid there waits ends =
    rw
      (
        valid,
        there,
        wait_loop-ends (start + req.timeout_secs * nanos_per_sec) early round later waits ends,
      )
      refl
