-- ===== src/Daemon/Process/Supervise.antt =====
-- crates/are-daemon/src/process.rs: the supervisor of one child with the two readers of its pipes,
-- as the steps that they and `terminate` take, each in one critical section of the entry. What
-- `try_wait` answers and what the pipes give are chosen from outside.
pub mod Sound
pub mod Final
pub mod Capture
use are.Base.{
  ℕ, ◌+◌, ◌≡◌, ◌≢◌, Bool, true, false, List, Option, none, some, Message, lit, if◌then◌else◌,
}
use are.Core.Error.{◌<+>◌}
use are.Core.Request.{ℤ, ProcessState, running, exited, failed}
use are.Daemon.Process.{ProcessEntry}
use are.Daemon.Process.Output.{Captured, append_chunk}

-- `Child::try_wait`: an ended child has a code unless a signal ended it.
pub data TryWait : Type 0 where
  not_yet : TryWait
  ended : Option ℤ → TryWait
  cannot_tell : Message → TryWait

unfoldable pub final_status : TryWait → Option ProcessState
final_status not_yet = none
final_status (ended (some code)) = some (exited code)
final_status (ended none) = some (failed (lit "process terminated by signal"))
final_status (cannot_tell e) = some (failed (lit "failed to wait for child: " <+> e))

pub data StreamKind : Type 0 where
  stdout : StreamKind
  stderr : StreamKind

-- A reader that is aborted goes on until it stops.
pub data Reader : Type 0 where
  reading : Reader
  stopping : Reader
  stopped : Reader

abbrev pub abort : Reader → Reader
abort stopped = stopped
abort _ = stopping

-- The critical section of `read_capped`, after a read of some bytes.
abbrev pub kept_out : ProcessEntry → Captured → ProcessEntry
kept_out entry c = record entry { stdout = c.buffer; truncated = c.truncated }

abbrev pub kept_err : ProcessEntry → Captured → ProcessEntry
kept_err entry c = record entry { stderr = c.buffer; truncated = c.truncated }

unfoldable pub append_read : ℕ → StreamKind → List ℕ → ProcessEntry → ProcessEntry
append_read max_output_bytes stdout chunk entry = kept_out entry (
    append_chunk max_output_bytes (record { buffer = entry.stdout; truncated = entry.truncated })
      chunk)
append_read max_output_bytes stderr chunk entry = kept_err entry (
    append_chunk max_output_bytes (record { buffer = entry.stderr; truncated = entry.truncated })
      chunk)

-- Where the supervisor stands: it polls, drains the pipes with a final status, has drained them, or
-- has published the status.
pub data Phase : Type 0 where
  polling : Phase
  draining : ProcessState → Phase
  drained : ProcessState → Phase
  published : Phase

pub record Supervised : Type 0 where
  pub entry : ProcessEntry
  pub phase : Phase
  pub out : Reader
  pub err : Reader
  -- The calls of `start_kill`.
  pub kills : ℕ

abbrev pub start : ProcessEntry → Supervised
start entry = record { entry = entry; phase = polling; out = reading; err = reading; kills = 0 }

-- A round of the loop.
unfoldable pub poll : TryWait → Supervised → Supervised
poll answer s =
    let kills = if s.entry.kill_requested then s.kills + 1 else s.kills in
    elim (final_status answer) [
      | none ↦ record s { kills = kills }
      | some status ↦ record s { phase = draining status; kills = kills }
    ]

-- `await_drain` when the time is over.
unfoldable pub abandon : ProcessState → Supervised → Supervised
abandon status s = record s {
  entry = record s.entry { truncated = true };
  phase = drained status;
  out = abort s.out;
  err = abort s.err;
}

unfoldable pub publish : ProcessState → ℕ → Supervised → Supervised
publish status now s = record s {
  entry = record s.entry { status = status; finished_at = some now };
  phase = published;
}

-- One step, for a bound on the output of a stream.
pub data Step (max_output_bytes : ℕ) : Supervised → Supervised → Type 0 where
  asks_to_kill :
      (s : Supervised)
      → Step max_output_bytes s (record s { entry = record s.entry { kill_requested = true } })
  reads_out :
      (s : Supervised) (chunk : List ℕ)
      → s.out ≢ stopped
      → Step max_output_bytes s
          (record s { entry = append_read max_output_bytes stdout chunk s.entry })
  reads_err :
      (s : Supervised) (chunk : List ℕ)
      → s.err ≢ stopped
      → Step max_output_bytes s
          (record s { entry = append_read max_output_bytes stderr chunk s.entry })
  ends_out : (s : Supervised) → Step max_output_bytes s (record s { out = stopped })
  ends_err : (s : Supervised) → Step max_output_bytes s (record s { err = stopped })
  polls :
      (s : Supervised) (answer : TryWait)
      → s.phase ≡ polling
      → Step max_output_bytes s (poll answer s)
  joins :
      (s : Supervised) (status : ProcessState)
      → s.phase ≡ draining status
      → s.out ≡ stopped
      → s.err ≡ stopped
      → Step max_output_bytes s (record s { phase = drained status })
  gives_up :
      (s : Supervised) (status : ProcessState)
      → s.phase ≡ draining status
      → Step max_output_bytes s (abandon status s)
  publishes :
      (s : Supervised) (status : ProcessState) (now : ℕ)
      → s.phase ≡ drained status
      → Step max_output_bytes s (publish status now s)

-- A run.
pub data Runs (max_output_bytes : ℕ) (s : Supervised) : Supervised → Type 0 where
  here : Runs max_output_bytes s s
  next :
      {t u : Supervised}
      → Runs max_output_bytes s t
      → Step max_output_bytes t u
      → Runs max_output_bytes s u
