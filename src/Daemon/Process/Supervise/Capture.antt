-- ===== src/Daemon/Process/Supervise/Capture.antt =====
-- crates/are-daemon/src/process.rs: what the entry of a child has of its output.
use are.Base.{
  ℕ, ◌<◌, ◌≡◌, refl, sym, inl, inr, Bool, true, false, ◌||◌, List, [], ◌++◌, Str, arith, take,
  length, length-append, ltb, Option-cases,
}
use are.Daemon.Process.{ProcessEntry, new_entry}
use are.Daemon.Process.Output.{append_chunk-kept, take-all_nil}
use are.Daemon.Process.Supervise.{
  TryWait, final_status, append_read, Supervised, start, poll, abandon, publish, Step, asks_to_kill,
  reads_out, reads_err, ends_out, ends_err, polls, joins, gives_up, publishes, Runs, here, next,
}

-- What has come out of the two pipes, and whether the time of `await_drain` has been over.
pub record Came : Type 0 where
  pub out : List ℕ
  pub err : List ℕ
  pub gave_up : Bool

module _ {most : ℕ} where
  abbrev pub come : {s t : Supervised} → Step most s t → Came → Came
  come (reads_out s chunk busy) c = record c { out = c.out ++ chunk }
  come (reads_err s chunk busy) c = record c { err = c.err ++ chunk }
  come (gives_up s status at) c = record c { gave_up = true }
  come _ c = c

  abbrev pub came : {s t : Supervised} → Runs most s t → Came
  came here = record { out = []; err = []; gave_up = false }
  came (next runs step) = come step (came runs)

  -- A read gives some bytes: a read of none is the end of the pipe.
  abbrev pub ReadsSome : {s t : Supervised} → Step most s t → Type 0
  ReadsSome (reads_out s chunk busy) = 0 < length chunk
  ReadsSome (reads_err s chunk busy) = 0 < length chunk
  ReadsSome _ = Unit

  abbrev pub AllReadSome : {s t : Supervised} → Runs most s t → Type 0
  AllReadSome here = Unit
  AllReadSome (next runs step) = AllReadSome runs × ReadsSome step

-- Each buffer has the first bytes of its stream, and the flag says whether there were more of either
-- or the readers have been given up.
abbrev pub IsCapture : ℕ → Came → ProcessEntry → Type 0
IsCapture most c entry =
    (entry.stdout ≡ take most c.out)
    × (entry.stderr ≡ take most c.err)
    × (entry.truncated ≡ (c.gave_up || (ltb most (length c.out) || ltb most (length c.err))))

poll-entry : (answer : TryWait) (s : Supervised) → (poll answer s).entry ≡ s.entry
unfolding poll
poll-entry answer s = elim (Option-cases (final_status answer)) [
  | inl running ↦ rw (running, poll) refl
  | inr (status, ended) ↦ rw (ended, poll) refl
]

Step-IsCapture :
    (most : ℕ) {s t : Supervised} (step : Step most s t) (c : Came)
    → ReadsSome step
    → IsCapture most c s.entry
    → IsCapture most (come step c) t.entry
unfolding append_read abandon publish
Step-IsCapture most (asks_to_kill s) c reads h = h
Step-IsCapture most (reads_out s chunk busy) c reads (out, err, cut) =
    let (kept, flag) = append_chunk-kept most c.out chunk _ reads out in
    let total = length-append c.out chunk in (kept, err, ground (arith, flag, total))
Step-IsCapture most (reads_err s chunk busy) c reads (out, err, cut) =
    let (kept, flag) = append_chunk-kept most c.err chunk _ reads err in
    let total = length-append c.err chunk in (out, kept, ground (arith, flag, total))
Step-IsCapture most (ends_out s) c reads h = h
Step-IsCapture most (ends_err s) c reads h = h
Step-IsCapture most (polls s answer at) c reads h = rw (poll-entry answer s) h
Step-IsCapture most (joins s status at out err) c reads h = h
Step-IsCapture most (gives_up s status at) c reads (out, err, cut) = (out, err, refl)
Step-IsCapture most (publishes s status now at) c reads h = h

Runs-IsCapture :
    (most : ℕ) {s t : Supervised} (runs : Runs most s t)
    → AllReadSome runs
    → IsCapture most (record { out = []; err = []; gave_up = false }) s.entry
    → IsCapture most (came runs) t.entry
Runs-IsCapture most here reads h = h
Runs-IsCapture most (next runs step) (before, last) h =
    Step-IsCapture most step (came runs) last (Runs-IsCapture most runs before h)

-- From an entry as `start` makes it, in every run in which a read gives at least one byte, however
-- the output of the child is split into reads and however the two readers, the supervisor and
-- `terminate` take turns: each buffer holds the first `max_output_bytes` bytes that have come out of
-- its pipe, and the one flag `truncated` is set exactly when more has come out of one of the two, or
-- the time for draining them has been over.
pub supervise-IsCapture :
    (most : ℕ) (program : Str) (now : ℕ) (s : Supervised)
    (runs : Runs most (start (new_entry program now)) s)
    → AllReadSome runs
    → IsCapture most (came runs) s.entry
supervise-IsCapture most program now s runs reads =
    Runs-IsCapture most runs reads (sym (take-all_nil most), sym (take-all_nil most), ground arith)
