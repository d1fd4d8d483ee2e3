-- ===== src/Tests/Supervise.antt =====
-- Runs of the theorems on the supervisor and the wait.
use are.Base.{
  pair_eq, str_eq, ◌≡◌, ◌≢◌, ◌⊎◌, inl, refl, true, false, [], ◌∷◌, some, ascii, ok, arith,
}
use are.Base.Dict.{get}
use are.Core.Request.{exited, pos, WaitProcessRequest, validate_wait}
use are.Daemon.Process.{new_entry}
use are.Daemon.Process.Supervise.{
  reading, Supervised, start, ended, stopped, published, poll, publish, final_status, drained, Runs,
  here, next, polls, ends_out, ends_err, joins, publishes, asks_to_kill, reads_out, reads_err,
  append_read, stdout, stderr,
}
use are.Daemon.Process.Supervise.Sound.{IsBounded, IsLive, IsEnded, IsWhole, supervise-invariant}
use are.Daemon.Process.Supervise.Capture.{IsCapture, came, supervise-IsCapture}
use are.Daemon.Process.Supervise.Final.{IsKept, supervise-final}
use are.Daemon.Process.Wait.{Round, respond, wait}
use are.Daemon.Process.Wait.Returns.{wait-returns}
use are.Daemon.Process.Bounded.Runs as Runs
use are.Daemon.Process.Bounded.Runs.{IsManaged, kills, writes, run-IsManaged}
use are.Tests.Data.{key, env, sid, entry, one_process}

-- The child ends with code 0, the pipes are drained, and the state is published at time 9.
abbrev polled : Supervised
polled = poll (ended (some (pos 0))) (start (new_entry (ascii "git") 3))

abbrev joined : Supervised
joined = record polled { out = stopped; err = stopped; phase = drained (exited (pos 0)) }

abbrev finished : Supervised
finished = publish (exited (pos 0)) 9 joined

run : Runs 4 (start (new_entry (ascii "git") 3)) finished
unfolding poll final_status publish
run =
    next
      (next
        (next (next (next here (polls _ (ended (some (pos 0))) refl)) (ends_out _)) (ends_err _))
        (joins _ (exited (pos 0)) refl refl refl))
      (publishes _ (exited (pos 0)) 9 refl)

-- Two bytes on the standard output, and six, in two reads, on the other, of which four are kept.
abbrev read_once : Supervised
read_once = record (start (new_entry (ascii "git") 3)) {
  entry = append_read 4 stdout (1 ∷ 2 ∷ []) (new_entry (ascii "git") 3);
}

abbrev read_twice : Supervised
read_twice = record read_once { entry = append_read 4 stderr (3 ∷ 4 ∷ 5 ∷ []) read_once.entry }

abbrev read_thrice : Supervised
read_thrice = record read_twice { entry = append_read 4 stderr (6 ∷ 7 ∷ 8 ∷ []) read_twice.entry }

is_reading : reading ≢ stopped
is_reading e = cc

abbrev reading_run : Runs 4 (start (new_entry (ascii "git") 3)) read_thrice
reading_run =
    next
      (next (next here (reads_out _ (1 ∷ 2 ∷ []) is_reading))
        (reads_err _ (3 ∷ 4 ∷ 5 ∷ []) is_reading))
      (reads_err _ (6 ∷ 7 ∷ 8 ∷ []) is_reading)

supervise-IsCapture_example : IsCapture 4 (came reading_run) read_thrice.entry
supervise-IsCapture_example =
    supervise-IsCapture 4 (ascii "git") 3 read_thrice reading_run
      (((tt, omega arith), omega arith), omega arith)

supervise-invariant_example :
    IsBounded 4 finished.entry
    × (((finished.phase ≢ published) × IsLive finished.entry)
        ⊎ ((finished.phase ≡ published) × IsEnded finished.entry × IsWhole finished))
supervise-invariant_example = supervise-invariant 4 (ascii "git") 3 finished run

abbrev asked : Supervised
asked = record finished { entry = record finished.entry { kill_requested = true } }

is_published : finished.phase ≡ published
unfolding publish
is_published = refl

supervise-final_example : IsKept finished asked
supervise-final_example =
    supervise-final 4 (ascii "git") 3 finished asked run is_published
      (next here (asks_to_kill finished))

abbrev request : WaitProcessRequest
request = record {
  environment_id = env;
  session_id = sid;
  process_id = ascii "proc-1";
  timeout_secs = 1;
}

-- The first round finds the process running, and the second finds it ended.
abbrev running_round : Round
running_round = record { seen = entry; now = 6; seen_late = entry }

abbrev ended_round : Round
ended_round = record {
  seen = record entry { status = exited (pos 2) };
  now = 7;
  seen_late = record entry { status = exited (pos 2) };
}

wait-returns_example :
    wait one_process request 5 (running_round ∷ ended_round ∷ [])
    ≡ ok (some (respond ended_round.seen (some (pos 2)) false))
unfolding validate_wait get str_eq pair_eq
wait-returns_example =
    wait-returns one_process request 5 entry (running_round ∷ []) ended_round [] refl refl
      ((refl, omega arith), tt) (inl refl)

one_process-IsManaged : IsManaged one_process
unfolding get
one_process-IsManaged = ((refl, tt), omega arith)

run-IsManaged_example : IsManaged (
    Runs.run one_process (
      kills env sid
      ∷ writes key (record entry { status = exited (pos 0); finished_at = some 4 })
      ∷ []))
run-IsManaged_example =
    run-IsManaged one_process
      (kills env sid
        ∷ writes key (record entry { status = exited (pos 0); finished_at = some 4 })
        ∷ [])
      one_process-IsManaged
