-- ===== src/Daemon/Process/Bounded/Runs.antt =====
-- crates/are-daemon/src/process.rs: the bound on the process table, over all runs of the operations.
use are.Base.{
  pair_eq, str_eq, ℕ, inl, inr, true, List, [], ◌∷◌, Option, none, some, arith, Result-cases,
  Option-cases, Bool-cases,
}
use are.Base.Dict.{get, insert}
use are.Core.Ids.{EnvironmentId, SessionId}
use are.Core.Request.{ExecuteRequest, TerminateProcessRequest, SessionInfo}
use are.Daemon.Os.{Os}
use are.Daemon.Process.{
  ProcessKey, ProcessEntry, ProcessManager, reserve, check_start, start, lookup, terminate,
  kill_session_processes, is_terminal,
}
use are.Daemon.Process.Env.{merge_session_env}
use are.Daemon.Process.Bounded.{
  IsBoundedTable, replace-IsBoundedTable, remove-IsBoundedTable, reserve-IsBoundedTable,
  kill_all-same,
}

abbrev pub IsManaged : ProcessManager → Type 0
IsManaged m = IsBoundedTable m.config m.processes

start-IsManaged :
    (os : Os) (m : ProcessManager) (req : ExecuteRequest) (session : SessionInfo) (now : ℕ)
    → IsManaged m
    → IsManaged (start os m req session now).1
unfolding start
start-IsManaged os m req session now h = elim (Result-cases (check_start os m req session)) [
  | inr (e, refused) ↦ rw (start, refused) h
  | inl (workdir, checked) ↦
      let reserved = reserve-IsBoundedTable os m.config m.processes req now h in
      let table = (reserve os m.config m.processes req now).1 in
      elim (Result-cases (reserve os m.config m.processes req now).0) [
        | inr (e, full) ↦ rw (start, checked, full) reserved
        | inl (key, chosen) ↦
            elim (Result-cases (
              os.spawn req.program req.args workdir
                (merge_session_env session.env_vars req.env_vars))) [
                  | inl (u, spawned) ↦ rw (start, checked, chosen, spawned) reserved
                  | inr (e, failed) ↦
                      rw (start, checked, chosen, failed)
                        (remove-IsBoundedTable m.config
                          (req.environment_id, (req.session_id, key.1.1)) table reserved)
                ]
      ]
]

terminate-IsManaged :
    (m : ProcessManager) (req : TerminateProcessRequest)
    → IsManaged m
    → IsManaged (terminate m req).1
unfolding terminate lookup
terminate-IsManaged m req h =
    elim (Option-cases (get (req.environment_id, (req.session_id, req.process_id)) m.processes)) [
      | inl missing ↦ rw (terminate, lookup, missing) h
      | inr (entry, there) ↦ elim (Bool-cases (is_terminal entry.status)) [
        | inl ended ↦ rw (terminate, lookup, there, ended) h
        | inr live ↦
            rw (terminate, lookup, there, live)
              (replace-IsBoundedTable m.config
                (req.environment_id, (req.session_id, req.process_id))
                (record entry { kill_requested = true }) entry m.processes there h)
      ]
    ]

kill-IsManaged :
    (m : ProcessManager) (env : EnvironmentId) (sess : SessionId)
    → IsManaged m
    → IsManaged (kill_session_processes m env sess).1
unfolding kill_session_processes
kill-IsManaged m env sess (u, bound) =
    let same = kill_all-same env sess m.processes u in (same.0, omega (arith, same.1, bound))

-- What is done to the table: the operations of the manager, and what the supervisor and the readers
-- of a process write into its entry.
pub data Operation : Type 0 where
  starts : Os → ExecuteRequest → SessionInfo → ℕ → Operation
  terminates : TerminateProcessRequest → Operation
  kills : EnvironmentId → SessionId → Operation
  writes : ProcessKey → ProcessEntry → Operation

abbrev written : ProcessManager → ProcessKey → ProcessEntry → Option ProcessEntry → ProcessManager
written m key entry none = m
written m key entry (some old) = record m { processes = insert key entry m.processes }

unfoldable pub perform : ProcessManager → Operation → ProcessManager
unfolding start terminate kill_session_processes
perform m (starts os req session now) = (start os m req session now).1
perform m (terminates req) = (terminate m req).1
perform m (kills env sess) = (kill_session_processes m env sess).1
perform m (writes key entry) = written m key entry (get key m.processes)

unfoldable pub run : ProcessManager → List Operation → ProcessManager
unfolding perform
run m [] = m
run m (op ∷ ops) = run (perform m op) ops

perform-IsManaged : (m : ProcessManager) (op : Operation) → IsManaged m → IsManaged (perform m op)
unfolding perform
perform-IsManaged m (starts os req session now) h = start-IsManaged os m req session now h
perform-IsManaged m (terminates req) h = terminate-IsManaged m req h
perform-IsManaged m (kills env sess) h = kill-IsManaged m env sess h
perform-IsManaged m (writes key entry) h = elim (Option-cases (get key m.processes)) [
  | inl missing ↦ rw (missing) h
  | inr (old, there) ↦
      rw (there) (replace-IsBoundedTable m.config key entry old m.processes there h)
]

-- From a manager whose table has every key once and keeps the bound, as an empty one has: however
-- often processes are started, terminated and killed, and whatever is written into their entries,
-- each key stands once in the table and it never has more than `max_processes` entries.
pub run-IsManaged :
    (m : ProcessManager) (ops : List Operation) → IsManaged m → IsManaged (run m ops)
unfolding run
run-IsManaged m [] h = h
run-IsManaged m (op ∷ ops) h = run-IsManaged (perform m op) ops (perform-IsManaged m op h)
