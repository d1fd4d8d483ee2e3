-- ===== src/Daemon/Process/Supervise/Sound.antt =====
-- crates/are-daemon/src/process.rs: what holds of an entry in every run of its supervisor.
use mathlib.Core.Path.{subst}
use are.Base.{
  Str, ℕ, ◌+◌, ◌-◌, ◌≤◌, ◌≡◌, ◌≢◌, ◌⊎◌, inl, inr, refl, ◌∙◌, true, List, Option, none, some, length,
  take, length-append, arith, if◌then◌else◌, ltb,
}
use are.Core.Request.{ProcessState, running}
use are.Daemon.Process.{ProcessEntry, is_terminal, new_entry}
use are.Daemon.Process.Output.{Captured, append_chunk, length-take}
use are.Daemon.Process.Supervise.{
  TryWait, not_yet, ended, cannot_tell, final_status, StreamKind, stdout, stderr, stopped,
  append_read, Phase, polling, draining, drained, published, Supervised, start, poll, abandon,
  publish, Step, asks_to_kill, reads_out, reads_err, ends_out, ends_err, polls, joins, gives_up,
  publishes, Runs, here, next,
}

-- An entry that runs, and one that has ended.
abbrev pub IsLive : ProcessEntry → Type 0
IsLive entry = (entry.status ≡ running) × (entry.finished_at ≡ none)

abbrev pub IsEnded : ProcessEntry → Type 0
IsEnded entry = (is_terminal entry.status ≡ true) × (entry.finished_at ≢ none)

-- The pipes are drained, or the entry says that output is missing.
abbrev pub IsWhole : Supervised → Type 0
IsWhole s = ((s.out ≡ stopped) × (s.err ≡ stopped)) ⊎ (s.entry.truncated ≡ true)

abbrev AtPhase : Phase → Supervised → Type 0
AtPhase polling s = IsLive s.entry
AtPhase (draining status) s = IsLive s.entry × (is_terminal status ≡ true)
AtPhase (drained status) s = IsLive s.entry × (is_terminal status ≡ true) × IsWhole s
AtPhase published s = IsEnded s.entry × IsWhole s

abbrev pub IsBounded : ℕ → ProcessEntry → Type 0
IsBounded most entry = (length entry.stdout ≤ most) × (length entry.stderr ≤ most)

abbrev IsSound : ℕ → Supervised → Type 0
IsSound most s = AtPhase s.phase s × IsBounded most s.entry

append_chunk-bounded :
    (most : ℕ) (c : Captured) (chunk : List ℕ)
    → length c.buffer ≤ most
    → length (append_chunk most c chunk).buffer ≤ most
unfolding append_chunk
append_chunk-bounded most c chunk h =
    let room = most - length c.buffer in
    let taken = if ltb (length chunk) room then length chunk else room in
    let size = length-take taken chunk in
    let total = length-append c.buffer (take taken chunk) in ground (arith, size, total)

append_chunk-truncated :
    (most : ℕ) (c : Captured) (chunk : List ℕ)
    → c.truncated ≡ true
    → (append_chunk most c chunk).truncated ≡ true
unfolding append_chunk
append_chunk-truncated most c chunk h = ground arith

-- What a read leaves as it is.
pub append_read-same :
    (most : ℕ) (kind : StreamKind) (chunk : List ℕ) (entry : ProcessEntry)
    → let after = append_read most kind chunk entry in
      (after.status ≡ entry.status) × (after.finished_at ≡ entry.finished_at)
unfolding append_read
append_read-same most stdout chunk entry = (refl, refl)
append_read-same most stderr chunk entry = (refl, refl)

append_read-IsBounded :
    (most : ℕ) (kind : StreamKind) (chunk : List ℕ) (entry : ProcessEntry)
    → IsBounded most entry
    → IsBounded most (append_read most kind chunk entry)
unfolding append_read
append_read-IsBounded most stdout chunk entry (out, err) =
    (append_chunk-bounded most _ chunk out, err)
append_read-IsBounded most stderr chunk entry (out, err) =
    (out, append_chunk-bounded most _ chunk err)

append_read-truncated :
    (most : ℕ) (kind : StreamKind) (chunk : List ℕ) (entry : ProcessEntry)
    → entry.truncated ≡ true
    → (append_read most kind chunk entry).truncated ≡ true
unfolding append_read
append_read-truncated most stdout chunk entry h = append_chunk-truncated most _ chunk h
append_read-truncated most stderr chunk entry h = append_chunk-truncated most _ chunk h

-- A reader that is not stopped reads only while the entry is not whole, or says so.
reads-IsWhole :
    (most : ℕ) (kind : StreamKind) (chunk : List ℕ) (s : Supervised)
    → ¬ ((s.out ≡ stopped) × (s.err ≡ stopped))
    → IsWhole s
    → IsWhole (record s { entry = append_read most kind chunk s.entry })
reads-IsWhole most kind chunk s busy (inl idle) = absurd (busy idle)
reads-IsWhole most kind chunk s busy (inr cut) =
    inr (append_read-truncated most kind chunk s.entry cut)

stops_out : (s : Supervised) → IsWhole s → IsWhole (record s { out = stopped })
stops_out s (inl idle) = inl (refl, idle.1)
stops_out s (inr cut) = inr cut

stops_err : (s : Supervised) → IsWhole s → IsWhole (record s { err = stopped })
stops_err s (inl idle) = inl (idle.0, refl)
stops_err s (inr cut) = inr cut

-- A step that changes neither status, nor phase, and keeps the entry whole.
AtPhase-keep :
    (s t : Supervised) (phase : Phase)
    → t.entry.status ≡ s.entry.status
    → t.entry.finished_at ≡ s.entry.finished_at
    → (IsWhole s → IsWhole t)
    → AtPhase phase s
    → AtPhase phase t
AtPhase-keep s t polling e f w (live, unset) = (e ∙ live, f ∙ unset)
AtPhase-keep s t (draining status) e f w ((live, unset), ends) = ((e ∙ live, f ∙ unset), ends)
AtPhase-keep s t (drained status) e f w ((live, unset), ends, whole) =
    ((e ∙ live, f ∙ unset), ends, w whole)
AtPhase-keep s t published e f w ((ends, set), whole) = ((rw (e) ends, rw (f) set), w whole)

final_status-terminal :
    (answer : TryWait) (status : ProcessState)
    → final_status answer ≡ some status
    → is_terminal status ≡ true
unfolding final_status
final_status-terminal not_yet status e = cc
final_status-terminal (ended (some code)) status e = ground arith
final_status-terminal (ended none) status e = ground arith
final_status-terminal (cannot_tell m) status e = ground arith

poll-IsSound :
    (most : ℕ) (answer : TryWait) (s : Supervised)
    → s.phase ≡ polling
    → IsSound most s
    → IsSound most (poll answer s)
unfolding poll
poll-IsSound most answer s at (sound, bounded) = go (final_status answer) refl
  where
    live : IsLive s.entry
    live = subst (λ p. AtPhase p s) at sound

    go :
        (status : Option ProcessState)
        → final_status answer ≡ status
        → IsSound most (elim status [
          | none ↦ record s { kills = if s.entry.kill_requested then s.kills + 1 else s.kills }
          | some status ↦ record s {
            phase = draining status;
            kills = if s.entry.kill_requested then s.kills + 1 else s.kills;
          }
        ])
    go none e = (AtPhase-keep s _ s.phase refl refl (λ w. w) sound, bounded)
    go (some status) e = ((live, final_status-terminal answer status e), bounded)

Step-IsSound : (most : ℕ) {s t : Supervised} → Step most s t → IsSound most s → IsSound most t
unfolding abandon publish
Step-IsSound most (asks_to_kill s) (sound, bounded) =
    (AtPhase-keep s _ s.phase refl refl (λ w. w) sound, bounded)
Step-IsSound most (reads_out s chunk busy) (sound, bounded) = (
  AtPhase-keep s _ s.phase (append_read-same most stdout chunk s.entry).0
      (append_read-same most stdout chunk s.entry).1
      (reads-IsWhole most stdout chunk s (λ idle. busy idle.0)) sound,
  append_read-IsBounded most stdout chunk s.entry bounded,
)
Step-IsSound most (reads_err s chunk busy) (sound, bounded) = (
  AtPhase-keep s _ s.phase (append_read-same most stderr chunk s.entry).0
      (append_read-same most stderr chunk s.entry).1
      (reads-IsWhole most stderr chunk s (λ idle. busy idle.1)) sound,
  append_read-IsBounded most stderr chunk s.entry bounded,
)
Step-IsSound most (ends_out s) (sound, bounded) =
    (AtPhase-keep s _ s.phase refl refl (stops_out s) sound, bounded)
Step-IsSound most (ends_err s) (sound, bounded) =
    (AtPhase-keep s _ s.phase refl refl (stops_err s) sound, bounded)
Step-IsSound most (polls s answer at) h = poll-IsSound most answer s at h
Step-IsSound most (joins s status at out err) (sound, bounded) =
    let (live, ends) = subst (λ p. AtPhase p s) at sound in ((live, ends, inl (out, err)), bounded)
Step-IsSound most (gives_up s status at) (sound, bounded) =
    let (live, ends) = subst (λ p. AtPhase p s) at sound in ((live, ends, inr refl), bounded)
Step-IsSound most (publishes s status now at) (sound, bounded) =
    let (live, ends, whole) = subst (λ p. AtPhase p s) at sound in
    (((ends, λ e. ground arith), whole), bounded)

Runs-IsSound : (most : ℕ) {s t : Supervised} → IsSound most s → Runs most s t → IsSound most t
Runs-IsSound most h here = h
Runs-IsSound most h (next runs step) = Step-IsSound most step (Runs-IsSound most h runs)

sound-outcome :
    (most : ℕ) (s : Supervised) (phase : Phase)
    → AtPhase phase s
    → ((phase ≢ published) × IsLive s.entry) ⊎ ((phase ≡ published) × IsEnded s.entry × IsWhole s)
sound-outcome most s polling h = inl ((λ e. cc), h)
sound-outcome most s (draining status) h = inl ((λ e. cc), h.0)
sound-outcome most s (drained status) h = inl ((λ e. cc), h.0)
sound-outcome most s published h = inr (refl, h.0, h.1)

-- From an entry as `start` makes it, whatever the child, the pipes and `terminate` do and in
-- whatever order: each captured stream stays within the bound; until the supervisor publishes, the
-- entry runs and has no finishing time; and from then on it has a terminal status and a finishing
-- time, and both readers have stopped or the entry says that output is missing.
pub supervise-invariant :
    (most : ℕ) (program : Str) (now : ℕ) (s : Supervised)
    → Runs most (start (new_entry program now)) s
    → IsBounded most s.entry
      × (((s.phase ≢ published) × IsLive s.entry)
          ⊎ ((s.phase ≡ published) × IsEnded s.entry × IsWhole s))
supervise-invariant most program now s runs =
    let (sound, bounded) = Runs-IsSound most (((refl, refl), (omega arith, omega arith))) runs in
    (bounded, sound-outcome most s s.phase sound)
