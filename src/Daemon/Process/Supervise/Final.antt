-- ===== src/Daemon/Process/Supervise/Final.antt =====
-- crates/are-daemon/src/process.rs: the final state of an entry stays as it was published.
use are.Base.{Str, ℕ, ◌≡◌, ◌≢◌, ◌⊎◌, inl, inr, refl, sym, ◌∙◌, true, List}
use are.Daemon.Process.{new_entry}
use are.Daemon.Process.Supervise.{
  StreamKind, stdout, stderr, stopped, append_read, published, Supervised, start, Step,
  asks_to_kill, reads_out, reads_err, ends_out, ends_err, polls, joins, gives_up, publishes, Runs,
  here, next,
}
use are.Daemon.Process.Supervise.Sound.{
  IsLive, IsEnded, IsWhole, append_read-same, supervise-invariant,
}

-- What stays as it was published.
abbrev Stays : Supervised → Supervised → Type 0
Stays s t =
    (t.phase ≡ published)
    × (t.entry.status ≡ s.entry.status)
    × (t.entry.finished_at ≡ s.entry.finished_at)
    × ((s.entry.truncated ≡ true)
        ⊎ ((t.out ≡ stopped)
            × (t.err ≡ stopped)
            × (t.entry.stdout ≡ s.entry.stdout)
            × (t.entry.stderr ≡ s.entry.stderr)))

read-Stays :
    (most : ℕ) (s u : Supervised) (kind : StreamKind) (chunk : List ℕ)
    → ¬ ((u.out ≡ stopped) × (u.err ≡ stopped))
    → Stays s u
    → Stays s (record u { entry = append_read most kind chunk u.entry })
read-Stays most s u kind chunk busy (at, status, finished, inl cut) =
    let same = append_read-same most kind chunk u.entry in
    (at, same.0 ∙ status, same.1 ∙ finished, inl cut)
read-Stays most s u kind chunk busy (at, status, finished, inr idle) =
    absurd (busy (idle.0, idle.1))

Step-Stays : (most : ℕ) (s : Supervised) {u v : Supervised} → Step most u v → Stays s u → Stays s v
Step-Stays most s (asks_to_kill u) h = h
Step-Stays most s (reads_out u chunk busy) h =
    read-Stays most s u stdout chunk (λ idle. busy idle.0) h
Step-Stays most s (reads_err u chunk busy) h =
    read-Stays most s u stderr chunk (λ idle. busy idle.1) h
Step-Stays most s (ends_out u) (at, status, finished, inl cut) = (at, status, finished, inl cut)
Step-Stays most s (ends_out u) (at, status, finished, inr idle) =
    (at, status, finished, inr (refl, idle.1, idle.2, idle.3))
Step-Stays most s (ends_err u) (at, status, finished, inl cut) = (at, status, finished, inl cut)
Step-Stays most s (ends_err u) (at, status, finished, inr idle) =
    (at, status, finished, inr (idle.0, refl, idle.2, idle.3))
Step-Stays most s (polls u answer at) h = let clash = sym at ∙ h.0 in cc
Step-Stays most s (joins u status at out err) h = let clash = sym at ∙ h.0 in cc
Step-Stays most s (gives_up u status at) h = let clash = sym at ∙ h.0 in cc
Step-Stays most s (publishes u status now at) h = let clash = sym at ∙ h.0 in cc

Runs-Stays : (most : ℕ) (s : Supervised) {t : Supervised} → Stays s s → Runs most s t → Stays s t
Runs-Stays most s h here = h
Runs-Stays most s h (next runs step) = Step-Stays most s step (Runs-Stays most s h runs)

-- The same status and finishing time, and the same output unless some is missing.
abbrev pub IsKept : Supervised → Supervised → Type 0
IsKept s t =
    (t.entry.status ≡ s.entry.status)
    × (t.entry.finished_at ≡ s.entry.finished_at)
    × ((s.entry.truncated ≡ true)
        ⊎ ((t.entry.stdout ≡ s.entry.stdout) × (t.entry.stderr ≡ s.entry.stderr)))

-- Once the final state is published, nothing that happens later changes the status or the finishing
-- time; nor, unless the entry says that output is missing, the captured output.
pub supervise-final :
    (most : ℕ) (program : Str) (now : ℕ) (s t : Supervised)
    → Runs most (start (new_entry program now)) s
    → s.phase ≡ published
    → Runs most s t
    → IsKept s t
supervise-final most program now s t first at later =
    outcome (supervise-invariant most program now s first).1
  where
    conclude : Stays s t → IsKept s t
    conclude (still, status, finished, inl cut) = (status, finished, inl cut)
    conclude (still, status, finished, inr idle) = (status, finished, inr (idle.2, idle.3))

    outcome :
        ((s.phase ≢ published) × IsLive s.entry)
          ⊎ ((s.phase ≡ published) × IsEnded s.entry × IsWhole s)
        → IsKept s t
    outcome (inl (other, live)) = absurd (other at)
    outcome (inr (done, _, inl idle)) =
        conclude (Runs-Stays most s (at, refl, refl, inr (idle.0, idle.1, refl, refl)) later)
    outcome (inr (done, _, inr cut)) = conclude (Runs-Stays most s (at, refl, refl, inl cut) later)
