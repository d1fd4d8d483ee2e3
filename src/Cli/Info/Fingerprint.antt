-- ===== src/Cli/Info/Fingerprint.antt =====
-- crates/are-cli/src/main.rs and crates/are-daemon/src/auth.rs: the two derive the same fingerprint.
use are.Base.{ℕ, ◌≡◌, refl, ap, List, [], ◌∷◌, some, Str, ok, bytes}
use are.Daemon.Auth.{caller_from_peer_certs}
use are.Cli.Terminal.{Console, prints}
use are.Cli.Info.{fingerprint_text, print_fingerprint, fingerprint}

-- `are fingerprint` of a certificate file prints the text under which the daemon, which hashes
-- alike, knows a client whose leaf is the first certificate of that file.
fingerprint-caller_from_peer_certs :
    (console : Console) (cert : Str) (text der : List ℕ) (chain : List (List ℕ))
    → console.read cert ≡ ok text
    → console.first_certificate text ≡ some (ok der)
    → (fp : Str) × (fingerprint console cert ≡ prints (bytes fp ∷ []))
      × (caller_from_peer_certs console.hash (some (der ∷ chain)) ≡ some fp)
unfolding fingerprint caller_from_peer_certs fingerprint_text
fingerprint-caller_from_peer_certs console cert text der chain read first = (
  fingerprint_text console der,
  rw (fingerprint, read) (ap (print_fingerprint console cert) first),
  refl,
)
