-- ===== src/Daemon/Auth.antt =====
-- crates/are-daemon/src/auth.rs: who a caller is. BLAKE3 is outside: it is the parameter `hash`, with
-- the hexadecimal text of a digest as its value.
use are.Base.{List, [], ◌∷◌, ◌++◌, Option, none, some, Str, ascii, ℕ}

-- The fingerprint of an authenticated caller; `none` for the path without identity.
abbrev pub Caller : Type 0
Caller = Option Str

unfoldable pub fingerprint_der : (List ℕ → Str) → List ℕ → Str
fingerprint_der hash der = ascii "blake3:" ++ hash der

unfoldable pub from_leaf_der : (List ℕ → Str) → List ℕ → Caller
unfolding fingerprint_der
from_leaf_der hash der = some (fingerprint_der hash der)

-- The certificates of the peer, the leaf first.
unfoldable pub caller_from_peer_certs : (List ℕ → Str) → Option (List (List ℕ)) → Caller
unfolding from_leaf_der
caller_from_peer_certs hash none = none
caller_from_peer_certs hash (some []) = none
caller_from_peer_certs hash (some (leaf ∷ certs)) = from_leaf_der hash leaf
