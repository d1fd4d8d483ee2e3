-- ===== src/Core/Capability.antt =====
-- crates/are-core/src/capability.rs: the capabilities that an environment advertises. A set is the
-- list of its members.
use are.Base.{
  ◌≡◌, refl, ◌↔◌, Bool, List, ◌∷◌, Str, ascii, arith, all, any, bytes, Result, ok, err,
  if◌then◌else◌, ◌==◌, ==_iff, str_eq,
}
use are.Core.Error.{CoreError, invalid_capability}

pub data Capability : Type 0 where
  filesystem_read filesystem_write filesystem_list : Capability
  process_execute process_inspect process_terminate : Capability

abbrev pub as_str : Capability → Str
as_str filesystem_read = ascii "filesystem.read"
as_str filesystem_write = ascii "filesystem.write"
as_str filesystem_list = ascii "filesystem.list"
as_str process_execute = ascii "process.execute"
as_str process_inspect = ascii "process.inspect"
as_str process_terminate = ascii "process.terminate"

unfoldable pub parse_str : Str → Result CoreError Capability
parse_str s =
    if s == ascii "filesystem.read"
    then ok filesystem_read
    else if s == ascii "filesystem.write"
    then ok filesystem_write
    else if s == ascii "filesystem.list"
    then ok filesystem_list
    else if s == ascii "process.execute"
    then ok process_execute
    else if s == ascii "process.inspect"
    then ok process_inspect
    else if s == ascii "process.terminate"
    then ok process_terminate
    else err (invalid_capability (bytes s))

abbrev pub CapabilitySet : Type 0
CapabilitySet = List Capability

abbrev pub capability_beq : Capability → Capability → Bool
capability_beq a b = as_str a == as_str b

abbrev pub set_contains : CapabilitySet → Capability → Bool
set_contains set cap = any (capability_beq cap) set

unfoldable pub is_subset : CapabilitySet → CapabilitySet → Bool
is_subset set other = all (set_contains other) set

unfoldable pub grants : CapabilitySet → CapabilitySet → Bool
unfolding is_subset
grants set required = is_subset required set

abbrev pub set_insert : Capability → CapabilitySet → CapabilitySet
set_insert cap set = if set_contains set cap then set else cap ∷ set

-- A text is the name of a capability exactly when it parses to it.
pub parse_str_iff : (s : Str) (cap : Capability) → (parse_str s ≡ ok cap) ↔ (s ≡ as_str cap)
unfolding parse_str str_eq
parse_str_iff s cap = (
  λ e. ground (
    arith,
    ==_iff s (ascii "filesystem.read"),
    ==_iff s (ascii "filesystem.write"),
    ==_iff s (ascii "filesystem.list"),
    ==_iff s (ascii "process.execute"),
    ==_iff s (ascii "process.inspect"),
    ==_iff s (ascii "process.terminate"),
  ),
  λ e. rw (e) (named cap),
)
  where
    named : (cap : Capability) → parse_str (as_str cap) ≡ ok cap
    named filesystem_read = refl
    named filesystem_write = refl
    named filesystem_list = refl
    named process_execute = refl
    named process_inspect = refl
    named process_terminate = refl
