-- ===== src/Core/Platform.antt =====
-- crates/are-core/src/platform.rs and environment.rs: what an environment runs on.
use are.Base.{Str, lit, bytes, is_empty, Message, Result, ok, err, if◌then◌else◌}
use are.Core.Error.{CoreError, invalid_request, ◌<+>◌}
use are.Core.Ids.{EnvironmentId}
use are.Core.Capability.{CapabilitySet}

pub data Platform : Type 0 where
  debian : Platform
  ubuntu : Platform
  generic_linux : Platform
  unknown : Str → Platform

-- The `Display` text.
unfoldable pub platform_text : Platform → Message
platform_text debian = lit "Debian"
platform_text ubuntu = lit "Ubuntu"
platform_text generic_linux = lit "Generic Linux"
platform_text (unknown s) = lit "Unknown (" <+> bytes s <+> lit ")"

pub record EnvironmentMetadata : Type 0 where
  pub created_at : Str
  pub version : Str

pub record Environment : Type 0 where
  pub id : EnvironmentId
  pub name : Str
  pub platform : Platform
  pub advertised_capabilities : CapabilitySet
  pub metadata : EnvironmentMetadata

unfoldable pub validate_environment : Environment → Result CoreError (Unit {0})
validate_environment environment =
    if is_empty environment.name
    then err (invalid_request (lit "environment name must not be empty"))
    else ok tt
