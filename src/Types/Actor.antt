-- ===== src/Types/Actor.antt =====
-- crates/wfe-core/src/types/actor.rs (`Actor`, `OrgUnit`) and delegation.rs. A `Uuid` is the
-- number of its 128 bits, an instant the number of nanoseconds since a fixed origin.
use agnoflow_engine.Prelude.{ℕ, Bool, Option, Text}
use agnoflow_engine.Types.Json.{Json}
use agnoflow_engine.Types.Wfd.{CandidateActor}

abbrev pub Uuid : Type 0
Uuid = ℕ

abbrev pub Instant : Type 0
Instant = ℕ

pub record Actor : Type 0 where
  pub orgu_id : Uuid
  pub user_id : Uuid
  pub role : Text

pub record OrgUnit : Type 0 where
  pub orgu_id : Uuid
  pub orgu_type : Json
  pub path : Text

pub record DelegationGrant : Type 0 where
  pub delegation_id : Uuid
  pub delegator_user_id : Uuid
  pub seat_orgu_id : Uuid
  pub seat_role : Text
  pub grantee : CandidateActor

-- v22/ownership.rs: the rule that lets a person own the work
pub data ClaimAuthority : Type 0 where
  ca grant : ClaimAuthority

-- a candidate as the store's column keeps it
pub record ResolvedCandidate : Type 0 where
  pub orgu_id : Option Uuid
  pub role : Text
  pub user_id : Option Uuid
  pub user_ident : Option Text
  pub any_orgu : Bool
  pub authority : Option ClaimAuthority
