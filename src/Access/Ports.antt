-- ===== src/Access/Ports.antt =====
-- crates/wfe-core/src/ports.rs: the organisation store, as the engine sees it. The store behind it
-- is a parameter of all that asks it.
use agnoflow_engine.Prelude.{Bool, Option, List, Text}
use agnoflow_engine.Types.Errors.{Fallible}
use agnoflow_engine.Types.Actor.{Uuid, Instant, OrgUnit, DelegationGrant}

pub record OrgPort : Type 0 where
  -- anchor, expression, tenant
  pub resolve_c_orgu : Uuid → Text → Uuid → Fallible (List OrgUnit)
  -- user, unit, role
  pub check_user_role : Uuid → Uuid → Text → Fallible Bool
  pub user_ident : Uuid → Fallible (Option Text)
  -- claimant, tenant, now
  pub active_delegations_for : Uuid → Uuid → Instant → Fallible (List DelegationGrant)
