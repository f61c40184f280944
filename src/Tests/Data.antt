-- ===== src/Tests/Data.antt =====
-- The instance, its workflow, its people and its stores that the runs share.
use agnoflow_engine.Prelude.{
  ℕ, true, Option, none, some, [], ◌∷◌, Text, codes, if◌then◌else◌, ◌==◌, ok, err,
}
use agnoflow_engine.Types.Json.{null, bool, obj}
use agnoflow_engine.Types.Actor.{Actor, OrgUnit, DelegationGrant}
use agnoflow_engine.Types.Wfah.{WfahEntry, Wfah}
use agnoflow_engine.Types.Wfd.{
  literal, selector, CandidateActor, CaGrantRule, GlobalAction, WfAdminRule, JoinRule,
  EscalationStep, NodeDef, Wfd,
}
use agnoflow_engine.Types.Wfes.{WfeStatus, Wfes}
use agnoflow_engine.Types.Host.{Host}
use agnoflow_engine.Access.Ports.{OrgPort}
use agnoflow_engine.Access.Matcher.{MatchEnv}

-- an evaluator that finds every guard true
abbrev pub host : Host
host = record {
  uuid_text = λ id. codes "u";
  parse_uuid = λ s. err (codes "no uuid");
  format_timestamp = λ at. codes "20260101000000";
  rfc3339 = λ at. codes "2026-01-01T00:00:00Z";
  json_text = λ v. codes "{}";
  zen = λ expr context. ok (bool true);
  schema_errors = λ schema value. some [];
}

abbrev pub alice : Actor
alice = record { orgu_id = 1; user_id = 10; role = codes "clerk" }

abbrev pub bob : Actor
bob = record { orgu_id = 2; user_id = 20; role = codes "guest" }

abbrev pub unit_one : OrgUnit
unit_one = record { orgu_id = 1; orgu_type = null; path = codes "1" }

abbrev pub clerks : CandidateActor
clerks = record {
  c_orgu = some (selector (codes "self"));
  c_r = some (codes "clerk" ∷ []);
  c_u = none;
}

-- those whom the store knows by this name
abbrev pub named : Text → CandidateActor
named name = record { c_orgu = none; c_r = none; c_u = some (literal name ∷ []) }

-- bob may stand in for the clerk's seat of alice
abbrev pub to_bob : DelegationGrant
to_bob = record {
  delegation_id = 77;
  delegator_user_id = 10;
  seat_orgu_id = 1;
  seat_role = codes "clerk";
  grantee = named (codes "bob");
}

abbrev pub name_of : ℕ → Text
name_of user = if user == 10 then codes "alice" else codes "bob"

-- the store: one unit, the clerk's role for all who ask, and bob's delegation
abbrev pub org : OrgPort
org = record {
  resolve_c_orgu = λ anchor expr tenant. ok (unit_one ∷ []);
  check_user_role = λ user orgu role. ok true;
  user_ident = λ user. ok (some (name_of user));
  active_delegations_for = λ user tenant at. ok (to_bob ∷ []);
}

abbrev pub row : ℕ → Text → Option Text → WfahEntry
row seq action to_node = record {
  seq = seq;
  action = action;
  actor = alice;
  input = none;
  applied_at = seq;
  from_node = none;
  to_node = to_node;
  branch_entry = none;
  branch_round = none;
}

abbrev pub grant_to : Text → CaGrantRule
grant_to name = record { c_a = named name; when = some (codes "true") }

abbrev pub day_step : EscalationStep
day_step = record { after = codes "P1D"; wfes_effects = none; grant = grant_to (codes "bob") }

abbrev pub review : NodeDef
review = record {
  c_a = clerks;
  reassign = none;
  escalation = day_step ∷ [];
  claim_timeout = none;
  call = none;
  listable = [];
  attachments = [];
}

abbrev pub admins : WfAdminRule
admins = record {
  grant = grant_to (codes "alice");
  allowed_global_actions = GlobalAction.cancel ∷ [];
}

abbrev pub wfd : Wfd
wfd = record {
  wfd_version = codes "2.3";
  id = codes "leave";
  timeout = none;
  context = null;
  nodes = (codes "review", review) ∷ [];
  start = [];
  actions = [];
  autoexec = [];
  calls = [];
  terminals = [];
  attachments = [];
  listable = grant_to (codes "carol") ∷ [];
  wf_admin = admins ∷ [];
}

abbrev pub wfes_with : Wfah → Wfes
wfes_with ledger = record {
  wfe_id = 5;
  orgtnt_id = 9;
  environment_id = none;
  wfd_id = 6;
  wfd_version = 1;
  dynctx = obj [];
  wfah = ledger;
  status = WfeStatus.active;
  current_node = some (codes "review");
  end_terminal = none;
  assigned_to = some 20;
  end_response = none;
  deadline = none;
  claimed_at = none;
  created_at = 0;
  branches = [];
  join_target = none;
  join_rule = JoinRule.all;
  visited_nodes = codes "draft" ∷ [];
  origin_orgu_id = some 1;
}

-- the start, and then the escalation of the step 0
abbrev pub ledger : Wfah
ledger =
    row 1 (codes "submit") (some (codes "review")) ∷ row 2 (codes "escalate:review:0") none ∷ []

abbrev pub wfes : Wfes
wfes = wfes_with ledger

abbrev pub env : MatchEnv
env = record { context = obj []; ledger = ledger; orgtnt_id = 9 }
