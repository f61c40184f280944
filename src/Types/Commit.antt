-- ===== src/Types/Commit.antt =====
-- crates/wfe-core/src/v22/ports.rs: what a transition hands to the store (`TransitionCommit`,
-- `NewWfe`), and the runner of autoexecs, which is a parameter. The columns that the executor fills
-- later (`view_c_a` and its kin), which the engine leaves empty, are left out.
use agnoflow_engine.Prelude.{ℕ, codes, Option, List, Text, Result}
use agnoflow_engine.Types.Json.{Json}
use agnoflow_engine.Types.Actor.{Uuid, Instant, Actor, ResolvedCandidate}
use agnoflow_engine.Types.Wfah.{Wfah, WfahEntry}
use agnoflow_engine.Types.Wfd.{CallMode, StartAs, AutoexecDef}
use agnoflow_engine.Env.{RunEnv}
use agnoflow_engine.Ledger.Valid.{ValidRules}
use agnoflow_engine.Outcome.{CommitOutcome}

pub data CallSite : Type 0 where
  node terminal : Text → CallSite

abbrev pub site_kind : CallSite → Text
site_kind (CallSite.node key) = codes "node"
site_kind (CallSite.terminal key) = codes "terminal"

abbrev pub site_key : CallSite → Text
site_key (CallSite.node key) = key
site_key (CallSite.terminal key) = key

pub record StagedCall : Type 0 where
  pub call_key : Text
  pub mode : CallMode
  pub site : CallSite
  pub input : Json
  pub deadline : Option Instant
  pub start_as : StartAs
  pub max_next : Option ℕ

pub data ClaimRecheck : Type 0 where
  kept not_applicable : ClaimRecheck
  released : WfahEntry → ClaimRecheck

pub record TransitionCommit : Type 0 where
  pub wfe_id : Uuid
  pub orgtnt_id : Uuid
  pub new_dynctx : Json
  pub wfah_entries : List WfahEntry
  pub outcome : CommitOutcome
  pub resolved_c_a : List ResolvedCandidate
  pub staged_calls : List StagedCall
  pub claim_recheck : ClaimRecheck
  pub end_terminal : Option Text

pub record NewWfe : Type 0 where
  pub wfe_id : Uuid
  pub orgtnt_id : Uuid
  pub wfd_id : Uuid
  pub initial_dynctx : Json
  pub wfah_entries : List WfahEntry
  pub outcome : CommitOutcome
  pub resolved_c_a : List ResolvedCandidate
  pub deadline : Option Instant
  pub staged_calls : List StagedCall
  pub origin_orgu_id : Uuid
  pub end_terminal : Option Text

pub record ExecFailure : Type 0 where
  pub error : Text
  pub message : Text

pub record ExecEnv : Type 0 where
  pub wfe_id : Uuid
  pub context : Json
  pub node : Option Text
  pub actor : Actor
  pub wfah : Wfah
  pub action_input : Option Json
  pub env : RunEnv
  pub valid_rules : ValidRules

-- How a run of an autoexec ends under its timeout.
pub data RunOutcome : Type 0 where
  finished : Result ExecFailure Json → RunOutcome
  timed_out : RunOutcome

-- The runner may answer otherwise each time: it is told how many of its runs came before.
pub record AutoexecRunner : Type 0 where
  pub run : ℕ → AutoexecDef → ExecEnv → RunOutcome
