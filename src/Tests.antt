-- ===== src/Tests.antt =====
-- Runs of the model, and its theorems at concrete inputs: a request of a clerk's unit with a menu
-- of routes, an escalation, a listed reader and an administrator.
mod Data
mod AccessRuns
mod GrantRuns
mod ViewRuns
mod EffectRuns
mod LedgerRuns
mod MarkerRuns
mod EnvRuns
mod PipelineRuns
mod EndRuns
mod Flow
mod FlowRuns
mod EngineRuns
mod SimRuns
mod RouteRuns
