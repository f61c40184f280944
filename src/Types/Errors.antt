-- ===== src/Types/Errors.antt =====
-- crates/wfe-core/src/error.rs: `ConflictKind` and `EngineError`, with the messages that the
-- modelled code formats into them. `Violation` is that of v22/ctx_types.rs.
use agnoflow_engine.Prelude.{Bool, true, false, List, Text, Result, codes}

pub data ConflictKind : Type 0 where
  collapsed branch_moved branch_arrival wfe_gone already_claimed stale_revision : ConflictKind

pub conflict_code : ConflictKind → Text
conflict_code collapsed = codes "conflict.collapsed"
conflict_code branch_moved = codes "conflict.branch_moved"
conflict_code branch_arrival = codes "conflict.branch_arrival"
conflict_code wfe_gone = codes "conflict.wfe_gone"
conflict_code already_claimed = codes "conflict.already_claimed"
conflict_code stale_revision = codes "conflict.stale_revision"

pub is_retryable : ConflictKind → Bool
is_retryable branch_moved = true
is_retryable branch_arrival = true
is_retryable stale_revision = true
is_retryable collapsed = false
is_retryable wfe_gone = false
is_retryable already_claimed = false

-- a value that does not fit its schema: where, what was expected, what was there
pub record Violation : Type 0 where
  pub path : Text
  pub expected : Text
  pub got : Text

pub data EngineError : Type 0 where
  permission_denied : Text → EngineError
  transition_not_found : Text → EngineError
  ambiguous_action : Text → List Text → EngineError
  wfe_terminal wfe_expired not_claimed not_owner unauthorized : EngineError
  target_not_eligible target_required : EngineError
  target_invalid : Text → EngineError
  target_unexpected no_condition_matched : EngineError
  invalid_input : Text → EngineError
  input_type_mismatch ctx_type_mismatch : List Violation → EngineError
  start_not_eligible : EngineError
  zen_evaluation invalid_expression org_port wfd_port wfe_port : Text → EngineError
  conflict : ConflictKind → EngineError
  invalid_wfd unsupported_wfd_version effect_value autoexec : Text → EngineError
  call_not_found call_unauthorized call_failed call_timeout : Text → EngineError

abbrev pub Fallible : Type 0 → Type 0
Fallible A = Result EngineError A
