-- ===== src/Sim/Steps.antt =====
-- crates/wfe/src/sim.rs (`step`): the steps of a simulation, with the gates that they ask first. The
-- size limits of attachments are an argument, as in Attachments.antt.
use agnoflow_engine.Prelude.{
  ℤ, pos, negsuc, ℕ, Bool, true, false, ◌&&◌, not, Option, none, some, List, [], ◌∷◌, ◌++◌, ◌==◌,
  if◌then◌else◌, Text, text_eq, opt_eq, any, filter, head?, length, is_empty, is_some, lookup,
  or_opt, Result, ok, err, ◌>>=◌,
}
use agnoflow_engine.Types.Json.{Json}
use agnoflow_engine.Types.Errors.{Fallible}
use agnoflow_engine.Types.Actor.{Instant, Actor}
use agnoflow_engine.Types.Wfd.{Wfd}
use agnoflow_engine.Types.Wfes.{BranchState, Wfes}
use agnoflow_engine.Attachments.{
  UploadReject, GateSlot, check_upload, find_item, gate_slots, missing_required,
}
use agnoflow_engine.Duration.{Failure, error}
use agnoflow_engine.Pipeline.{is_terminal_class}
use agnoflow_engine.Pipeline.Claims.{ClaimCheck, can_claim}
use agnoflow_engine.Pipeline.Returns.{Return, fire_call_return}
use agnoflow_engine.Pipeline.Seat.{Engine, Request}
use agnoflow_engine.Pipeline.Apply.{apply}
use agnoflow_engine.Pipeline.Start.{StartRequest, start}
use agnoflow_engine.Sim.{
  SimCall, SimAttachment, SimState, from_new_wfe, to_wfes, apply_commit, awaited_call,
  clear_awaited_call, active_nodes, has_attachment,
}

unfoldable pub is_terminal : SimState → Bool
is_terminal s = is_terminal_class s.status

pub data ApplyError : Type 0 where
  missing_attachments : List Text → ApplyError
  not_eligible : ApplyError
  engine_error : Failure → ApplyError

pub data CallReturnError : Type 0 where
  no_awaited_call : CallReturnError
  engine_error : Failure → CallReturnError

abbrev pub lift_apply : {A : Type 0} → Result Failure A → Result ApplyError A
lift_apply (ok a) = ok a
lift_apply (err f) = err (ApplyError.engine_error f)

abbrev pub lift_return : {A : Type 0} → Result Failure A → Result CallReturnError A
lift_return (ok a) = ok a
lift_return (err f) = err (CallReturnError.engine_error f)

abbrev pub as_failure : {A : Type 0} → Fallible A → Result Failure A
as_failure (ok a) = ok a
as_failure (err e) = err (error e)

abbrev is_claimable : ClaimCheck → Bool
is_claimable ClaimCheck.claimable = true
is_claimable _ = false

abbrev owns : Wfes → Actor → Option Text → Bool
owns wfes actor none = opt_eq (λ a b. a == b) wfes.assigned_to (some actor.user_id)
owns wfes actor (some n) =
    any
      (λ b.
        text_eq (BranchState.branch_node b) n
        && opt_eq (λ a c. a == c) (BranchState.claimed_by b) (some actor.user_id))
      wfes.branches

abbrev pub slots_missing : Wfd → SimState → Text → Option Text → List Text
slots_missing wfd s action none = []
slots_missing wfd s action (some node) =
    missing_required (gate_slots wfd node (some action)) (has_attachment s)

unfoldable pub missing_gate_attachments : Wfd → SimState → Text → Option Text → List Text
missing_gate_attachments wfd s action node = slots_missing wfd s action (or_opt node s.current_node)

module _ (engine : Engine) (wfd : Wfd) (now : Instant) where
  open engine use {host, org}

  unfoldable pub begin : StartRequest → Result Failure SimState
  begin req = start engine wfd now (record req { deadline = none }) >>= λ new. ok (from_new_wfe new)

  unfoldable pub eligible : SimState → Actor → Option Text → Fallible Bool
  eligible s actor node =
      let wfes = to_wfes s none now in
      if owns wfes actor node
      then ok true
      else can_claim host org now wfd wfes actor node >>= λ c. ok (is_claimable c)

  -- what follows the two gates
  unfoldable pub carry_on : SimState → Request → Result ApplyError SimState
  carry_on s req =
      lift_apply (apply engine wfd now (to_wfes s (some (Actor.user_id req.actor)) now) req)
      >>= λ commit. ok (apply_commit s commit now)

  abbrev attached : SimState → Request → Result ApplyError SimState
  attached s req =
      let missing = missing_gate_attachments wfd s req.action req.node_hint in
      if not (is_empty missing) then err (missing_attachments missing) else carry_on s req

  -- `step::apply`
  unfoldable pub advance : SimState → Request → Result ApplyError SimState
  advance s req = lift_apply (as_failure (eligible s req.actor req.node_hint)) >>= λ may.
      if may then attached s req else err not_eligible

  abbrev pub return_of : Text → Option Json → Return
  return_of status result = record {
    status = status;
    callee = none;
    end_response = result;
    callee_wfah = [];
  }

  unfoldable pub call_return : SimState → Text → Option Json → Result CallReturnError SimState
  call_return s status result = elim (awaited_call s) [
    | none ↦ err no_awaited_call
    | some awaited ↦
        lift_return (fire_call_return engine wfd (to_wfes s none now) (return_of status result) now)
        >>= λ commit. ok (clear_awaited_call (apply_commit s commit now) (SimCall.site_key awaited))
  ]

pub data AttachError : Type 0 where
  unknown_group : Text → AttachError
  unknown_item not_collected_here : Text → Text → AttachError
  rejected : UploadReject → AttachError

abbrev is_slot : Text → Text → SimAttachment → Bool
is_slot group item a = text_eq a.group group && text_eq a.item item

-- `size_bytes.max(0) as usize`
abbrev pub size_of : ℤ → ℕ
size_of (pos n) = n
size_of (negsuc n) = 0

abbrev pub lift_reject : Result UploadReject (Unit {0}) → Result AttachError (Unit {0})
lift_reject (ok u) = ok u
lift_reject (err r) = err (rejected r)

abbrev pub collected_here : Wfd → SimState → Text → Text → Bool
collected_here wfd s group item =
    any
      (λ n.
        any (λ g. text_eq (GateSlot.group g) group && text_eq (GateSlot.item g) item)
          (gate_slots wfd n none))
      (active_nodes s)

-- the upload's record takes the place of the slot's earlier one
abbrev pub store : SimState → SimAttachment → SimState
store s a = record s {
  attachments = filter (λ x. not (is_slot a.group a.item x)) s.attachments ++ a ∷ [];
}

unfoldable pub detach : SimState → Text → Text → SimState × Bool
detach s group item =
    let kept = filter (λ x. not (is_slot group item x)) s.attachments in
    (record s { attachments = kept }, not (length kept == length s.attachments))

module _ (max_bytes : Text → ℕ) (wfd : Wfd) where
  unfoldable pub attach : SimState → SimAttachment → Result AttachError SimState
  attach s a =
      if not (is_some (lookup a.group (Wfd.attachments wfd)))
      then err (unknown_group a.group)
      else elim (find_item wfd a.group a.item) [
        | none ↦ err (unknown_item a.group a.item)
        | some def ↦
            if not (collected_here wfd s a.group a.item)
            then err (not_collected_here a.group a.item)
            else lift_reject (check_upload max_bytes def a.content_type (size_of a.size_bytes))
              >>= λ fits. ok (store s (record a { node = head? (active_nodes s) }))
      ]
