-- ===== src/Pipeline/Calls.antt =====
-- crates/wfe-core/src/v22/pipeline.rs: the calls of other workflows that a transition stages
-- (`stage_calls`), and what becomes of the owner of the work (`stage_claim_recheck`).
use agnoflow_engine.Prelude.{
  Bool, not, Option, none, some, List, [], ◌∷◌, ◌++◌, if◌then◌else◌, Text, Dict, codes, text_eq,
  find, lookup, and_then, map_opt, unwrap_or, Result, ok, err, ◌>>=◌,
}
use agnoflow_engine.Types.Json.{Json, Fields, end, object, insert_field}
use agnoflow_engine.Types.Errors.{Fallible, invalid_wfd, call_not_found}
use agnoflow_engine.Types.Actor.{Uuid, Instant, Actor}
use agnoflow_engine.Types.Wfah.{Wfah, WfahEntry, extended}
use agnoflow_engine.Types.Wfd.{
  CallMode, is_node_site, mode_text, StartAs, CallRef, CallDef, NodeDef, Terminal, Wfd,
}
use agnoflow_engine.Types.Wfes.{BranchState, Wfes}
use agnoflow_engine.Types.Host.{Host}
use agnoflow_engine.Types.Commit.{
  CallSite, site_kind, site_key, StagedCall, ClaimRecheck, kept, not_applicable, released,
}
use agnoflow_engine.Env.{PublicEnv}
use agnoflow_engine.Effects.{EffectEnv, resolve_value}
use agnoflow_engine.Ledger.Valid.{for_version, round_of_opt}
use agnoflow_engine.Ledger.Ownership.{
  ClaimReleased, grant_guard_false, released_for, released_marker, released_input, seconds_between,
}
use agnoflow_engine.Outcome.{CommitOutcome, clears_claim}
use agnoflow_engine.Access.Ports.{OrgPort}
use agnoflow_engine.Access.Grants.{authorize_node}
use agnoflow_engine.Duration.{Failure, error, parse_iso8601_duration}
use agnoflow_engine.Pipeline.Rows.{active_branch, claimant_actor, next_seq}
use agnoflow_engine.Pipeline.Join.{system_actor}
use agnoflow_engine.Pipeline.Sla.{later}

-- A `Failure` is an error, or an overflow of the time arithmetic, which panics.
abbrev pub raise : {A : Type 0} → Fallible A → Result Failure A
raise (ok a) = ok a
raise (err e) = err (error e)

abbrev pub call_at : Wfd → CallSite → Option CallRef
call_at wfd (CallSite.node key) = and_then (lookup key wfd.nodes) NodeDef.call
call_at wfd (CallSite.terminal id) =
    and_then (find (λ t. text_eq (Terminal.id t) id) wfd.terminals) Terminal.call

abbrev pub placement_ok : CallSite → CallMode → Bool
placement_ok (CallSite.node key) mode = is_node_site mode
placement_ok (CallSite.terminal id) mode = not (is_node_site mode)

abbrev site_node : CallSite → Option Text
site_node (CallSite.node key) = some key
site_node (CallSite.terminal id) = none

abbrev if_wait : CallMode → Option Text → Option Text
if_wait CallMode.wait timeout = timeout
if_wait CallMode.detached timeout = none
if_wait CallMode.terminal timeout = none

-- the time limit that counts: only of a call that is waited for
abbrev limit_of : CallRef → Option Text
limit_of c = if_wait c.mode c.timeout

misplaced : CallMode → CallSite → Text
misplaced mode site =
    codes "WFC modu '"
    ++ (mode_text mode
        ++ (codes "' bu yerleşimde geçerli değil ("
            ++ (site_kind site ++ (codes " '" ++ (site_key site ++ codes "')")))))

module _ (host : Host) (max_instant : Instant) (env : PublicEnv) where
  pub call_input : Dict Json → Json → EffectEnv → Fields → Fallible Fields
  call_input [] context scope out = ok out
  call_input ((k, raw) ∷ kvs) context scope out = resolve_value host raw context scope >>= λ v.
      call_input kvs context scope (insert_field k v out)

  pub call_deadline : Option Text → Instant → Result Failure (Option Instant)
  call_deadline none now = ok none
  call_deadline (some iso) now = parse_iso8601_duration iso >>= λ seconds.
      later max_instant now seconds >>= λ due. ok (some due)

  module _ (wfd : Wfd) (context : Json) (wfah : Wfah) (actor : Actor) (id : Uuid)
      (now : Instant) where
    abbrev call_env : CallSite → EffectEnv
    call_env site = record {
      actor = actor;
      wfe_id = id;
      node = site_node site;
      action_input = none;
      exec_result = none;
      call = none;
      env = env;
      now = now;
      wfah = wfah;
      valid_rules = for_version wfd;
    }

    pub stage_call : CallSite → CallRef → Result Failure (List StagedCall)
    unfolding misplaced call_input call_deadline
    stage_call site c =
        if not (placement_ok site c.mode)
        then err (error (invalid_wfd (misplaced c.mode site)))
        else elim (lookup c.use_ (Wfd.calls wfd)) [
          | none ↦
              err
                (error (call_not_found (codes "'" ++ (c.use_ ++ codes "' calls katalogunda yok"))))
          | some def ↦
              raise (call_input (CallDef.input def) context (call_env site) end) >>= λ input.
              call_deadline (limit_of c) now >>= λ deadline. ok (
                record {
                  call_key = c.use_;
                  mode = c.mode;
                  site = site;
                  input = object input;
                  deadline = deadline;
                  start_as = unwrap_or c.start_as StartAs.actor;
                  max_next = c.max_next;
                }
                ∷ [])
        ]

    unfoldable pub stage_calls : Option CallSite → Result Failure (List StagedCall)
    unfolding stage_call
    stage_calls none = ok []
    stage_calls (some site) = elim (call_at wfd site) [ none ↦ ok [] | some c ↦ stage_call site c ]

-- the place of the claim: its node, its owner, and the branch, if the transition was a branch's
abbrev pub claim_place : Wfes → Option Text → Option (Text × Option Uuid × Option BranchState)
claim_place wfes (some b) =
    map_opt (λ s. (BranchState.branch_node s, BranchState.claimed_by s, some s))
      (active_branch wfes b)
claim_place wfes none = map_opt (λ n. (n, wfes.assigned_to, none)) wfes.current_node

abbrev claimed_since : Wfes → Option BranchState → Option Instant
claimed_since wfes none = wfes.claimed_at
claimed_since wfes (some b) = b.claimed_at

-- the instance as the guards see it after the commit
abbrev pub after_commit : Wfes → List WfahEntry → Json → Wfes
after_commit wfes staged context = record wfes {
  wfah = extended wfes.wfah staged;
  dynctx = context;
}

module _ (host : Host) (org : OrgPort) (now : Instant) where
  pub release_row : Wfes → Wfah → Text → Uuid → Option BranchState → WfahEntry
  release_row wfes ledger node_key owner branch =
      let claim : ClaimReleased = record (released_for node_key owner grant_guard_false) {
        held_for_seconds = map_opt (λ c. seconds_between c now) (claimed_since wfes branch);
        branch =
            map_opt
              (λ b. record {
                entry = BranchState.entry_node b;
                at_node = BranchState.branch_node b;
              })
              branch;
      } in
      record {
        seq = next_seq ledger;
        action = released_marker claim;
        actor = system_actor;
        input = some (released_input host claim);
        applied_at = now;
        from_node = none;
        to_node = none;
        branch_entry = map_opt BranchState.entry_node branch;
        branch_round = round_of_opt ledger (map_opt BranchState.entry_node branch);
      }

  abbrev owned : Text × Option Uuid × Option BranchState → Option (Text × Uuid × Option BranchState)
  owned (node_key, owner, branch) = map_opt (λ o. (node_key, o, branch)) owner

  -- the claim that the question is about, with the actor who took it
  abbrev claim_of : Wfes → Option Text → Option (Text × Uuid × Option BranchState × Actor)
  claim_of wfes branch = and_then (and_then (claim_place wfes branch) owned) λ (node_key, owner, b).
      map_opt (λ a. (node_key, owner, b, a)) (claimant_actor wfes.wfah node_key owner)

  pub recheck : Wfd → Wfes → Wfes → Text × Uuid × Option BranchState × Actor → Fallible ClaimRecheck
  unfolding release_row
  recheck wfd wfes post (node_key, owner, branch, claimant) =
      authorize_node host org now wfd post node_key claimant >>= λ may.
      ok (if may then kept else released (release_row wfes post.wfah node_key owner branch))

  unfoldable pub stage_claim_recheck :
      Wfd → Wfes → CommitOutcome → List WfahEntry → Json → Option Text → Fallible ClaimRecheck
  unfolding recheck
  stage_claim_recheck wfd wfes outcome staged new_ctx branch =
      if clears_claim outcome then ok not_applicable else elim (claim_of wfes branch) [
        | none ↦ ok not_applicable
        | some claim ↦ recheck wfd wfes (after_commit wfes staged new_ctx) claim
      ]
