-- ===== src/Pipeline/Apply/Concluded.antt =====
-- crates/wfe-core/src/v22/pipeline.rs (`Engine::apply`): what a transition that has been carried out
-- commits.
use agnoflow_engine.Prelude.{◌≡◌, ok, >>=-eq-ok, unwrap_or}
use agnoflow_engine.Types.Actor.{Instant, Actor}
use agnoflow_engine.Types.Wfah.{extended}
use agnoflow_engine.Types.Wfd.{Wfd}
use agnoflow_engine.Types.Wfes.{Wfes}
use agnoflow_engine.Types.Commit.{TransitionCommit}
use agnoflow_engine.Pipeline.Route.{Routed}
use agnoflow_engine.Pipeline.Input.{guard_written_ctx}
use agnoflow_engine.Pipeline.Candidates.{candidates_at}
use agnoflow_engine.Pipeline.Calls.{stage_calls, stage_claim_recheck}
use agnoflow_engine.Pipeline.Triggers.{Staging}
use agnoflow_engine.Pipeline.Seat.{Engine, Request, Seat}
use agnoflow_engine.Pipeline.Apply.{end_terminal_of, moved_rows, all_rows, branch_of, conclude}
use agnoflow_engine.Pipeline.Raised.{raise->>=}

module _ (engine : Engine) (wfd : Wfd) (now : Instant) (wfes : Wfes) (req : Request) where
  open engine use {host, org, env, max_instant}

  pub record Concludes (seat : Seat) (s : Staging) (routed : Routed) (commit : TransitionCommit)
      : Type 0 where
    pub outcome_is : commit.outcome ≡ routed.0
    pub context_is : commit.new_dynctx ≡ routed.1
    pub rows_are : commit.wfah_entries ≡ all_rows engine wfd now wfes req seat s routed.0
    pub end_is : commit.end_terminal ≡ end_terminal_of routed.2
    pub candidates_are :
        candidates_at host org routed.1
          (extended wfes.wfah (moved_rows engine wfd now wfes req seat s routed.0))
          (unwrap_or wfes.origin_orgu_id (Actor.orgu_id req.actor))
          wfes.orgtnt_id
          routed.0
          routed.2
          wfd
        ≡ ok commit.resolved_c_a
    pub calls_are :
        stage_calls host max_instant env.public wfd routed.1 wfes.wfah req.actor wfes.wfe_id now
          routed.2
        ≡ ok commit.staged_calls
    pub recheck_is :
        stage_claim_recheck host org now wfd wfes routed.0
          (all_rows engine wfd now wfes req seat s routed.0)
          routed.1
          (branch_of engine wfd now wfes req seat)
        ≡ ok commit.claim_recheck
    pub written_fits : guard_written_ctx host wfd wfes.dynctx routed.1 ≡ ok tt

  pub conclude_sound :
      (seat : Seat) (s : Staging) (routed : Routed) {commit : TransitionCommit}
      → conclude engine wfd now wfes req seat s routed ≡ ok commit
      → Concludes seat s routed commit
  unfolding conclude
  conclude_sound seat s (outcome, final_ctx, landed) {commit} h =
      let (cs, c, h1) =
        raise->>=
          (candidates_at host org final_ctx
            (extended wfes.wfah (moved_rows engine wfd now wfes req seat s outcome))
            (unwrap_or wfes.origin_orgu_id (Actor.orgu_id req.actor)) wfes.orgtnt_id outcome landed
            wfd)
          _ h in
      let (calls, l, h2) =
        >>=-eq-ok
          (stage_calls host max_instant env.public wfd final_ctx wfes.wfah req.actor wfes.wfe_id now
            landed)
          _ h1 in
      let (_, w, h3) = raise->>= (guard_written_ctx host wfd wfes.dynctx final_ctx) _ h2 in
      let (claim, r, h4) =
        raise->>=
          (stage_claim_recheck host org now wfd wfes outcome
            (all_rows engine wfd now wfes req seat s outcome) final_ctx
            (branch_of engine wfd now wfes req seat))
          _ h3 in
      let d : ok _ ≡ ok commit = h4 in
      let c' : cs ≡ commit.resolved_c_a = cc in
      let l' : calls ≡ commit.staged_calls = cc in
      let r' : claim ≡ commit.claim_recheck = cc in
      record {
        outcome_is = cc;
        context_is = cc;
        rows_are = cc;
        end_is = cc;
        candidates_are = rw (← c') c;
        calls_are = rw (← l') l;
        recheck_is = rw (← r') r;
        written_fits = w;
      }
