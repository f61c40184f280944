-- ===== src/Outcome/Views.antt =====
-- crates/wfe-core/src/v22/ports.rs: the answers of an outcome agree with one another, through any
-- number of joins.
use agnoflow_engine.Prelude.{◌≡◌, refl, true, false, Option, none, some, map_opt, Text, codes}
use agnoflow_engine.Types.Json.{Json}
use agnoflow_engine.Types.Wfes.{WfeStatus, is_active}
use agnoflow_engine.Outcome.{
  CommitOutcome, move_to, stay_at, terminal, failed, terminated, fork_to, branch_move_to,
  branch_arrived, join_complete, collapse_to, resolution, to_node, settles_call, clears_claim,
}

-- what a caller is told of a called instance in each status
abbrev pub call_status : WfeStatus → Option Text
call_status WfeStatus.active = none
call_status WfeStatus.terminal = some (codes "completed")
call_status WfeStatus.error = some (codes "failed")
call_status WfeStatus.terminated = some (codes "terminated")

-- A caller hears of an outcome exactly when the instance has ended by it: the word is that of the
-- instance's status, and the response is the instance's own.
pub settles_call-resolution :
    (o : CommitOutcome)
    → (map_opt (λ (c : Text × Json). c.0) (settles_call o) ≡ call_status (resolution o).status)
      × (map_opt (λ (c : Text × Json). c.1) (settles_call o) ≡ (resolution o).end_response)
unfolding settles_call resolution
settles_call-resolution (move_to node) = (refl, refl)
settles_call-resolution (stay_at node) = (refl, refl)
settles_call-resolution (terminal r) = (refl, refl)
settles_call-resolution (failed r) = (refl, refl)
settles_call-resolution (terminated r) = (refl, refl)
settles_call-resolution (fork_to bs join rule) = (refl, refl)
settles_call-resolution (branch_move_to from node) = (refl, refl)
settles_call-resolution (branch_arrived from arrived) = (refl, refl)
settles_call-resolution (join_complete from quorum arrived next) = settles_call-resolution next
settles_call-resolution (collapse_to from node cause) = (refl, refl)

-- An outcome that leaves the claim in place leaves the instance active; and a node that the whole
-- instance moves to, its claim cleared, is the node where it then stands.
pub clears_claim-resolution :
    (o : CommitOutcome)
    → (clears_claim o ≡ false → is_active (resolution o).status ≡ true)
      × ((n : Text) → clears_claim o ≡ true → to_node o ≡ some n → (resolution o).node ≡ some n)
unfolding clears_claim resolution to_node
clears_claim-resolution (move_to node) = (λ h. absurd (cc), λ n h e. e)
clears_claim-resolution (stay_at node) = (λ h. refl, λ n h e. absurd (cc))
clears_claim-resolution (terminal r) = (λ h. absurd (cc), λ n h e. absurd (cc))
clears_claim-resolution (failed r) = (λ h. absurd (cc), λ n h e. absurd (cc))
clears_claim-resolution (terminated r) = (λ h. absurd (cc), λ n h e. absurd (cc))
clears_claim-resolution (fork_to bs join rule) = (λ h. refl, λ n h e. absurd (cc))
clears_claim-resolution (branch_move_to from node) = (λ h. refl, λ n h e. absurd (cc))
clears_claim-resolution (branch_arrived from arrived) = (λ h. refl, λ n h e. absurd (cc))
clears_claim-resolution (join_complete from quorum arrived next) = clears_claim-resolution next
clears_claim-resolution (collapse_to from node cause) = (λ h. absurd (cc), λ n h e. e)
