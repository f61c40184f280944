-- ===== src/Tests/LedgerRuns.antt =====
-- Runs of the ledger's rules (crates/wfe-core/src/v22/valid.rs): a branch that is opened twice.
use agnoflow_engine.Prelude.{
  ℕ, ◌<◌, ◌≡◌, ◌↔◌, refl, true, none, some, [], ◌∷◌, ◌++◌, Memᴰ, arith, codes, is_some, text_eq,
}
use agnoflow_engine.Types.Json.{get_field, get, string, obj, arr}
use agnoflow_engine.Types.Wfah.{Wfah, WfahEntry}
use agnoflow_engine.Ledger.Order.{Increasing}
use agnoflow_engine.Ledger.Valid.{ValidRules, fork_opens, eliminated_by_round, invalid_reason}
use agnoflow_engine.Ledger.Valid.Rounds.{eliminated_by_round_iff}
use agnoflow_engine.Ledger.Valid.Permanence.{invalid_reason_permanent}
use agnoflow_engine.Tests.Data.{row}

-- a fork that opens the branch `left`
abbrev fork_at : ℕ → WfahEntry
fork_at seq = record (row seq (codes "_fork") none) {
  input = some (obj ((codes "branches", arr (string (codes "left") ∷ [])) ∷ []));
}

abbrev in_left : WfahEntry
in_left = record (row 2 (codes "approve") none) {
  branch_entry = some (codes "left");
  branch_round = some 1;
}

abbrev twice : Wfah
twice = fork_at 1 ∷ in_left ∷ fork_at 3 ∷ []

abbrev rules : ValidRules
rules = record { send_back_actions = [] }

twice_grows : Increasing twice
twice_grows = ((omega arith, (omega arith, tt)), ((omega arith, tt), (tt, tt)))

eliminated_by_round_iff_example : (eliminated_by_round twice in_left ≡ true) ↔ (
    (f : WfahEntry) × Memᴰ f twice
    × (f.action ≡ codes "_fork")
    × (fork_opens f (codes "left") ≡ true)
    × (2 < f.seq))
eliminated_by_round_iff_example =
    eliminated_by_round_iff twice in_left (codes "left") twice_grows refl

is_old : is_some (invalid_reason twice rules in_left) ≡ true
unfolding invalid_reason text_eq get get_field
is_old = refl

later_grows : Increasing (twice ++ row 4 (codes "approve") none ∷ [])
later_grows = (
  (omega arith, (omega arith, (omega arith, tt))),
  ((omega arith, (omega arith, tt)), ((omega arith, tt), (tt, tt))),
)

invalid_reason_permanent_example :
    is_some (invalid_reason (twice ++ row 4 (codes "approve") none ∷ []) rules in_left) ≡ true
invalid_reason_permanent_example =
    invalid_reason_permanent twice (row 4 (codes "approve") none ∷ []) rules in_left later_grows
      is_old
