-- ===== src/Pipeline/Routing.antt =====
-- crates/wfe-core/src/v22/pipeline.rs: the nodes that an instance has visited, the menu of a
-- send-back, and the choice of its target. A `BTreeSet` is a list, which may hold a node twice.
pub mod Menu
use agnoflow_engine.Prelude.{
  Bool, true, false, not, Option, none, some, List, [], ◌∷◌, ◌++◌, if◌then◌else◌, Text, text_eq,
  any, filter, filter_map, head?, map, lookup, is_some, ok, err,
}
use agnoflow_engine.Types.Errors.{Fallible, target_required, target_invalid, target_unexpected}
use agnoflow_engine.Types.Wfah.{WfahEntry}
use agnoflow_engine.Types.Wfd.{ActionDef, StartRule, Wft, Wfd}
use agnoflow_engine.Types.Wfes.{BranchStatus, BranchState, Wfes}

-- wfd_v22.rs
pub start_action : Wfd → StartRule → Option ActionDef
start_action wfd rule = lookup rule.action wfd.actions

-- the node of a start rule whose action is that of the ledger's first row
abbrev started_from : Wfd → WfahEntry → StartRule → Option Text
started_from wfd first rule =
    if text_eq rule.action first.action
    then elim (start_action wfd rule) [ none ↦ none | some a ↦ some (ActionDef.from a) ]
    else none

abbrev pub start_nodes : Wfd → Option WfahEntry → List Text
start_nodes wfd none = []
start_nodes wfd (some first) = filter_map (started_from wfd first) wfd.start

abbrev pub is_cancelled : BranchStatus → Bool
is_cancelled BranchStatus.cancelled = true
is_cancelled _ = false

abbrev opt_list : Option Text → List Text
opt_list none = []
opt_list (some node) = node ∷ []

unfoldable pub visited_nodes : Wfd → Wfes → List Text
unfolding start_action
visited_nodes wfd wfes =
    wfes.visited_nodes
    ++ (start_nodes wfd (head? wfes.wfah)
        ++ (opt_list wfes.current_node
            ++ map BranchState.branch_node
                (filter (λ b. not (is_cancelled (BranchState.status b))) wfes.branches)))

abbrev pub contains : List Text → Text → Bool
contains nodes node = any (text_eq node) nodes

unfoldable pub offered_targets : List Text → List Text → List Text
offered_targets targets visited = filter (contains visited) targets

-- a target where there is no menu
abbrev pub unexpected : Wft → Option Text → Fallible Wft
unexpected wft target = if is_some target then err target_unexpected else ok wft

unfoldable pub select_wft : Wft → Option Text → List Text → Fallible Wft
unfolding offered_targets
select_wft (Wft.send_back targets) none visited = err target_required
select_wft (Wft.send_back targets) (some chosen) visited =
    if not (contains (offered_targets targets visited) chosen)
    then err (target_invalid chosen)
    else ok (Wft.node chosen)
select_wft (Wft.node n) target visited = unexpected (Wft.node n) target
select_wft (Wft.terminal t) target visited = unexpected (Wft.terminal t) target
select_wft (Wft.conditional cs d) target visited = unexpected (Wft.conditional cs d) target
select_wft (Wft.parallel p) target visited = unexpected (Wft.parallel p) target
select_wft (Wft.collapse t) target visited = unexpected (Wft.collapse t) target
