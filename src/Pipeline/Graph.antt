-- ===== src/Pipeline/Graph.antt =====
-- crates/wfe-core/src/v22/pipeline.rs: the subgraph of a fork, the nodes that its branches walk to
-- before the join. A `BTreeSet` is a list without repetition.
pub mod Queue
pub mod Reach
use agnoflow_engine.Prelude.{
  ℕ, zero, suc, ◌+◌, Bool, true, false, Option, none, some, List, [], ◌∷◌, ◌++◌, if◌then◌else◌,
  Text, Dict, text_eq, any, opt_eq, filter_map, length,
}
use agnoflow_engine.Types.Wfd.{ActionDef, WftTarget, WftCondition, Wft, Wfd}
use agnoflow_engine.Pipeline.Routing.{contains}

abbrev pub default_nodes : Option WftTarget → List Text
default_nodes (some (WftTarget.node n)) = n ∷ []
default_nodes (some (WftTarget.terminal t)) = []
default_nodes none = []

pub subgraph_edges : Wft → List Text
subgraph_edges (Wft.node n) = n ∷ []
subgraph_edges (Wft.conditional cs d) = filter_map WftCondition.node cs ++ default_nodes d
subgraph_edges (Wft.terminal t) = []
subgraph_edges (Wft.send_back ts) = []
subgraph_edges (Wft.collapse t) = []
subgraph_edges (Wft.parallel p) = []

-- the targets of the actions at a node
pub edges_from : Dict ActionDef → Text → List Text
unfolding subgraph_edges
edges_from [] node = []
edges_from ((k, a) ∷ actions) node =
    let rest = edges_from actions node in
    if text_eq (ActionDef.from a) node then subgraph_edges (ActionDef.wft a) ++ rest else rest

-- The targets that are new: they are marked as seen, and stand at the end of the queue.
pub enqueue : List Text → List Text × List Text → List Text × List Text
enqueue [] s = s
enqueue (x ∷ xs) (seen, queue) =
    enqueue xs (if contains seen x then (seen, queue) else (x ∷ seen, queue ++ x ∷ []))

abbrev pub join_node : WftTarget → Option Text
join_node (WftTarget.node n) = some n
join_node (WftTarget.terminal t) = none

-- a node's own step: nothing leaves the join
pub expand : Wfd → WftTarget → Text → List Text
unfolding edges_from
expand wfd join node =
    if opt_eq text_eq (some node) (join_node join) then [] else edges_from wfd.actions node

-- The loop; a queue that is not empty when the fuel is out stays so.
pub walk : ℕ → Wfd → WftTarget → List Text × List Text → List Text
unfolding enqueue expand
walk fuel wfd join (seen, []) = seen
walk zero wfd join (seen, node ∷ queue) = seen
walk (suc fuel) wfd join (seen, node ∷ queue) =
    walk fuel wfd join (enqueue (expand wfd join node) (seen, queue))

-- all targets of all actions
pub all_edges : Dict ActionDef → List Text
unfolding subgraph_edges
all_edges [] = []
all_edges ((k, a) ∷ actions) = subgraph_edges (ActionDef.wft a) ++ all_edges actions

-- Every node is queued once: the entries and the targets bound the rounds.
abbrev pub rounds : Wfd → List Text → ℕ
rounds wfd entries = length entries + length (all_edges wfd.actions)

pub fork_subgraph : Wfd → List Text → WftTarget → List Text
unfolding walk all_edges
fork_subgraph wfd entries join = walk (rounds wfd entries) wfd join (enqueue entries ([], []))
