-- ===== src/EndTerminal.antt =====
-- crates/wfe-core/src/v22/end_terminal.rs: which terminal an instance has ended in, inferred from its
-- response and its last action. A `BTreeSet` is a list without repetition, in no order.
pub mod Certain
use agnoflow_engine.Prelude.{
  ℕ, ◌+◌, ◌^◌, Bool, true, false, ◌&&◌, ◌||◌, Option, none, some, List, [], ◌∷◌, ◌++◌,
  if◌then◌else◌, ◌==◌, Text, Dict, text_eq, starts_with, any, all, filter, length, map, is_empty,
  and_then, lookup,
}
use agnoflow_engine.Types.Equality.{json_eq, size}
use agnoflow_engine.Types.Json.{
  Number, pos_int, neg_int, float, Json, null, bool, number, string, array, object, Items, nil,
  cons, Fields, end, field, get_field, as_object,
}
use agnoflow_engine.Types.Wfd.{
  ActionDef, NodeDef, call_wft, WftTarget, WftCondition, Wft, Terminal, Wfd,
}

pub data EndTerminalGuess : Type 0 where
  certain : Text → EndTerminalGuess
  ambiguous : List Text → EndTerminalGuess
  no_match : EndTerminalGuess

pub record LastAction : Type 0 where
  pub from_node : Option Text
  pub action : Text

unfoldable mutual
  pub contains_dollar_ref : Json → Bool
  contains_dollar_ref null = false
  contains_dollar_ref (bool b) = false
  contains_dollar_ref (number n) = false
  contains_dollar_ref (string s) = starts_with (b'$' ∷ []) s
  contains_dollar_ref (array xs) = any_item xs
  contains_dollar_ref (object m) = any_value m

  any_item : Items → Bool
  any_item nil = false
  any_item (cons x xs) = contains_dollar_ref x || any_item xs

  any_value : Fields → Bool
  any_value end = false
  any_value (field k v m) = contains_dollar_ref v || any_value m

abbrev entry_matches : Fields → Text × Json → Bool
entry_matches stored (key, declared) = elim (get_field key stored) [
  | none ↦ false
  | some actual ↦ contains_dollar_ref declared || json_eq declared actual
]

unfoldable pub response_matches : Dict Json → Json → Bool
response_matches template stored = elim (as_object stored) [
  | none ↦ false
  | some entries ↦ all (entry_matches entries) template && length template == size entries
]

abbrev target_terminals : WftTarget → List Text
target_terminals (WftTarget.terminal t) = t ∷ []
target_terminals (WftTarget.node n) = []

abbrev opt_terminals : Option WftTarget → List Text
opt_terminals none = []
opt_terminals (some t) = target_terminals t

abbrev condition_terminals : List WftCondition → List Text
condition_terminals [] = []
condition_terminals (c ∷ cs) = elim c.terminal [
  | none ↦ condition_terminals cs
  | some t ↦ t ∷ condition_terminals cs
]

unfoldable pub collect_wft_terminals : Wft → List Text
collect_wft_terminals (Wft.terminal t) = t ∷ []
collect_wft_terminals (Wft.conditional cs d) = condition_terminals cs ++ opt_terminals d
collect_wft_terminals (Wft.parallel p) = target_terminals p.join
collect_wft_terminals (Wft.collapse t) = target_terminals t
collect_wft_terminals (Wft.node n) = []
collect_wft_terminals (Wft.send_back ts) = []

abbrev join_terminals : Wft → List Text
join_terminals (Wft.parallel p) = target_terminals p.join
join_terminals _ = []

abbrev opt_join_terminals : Option Wft → List Text
opt_join_terminals none = []
opt_join_terminals (some wft) = join_terminals wft

abbrev action_joins : Dict ActionDef → List Text
action_joins [] = []
action_joins ((k, a) ∷ actions) = join_terminals (ActionDef.wft a) ++ action_joins actions

abbrev node_joins : Dict NodeDef → List Text
node_joins [] = []
node_joins ((k, n) ∷ nodes) = opt_join_terminals (call_wft n) ++ node_joins nodes

unfoldable pub collect_join_terminals : Wfd → List Text
collect_join_terminals wfd = action_joins wfd.actions ++ node_joins wfd.nodes

-- an unknown node excludes no action
abbrev node_matches : Option Text → Text → Bool
node_matches none from = true
node_matches (some node) from = text_eq from node

abbrev action_terminals : Option ActionDef → Option Text → List Text
action_terminals none from_node = []
action_terminals (some a) from_node =
    if node_matches from_node (ActionDef.from a)
    then collect_wft_terminals (ActionDef.wft a)
    else []

abbrev call_terminals : Option Wft → List Text
call_terminals none = []
call_terminals (some wft) = collect_wft_terminals wft

unfoldable pub reachable_terminals : Wfd → LastAction → List Text
reachable_terminals wfd last =
    action_terminals (lookup last.action wfd.actions) last.from_node
    ++ (call_terminals (and_then last.from_node λ n. and_then (lookup n wfd.nodes) call_wft)
        ++ collect_join_terminals wfd)

-- the elements of a list, each once
abbrev pub distinct : List Text → List Text
distinct [] = []
distinct (x ∷ xs) = if any (text_eq x) xs then distinct xs else x ∷ distinct xs

abbrev pub ids : List Terminal → List Text
ids = map Terminal.id

pub by_response : Wfd → Option Json → List Text
by_response wfd none = distinct (ids wfd.terminals)
by_response wfd (some response) =
    distinct
      (ids (filter (λ t. response_matches (Terminal.wfe_end_response t) response) wfd.terminals))

-- what the last action reaches; nothing reached does not narrow
pub by_reach : Wfd → Option LastAction → List Text
by_reach wfd none = distinct (ids wfd.terminals)
by_reach wfd (some last) =
    if is_empty (reachable_terminals wfd last)
    then distinct (ids wfd.terminals)
    else reachable_terminals wfd last

abbrev pub guess_of : List Text → EndTerminalGuess
guess_of [] = no_match
guess_of (t ∷ []) = certain t
guess_of (t ∷ u ∷ ts) = ambiguous (t ∷ u ∷ ts)

abbrev pub survivors : Wfd → Option Json → Option LastAction → List Text
survivors wfd response last =
    filter (λ t. any (text_eq t) (by_reach wfd last)) (by_response wfd response)

-- a document with at most one terminal leaves no question
abbrev pub guess_among : List Text → List Text → EndTerminalGuess
guess_among [] left = no_match
guess_among (t ∷ []) left = certain t
guess_among (t ∷ u ∷ ts) left = guess_of left

unfoldable pub infer_end_terminal : Wfd → Option Json → Option LastAction → EndTerminalGuess
unfolding by_response by_reach
infer_end_terminal wfd response last =
    guess_among (distinct (ids wfd.terminals)) (survivors wfd response last)
