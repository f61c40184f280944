-- ===== src/Access/Resolver.antt =====
-- crates/wfe-core/src/v22/resolver.rs: the units and identities that a rule names, resolved against
-- the context and the ledger.
use agnoflow_engine.Prelude.{
  ◌||◌, Option, none, some, List, [], ◌∷◌, ◌++◌, if◌then◌else◌, Text, codes, text_eq, strip_prefix,
  starts_with, split, find, rfind, unwrap_or, or_opt, and_then, map_opt, ok, err, ◌>>=◌,
}
use agnoflow_engine.Types.Json.{
  Json, string, number, pos_int, object, Fields, get, as_str, opt_json, field, end,
}
use agnoflow_engine.Types.Errors.{Fallible, effect_value}
use agnoflow_engine.Types.Actor.{Uuid, OrgUnit}
use agnoflow_engine.Types.Wfah.{Wfah, WfahEntry}
use agnoflow_engine.Types.Wfd.{AnchorFrom, COrgu, selector}
use agnoflow_engine.Types.Host.{Host}
use agnoflow_engine.Ledger.Projection.{actor_json}
use agnoflow_engine.Access.Ports.{OrgPort}

-- `current.get(part).or_else(|| current.get(format!("{part}_id")))`
pub step_path : Json → Text → Option Json
unfolding get
step_path v part = or_opt (get part v) (get (part ++ codes "_id") v)

-- the loop over a path's parts
pub walk : Json → List Text → Option Json
unfolding step_path
walk v [] = some v
walk v (part ∷ parts) = and_then (step_path v part) (λ w. walk w parts)

abbrev pub strip_ctx : Text → Text
strip_ctx path = unwrap_or (strip_prefix (codes "$ctx.") path) path

-- the text that should be a unit's id: a text, or an object's `orgu` or `orgu_id`
pub orgu_text : Json → Option Text
unfolding get
orgu_text (string s) = some s
orgu_text (object m) =
    and_then (or_opt (get (codes "orgu") (object m)) (get (codes "orgu_id") (object m))) as_str
orgu_text _ = none

abbrev ident_of_object : Json → Option Text
ident_of_object v = and_then (or_opt (get (codes "user_id") v) (get (codes "user") v)) as_str

-- the identity at a path's end: a text, or an object's `user_id` or `user`
pub ident_text : Json → Option Text
unfolding get
ident_text (string s) = some s
ident_text (object m) = ident_of_object (object m)
ident_text _ = none

unfoldable pub resolve_cu_ident : Text → Json → Option Text
unfolding walk ident_text strip_prefix split
resolve_cu_ident path ctx = and_then (walk ctx (split b'.' (strip_ctx path))) ident_text

pub normalize_traverse : Text → Text
unfolding text_eq strip_prefix
normalize_traverse traverse =
    if text_eq traverse (codes "self") || starts_with (codes "self.") traverse
    then traverse
    else codes "self." ++ traverse

-- serde leaves the fields out that are `none` and marked so
abbrev opt_field : Text → Option Json → Fields → Fields
opt_field k none rest = rest
opt_field k (some v) rest = field k v rest

module _ (host : Host) where
  -- serde's form of a `WfahEntry`
  pub entry_json : WfahEntry → Json
  unfolding actor_json
  entry_json e = object (
      field (codes "seq") (number (pos_int e.seq)) (
        field (codes "action") (string e.action) (
          field (codes "actor") (actor_json host e.actor) (
            field (codes "input") (opt_json e.input) (
              field (codes "applied_at") (string (host.rfc3339 e.applied_at)) (
                opt_field (codes "from_node") (map_opt string e.from_node) (
                  opt_field (codes "to_node") (map_opt string e.to_node) (
                    opt_field (codes "branch_entry") (map_opt string e.branch_entry) (
                      opt_field (codes "branch_round")
                        (map_opt (λ n. number (pos_int n)) e.branch_round) end)))))))))

  parse_anchor : Text → Option Text → Fallible (Option Uuid)
  parse_anchor source none = ok none
  parse_anchor source (some s) = elim (host.parse_uuid s) [
    | ok u ↦ ok (some u)
    | err e ↦
        err (effect_value (codes "'" ++ (source ++ (codes "' anchor'ı geçerli UUID değil: " ++ e))))
  ]

  pub extract_orgu_uuid : Json → Text → Fallible (Option Uuid)
  unfolding parse_anchor orgu_text
  extract_orgu_uuid value source = parse_anchor source (orgu_text value)

  extract_at : Option Json → Text → Fallible (Option Uuid)
  unfolding extract_orgu_uuid
  extract_at none source = ok none
  extract_at (some v) source = extract_orgu_uuid v source

  pub anchor_from_ctx : Text → Json → Fallible (Option Uuid)
  unfolding extract_at walk strip_prefix split
  anchor_from_ctx path ctx = extract_at (walk ctx (split b'.' (strip_ctx path))) path

  pub occurrence_of : Text → Option Text → Wfah → Option WfahEntry
  occurrence_of action occurrence wfah =
      if text_eq (unwrap_or occurrence (codes "last")) (codes "first")
      then find (λ e. text_eq (WfahEntry.action e) action) wfah
      else rfind (λ e. text_eq (WfahEntry.action e) action) wfah

  pub anchor_from_wfah : Text → Text → Option Text → Wfah → Fallible (Option Uuid)
  unfolding occurrence_of extract_at entry_json walk split
  anchor_from_wfah action path occurrence wfah = elim (occurrence_of action occurrence wfah) [
    | none ↦ ok none
    | some e ↦ extract_at (walk (entry_json e) (split b'.' path)) path
  ]

  pub resolve_anchor : AnchorFrom → Json → Wfah → Fallible (Option Uuid)
  unfolding anchor_from_ctx anchor_from_wfah
  resolve_anchor (AnchorFrom.ctx path) context ledger = anchor_from_ctx path context
  resolve_anchor (AnchorFrom.wfah action path occurrence) context ledger =
      anchor_from_wfah action path occurrence ledger

  units_from : OrgPort → Uuid → Text → Option Uuid → Fallible (List OrgUnit)
  unfolding normalize_traverse
  units_from org orgtnt_id traverse none = ok []
  units_from org orgtnt_id traverse (some anchor) =
      org.resolve_c_orgu anchor (normalize_traverse traverse) orgtnt_id

  unfoldable pub resolve_c_orgu :
      OrgPort → COrgu → Uuid → Json → Wfah → Uuid → Fallible (List OrgUnit)
  unfolding resolve_anchor units_from
  resolve_c_orgu org (selector expr) default_anchor context ledger orgtnt_id =
      org.resolve_c_orgu default_anchor expr orgtnt_id
  resolve_c_orgu org (COrgu.anchor from traverse) default_anchor context ledger orgtnt_id =
      resolve_anchor from context ledger >>= units_from org orgtnt_id traverse
