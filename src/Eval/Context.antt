-- ===== src/Eval/Context.antt =====
-- crates/wfe-core/src/v22/eval.rs: what an expression finds in its context, whatever the ledger.
use agnoflow_engine.Prelude.{◌≡◌, refl, List, [], ◌∷◌, arith, Text, text_eq, map, is_some, any}
use agnoflow_engine.Types.Json.{Json, get, get_field, fields_of}
use agnoflow_engine.Types.Wfah.{WfahEntry}
use agnoflow_engine.Types.Host.{Host}
use agnoflow_engine.Ledger.Valid.{ValidRules}
use agnoflow_engine.Ledger.Projection.{empty_entry_shell, entry_kvs, project_entry}

abbrev keys : List (Text × Json) → List Text
keys = map (λ kv. kv.0)

is_some-get_field :
    (k : Text) (kvs : List (Text × Json))
    → is_some (get_field k (fields_of kvs)) ≡ any (λ j. text_eq j k) (keys kvs)
unfolding get_field
is_some-get_field k [] = refl
is_some-get_field k ((j, v) ∷ kvs) = ground (arith, is_some-get_field k kvs)

-- The shell that stands for a missing row has the fields of a projected row and no others, so that
-- a path into `$prev` or `$first` exists whether or not the ledger has an action row.
pub empty_entry_shell_fields :
    (host : Host) (e : WfahEntry) (rules : ValidRules) (k : Text)
    → is_some (get k empty_entry_shell) ≡ is_some (get k (project_entry host e rules))
unfolding empty_entry_shell project_entry get
empty_entry_shell_fields host e rules k =
    rw (is_some-get_field k (entry_kvs host e rules)) (unfold get_field in ground arith)
