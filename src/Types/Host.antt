-- ===== src/Types/Host.antt =====
-- What the program takes from its libraries, as parameters: `uuid` (printing and parsing), `chrono`
-- (formats of an instant), `serde_json` (a value's text), `jsonschema` and `zen_expression` (the evaluator).
use agnoflow_engine.Prelude.{Option, List, Text, Result}
use agnoflow_engine.Types.Json.{Json}
use agnoflow_engine.Types.Actor.{Uuid, Instant}

pub record Host : Type 0 where
  -- `Uuid::to_string`, `Uuid::parse_str` (or its error's text)
  pub uuid_text : Uuid → Text
  pub parse_uuid : Text → Result Text Uuid
  -- `DateTime::format("%Y%m%d%H%M%S")`, and the RFC 3339 text that serde writes
  pub format_timestamp : Instant → Text
  pub rfc3339 : Instant → Text
  -- `Value::to_string`
  pub json_text : Json → Text
  -- `zen_expression::evaluate_expression` (or its error's text), its result as a value
  pub zen : Text → Json → Result Text Json
  -- `jsonschema`: the errors of a value against a schema, each with its path and the value there;
  -- nothing for a schema that does not compile
  pub schema_errors : Json → Json → Option (List (Text × Json))
