-- ===== src/Tests/EndRuns.antt =====
-- Runs of the inference of the end terminal (crates/wfe-core/src/v22/end_terminal.rs): a document with
-- two ends, told apart by their responses.
use agnoflow_engine.Prelude.{
  strip_prefix, text_eq, ◌≡◌, refl, none, some, [], ◌∷◌, Memᴰ, true, codes,
}
use agnoflow_engine.Types.Json.{get_field, Json, string, obj}
use agnoflow_engine.Types.Wfd.{Terminal, Wfd}
use agnoflow_engine.Types.Equality.{json_eq}
use agnoflow_engine.EndTerminal.{contains_dollar_ref, certain, infer_end_terminal, response_matches}
use agnoflow_engine.EndTerminal.Certain.{infer_end_terminal_sound}
use agnoflow_engine.Tests.Data.{wfd}

abbrev approved : Terminal
approved = record {
  id = codes "approved";
  wfes_effects = none;
  wfe_end_response =
      (codes "status", string (codes "yes")) ∷ (codes "by", string (codes "$actor")) ∷ [];
  listable = [];
  call = none;
}

abbrev rejected : Terminal
rejected = record {
  id = codes "rejected";
  wfes_effects = none;
  wfe_end_response =
      (codes "status", string (codes "no")) ∷ (codes "by", string (codes "$actor")) ∷ [];
  listable = [];
  call = none;
}

abbrev two_ends : Wfd
two_ends = record wfd { terminals = approved ∷ rejected ∷ [] }

abbrev response : Json
response = obj ((codes "by", string (codes "alice")) ∷ (codes "status", string (codes "yes")) ∷ [])

approved_is_certain : infer_end_terminal two_ends (some response) none ≡ certain (codes "approved")
unfolding infer_end_terminal response_matches text_eq get_field contains_dollar_ref strip_prefix
    json_eq
approved_is_certain = refl

approved_matches : response_matches approved.wfe_end_response response ≡ true
unfolding response_matches get_field text_eq contains_dollar_ref strip_prefix json_eq
approved_matches = refl

infer_end_terminal_sound_example : codes "approved" ≡ codes "approved"
infer_end_terminal_sound_example =
    infer_end_terminal_sound two_ends (some response) none (codes "approved") approved_is_certain
      (codes "approved") (Memᴰ.head refl) (approved, Memᴰ.head refl, refl, approved_matches) tt
