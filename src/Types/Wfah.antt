-- ===== src/Types/Wfah.antt =====
-- crates/wfe-core/src/types/wfah.rs: the append-only ledger of a workflow instance.
use agnoflow_engine.Prelude.{
  ℕ, ◌+◌, ◌%◌, ◌^◌, Option, none, List, [], ◌∷◌, ◌++◌, last?, Text, map_opt, unwrap_or,
}
use agnoflow_engine.Types.Json.{Json}
use agnoflow_engine.Types.Actor.{Actor, Instant}

pub record WfahEntry : Type 0 where
  pub seq : ℕ  -- u32
  pub action : Text
  pub actor : Actor
  pub input : Option Json
  pub applied_at : Instant
  pub from_node : Option Text
  pub to_node : Option Text
  pub branch_entry : Option Text
  pub branch_round : Option ℕ

abbrev pub Wfah : Type 0
Wfah = List WfahEntry

abbrev pub u32 : ℕ → ℕ
u32 n = n % 2 ^ 32

-- `Utc::now()` is the last argument.
unfoldable pub push : Wfah → Text → Actor → Option Json → Instant → Wfah
push entries action actor input now =
    entries
    ++ record {
      seq = unwrap_or (map_opt (λ e. u32 (WfahEntry.seq e + 1)) (last? entries)) 1;
      action = action;
      actor = actor;
      input = input;
      applied_at = now;
      from_node = none;
      to_node = none;
      branch_entry = none;
      branch_round = none;
    }
      ∷ []

unfoldable pub extended : Wfah → List WfahEntry → Wfah
extended entries more = entries ++ more
