-- ===== src/Tests/MarkerRuns.antt =====
-- Runs of the markers (crates/wfe-core/src/v22/wfah_kind.rs).
use agnoflow_engine.Prelude.{refl, codes, text_eq, ◌≢◌, text_eq-apart}

submit_is_no_dots : codes "submit" ≢ codes "…"
unfolding text_eq
submit_is_no_dots = text_eq-apart (codes "submit") (codes "…") refl
