-- ===== src/Tests/EnvRuns.antt =====
-- Runs of the environment (crates/wfe-core/src/v22/env.rs), of the duration parser (duration.rs)
-- and of the shell of a missing row (eval.rs).
use agnoflow_engine.Prelude.{
  strip_prefix, ◌≡◌, refl, true, false, [], ◌∷◌, arith, if◌then◌else◌, leb, codes, lookup, and_then,
  ok, err, text_eq, pos, negsuc, ◌+ℤ◌, i64, is_within,
}
use agnoflow_engine.Types.Json.{string}
use agnoflow_engine.Env.{
  EnvSet, public_env, split_ref, contains_ref, assert_refs_defined, resolve_loop, resolve_string,
}
use agnoflow_engine.Env.Secrets.{DistinctKeys, visible_value, lookup-public_env}
use agnoflow_engine.Env.Agreement.{is_ok, resolve_string_iff}
use agnoflow_engine.Env.Rounds.{resolve_loop_enough}
use agnoflow_engine.Duration.{
  overflow, max_seconds, decimal_from, parse_i64, unit_secs, date_units, time_units, seconds_of,
  parse_iso8601_duration,
}
use agnoflow_engine.Duration.Grammar.{
  Segments, empty, segment, IsDuration, with_time, Reads, sum, parse_iso8601_duration_sound,
  parse_iso8601_duration_complete,
}
use agnoflow_engine.Tests.Data.{host}

abbrev vars : EnvSet
vars =
    (codes "URL", record { value = string (codes "h"); is_secret = false })
    ∷ (codes "KEY", record { value = string (codes "s"); is_secret = true })
    ∷ []

keys_are_distinct : DistinctKeys vars
unfolding text_eq
keys_are_distinct = ((refl, tt), (tt, tt))

lookup-public_env_example :
    lookup (codes "KEY") (public_env vars).vars ≡ and_then (lookup (codes "KEY") vars) visible_value
lookup-public_env_example = lookup-public_env vars (codes "KEY") keys_are_distinct

has_reference : contains_ref (codes "x$env.URL") ≡ true
unfolding split_ref strip_prefix
has_reference = refl

resolve_string_iff_example :
    is_ok (resolve_string host (codes "x$env.URL") vars)
    ≡ is_ok (assert_refs_defined (codes "x$env.URL") vars)
resolve_string_iff_example = resolve_string_iff host vars (codes "x$env.URL") has_reference

resolve_loop_enough_example :
    resolve_loop host 20 vars (codes "x$env.URL") ≡ resolve_loop host 10 vars (codes "x$env.URL")
resolve_loop_enough_example =
    resolve_loop_enough host vars 10 20 (codes "x$env.URL") (omega arith) (omega arith)

day_and_half : parse_iso8601_duration (codes "P1DT12H") ≡ ok (pos 129600)
unfolding parse_iso8601_duration i64 is_within ◌+ℤ◌ seconds_of
day_and_half = refl

-- the product of these weeks wraps
past_i64 : parse_iso8601_duration (codes "P9223372036854775807W") ≡ ok (negsuc 604799)
unfolding parse_iso8601_duration i64 is_within ◌+ℤ◌ seconds_of
past_i64 = refl

parse_iso8601_duration_sound_example : Reads (codes "P1DT12H") (pos 129600)
parse_iso8601_duration_sound_example =
    parse_iso8601_duration_sound (codes "P1DT12H") (pos 129600) day_and_half

one_day : Segments date_units (codes "1D") (86400 ∷ [])
unfolding parse_i64 decimal_from unit_secs
one_day = segment (codes "1") b'D' 1 86400 (refl, tt) refl refl refl empty

half_a_day : Segments time_units (codes "12H") (43200 ∷ [])
unfolding parse_i64 decimal_from unit_secs
half_a_day = segment (codes "12") b'H' 12 3600 (refl, (refl, tt)) refl refl refl empty

day_and_half-IsDuration : IsDuration (codes "P1DT12H") (86400 ∷ 43200 ∷ [])
day_and_half-IsDuration = with_time (λ e. cc) one_day half_a_day

parse_iso8601_duration_complete_example : parse_iso8601_duration (codes "P1DT12H") ≡ (
    if leb (sum (86400 ∷ 43200 ∷ [])) max_seconds
    then ok (pos (sum (86400 ∷ 43200 ∷ [])))
    else err overflow)
parse_iso8601_duration_complete_example =
    parse_iso8601_duration_complete day_and_half-IsDuration (omega arith, (omega arith, tt))
