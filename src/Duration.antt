-- ===== src/Duration.antt =====
-- crates/wfe-core/src/v22/duration.rs: the parser of ISO 8601 durations, which escalations, claim
-- timeouts and deadlines use. A duration is its number of seconds. The product `n * unit_secs` wraps
-- in `i64`, as in a build without overflow checks.
pub mod Grammar
use agnoflow_engine.Prelude.{
  ℕ, ◌+◌, ◌-◌, ◌*◌, ◌^◌, Bool, ◌&&◌, Option, none, some, List, [], ◌∷◌, ◌++◌, ◌==◌, leb,
  if◌then◌else◌, Text, codes, strip_prefix, split_once, is_empty, Result, ok, err, ◌>>=◌, ℤ, pos,
  ◌+ℤ◌, i64, is_within,
}
use agnoflow_engine.Types.Errors.{EngineError, invalid_wfd}

-- An error that the function returns, or a panic of chrono's: more seconds, either way, than a
-- `chrono::Duration` holds, in its constructor and its `+=`, or an instant out of chrono's range.
pub data Failure : Type 0 where
  error : EngineError → Failure
  overflow : Failure

unfoldable pub duration_error : Text → Failure
duration_error s = error (invalid_wfd (codes "geçersiz ISO 8601 duration: '" ++ s ++ codes "'"))

abbrev pub is_ascii_digit : ℕ → Bool
is_ascii_digit c = leb b'0' c && leb c b'9'

-- `i64::MAX`, and the most seconds of a `chrono::Duration` (`i64::MAX` milliseconds, and as many below)
abbrev pub max_i64 : ℕ
max_i64 = 2 ^ 63 - 1

abbrev pub max_seconds : ℕ
max_seconds = 9223372036854775

unfoldable pub decimal_from : ℕ → Text → ℕ
decimal_from n [] = n
decimal_from n (c ∷ cs) = decimal_from (n * 10 + (c - b'0')) cs

abbrev pub decimal : Text → ℕ
decimal = decimal_from 0

-- `num.parse::<i64>()` on a text of digits
unfoldable pub parse_i64 : Text → Option ℕ
parse_i64 num =
    if is_empty num then none else if leb (decimal num) max_i64 then some (decimal num) else none

unfoldable pub unit_secs : List (ℕ × ℕ) → ℕ → Option ℕ
unit_secs [] c = none
unit_secs ((u, secs) ∷ units) c = let rest = unit_secs units c in if u == c then some secs else rest

-- `Duration::seconds`, and the check of `+=`
unfoldable pub seconds_of : ℤ → Result Failure ℤ
seconds_of n = if is_within max_seconds n then ok n else err overflow

-- `total += Duration::seconds(n * unit_secs)`
pub add_seconds : ℤ → ℕ → Result Failure ℤ
unfolding seconds_of
add_seconds total product = seconds_of (i64 product) >>= λ d. seconds_of (total +ℤ d)

-- The closure `parse_segments`: the digits read so far, and the running total.
pub parse_segments : Text → List (ℕ × ℕ) → Text → ℤ → Text → Result Failure ℤ
unfolding unit_secs parse_i64 decimal_from add_seconds
parse_segments s units num total [] = if is_empty num then ok total else err (duration_error s)
parse_segments s units num total (c ∷ part) =
    let digit = parse_segments s units (num ++ c ∷ []) total part in
    if is_ascii_digit c then digit else elim (unit_secs units c) [
      | none ↦ err (duration_error s)
      | some secs ↦ elim (parse_i64 num) [
        | none ↦ err (duration_error s)
        | some n ↦ add_seconds total (n * secs) >>= λ sum. parse_segments s units [] sum part
      ]
    ]

abbrev pub date_units : List (ℕ × ℕ)
date_units = (b'W', 7 * 86400) ∷ (b'D', 86400) ∷ []

abbrev pub time_units : List (ℕ × ℕ)
time_units = (b'H', 3600) ∷ (b'M', 60) ∷ (b'S', 1) ∷ []

-- the date part, then the time part if there is one
pub parse_parts : Text → Text → Option Text → Result Failure ℤ
unfolding parse_segments
parse_parts s date_part none = parse_segments s date_units [] (pos 0) date_part
parse_parts s date_part (some time_part) =
    if is_empty time_part
    then err (duration_error s)
    else elim (parse_segments s date_units [] (pos 0) date_part) [
      | err e ↦ err e
      | ok total ↦ parse_segments s time_units [] total time_part
    ]

pub parse_rest : Text → Text → Result Failure ℤ
unfolding parse_parts split_once
parse_rest s rest = if is_empty rest then err (duration_error s) else elim (split_once b'T' rest) [
  | none ↦ parse_parts s rest none
  | some (d, t) ↦ parse_parts s d (some t)
]

unfoldable pub parse_iso8601_duration : Text → Result Failure ℤ
unfolding parse_rest strip_prefix
parse_iso8601_duration s = elim (strip_prefix (b'P' ∷ []) s) [
  | none ↦ err (duration_error s)
  | some rest ↦ parse_rest s rest
]
