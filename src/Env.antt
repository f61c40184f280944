-- ===== src/Env.antt =====
-- crates/wfe-core/src/v22/env.rs: the environment variables of a run, and the `$env.KEY` references
-- in expressions and texts.
pub mod Secrets
pub mod Agreement
pub mod Rounds
use agnoflow_engine.Prelude.{
  ℕ, zero, suc, Bool, ◌&&◌, ◌||◌, not, Option, none, some, List, [], ◌∷◌, ◌++◌, leb, ◌==◌,
  if◌then◌else◌, Text, codes, strip_prefix, cons_fst, Dict, lookup, map, filter, length, map_opt,
  is_some, is_empty, ok, err, ◌>>=◌,
}
use agnoflow_engine.Types.Json.{Json, null, string, object, Fields, end, field}
use agnoflow_engine.Types.Errors.{EngineError, Fallible, invalid_expression}
use agnoflow_engine.Types.Host.{Host}

pub record EnvValue : Type 0 where
  pub value : Json
  pub is_secret : Bool

abbrev pub EnvSet : Type 0
EnvSet = Dict EnvValue

-- The part of an environment that a user may see; only `public_env` makes one.
pub record PublicEnv : Type 0 where
  pub vars : EnvSet

pub public_env : EnvSet → PublicEnv
public_env vars = record {
  vars = filter (λ (kv : Text × EnvValue). not (EnvValue.is_secret kv.1)) vars;
}

abbrev pub empty_public_env : PublicEnv
empty_public_env = record { vars = [] }

-- `RunEnv::new`: the whole environment and its public part
pub record RunEnv : Type 0 where
  pub full : EnvSet
  pub public : PublicEnv

unfoldable pub run_env : EnvSet → RunEnv
unfolding public_env
run_env full = record { full = full; public = public_env full }

env_fields : EnvSet → Fields
env_fields [] = end
env_fields ((k, v) ∷ vars) = field k v.value (env_fields vars)

unfoldable pub env_json : PublicEnv → Json
unfolding env_fields
env_json env = object (env_fields env.vars)

-- `"$env."`
abbrev pub prefix : Text
prefix = codes "$env."

-- `rest.find(PREFIX)`, as the texts before and behind the first `$env.`
unfoldable pub split_ref : Text → Option (Text × Text)
split_ref [] = none
split_ref (c ∷ s) =
    let rest = split_ref s in
    elim (strip_prefix prefix (c ∷ s)) [
      | some after ↦ some ([], after)
      | none ↦ map_opt (cons_fst c) rest
    ]

abbrev pub contains_ref : Text → Bool
contains_ref s = is_some (split_ref s)

abbrev pub is_upper : ℕ → Bool
is_upper c = leb b'A' c && leb c b'Z'

abbrev pub is_key_char : ℕ → Bool
is_key_char c = is_upper c || (leb b'0' c && leb c b'9') || c == b'_'

-- the longest front of key characters, and the rest
pub span_key : Text → Text × Text
span_key [] = ([], [])
span_key (c ∷ s) = let rest = span_key s in if is_key_char c then cons_fst c rest else ([], c ∷ s)

abbrev pub starts_upper : Text × Text → Option (Text × Text)
starts_upper ([], rest) = none
starts_upper (c ∷ key, rest) = if is_upper c then some (c ∷ key, rest) else none

-- The key at the front of a text, with the text behind it.
pub read_key : Text → Option (Text × Text)
unfolding span_key
read_key rest = starts_upper (span_key rest)

abbrev take_text : ℕ → Text → Text
take_text zero s = []
take_text (suc n) [] = []
take_text (suc n) (c ∷ s) = c ∷ take_text n s

pub bad_reference : Text → EngineError
bad_reference after = invalid_expression (
    codes "geçersiz $env referansı '$env."
    ++ (take_text 20 after ++ codes "' — anahtar [A-Z][A-Z0-9_]* olmalı"))

pub undefined_key : Text → EngineError
undefined_key key = invalid_expression (
    codes "$env."
    ++ (key
        ++ codes
            " bu ortamda tanımlı değil (secret ise: draft/simulate koşumunda secret'lar çözülmez)"))

-- `references`, the loop on fuel: every round takes the prefix from the text
pub references_loop : ℕ → Text → Fallible (List Text)
unfolding split_ref read_key
references_loop zero rest = ok []
references_loop (suc fuel) rest = elim (split_ref rest) [
  | none ↦ ok []
  | some (before, after) ↦ elim (read_key after) [
    | none ↦ err (bad_reference after)
    | some (key, behind) ↦ references_loop fuel behind >>= λ keys. ok (key ∷ keys)
  ]
]

pub references : Text → Fallible (List Text)
unfolding references_loop
references s = references_loop (suc (length s)) s

pub get_env : EnvSet → Text → Fallible EnvValue
get_env vars key = elim (lookup key vars) [ none ↦ err (undefined_key key) | some v ↦ ok v ]

pub check_keys : EnvSet → List Text → Fallible (Unit {0})
unfolding get_env
check_keys vars [] = ok tt
check_keys vars (key ∷ keys) = get_env vars key >>= λ _. check_keys vars keys

unfoldable pub assert_refs_defined : Text → EnvSet → Fallible (Unit {0})
unfolding references check_keys
assert_refs_defined expr vars = references expr >>= check_keys vars

-- A text that is one reference and nothing else.
pub whole_ref : Text → Option Text
unfolding read_key
whole_ref s = elim (strip_prefix prefix s) [
  | none ↦ none
  | some after ↦ elim (read_key after) [
    | none ↦ none
    | some (key, behind) ↦ if is_empty behind then some key else none
  ]
]

module _ (host : Host) where
  pub scalar_to_string : Json → Text
  scalar_to_string (string s) = s
  scalar_to_string null = []
  scalar_to_string v = host.json_text v

  -- `EnvSet::secret_strings`: what must not show in a log
  pub secret_strings : EnvSet → List Text
  unfolding scalar_to_string
  secret_strings vars =
      filter (λ s. not (is_empty s))
        (map (λ (kv : Text × EnvValue). scalar_to_string (EnvValue.value kv.1))
          (filter (λ (kv : Text × EnvValue). EnvValue.is_secret kv.1) vars))

  -- the loop of `resolve_string`: the text that is written for `rest`
  pub resolve_loop : ℕ → EnvSet → Text → Fallible Text
  unfolding split_ref read_key get_env scalar_to_string
  resolve_loop zero vars rest = ok rest
  resolve_loop (suc fuel) vars rest = elim (split_ref rest) [
    | none ↦ ok rest
    | some (before, after) ↦ elim (read_key after) [
      | none ↦ err (bad_reference after)
      | some (key, behind) ↦ get_env vars key >>= λ v.
          resolve_loop fuel vars behind >>= λ out. ok (before ++ (scalar_to_string v.value ++ out))
    ]
  ]

  unfoldable pub resolve_string : Text → EnvSet → Fallible (Option Json)
  unfolding whole_ref resolve_loop
  resolve_string s vars = if not (contains_ref s) then ok none else elim (whole_ref s) [
    | some key ↦ get_env vars key >>= λ v. ok (some (EnvValue.value v))
    | none ↦ resolve_loop (suc (length s)) vars s >>= λ out. ok (some (string out))
  ]
