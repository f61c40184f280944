-- ===== src/Tests/EffectRuns.antt =====
-- Runs of the effects (crates/wfe-core/src/v22/effects.rs): two writes, and one under a guard.
use agnoflow_engine.Prelude.{
  text_eq, strip_prefix, ◌≡◌, refl, true, false, none, some, List, [], ◌∷◌, Memᴰ, inl, Text, Dict,
  codes, split, text_eq, text_eq-apart, ok,
}
use agnoflow_engine.Types.Json.{get, get_field, insert_field, Json, bool, string, obj}
use agnoflow_engine.Types.Wfd.{SetWhenEntry, WfesEffects}
use agnoflow_engine.Env.{assert_refs_defined, resolve_string, empty_public_env}
use agnoflow_engine.Ledger.Valid.{for_version}
use agnoflow_engine.Eval.{evaluate_bool}
use agnoflow_engine.Effects.{EffectEnv, get_path, resolve_value, effect_eval_env, apply_effects}
use agnoflow_engine.Effects.Paths.{Apart}
use agnoflow_engine.Effects.Apply.{
  Leaves, Disjoint, WhenLeaves, apply_effects_set, apply_effects_last_wins,
}
use agnoflow_engine.Tests.Data.{host, alice, wfd, ledger}

abbrev effect_env : EffectEnv
effect_env = record {
  actor = alice;
  wfe_id = 5;
  node = some (codes "review");
  action_input = none;
  exec_result = none;
  call = none;
  env = empty_public_env;
  now = 3;
  wfah = ledger;
  valid_rules = for_version wfd;
}

abbrev before : Json
before = obj ((codes "a", bool true) ∷ (codes "z", bool false) ∷ [])

-- `b.x` takes the value that `a` has before the transition
abbrev sets : Dict Json
sets = (codes "a", string (codes "new")) ∷ (codes "b.x", string (codes "$ctx.a")) ∷ []

abbrev guarded : SetWhenEntry
guarded = record { when = codes "true"; set = (codes "c", string (codes "$node")) ∷ [] }

abbrev effects : WfesEffects
effects = record { set = sets; set_when = guarded ∷ [] }

abbrev after : Json
after = obj (
    (codes "a", string (codes "new"))
    ∷ (codes "z", bool false)
    ∷ (codes "b", obj ((codes "x", bool true) ∷ []))
    ∷ (codes "c", string (codes "review"))
    ∷ [])

applied : apply_effects host before effects effect_env 4 ≡ ok after
unfolding apply_effects resolve_string strip_prefix text_eq evaluate_bool assert_refs_defined split
    insert_field get_field get_path get
applied = refl

b_from_a : Apart (split b'.' (codes "b.x")) (split b'.' (codes "a"))
unfolding Apart split text_eq
b_from_a = inl (text_eq-apart (codes "b") (codes "a") refl)

sets-Disjoint : Disjoint sets
sets-Disjoint = (
  λ kv m. elim m [ Memᴰ.head e ↦ rw e b_from_a | Memᴰ.tail n ↦ elim n [ ] ],
  ((λ kv m. elim m [ ]), tt),
)

c_from_b : Apart (split b'.' (codes "c")) (split b'.' (codes "b.x"))
unfolding Apart split text_eq
c_from_b = inl (text_eq-apart (codes "c") (codes "b") refl)

guarded_leaves_b : WhenLeaves (guarded ∷ []) (codes "b.x")
guarded_leaves_b = λ entry m. elim m [
  | Memᴰ.head e ↦ rw e (λ kv k. elim k [ Memᴰ.head q ↦ rw q c_from_b | Memᴰ.tail n ↦ elim n [ ] ])
  | Memᴰ.tail n ↦ elim n [ ]
]

apply_effects_set_example :
    (v : Json) × (resolve_value host (string (codes "$ctx.a")) before effect_env ≡ ok v)
    × (get_path after (codes "b.x") ≡ some v)
apply_effects_set_example =
    apply_effects_set host before effect_env effects 4 {out = after} sets-Disjoint applied
      (codes "b.x") (string (codes "$ctx.a")) (Memᴰ.tail (Memᴰ.head refl)) guarded_leaves_b

away_from_z :
    (p : Text) → text_eq p (codes "z") ≡ false → (ps : List Text) → Apart (p ∷ ps) (codes "z" ∷ [])
unfolding Apart
away_from_z p f ps = inl (text_eq-apart p (codes "z") f)

sets_leave_z : Leaves sets (codes "z")
unfolding split text_eq
sets_leave_z = λ kv m. elim m [
  | Memᴰ.head e ↦ rw e (away_from_z (codes "a") refl [])
  | Memᴰ.tail n ↦ elim n [
    | Memᴰ.head e ↦ rw e (away_from_z (codes "b") refl (codes "x" ∷ []))
    | Memᴰ.tail k ↦ elim k [ ]
  ]
]

guarded_leaves_z : WhenLeaves (guarded ∷ []) (codes "z")
unfolding split text_eq
guarded_leaves_z = λ entry m. elim m [
  | Memᴰ.head e ↦ rw e (λ kv k. elim k [
    | Memᴰ.head q ↦ rw q (away_from_z (codes "c") refl [])
    | Memᴰ.tail n ↦ elim n [ ]
  ])
  | Memᴰ.tail n ↦ elim n [ ]
]

guard_holds_here :
    evaluate_bool host (codes "true") (effect_eval_env host before effect_env) 4 ≡ ok true
unfolding evaluate_bool assert_refs_defined strip_prefix
guard_holds_here = refl

apply_effects_last_wins_example :
    (v : Json) × (resolve_value host (string (codes "$node")) before effect_env ≡ ok v)
    × (get_path after (codes "c") ≡ some v)
apply_effects_last_wins_example =
    apply_effects_last_wins host before effect_env effects 4 {out = after} [] guarded refl
      ((λ kv m. elim m [ ]), tt) guard_holds_here applied (codes "c") (string (codes "$node"))
      (Memᴰ.head refl)
