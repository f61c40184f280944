-- ===== src/Pipeline/Route/Targets.antt =====
-- crates/wfe-core/src/v22/pipeline.rs (`resolve_wft`): where a route leads, and what an instance becomes
-- that comes there.
use agnoflow_engine.Prelude.{
  ◌≡◌, ◌≢◌, ap, true, false, Option, none, some, List, [], ◌∷◌, inl, inr, Bool-cases, Option-cases,
  Text, text_eq_sound, text_eq_refl, ok, >>=-eq-ok,
}
use agnoflow_engine.Types.Json.{Json}
use agnoflow_engine.Types.Wfd.{WftTarget, WftCondition, Wft}
use agnoflow_engine.Types.Host.{Host}
use agnoflow_engine.Outcome.{CommitOutcome, move_to, terminal}
use agnoflow_engine.Eval.{evaluate_bool}
use agnoflow_engine.Pipeline.Route.{
  Situation, condition_env, condition_target, terminal_outcome, choose, same_target,
}

-- outcomes outside of the parallel mode
pub data Landing : CommitOutcome → Type 0 where
  at_node : {n : Text} → Landing (move_to n)
  at_terminal : {r : Json} → Landing (terminal r)

module _ (host : Host) (at : Situation) (ctx : Json) where
  -- the one target that a condition names
  pub data Names (c : WftCondition) : WftTarget → Type 0 where
    names_node : {n : Text} → c.node ≡ some n → c.terminal ≡ none → Names c (WftTarget.node n)
    names_terminal :
        {t : Text} → c.node ≡ none → c.terminal ≡ some t → Names c (WftTarget.terminal t)

  -- The target of the first condition that holds on this context, or the default one.
  pub data Chooses (default : Option WftTarget) : List WftCondition → WftTarget → Type 0 where
    by_default : {t : WftTarget} → default ≡ some t → Chooses default [] t
    takes :
        {c : WftCondition} {cs : List WftCondition} {t : WftTarget}
        → evaluate_bool host c.when (condition_env host at ctx) at.now ≡ ok true
        → Names c t
        → Chooses default (c ∷ cs) t
    passes :
        {c : WftCondition} {cs : List WftCondition} {t : WftTarget}
        → evaluate_bool host c.when (condition_env host at ctx) at.now ≡ ok false
        → Chooses default cs t
        → Chooses default (c ∷ cs) t

  -- where a route leads on this context
  pub data Targets : Wft → WftTarget → Type 0 where
    that_node : {n : Text} → Targets (Wft.node n) (WftTarget.node n)
    that_terminal : {t : Text} → Targets (Wft.terminal t) (WftTarget.terminal t)
    chosen :
        {cs : List WftCondition} {default : Option WftTarget} {t : WftTarget}
        → Chooses default cs t
        → Targets (Wft.conditional cs default) t

  -- what an instance becomes that comes to a target
  pub data Lands : WftTarget → CommitOutcome → Type 0 where
    to_node : {n : Text} → Lands (WftTarget.node n) (move_to n)
    to_terminal :
        {t : Text} {r : Json × Json}
        → terminal_outcome host at t ctx ≡ ok r
        → Lands (WftTarget.terminal t) (terminal r.0)

  pub Lands-Landing : {t : WftTarget} {o : CommitOutcome} → Lands t o → Landing o
  Lands-Landing to_node = at_node
  Lands-Landing (to_terminal h) = at_terminal

  Names-sound :
      (c : WftCondition) (t : WftTarget)
      → condition_target host at c.node c.terminal ≡ ok t
      → Names c t
  Names-sound c t h = elim (Option-cases c.node) [
    | inl n ↦ elim (Option-cases c.terminal) [
      | inl m ↦ absurd (let h' = rw (n, m) at h in cc)
      | inr (x, m) ↦
          let h' = rw (n, m) at h in
          let q : WftTarget.terminal x ≡ t = cc in rw (← q) (names_terminal n m)
    ]
    | inr (x, n) ↦ elim (Option-cases c.terminal) [
      | inl m ↦
          let h' = rw (n, m) at h in let q : WftTarget.node x ≡ t = cc in rw (← q) (names_node n m)
      | inr (y, m) ↦ absurd (let h' = rw (n, m) at h in cc)
    ]
  ]

  pub choose_sound :
      (cs : List WftCondition) (default : Option WftTarget) {t : WftTarget}
      → choose host at cs default ctx ≡ ok t
      → Chooses default cs t
  unfolding choose
  choose_sound [] none h = absurd (cc)
  choose_sound [] (some d) {t} h = by_default (let q : d ≡ t = cc in ap some q)
  choose_sound (c ∷ cs) default {t} h =
      let (holds, e, k) =
        >>=-eq-ok (evaluate_bool host c.when (condition_env host at ctx) at.now) _ h in
      elim (Bool-cases holds) [
        | inl y ↦ takes (rw y at e) (Names-sound c t (rw y at k))
        | inr n ↦ passes (rw n at e) (choose_sound cs default (rw n at k))
      ]

  pub same_sound : (a b : WftTarget) → same_target host at a b ≡ true → a ≡ b
  same_sound (WftTarget.node a) (WftTarget.node b) h = ap WftTarget.node (text_eq_sound a b h)
  same_sound (WftTarget.terminal a) (WftTarget.terminal b) h =
      ap WftTarget.terminal (text_eq_sound a b h)
  same_sound (WftTarget.node a) (WftTarget.terminal b) h = absurd (cc)
  same_sound (WftTarget.terminal a) (WftTarget.node b) h = absurd (cc)

  same_refl : (a : WftTarget) → same_target host at a a ≡ true
  same_refl (WftTarget.node a) = text_eq_refl a
  same_refl (WftTarget.terminal a) = text_eq_refl a

  pub same_apart : (a b : WftTarget) → same_target host at a b ≡ false → a ≢ b
  same_apart a b f e = absurd (let g = rw (e, same_refl b) at f in cc)
