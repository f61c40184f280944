-- ===== src/Access/Grants/Admins.antt =====
-- crates/wfe-core/src/v22/grants.rs: a list of grant rules is an "or", and the gate of the global
-- actions opens by a rule that holds the action and admits the actor.
use agnoflow_engine.Prelude.{
  ◌≡◌, refl, subst, Bool, true, false, not, List, [], ◌∷◌, ◌++◌, Memᴰ, Memᴰ-cases, inl, inr,
  if◌then◌else◌, Bool-cases, any, any-append, is_empty, ok, err, ◌>>=◌, >>=-eq-ok,
}
use agnoflow_engine.Types.Errors.{Fallible, unauthorized}
use agnoflow_engine.Types.Actor.{Instant, Actor}
use agnoflow_engine.Types.Wfd.{CaGrantRule, GlobalAction, WfAdminRule}
use agnoflow_engine.Types.Wfes.{Wfes}
use agnoflow_engine.Types.Host.{Host}
use agnoflow_engine.Ledger.Valid.{ValidRules}
use agnoflow_engine.Access.Ports.{OrgPort}
use agnoflow_engine.Access.Matcher.{authorize_or_delegated_anchored}
use agnoflow_engine.Access.Grants.{
  match_env, guard_holds, rule_admits, matches_grant_rules, wf_admin_global_actions,
  require_global_action, same_action,
}

module _ (host : Host) (org : OrgPort) (now : Instant) (actor : Actor) (wfes : Wfes)
    (rules : ValidRules) where
  -- The actor fits the rule in person or by delegation, and the guard holds on the instance.
  abbrev pub Opens : CaGrantRule → Type 0
  Opens rule =
      (authorize_or_delegated_anchored host org rule.c_a actor wfes.origin_orgu_id (match_env wfes)
          now
        ≡ ok true)
      × (guard_holds host org now rule.when actor wfes rules ≡ ok true)

  rule_admits_sound :
      (rule : CaGrantRule) → rule_admits host org now rule actor wfes rules ≡ ok true → Opens rule
  unfolding rule_admits
  rule_admits_sound rule h =
      let (b, e, h1) =
        >>=-eq-ok
          (authorize_or_delegated_anchored host org rule.c_a actor wfes.origin_orgu_id
            (match_env wfes) now)
          (λ mine.
            if not mine then ok false else guard_holds host org now rule.when actor wfes rules)
          h in
      elim (Bool-cases b) [
        | inl t ↦ (rw t at e, rw t at h1)
        | inr f ↦ absurd (let h' = rw f at h1 in cc)
      ]

  -- what an answer of the list says
  abbrev pub Outcome : List CaGrantRule → Bool → Type 0
  Outcome list true = (rule : CaGrantRule) × Memᴰ rule list × Opens rule
  Outcome list false =
      (rule : CaGrantRule)
      → Memᴰ rule list
      → rule_admits host org now rule actor wfes rules ≡ ok false

  opened :
      (rule : CaGrantRule) (more : List CaGrantRule) (b : Bool)
      → Opens rule
      → Path (Fallible Bool) (ok true) (ok b)
      → Outcome (rule ∷ more) b
  opened rule more true o e = (rule, Memᴰ.head refl, o)
  opened rule more false o e = absurd (cc)

  refused :
      (rule : CaGrantRule) (more : List CaGrantRule) (b : Bool)
      → rule_admits host org now rule actor wfes rules ≡ ok false
      → Outcome more b
      → Outcome (rule ∷ more) b
  refused rule more true f (r, m, o) = (r, Memᴰ.tail m, o)
  refused rule more false f none_fits =
      λ r m. elim (Memᴰ-cases m) [ inl q ↦ rw q f | inr n ↦ none_fits r n ]

  -- A list of rules that opens has a rule that admits the actor and whose guard holds; a list that
  -- stays shut has refused the actor in each of its rules.
  pub matches_grant_rules_sound :
      (list : List CaGrantRule) (b : Bool)
      → matches_grant_rules host org now list actor wfes rules ≡ ok b
      → Outcome list b
  unfolding matches_grant_rules
  matches_grant_rules_sound [] true h = absurd (cc)
  matches_grant_rules_sound [] false h = λ rule m. elim m [ ]
  matches_grant_rules_sound (rule ∷ more) b h =
      let (fits, e, h1) =
        >>=-eq-ok (rule_admits host org now rule actor wfes rules)
          (λ fits. if fits then ok true else matches_grant_rules host org now more actor wfes rules)
          h in
      elim (Bool-cases fits) [
        | inl t ↦ opened rule more b (rule_admits_sound rule (rw t at e)) (rw t at h1)
        | inr f ↦ refused rule more b (rw f at e) (matches_grant_rules_sound more b (rw f at h1))
      ]

  -- A rule allows the action, and opens for the actor.
  abbrev pub Allows : List WfAdminRule → GlobalAction → Type 0
  Allows admins action =
      (rule : WfAdminRule) × Memᴰ rule admins
      × (any (same_action action) rule.allowed_global_actions ≡ true)
      × Opens rule.grant

  later :
      (rule : WfAdminRule) (more : List WfAdminRule) (action : GlobalAction)
      → Allows more action
      → Allows (rule ∷ more) action
  later rule more action (r, m, a, o) = (r, Memᴰ.tail m, a, o)

  single : (rule : CaGrantRule) → Outcome (rule ∷ []) true → Opens rule
  single rule (r, m, o) = elim (Memᴰ-cases m) [ inl q ↦ subst Opens q o | inr n ↦ elim n [ ] ]

  in_union :
      (rule : WfAdminRule) (more : List WfAdminRule) (action : GlobalAction)
      (out : List GlobalAction)
      → Outcome (rule.grant ∷ []) true
      → (any (same_action action) out ≡ true → Allows more action)
      → any (same_action action) (rule.allowed_global_actions ++ out) ≡ true
      → Allows (rule ∷ more) action
  in_union rule more action out o ih h =
      elim (Bool-cases (any (same_action action) rule.allowed_global_actions)) [
        | inl t ↦ (rule, Memᴰ.head refl, t, single rule.grant o)
        | inr f ↦
            later rule more action
              (ih (rw (any-append (same_action action) rule.allowed_global_actions out, f) at h))
      ]

  -- one round of the union, by whether the rule opens
  global_step :
      (rule : WfAdminRule) (more : List WfAdminRule) (action : GlobalAction)
      (out actions : List GlobalAction) (fits : Bool)
      → Outcome (rule.grant ∷ []) fits
      → Path
          (Fallible (List GlobalAction))
          (ok (if fits then rule.allowed_global_actions ++ out else out))
          (ok actions)
      → (any (same_action action) out ≡ true → Allows more action)
      → any (same_action action) actions ≡ true
      → Allows (rule ∷ more) action
  global_step rule more action out actions true o e ih h =
      let q : rule.allowed_global_actions ++ out ≡ actions = cc in
      in_union rule more action out o ih (rw q h)
  global_step rule more action out actions false o e ih h =
      let q : out ≡ actions = cc in later rule more action (ih (rw q h))

  wf_admin_global_actions_sound :
      (admins : List WfAdminRule) (action : GlobalAction) (actions : List GlobalAction)
      → wf_admin_global_actions host org now admins actor wfes rules ≡ ok actions
      → any (same_action action) actions ≡ true
      → Allows admins action
  unfolding wf_admin_global_actions
  wf_admin_global_actions_sound [] action actions h t =
      let q : actions ≡ [] = cc in absurd (let t' = rw q at t in cc)
  wf_admin_global_actions_sound (rule ∷ more) action actions h t =
      elim (Bool-cases (is_empty rule.allowed_global_actions)) [
        | inl e ↦ later rule more action (
            wf_admin_global_actions_sound more action actions (rw (e, wf_admin_global_actions) at h)
              t)
        | inr f ↦
            let (fits, e1, h1) =
              >>=-eq-ok (matches_grant_rules host org now (rule.grant ∷ []) actor wfes rules)
                (λ fits. wf_admin_global_actions host org now more actor wfes rules >>= λ out.
                  ok (if fits then rule.allowed_global_actions ++ out else out))
                (rw (f, wf_admin_global_actions) at h) in
            let (out, e2, h2) =
              >>=-eq-ok (wf_admin_global_actions host org now more actor wfes rules)
                (λ out. ok (if fits then rule.allowed_global_actions ++ out else out)) h1 in
            global_step rule more action out actions fits
              (matches_grant_rules_sound (rule.grant ∷ []) fits e1) h2
              (wf_admin_global_actions_sound more action out e2) t
      ]

  -- An administrator passes the gate of a global action only by a rule of the workflow that allows
  -- this action and opens for the actor.
  pub require_global_action_sound :
      (admins : List WfAdminRule) (action : GlobalAction)
      → require_global_action host org now admins actor action wfes rules ≡ ok tt
      → Allows admins action
  unfolding require_global_action
  require_global_action_sound admins action h =
      let (actions, e, h1) =
        >>=-eq-ok (wf_admin_global_actions host org now admins actor wfes rules)
          (λ actions. if any (same_action action) actions then ok tt else err unauthorized) h in
      elim (Bool-cases (any (same_action action) actions)) [
        | inl t ↦ wf_admin_global_actions_sound admins action actions e t
        | inr f ↦ absurd (let h' = rw f at h1 in cc)
      ]
