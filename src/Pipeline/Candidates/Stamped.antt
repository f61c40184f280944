-- ===== src/Pipeline/Candidates/Stamped.antt =====
-- crates/wfe-core/src/v22/pipeline.rs (`node_candidates`): by what each candidate of a node may claim.
use agnoflow_engine.Prelude.{
  ◌≡◌, refl, Bool, true, false, some, List, [], ◌∷◌, ◌++◌, Memᴰ, All, All-join, All-map, map, any,
  lookup, ◌==◌, append_assoc, append-nil, opt_eq_refl, ==_refl, text_eq, text_eq_refl, Text,
  Bool-cases, Option-cases, inl, inr, ok, >>=-eq-ok, any-append, arith,
}
use agnoflow_engine.Types.Json.{Json}
use agnoflow_engine.Types.Actor.{Uuid, ClaimAuthority, ca, grant, ResolvedCandidate}
use agnoflow_engine.Types.Wfah.{Wfah}
use agnoflow_engine.Types.Wfd.{CaGrantRule, NodeDef, Wfd}
use agnoflow_engine.Types.Host.{Host}
use agnoflow_engine.Access.Ports.{OrgPort}
use agnoflow_engine.Access.Grants.{open_grants}
use agnoflow_engine.Pipeline.Candidates.{
  same_actor, same_flag, stamp, add_granted, resolve_candidates, with_grants, node_candidates,
}

same_flag_refl : (b : Bool) → same_flag b b ≡ true
same_flag_refl true = refl
same_flag_refl false = refl

-- the authority is no part of who a candidate is
same_actor-stamp :
    (o c : ResolvedCandidate) (a : ClaimAuthority) → same_actor o (stamp a c) ≡ same_actor o c
unfolding same_actor
same_actor-stamp o c a = refl

stamp-same_actor : (c : ResolvedCandidate) (a : ClaimAuthority) → same_actor (stamp a c) c ≡ true
unfolding same_actor
stamp-same_actor c a =
    rw
      (
        opt_eq_refl (λ a b. a == b) ==_refl c.orgu_id,
        text_eq_refl c.role,
        opt_eq_refl (λ a b. a == b) ==_refl c.user_id,
        opt_eq_refl text_eq text_eq_refl c.user_ident,
        same_flag_refl c.any_orgu,
      )
      refl

-- somebody on the list is this candidate
abbrev pub Has : List ResolvedCandidate → ResolvedCandidate → Type 0
Has cs c = any (λ o. same_actor o c) cs ≡ true

-- nobody on the list is this candidate
abbrev pub Lacks : List ResolvedCandidate → ResolvedCandidate → Type 0
Lacks cs c = any (λ o. same_actor o c) cs ≡ false

-- one of these candidates, who may claim by a grant
abbrev StampOf : List ResolvedCandidate → ResolvedCandidate → Type 0
StampOf more c = (c0 : ResolvedCandidate) × Memᴰ c0 more × (c ≡ stamp grant c0)

any-stamp :
    (own : List ResolvedCandidate) (c : ResolvedCandidate) (a : ClaimAuthority)
    → any (λ o. same_actor o (stamp a c)) own ≡ any (λ o. same_actor o c) own
any-stamp [] c a = refl
any-stamp (o ∷ own) c a = rw (same_actor-stamp o c a, any-stamp own c a) refl

Has-append : (xs ys : List ResolvedCandidate) (c : ResolvedCandidate) → Has xs c → Has (xs ++ ys) c
Has-append xs ys c h = let e = any-append (λ o. same_actor o c) xs ys in ground arith

Lacks-before :
    (xs ys : List ResolvedCandidate) (c : ResolvedCandidate) → Lacks (xs ++ ys) c → Lacks xs c
Lacks-before xs ys c h = let e = any-append (λ o. same_actor o c) xs ys in ground arith

Has-last : (xs : List ResolvedCandidate) (c : ResolvedCandidate) → Has (xs ++ stamp grant c ∷ []) c
Has-last xs c =
    let e = any-append (λ o. same_actor o c) xs (stamp grant c ∷ []) in
    let q = stamp-same_actor c grant in ground arith

-- What the candidates of one grant add to a list: some of them, none of whom is on the list yet, and
-- behind whom each of them is.
record Adds (out more after : List ResolvedCandidate) : Type 0 where
  pub added : List ResolvedCandidate
  pub are : after ≡ out ++ added
  pub from : All (StampOf more) added
  pub new_ones : All (Lacks out) added
  pub all_in : All (Has after) more

later_stamp :
    (c : ResolvedCandidate) (more : List ResolvedCandidate) (x : ResolvedCandidate)
    → StampOf more x
    → StampOf (c ∷ more) x
later_stamp c more x (c0, m, e) = (c0, Memᴰ.tail m, e)

add_granted-Adds : (out more : List ResolvedCandidate) → Adds out more (add_granted out more)
unfolding add_granted
add_granted-Adds out [] = record {
  added = [];
  are = rw (append-nil out) refl;
  from = tt;
  new_ones = tt;
  all_in = tt;
}
add_granted-Adds out (c ∷ cs) = elim (Bool-cases (any (λ o. same_actor o c) out)) [
  | inl t ↦
      let r = add_granted-Adds out cs in
      let here : Has (add_granted out cs) c = rw r.are (Has-append out r.added c t) in
      rw (t, add_granted)
        record {
          added = r.added;
          are = r.are;
          from = All-map (StampOf cs) (StampOf (c ∷ cs)) r.added (later_stamp c cs) r.from;
          new_ones = r.new_ones;
          all_in = (here, r.all_in);
        }
  | inr f ↦
      let mid = out ++ stamp grant c ∷ [] in
      let r = add_granted-Adds mid cs in
      let here : Has (add_granted mid cs) c =
        rw r.are (Has-append mid r.added c (Has-last out c)) in
      rw (f, add_granted)
        record {
          added = stamp grant c ∷ r.added;
          are = rw (r.are, append_assoc) refl;
          from = (
            (c, Memᴰ.head refl, refl),
            All-map (StampOf cs) (StampOf (c ∷ cs)) r.added (later_stamp c cs) r.from,
          );
          new_ones = (
            rw (any-stamp out c grant) f,
            All-map (Lacks mid) (Lacks out) r.added (λ x. Lacks-before out (stamp grant c ∷ []) x)
                r.new_ones,
          );
          all_in = (here, r.all_in);
        }
]

module _ (host : Host) (org : OrgPort) (context : Json) (wfah : Wfah)
    (anchor orgtnt_id : Uuid) where
  abbrev Resolved : CaGrantRule → List ResolvedCandidate → Type 0
  Resolved g extra =
      resolve_candidates host org context wfah anchor orgtnt_id (CaGrantRule.c_a g) ≡ ok extra

  -- a candidate of one of the grants, who may claim by it
  abbrev pub Granted : List CaGrantRule → ResolvedCandidate → Type 0
  Granted grants c =
      (g : CaGrantRule) × Memᴰ g grants
      × (extra : List ResolvedCandidate) × Resolved g extra
      × StampOf extra c

  -- whoever is a candidate of the grant is on the list
  abbrev pub Served : List ResolvedCandidate → CaGrantRule → Type 0
  Served cs g = (extra : List ResolvedCandidate) × Resolved g extra × All (Has cs) extra

  -- The list, and behind it whom the grants add: candidates of theirs, stamped with the grant, who
  -- are not on the list; and all candidates of the grants are there.
  pub record Extends (grants : List CaGrantRule) (own cs : List ResolvedCandidate) : Type 0 where
    pub granted : List ResolvedCandidate
    pub are : cs ≡ own ++ granted
    pub from_grants : All (Granted grants) granted
    pub new_ones : All (Lacks own) granted
    pub all_served : All (Served cs) grants

  later_grant :
      (g : CaGrantRule) (gs : List CaGrantRule) (c : ResolvedCandidate)
      → Granted gs c
      → Granted (g ∷ gs) c
  later_grant g gs c (g', m, extra, r, s) = (g', Memᴰ.tail m, extra, r, s)

  this_grant :
      (g : CaGrantRule) (gs : List CaGrantRule) (extra : List ResolvedCandidate)
      → Resolved g extra
      → (c : ResolvedCandidate) → StampOf extra c
      → Granted (g ∷ gs) c
  this_grant g gs extra r c s = (g, Memᴰ.head refl, extra, r, s)

  with_grants-Extends :
      (grants : List CaGrantRule) (out : List ResolvedCandidate) {cs : List ResolvedCandidate}
      → with_grants host org context wfah anchor orgtnt_id grants out ≡ ok cs
      → Extends grants out cs
  unfolding with_grants
  with_grants-Extends [] out {cs} h =
      let q : out ≡ cs = cc in
      record {
        granted = [];
        are = rw (append-nil out, q) refl;
        from_grants = tt;
        new_ones = tt;
        all_served = tt;
      }
  with_grants-Extends (g ∷ gs) out {cs} h =
      let (extra, r, k) =
        >>=-eq-ok (resolve_candidates host org context wfah anchor orgtnt_id (CaGrantRule.c_a g)) _
          h in
      let a = add_granted-Adds out extra in
      let e = with_grants-Extends gs (add_granted out extra) k in
      let before : cs ≡ (out ++ a.added) ++ e.granted = rw (e.are, a.are) refl in
      record {
        granted = a.added ++ e.granted;
        are = rw (before, append_assoc) refl;
        from_grants =
            All-join (Granted (g ∷ gs)) a.added e.granted
              (All-map (StampOf extra) (Granted (g ∷ gs)) a.added (this_grant g gs extra r) a.from)
              (All-map (Granted gs) (Granted (g ∷ gs)) e.granted (later_grant g gs) e.from_grants);
        new_ones = All-join (Lacks out) a.added e.granted a.new_ones (
            All-map (Lacks (add_granted out extra)) (Lacks out) e.granted
              (λ x l. Lacks-before out a.added x (rw a.are at l)) e.new_ones);
        all_served = (
          (
            extra,
            r,
            All-map (Has (add_granted out extra)) (Has cs) extra
                (λ x h. rw e.are (Has-append (add_granted out extra) e.granted x h)) a.all_in,
          ),
          e.all_served,
        );
      }

  -- A node's candidates are those of its own pool, who may claim by it, and behind them those whom
  -- its open grants add, who may claim by a grant and are not of the pool. Each of these is a candidate
  -- of a grant that is open on the node, and no candidate of an open grant is missing.
  pub node_candidates_sound :
      (node_key : Text) (wfd : Wfd) {cs : List ResolvedCandidate}
      → node_candidates host org context wfah anchor orgtnt_id node_key wfd ≡ ok cs
      → (node : NodeDef) × (lookup node_key wfd.nodes ≡ some node)
        × (own : List ResolvedCandidate) × (resolve_candidates host org context wfah anchor
              orgtnt_id
              (NodeDef.c_a node)
            ≡ ok own)
        × Extends (open_grants wfd wfah node_key) (map (stamp ca) own) cs
  unfolding node_candidates
  node_candidates_sound node_key wfd h = elim (Option-cases (lookup node_key wfd.nodes)) [
    | inl e ↦ absurd (let h' = rw (e, node_candidates) at h in cc)
    | inr (n, e) ↦
        let (own, o, k) =
          >>=-eq-ok (resolve_candidates host org context wfah anchor orgtnt_id (NodeDef.c_a n)) _
            (rw (e, node_candidates) at h) in
        (n, e, own, o, with_grants-Extends (open_grants wfd wfah node_key) (map (stamp ca) own) k)
  ]
