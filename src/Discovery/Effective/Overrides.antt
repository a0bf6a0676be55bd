-- ===== src/Discovery/Effective/Overrides.antt =====
-- An override of a GatewayClass reaches its Gateways.
use gateway_api.Prelude.{
  String, true, Option, none, some, List, [], ◌∷◌, ◌≡◌, ◌∙◌, arith, String-discrete, string_key,
  inl, inr,
}
use gateway_api.Prelude.Lists.{All}
use gateway_api.Prelude.Dict.{get}
use gateway_api.Prelude.Outcome.{ok, ◌>>=◌, >>=-cases}
use gateway_api.Policy.Value.{Value, object}
use gateway_api.Policy.Machinery.{Machinery}
use gateway_api.Policy.Crd.{PolicyCrdId}
use gateway_api.Policy.Object.{Policy, policy_crd_id}
use gateway_api.Policy.Merge.{Policies, merge_policy, order_policy_by_precedence}
use gateway_api.Policy.Merge.Content.{at, IsLeaf, IsDocumented}
use gateway_api.Policy.Merge.Overrides.{merge_policy-override, inherited-merge_policy}
use gateway_api.Policy.Merge.Union.{combine, merge_pair}
use gateway_api.Policy.Merge.Errors.{order_policy_by_precedence-Chooses}
use gateway_api.Policy.Merge.Kinds.{fold_kind}
use gateway_api.Discovery.Effective.{merge_hierarchies}
use gateway_api.Discovery.Effective.Gateways.{below, of_kind, merge_hierarchies-at}

-- The policy, if there is one, is inherited.
abbrev pub IsInherited : Option Policy → Type 0
IsInherited none = Unit
IsInherited (some p) = p.inherited ≡ true

module _ (k : Machinery) where
  -- Each policy of the kind is inherited, as its CRD says.
  abbrev pub AreInherited : PolicyCrdId → List Policy → Type 0
  AreInherited id = All (λ (p : Policy). policy_crd_id k p.u ≡ id → p.inherited ≡ true)

  merge_pair-IsInherited :
      (a b : Policy) {c : Policy}
      → a.inherited ≡ true
      → b.inherited ≡ true
      → merge_pair k (order_policy_by_precedence k) a b ≡ ok c
      → c.inherited ≡ true
  merge_pair-IsInherited a b ha hb h = elim (order_policy_by_precedence-Chooses k a b) [
    | inl e ↦ inherited-merge_policy k a b (rw e at h) ∙ hb
    | inr e ↦ inherited-merge_policy k b a (rw e at h) ∙ ha
  ]

  combine-IsInherited :
      (a : Option Policy) (b : Policy) {c : Option Policy}
      → IsInherited a
      → b.inherited ≡ true
      → combine k (order_policy_by_precedence k) a (some b) ≡ ok c
      → IsInherited c
  combine-IsInherited none b {c} ha hb h = let same : some b ≡ c = cc in rw (← same) hb
  combine-IsInherited (some a) b {c} ha hb h =
      >>=-cases (merge_pair k (order_policy_by_precedence k) a b) h (λ m hm done.
        let same : some m ≡ c = cc in rw (← same) (merge_pair-IsInherited a b ha hb hm))

  fold_kind-IsInherited :
      (id : PolicyCrdId) (policies : List Policy) (merged : Option Policy) {c : Option Policy}
      → AreInherited id policies
      → IsInherited merged
      → fold_kind k id policies merged ≡ ok c
      → IsInherited c
  fold_kind-IsInherited id [] merged {c} all h e = let same : merged ≡ c = cc in rw (← same) h
  fold_kind-IsInherited id (p ∷ rest) merged {c} all h e =
      elim (String-discrete (policy_crd_id k p.u) id) [
        | yes own ↦
            let step : (combine k (order_policy_by_precedence k) merged (some p) >>= λ m.
            fold_kind k id rest m)
                ≡ ok c =
              ground arith in
            >>=-cases (combine k (order_policy_by_precedence k) merged (some p)) step (λ m hm later.
              fold_kind-IsInherited id rest m all.1 (combine-IsInherited merged p h (all.0 own) hm)
                later)
        | no other ↦
            let step : fold_kind k id rest merged ≡ ok c = ground arith in
            fold_kind-IsInherited id rest merged all.1 h step
      ]

  module _ (documented : IsDocumented k) where
    -- An override of the upper policy stays below it.
    below-override :
        (a : Policy) (b : Option Policy) {c : Option Policy} (path : List String) (v : Value)
        → a.inherited ≡ true
        → IsInherited b
        → at ("spec" ∷ "override" ∷ path) (object a.u) ≡ some v
        → IsLeaf v
        → below k (some a) b ≡ ok c
        → (p : Policy) × (c ≡ some p)
          × (p.inherited ≡ true)
          × (at ("spec" ∷ "override" ∷ path) (object p.u) ≡ some v)
    below-override a none path v ha hb e leaf h = (a, cc, ha, e)
    below-override a (some b) path v ha hb e leaf h = >>=-cases (merge_policy k a b) h (λ m hm done.
        (
          m,
          cc,
          inherited-merge_policy k a b hm ∙ hb,
          merge_policy-override k documented a b path v ha hm e leaf,
        ))

    -- Where the libraries behave as documented, `merge_hierarchies` returns a map, and the
    -- policies of a kind are inherited in all three hierarchies: each leaf that the merged policy
    -- of the upper hierarchy (the GatewayClass) has under "spec.override" is in the result,
    -- whatever the Namespace and the Gateway say there.
    pub merge_hierarchies-override :
        (upper middle lower : List Policy) {r : Policies} (id : PolicyCrdId) (a : Policy)
        (path : List String) (v : Value)
        → fold_kind k id upper none ≡ ok (some a)
        → AreInherited id upper
        → AreInherited id middle
        → AreInherited id lower
        → at ("spec" ∷ "override" ∷ path) (object a.u) ≡ some v
        → IsLeaf v
        → merge_hierarchies k upper middle lower ≡ ok r
        → (p : Policy) × (get id r ≡ some p)
          × (at ("spec" ∷ "override" ∷ path) (object p.u) ≡ some v)
    merge_hierarchies-override upper middle lower {r} id a path v top hu hm hl e leaf h =
        let ha = fold_kind-IsInherited id upper none hu tt top in
        let kinds : of_kind k id upper middle lower ≡ ok (get id r) =
          merge_hierarchies-at k upper middle lower h id in
        >>=-cases (fold_kind k id upper none) kinds (λ top_kind found_top h0.
          >>=-cases (fold_kind k id middle none) h0 (λ b hb h1.
            >>=-cases (fold_kind k id lower none) h1 (λ c hc h2.
              >>=-cases (below k top_kind b) h2 (λ d hd h3.
                let same : top_kind ≡ some a = cc in
                let (p, is, inherits, has) =
                  below-override a b path v ha (fold_kind-IsInherited id middle none hm tt hb) e
                    leaf (rw same at hd) in
                let (q, found, _, there) =
                  below-override p c path v inherits (fold_kind-IsInherited id lower none hl tt hc)
                    has leaf (rw is at h3) in
                (q, found, there)))))
