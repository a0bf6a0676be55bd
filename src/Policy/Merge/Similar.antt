-- ===== src/Policy/Merge/Similar.antt =====
-- `MergePoliciesOfSimilarKind` builds a map of policies by kind, and never meets policies of
-- different kinds.
use gateway_api.Prelude.{List, [], ◌∷◌, ◌≡◌, refl, inl, inr, Option-cases, string_key}
use gateway_api.Prelude.Lists.{All}
use gateway_api.Prelude.Dict.{Distinct, get, set, set-Distinct}
use gateway_api.Prelude.Outcome.{ok, ◌>>=◌, >>=-eq-ok}
use gateway_api.Policy.Machinery.{Machinery}
use gateway_api.Policy.Crd.{PolicyCrdId}
use gateway_api.Policy.Object.{Policy, policy_crd_id}
use gateway_api.Policy.Merge.{
  Policies, policy_at, merge_similar, merge_policies_of_similar_kind, order_policy_by_precedence,
}
use gateway_api.Policy.Merge.Union.{merge_pair}
use gateway_api.Policy.Merge.Kinds.{merge_similar-known, same_hierarchy_single, policy_at-single}
use gateway_api.Policy.Merge.Content.{IsDocumented}
use gateway_api.Policy.Merge.Overrides.{IsTyped}
use gateway_api.Policy.Merge.Errors.{
  IsOfKind, IsByKind, IsKindError, order_policy_by_precedence-Chooses, merge_pair-IsOfKind,
  set-IsByKind, merge_pair_no-IsKindError, bind_no-IsKindError,
}

module _ (k : Machinery) (documented : IsDocumented k) where
  abbrev AllTyped : List Policy → Type 0
  AllTyped = All (λ (p : Policy). IsTyped p.u)

  merge_similar-IsByKind :
      (policies : List Policy) (r : Policies) {s : Policies}
      → AllTyped policies
      → IsByKind k r
      → Distinct r
      → merge_similar k policies r ≡ ok s
      → IsByKind k s × Distinct s
  unfolding merge_similar
  merge_similar-IsByKind [] r {s} t b d h = let same : r ≡ s = cc in (rw (← same) b, rw (← same) d)
  merge_similar-IsByKind (p ∷ rest) r t b d h =
      let own = policy_crd_id k p.u in
      elim (Option-cases (get own r)) [
        | inl e ↦
            merge_similar-IsByKind rest (set own p r) t.1
              (set-IsByKind k documented own p r (refl, t.0) b) (set-Distinct own p r d)
              (rw (e, merge_similar) at h)
        | inr (a, e) ↦
            let (c, pair, next) = merge_similar-known k p a rest r e h in
            merge_similar-IsByKind rest (set own c r) t.1
              (set-IsByKind k documented own c r
                (merge_pair-IsOfKind k documented (order_policy_by_precedence k) own a p
                  (order_policy_by_precedence-Chooses k) (b own a e) (refl, t.0) pair)
                b)
              (set-Distinct own c r d) next
      ]

  -- Where the libraries behave as documented, and the policies have strings under "apiVersion" and
  -- "kind": the map that `merge_policies_of_similar_kind` returns has each policy under its own
  -- kind, and each kind once.
  pub merge_policies_of_similar_kind-IsByKind :
      (policies : List Policy) {merged : Policies}
      → All (λ (p : Policy). IsTyped p.u) policies
      → merge_policies_of_similar_kind k policies ≡ ok merged
      → IsByKind k merged × Distinct merged
  unfolding merge_policies_of_similar_kind get
  merge_policies_of_similar_kind-IsByKind policies t h =
      merge_similar-IsByKind policies [] t (λ id p e. cc) tt h

  -- The map that one merge in the loop returns, read at its key.
  single-IsOfKind :
      (id : PolicyCrdId) (a p : Policy) {single : Policies}
      → IsOfKind k id a
      → IsOfKind k id p
      → (merge_pair k (order_policy_by_precedence k) a p >>= λ c. ok ((id, c) ∷ [])) ≡ ok single
      → IsOfKind k id (policy_at k id single)
  single-IsOfKind id a p {single} ha hp h =
      let (c, pair, is) = >>=-eq-ok (merge_pair k (order_policy_by_precedence k) a p) _ h in
      let one : (id, c) ∷ [] ≡ single = cc in
      rw (← one, policy_at-single k id c)
        (merge_pair-IsOfKind k documented (order_policy_by_precedence k) id a p
          (order_policy_by_precedence-Chooses k) ha hp pair)

  merge_similar_no-IsKindError :
      (policies : List Policy) (r : Policies)
      → AllTyped policies
      → IsByKind k r
      → ¬ (IsKindError k (merge_similar k policies r))
  unfolding merge_similar
  merge_similar_no-IsKindError [] r t b = λ e. elim e [ ]
  merge_similar_no-IsKindError (p ∷ rest) r t b =
      let own = policy_crd_id k p.u in
      elim (Option-cases (get own r)) [
        | inl e ↦
            rw (e, merge_similar)
              (merge_similar_no-IsKindError rest (set own p r) t.1
                (set-IsByKind k documented own p r (refl, t.0) b))
        | inr (a, e) ↦
            rw (e, merge_similar, same_hierarchy_single k own a p)
              (bind_no-IsKindError k _ _
                (bind_no-IsKindError k _ _
                  (merge_pair_no-IsKindError k documented (order_policy_by_precedence k)
                    (order_policy_by_precedence-Chooses k) own a p (b own a e) (refl, t.0))
                  (λ c h e. elim e [ ]))
                (λ single h.
                  merge_similar_no-IsKindError rest (set own (policy_at k own single) r) t.1 (
                    set-IsByKind k documented own (policy_at k own single) r
                      (single-IsOfKind own a p (b own a e) (refl, t.0) h) b)))
      ]

  -- Where the libraries behave as documented, and the policies have strings under "apiVersion" and
  -- "kind": `merge_policies_of_similar_kind` never fails for different kinds.
  pub merge_policies_of_similar_kind_no-IsKindError :
      (policies : List Policy)
      → All (λ (p : Policy). IsTyped p.u) policies
      → ¬ (IsKindError k (merge_policies_of_similar_kind k policies))
  unfolding merge_policies_of_similar_kind get
  merge_policies_of_similar_kind_no-IsKindError policies t =
      merge_similar_no-IsKindError policies [] t (λ id p e. cc)
