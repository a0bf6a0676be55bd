-- ===== src/Policy/Merge/Kinds.antt =====
-- `MergePoliciesOfSimilarKind` folds the policies of each kind by themselves, in their order.
use gateway_api.Prelude.{
  Option, none, some, List, [], ◌∷◌, ◌≡◌, arith, Option-cases, inl, inr, string_key,
  String-discrete, ite,
}
use gateway_api.Prelude.Dict.{Distinct, set-Distinct, get, set, get-set}
use gateway_api.Prelude.Outcome.{Outcome, ok, ◌>>=◌, >>=-eq-ok}
use gateway_api.Policy.Machinery.{Machinery}
use gateway_api.Policy.Crd.{PolicyCrdId}
use gateway_api.Policy.Object.{Policy, policy_crd_id}
use gateway_api.Policy.Merge.{
  Policies, policy_at, order_policy_by_precedence, merge_policies, merge_policies_of_same_hierarchy,
  merge_similar, merge_policies_of_similar_kind,
}
use gateway_api.Policy.Merge.Union.{combine, merge_pair}

module _ (k : Machinery) where
  -- The policies of one kind, merged one after the other by precedence.
  abbrev pub fold_kind : PolicyCrdId → List Policy → Option Policy → Outcome (Option Policy)
  fold_kind id [] merged = ok merged
  fold_kind id (p ∷ rest) merged =
      ite (String-discrete (policy_crd_id k p.u) id)
        (combine k (order_policy_by_precedence k) merged (some p) >>= λ m. fold_kind id rest m)
        (fold_kind id rest merged)

  -- Two maps with one entry each, at one key.
  pub same_hierarchy_single :
      (id : PolicyCrdId) (a b : Policy)
      → merge_policies_of_same_hierarchy k ((id, a) ∷ []) ((id, b) ∷ [])
        ≡ (merge_pair k (order_policy_by_precedence k) a b >>= λ c. ok ((id, c) ∷ []))
  unfolding merge_policies_of_same_hierarchy merge_policies get set
  same_hierarchy_single id a b = ground arith

  pub policy_at-single : (id : PolicyCrdId) (c : Policy) → policy_at k id ((id, c) ∷ []) ≡ c
  unfolding get
  policy_at-single id c = ground arith

  -- One round of the loop where the kind is there already.
  pub merge_similar-known :
      (p a : Policy) (rest : List Policy) (r : Policies) {s : Policies}
      → get (policy_crd_id k p.u) r ≡ some a
      → merge_similar k (p ∷ rest) r ≡ ok s
      → (c : Policy) × (merge_pair k (order_policy_by_precedence k) a p ≡ ok c)
        × (merge_similar k rest (set (policy_crd_id k p.u) c r) ≡ ok s)
  unfolding merge_similar
  merge_similar-known p a rest r {s} e h =
      let id = policy_crd_id k p.u in
      let (single, merged, next) =
        >>=-eq-ok (merge_policies_of_same_hierarchy k ((id, a) ∷ []) ((id, p) ∷ []))
          (λ merged. merge_similar k rest (set id (policy_at k id merged) r))
          (rw (e, merge_similar) at h) in
      let (c, pair, same) =
        >>=-eq-ok (merge_pair k (order_policy_by_precedence k) a p) (λ c. ok ((id, c) ∷ []))
          (rw (same_hierarchy_single id a p) at merged) in
      let one : (id, c) ∷ [] ≡ single = cc in (c, pair, rw (← policy_at-single id c, one) next)

  merge_similar-at :
      (id : PolicyCrdId) (policies : List Policy) (r : Policies) {s : Policies}
      → merge_similar k policies r ≡ ok s
      → fold_kind id policies (get id r) ≡ ok (get id s)
  unfolding merge_similar get
  merge_similar-at id [] r h = ground arith
  merge_similar-at id (p ∷ rest) r {s} h =
      let own = policy_crd_id k p.u in
      elim (Option-cases (get own r)) [
        | inl e ↦ ground (
          arith,
          merge_similar-at id rest (set own p r) (rw (e, merge_similar) at h),
          get-set own id p r,
        )
        | inr (a, e) ↦
            let (c, pair, next) = merge_similar-known p a rest r e h in
            ground (arith, merge_similar-at id rest (set own c r) next, get-set own id c r)
      ]

  -- Where `merge_policies_of_similar_kind` returns no error: of every kind the result holds what
  -- the policies of the kind give, merged one after the other by precedence, and it holds nothing
  -- of a kind of which there is no policy.
  pub merge_policies_of_similar_kind-at :
      (id : PolicyCrdId) (policies : List Policy) {merged : Policies}
      → merge_policies_of_similar_kind k policies ≡ ok merged
      → fold_kind id policies none ≡ ok (get id merged)
  unfolding merge_policies_of_similar_kind get
  merge_policies_of_similar_kind-at id policies h = merge_similar-at id policies [] h

  merge_similar-Distinct :
      (policies : List Policy) (r : Policies) {s : Policies}
      → Distinct r
      → merge_similar k policies r ≡ ok s
      → Distinct s
  unfolding merge_similar
  merge_similar-Distinct [] r {s} d h = let same : r ≡ s = cc in rw (← same) d
  merge_similar-Distinct (p ∷ rest) r d h =
      let own = policy_crd_id k p.u in
      elim (Option-cases (get own r)) [
        | inl e ↦
            merge_similar-Distinct rest (set own p r) (set-Distinct own p r d)
              (rw (e, merge_similar) at h)
        | inr (a, e) ↦
            let (c, pair, next) = merge_similar-known p a rest r e h in
            merge_similar-Distinct rest (set own c r) (set-Distinct own c r d) next
      ]

  pub merge_policies_of_similar_kind-Distinct :
      (policies : List Policy) {merged : Policies}
      → merge_policies_of_similar_kind k policies ≡ ok merged
      → Distinct merged
  unfolding merge_policies_of_similar_kind get
  merge_policies_of_similar_kind-Distinct policies h = merge_similar-Distinct policies [] tt h
