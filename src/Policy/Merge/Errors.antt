-- ===== src/Policy/Merge/Errors.antt =====
-- Maps of policies by kind stay such maps, and a merge of two never meets policies of different
-- kinds.
use gateway_api.Prelude.{
  Option, none, some, [], ◌∷◌, ◌≡◌, refl, ◌∙◌, sym, arith, inl, inr, ◌⊎◌, Option-cases, string_key,
  String-discrete,
}
use gateway_api.Prelude.Dict.{Distinct, get, set, get-set}
use gateway_api.Prelude.Outcome.{Outcome, ok, err, panic, ◌>>=◌, >>=-eq-ok, different_kind}
use gateway_api.Policy.Machinery.{Machinery}
use gateway_api.Policy.Crd.{PolicyCrdId}
use gateway_api.Policy.Object.{Policy, policy_crd_id}
use gateway_api.Policy.Merge.{
  Policies, merge_policy, merge_unstructured, patch_override, merge_into, copy_into, merge_policies,
  order_policy_by_precedence,
}
use gateway_api.Policy.Merge.Union.{merge_pair, merge_policies-at, combine, get-copy_into}
use gateway_api.Policy.Merge.Content.{IsDocumented}
use gateway_api.Policy.Merge.Overrides.{IsTyped, merge_policy-kind}

module _ (k : Machinery) where
  -- The policy is of the kind.
  abbrev pub IsOfKind : PolicyCrdId → Policy → Type 0
  IsOfKind id p = (policy_crd_id k p.u ≡ id) × IsTyped p.u

  -- Each policy stands under its own kind.
  abbrev pub IsByKind : Policies → Type 0
  IsByKind m = (id : PolicyCrdId) (p : Policy) → get id m ≡ some p → IsOfKind id p

  -- The order of precedence chooses between its two arguments.
  abbrev pub Chooses : (Policy → Policy → Policy × Policy) → Type 0
  Chooses precedence = (a b : Policy) → (precedence a b ≡ (a, b)) ⊎ (precedence a b ≡ (b, a))

  pub order_policy_by_precedence-Chooses : Chooses (order_policy_by_precedence k)
  unfolding order_policy_by_precedence
  order_policy_by_precedence-Chooses a b = ground arith

  -- The call does not complain of different kinds.
  abbrev pub IsKindError : {A : Type 0} → Outcome A → Type 0
  IsKindError (err (different_kind _ _)) = Unit
  IsKindError _ = ⊥

  pub bind_no-IsKindError :
      {A B : Type 0} (m : Outcome A) (f : A → Outcome B)
      → ¬ (IsKindError m)
      → ((a : A) → m ≡ ok a → ¬ (IsKindError (f a)))
      → ¬ (IsKindError (m >>= f))
  bind_no-IsKindError (ok a) f h g e = g a refl e
  bind_no-IsKindError (err (different_kind s t)) f h g e = h tt
  bind_no-IsKindError (err _) f h g e = elim e [ ]
  bind_no-IsKindError panic f h g e = elim e [ ]

  merge_policy_same_kind :
      (a b : Policy)
      → policy_crd_id k a.u ≡ policy_crd_id k b.u
      → ¬ (IsKindError (merge_policy k a b))
  unfolding merge_policy merge_unstructured patch_override
  merge_policy_same_kind a b h e = ground arith

  head_IsOfKind :
      (j : PolicyCrdId) (p : Policy) (m : Policies) → IsByKind ((j, p) ∷ m) → IsOfKind j p
  unfolding get
  head_IsOfKind j p m h = h j p (ground arith)

  tail_IsByKind :
      (j : PolicyCrdId) (p : Policy) (m : Policies)
      → Distinct ((j, p) ∷ m)
      → IsByKind ((j, p) ∷ m)
      → IsByKind m
  unfolding get
  tail_IsByKind j p m d h id q e = h id q (ground arith)

  module _ (documented : IsDocumented k) where
    -- Merging two policies of a kind gives one of that kind.
    pub merge_pair-IsOfKind :
        (precedence : Policy → Policy → Policy × Policy) (id : PolicyCrdId) (a b : Policy)
        {c : Policy}
        → Chooses precedence
        → IsOfKind id a
        → IsOfKind id b
        → merge_pair k precedence a b ≡ ok c
        → IsOfKind id c
    merge_pair-IsOfKind precedence id a b {c} chooses ha hb h = elim (chooses a b) [
      | inl e ↦
          let (same, typed) = merge_policy-kind k documented a b hb.1 (rw e at h) in
          (same ∙ hb.0, typed)
      | inr e ↦
          let (same, typed) = merge_policy-kind k documented b a ha.1 (rw e at h) in
          (same ∙ ha.0, typed)
    ]

    -- Replacing a policy by one of the key's kind.
    pub set-IsByKind :
        (j : PolicyCrdId) (c : Policy) (m : Policies)
        → IsOfKind j c
        → IsByKind m
        → IsByKind (set j c m)
    set-IsByKind j c m hc h id p e = elim (String-discrete j id) [
      | yes q ↦
          let found : some c ≡ some p = ground (arith, get-set j id c m) in
          let same : c ≡ p = cc in rw (← same, ← q) hc
      | no n ↦ h id p (ground (arith, get-set j id c m))
    ]

    module _ (precedence : Policy → Policy → Policy × Policy) (chooses : Chooses precedence) where
      pub merge_pair_no-IsKindError :
          (id : PolicyCrdId) (a b : Policy)
          → IsOfKind id a
          → IsOfKind id b
          → ¬ (IsKindError (merge_pair k precedence a b))
      merge_pair_no-IsKindError id a b ha hb = elim (chooses a b) [
        | inl e ↦ rw e (merge_policy_same_kind a b (ha.0 ∙ sym hb.0))
        | inr e ↦ rw e (merge_policy_same_kind b a (hb.0 ∙ sym ha.0))
      ]

      merge_into_no-IsKindError :
          (m r : Policies)
          → Distinct m
          → IsByKind m
          → IsByKind r
          → ¬ (IsKindError (merge_into k precedence m r))
      unfolding merge_into
      merge_into_no-IsKindError [] r d hm hr = λ e. elim e [ ]
      merge_into_no-IsKindError ((j, p) ∷ m) r d hm hr = elim (Option-cases (get j r)) [
        | inl e ↦
            rw (e, merge_into)
              (merge_into_no-IsKindError m (set j p r) d.1 (tail_IsByKind j p m d hm)
                (set-IsByKind j p r (head_IsOfKind j p m hm) hr))
        | inr (a, e) ↦
            let ha = hr j a e in
            let hp = head_IsOfKind j p m hm in
            rw (e, merge_into)
              (bind_no-IsKindError (merge_pair k precedence a p)
                (λ c. merge_into k precedence m (set j c r)) (merge_pair_no-IsKindError j a p ha hp)
                (λ c merged.
                  merge_into_no-IsKindError m (set j c r) d.1 (tail_IsByKind j p m d hm) (
                    set-IsByKind j c r (merge_pair-IsOfKind precedence j a p chooses ha hp merged)
                      hr)))
      ]

      -- Where the libraries behave as documented, and two maps have each key once and each policy
      -- under its own kind: so has each policy in the map that `merge_policies` returns, for an
      -- order of precedence that returns its two arguments.
      pub merge_policies-IsByKind :
          (policies1 policies2 : Policies) {merged : Policies}
          → Distinct policies1
          → Distinct policies2
          → IsByKind policies1
          → IsByKind policies2
          → merge_policies k precedence policies1 policies2 ≡ ok merged
          → IsByKind merged
      merge_policies-IsByKind m1 m2 {merged} d1 d2 h1 h2 h id p e =
          combined (get id m1) (get id m2) refl refl
            (merge_policies-at k precedence id m1 m2 d1 d2 h)
        where
          combined :
              (a b : Option Policy)
              → get id m1 ≡ a
              → get id m2 ≡ b
              → combine k precedence a b ≡ ok (get id merged)
              → IsOfKind id p
          combined none none ea eb h = absurd (cc (e, h))
          combined none (some b) ea eb h = h2 id p (eb ∙ ground (arith, e))
          combined (some a) none ea eb h = h1 id p (ea ∙ ground (arith, e))
          combined (some a) (some b) ea eb h =
              let (c, pair, is) = >>=-eq-ok (merge_pair k precedence a b) _ h in
              let same : c ≡ p = ground (arith, e) in
              rw (← same)
                (merge_pair-IsOfKind precedence id a b chooses (h1 id a ea) (h2 id b eb) pair)

      -- Where the libraries behave as documented, `merge_policies` with an order of precedence
      -- that returns its two arguments never fails for different kinds, on two maps that have each
      -- key once and each policy under its own kind.
      pub merge_policies_no-IsKindError :
          (policies1 policies2 : Policies)
          → Distinct policies1
          → Distinct policies2
          → IsByKind policies1
          → IsByKind policies2
          → ¬ (IsKindError (merge_policies k precedence policies1 policies2))
      unfolding merge_policies get
      merge_policies_no-IsKindError m1 m2 d1 d2 h1 h2 =
          merge_into_no-IsKindError m2 (copy_into m1 []) d2 h2
            (λ id p e. h1 id p (ground (arith, get-copy_into id m1 [] d1)))
