-- ===== src/Policy/Manager/Init.antt =====
-- What `Init` leaves behind, on success, after an error and before a panic.
use gateway_api.Prelude.{
  true, some, List, [], ◌∷◌, ◌≡◌, refl, ◌∙◌, inl, inr, arith, Bool-cases, string_key,
  String-discrete,
}
use gateway_api.Prelude.Dict.{get, set, get-set}
use gateway_api.Prelude.Outcome.{Outcome-cases}
use gateway_api.Policy.Value.{Object}
use gateway_api.Policy.Machinery.{Machinery}
use gateway_api.Policy.Crd
use gateway_api.Policy.Crd.{PolicyCrd, PolicyCrdId, CustomResourceDefinition}
use gateway_api.Policy.Manager.{
  DynamicClient, PolicyManager, new, register_crds, fetch_crds, fetch_policies, add_policy,
  add_policies, init,
}
use gateway_api.Policy.Manager.Laws.{IsManaged, add_policy-IsManaged}

-- Every registered CRD is a policy CRD and stands under its own id.
abbrev pub IsRegistered : PolicyManager → Type 0
IsRegistered m =
    (id : PolicyCrdId) (crd : PolicyCrd)
    → get id m.policy_crds ≡ some crd
    → (id ≡ Crd.id crd) × (Crd.is_valid crd ≡ true)

register_one :
    (c : PolicyCrd) (m : PolicyManager)
    → Crd.is_valid c ≡ true
    → IsRegistered m
    → IsRegistered (record m { policy_crds = set (Crd.id c) c m.policy_crds })
register_one c m valid h id crd found = elim (String-discrete (Crd.id c) id) [
  | yes e ↦
      let same : c ≡ crd = ground (arith, get-set (Crd.id c) id c m.policy_crds) in
      (ground arith, rw (← same) valid)
  | no n ↦ h id crd (ground (arith, get-set (Crd.id c) id c m.policy_crds))
]

register_crds-IsRegistered :
    (crds : List CustomResourceDefinition) (m : PolicyManager)
    → IsRegistered m
    → IsRegistered (register_crds crds m)
unfolding register_crds
register_crds-IsRegistered [] m h = h
register_crds-IsRegistered (crd ∷ rest) m h =
    let c : PolicyCrd = record { crd = crd } in
    elim (Bool-cases (Crd.is_valid c)) [
      | inl valid ↦
          rw (valid, register_crds) (register_crds-IsRegistered rest _ (register_one c m valid h))
      | inr other ↦ rw (other, register_crds) (register_crds-IsRegistered rest m h)
    ]

policies-register_crds :
    (crds : List CustomResourceDefinition) (m : PolicyManager)
    → (register_crds crds m).policies ≡ m.policies
unfolding register_crds
policies-register_crds [] m = refl
policies-register_crds (crd ∷ rest) m = policies-register_crds rest _ ∙ ground arith

new-IsRegistered : IsRegistered new
unfolding get
new-IsRegistered id crd found = absurd (cc found)

module _ (k : Machinery) where
  policy_crds-add_policy :
      (u : Object) (m : PolicyManager) → (add_policy k u m).0.policy_crds ≡ m.policy_crds
  unfolding add_policy
  policy_crds-add_policy u m = ground arith

  add_policies_keep :
      (objects : List Object) (m : PolicyManager)
      → IsManaged k m
      → IsManaged k (add_policies k objects m).0
        × ((add_policies k objects m).0.policy_crds ≡ m.policy_crds)
  unfolding add_policies
  add_policies_keep [] m h = (h, refl)
  add_policies_keep (u ∷ rest) m h =
      let managed_one = add_policy-IsManaged k u m h in
      let same_crds = policy_crds-add_policy u m in
      elim (Outcome-cases (add_policy k u m).1) [
        | inl (t, e) ↦
            let (managed, same) = add_policies_keep rest (add_policy k u m).0 managed_one in
            rw (e, add_policies) (managed, same ∙ same_crds)
        | inr (inl (f, e)) ↦ rw (e, add_policies) (managed_one, same_crds)
        | inr (inr e) ↦ rw (e, add_policies) (managed_one, same_crds)
      ]

  new_IsManaged : (m : PolicyManager) → m.policies ≡ [] → IsManaged k m
  unfolding get
  new_IsManaged m h = record {
    distinct = rw h tt;
    keyed = λ key p found. absurd (cc (rw h at found));
  }

  -- However `init` ends, from a new manager: every registered CRD is a policy CRD and stands under
  -- its own id, and every policy stands under its own "namespace/name", with a registered CRD of
  -- its kind and that CRD's "inherited" flag.
  pub init-IsManaged :
      (dc : DynamicClient) → IsManaged k (init k dc new).0 × IsRegistered (init k dc new).0
  unfolding init
  init-IsManaged dc = elim (Outcome-cases (fetch_crds dc)) [
    | inl (crds, e) ↦
        let m : PolicyManager = register_crds crds new in
        let registered = register_crds-IsRegistered crds new new-IsRegistered in
        let managed = new_IsManaged m (policies-register_crds crds new) in
        elim (Outcome-cases (fetch_policies dc m.policy_crds)) [
          | inl (objects, fetched) ↦
              let (kept, same) = add_policies_keep objects m managed in
              rw (e, init, fetched) (kept, λ id crd found. registered id crd (rw same at found))
          | inr (inl (f, stop)) ↦ rw (e, init, stop) (managed, registered)
          | inr (inr stop) ↦ rw (e, init, stop) (managed, registered)
        ]
    | inr (inl (f, e)) ↦ rw (e, init) (new_IsManaged new refl, new-IsRegistered)
    | inr (inr e) ↦ rw (e, init) (new_IsManaged new refl, new-IsRegistered)
  ]
