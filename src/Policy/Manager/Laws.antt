-- ===== src/Policy/Manager/Laws.antt =====
-- What `AddPolicy` and the queries of the manager do.
use gateway_api.Prelude.{
  String, true, some, [], ◌∷◌, ◌≡◌, refl, ◌≢◌, ◌↔◌, ◌⊎◌, inl, inr, arith, Option-cases, string_key,
  String-discrete, ite,
}
use gateway_api.Prelude.Lists.{In}
use gateway_api.Prelude.Dict.{Dict, get, get-set, get-set_self, Distinct, set-Distinct, values}
use gateway_api.Prelude.Outcome.{Outcome, ok, err, panic, >>=-eq-ok}
use gateway_api.Api.Meta.{ObjRef, obj_ref_key}
use gateway_api.Policy.Value.{Object}
use gateway_api.Policy.Machinery.{Machinery}
use gateway_api.Policy.Crd
use gateway_api.Policy.Crd.{PolicyCrd, PolicyCrdId}
use gateway_api.Policy.Object.{
  Policy, normalize, is_attached_to, policy_from_unstructured, policy_crd_id, converted,
}
use gateway_api.Policy.Manager.{
  PolicyManager, attached, policies_attached_to, get_policies, get_policy, policy_key, add_policy,
}

-- Two names are the same, or one is missing and the other is "default".
abbrev pub OrDefault : String → String → Type 0
OrDefault x y = (x ≡ y) ⊎ ((x ≡ "") × (y ≡ "default")) ⊎ ((x ≡ "default") × (y ≡ ""))

-- Two references name the same object: a Namespace by its name, anything else by its name and
-- namespace.
abbrev pub IsSameTarget : ObjRef → ObjRef → Type 0
IsSameTarget a b =
    (a.group ≡ b.group)
    × (a.kind ≡ b.kind)
    × (((a.kind ≡ "Namespace") × OrDefault a.name b.name × (a.namespace ≡ b.namespace))
        ⊎ ((a.kind ≢ "Namespace") × (a.name ≡ b.name) × OrDefault a.namespace b.namespace))

normalize-IsSameTarget_iff : (a b : ObjRef) → (normalize a ≡ normalize b) ↔ IsSameTarget a b
normalize-IsSameTarget_iff a b = ground arith

is_attached_to_iff :
    (p : Policy) (o : ObjRef) → (is_attached_to p o ≡ true) ↔ IsSameTarget p.target_ref o
unfolding is_attached_to
is_attached_to_iff p o = ground (arith, normalize-IsSameTarget_iff p.target_ref o)

In-attached :
    (p : Policy) (o : ObjRef) (m : Dict String Policy)
    → In p (attached o m) ↔ (In p (values m) × IsSameTarget p.target_ref o)
unfolding attached
In-attached p o [] = ground arith
In-attached p o ((key, q) ∷ m) = ground (arith, In-attached p o m, is_attached_to_iff q o)

-- `policies_attached_to` lists exactly the policies of the manager that target the object: of the same
-- group, kind and name and in the same namespace, where a missing namespace (of a Namespace, a missing
-- name) is the same as "default".
pub In-policies_attached_to :
    (m : PolicyManager) (p : Policy) (o : ObjRef)
    → In p (policies_attached_to m o) ↔ (In p (get_policies m) × IsSameTarget p.target_ref o)
unfolding policies_attached_to get_policies
In-policies_attached_to m p o = In-attached p o m.policies

In-values-get :
    (p : Policy) (m : Dict String Policy)
    → Distinct m
    → In p (values m)
    → (key : String) × (get key m ≡ some p)
unfolding get
In-values-get p [] d none_in = elim none_in [ ]
In-values-get p ((key, q) ∷ m) d (inl e) = (key, ground arith)
In-values-get p ((key, q) ∷ m) d (inr later) =
    let (j, found) = In-values-get p m d.1 later in (j, ground arith)

In-values_of_get :
    (key : String) (p : Policy) (m : Dict String Policy) → get key m ≡ some p → In p (values m)
unfolding get
In-values_of_get key p [] h = cc
In-values_of_get key p ((j, q) ∷ m) h = ground (arith, In-values_of_get key p m)

module _ (k : Machinery) where
  from_unstructured-keeps :
      (u : Object) (crds : Dict PolicyCrdId PolicyCrd) {p : Policy}
      → policy_from_unstructured k u crds ≡ ok p
      → (p.u ≡ u)
        × ((crd : PolicyCrd) × (get (policy_crd_id k u) crds ≡ some crd)
            × (p.inherited ≡ Crd.is_inherited crd))
  unfolding policy_from_unstructured
  from_unstructured-keeps u crds {p} h =
      let (s, conv, next) = >>=-eq-ok (converted k (Machinery.from_unstructured k u)) _ h in
      elim (Option-cases (get (policy_crd_id k u) crds)) [
        | inl e ↦ absurd (cc (rw e at next))
        | inr (crd, e) ↦ (ground arith, (crd, e, ground arith))
      ]

  -- `add_policy` fails exactly when the object cannot be turned into a policy, and changes nothing
  -- then; otherwise the policy made of the object answers for the object's key from then on, and
  -- every other key answers as before.
  pub add_policy-get :
      (u : Object) (m : PolicyManager)
      → ((add_policy k u m).0 ≡ m)
          × ((add_policy k u m).1 ≢ ok tt)
          × ((p : Policy) → policy_from_unstructured k u m.policy_crds ≢ ok p)
        ⊎ ((p : Policy) × (policy_from_unstructured k u m.policy_crds ≡ ok p)
            × ((add_policy k u m).1 ≡ ok tt)
            × ((key : String)
                → get_policy (add_policy k u m).0 key
                  ≡ ite (String-discrete (policy_key k u) key) (some p) (get_policy m key)))
  unfolding add_policy get_policy
  add_policy-get u m = by_outcome (policy_from_unstructured k u m.policy_crds) refl
    where
      by_outcome :
          (o : Outcome Policy)
          → policy_from_unstructured k u m.policy_crds ≡ o
          → ((add_policy k u m).0 ≡ m)
              × ((add_policy k u m).1 ≢ ok tt)
              × ((p : Policy) → policy_from_unstructured k u m.policy_crds ≢ ok p)
            ⊎ ((p : Policy) × (policy_from_unstructured k u m.policy_crds ≡ ok p)
                × ((add_policy k u m).1 ≡ ok tt)
                × ((key : String)
                    → get_policy (add_policy k u m).0 key
                      ≡ ite (String-discrete (policy_key k u) key) (some p) (get_policy m key)))
      by_outcome (ok p) e =
          inr (p, e, ground arith, λ key. rw e (get-set (policy_key k u) key p m.policies))
      by_outcome (err f) e = inl (ground arith, ground arith, λ p q. ground arith)
      by_outcome panic e = inl (ground arith, ground arith, λ p q. ground arith)

  -- Every policy stands under its own "namespace/name", has a registered CRD, and has that CRD's
  -- "inherited" flag.
  pub record IsManaged (m : PolicyManager) : Type 0 where
    pub distinct : Distinct m.policies
    pub keyed :
        (key : String) (p : Policy)
        → get key m.policies ≡ some p
        → (key ≡ policy_key k p.u)
          × ((crd : PolicyCrd) × (get (policy_crd_id k p.u) m.policy_crds ≡ some crd)
              × (p.inherited ≡ Crd.is_inherited crd))

  -- If in a manager every policy stands under its own "namespace/name", with a registered CRD of
  -- its kind and that CRD's "inherited" flag, and every key stands once, the same holds after
  -- `add_policy`, whether it succeeds or not.
  pub add_policy-IsManaged :
      (u : Object) (m : PolicyManager) → IsManaged m → IsManaged (add_policy k u m).0
  unfolding add_policy
  add_policy-IsManaged u m h = by_outcome (policy_from_unstructured k u m.policy_crds) refl
    where
      by_outcome :
          (o : Outcome Policy)
          → policy_from_unstructured k u m.policy_crds ≡ o
          → IsManaged (add_policy k u m).0
      by_outcome (ok p) e =
          let (same, of) = from_unstructured-keeps u m.policy_crds e in
          rw e (record {
            distinct = set-Distinct (policy_key k u) p m.policies h.distinct;
            keyed = λ key q found. elim (String-discrete (policy_key k u) key) [
              | yes here ↦
                  let is : p ≡ q = ground (arith, get-set (policy_key k u) key p m.policies) in
                  let (crd, has, flag) = of in (ground arith, (crd, ground arith, ground arith))
              | no elsewhere ↦
                  h.keyed key q (ground (arith, get-set (policy_key k u) key p m.policies))
            ];
          })
      by_outcome (err f) e = rw e h
      by_outcome panic e = rw e h

  -- After a successful `add_policy` the object's own key has the policy made of it.
  get_policy-add_policy :
      (u : Object) (m : PolicyManager)
      → (add_policy k u m).1 ≡ ok tt
      → (p : Policy) × (policy_from_unstructured k u m.policy_crds ≡ ok p)
        × (p.u ≡ u)
        × (get (policy_key k u) (add_policy k u m).0.policies ≡ some p)
  unfolding get_policy
  get_policy-add_policy u m added = elim (add_policy-get u m) [
    | inl (_, failed, _) ↦ absurd (failed added)
    | inr (p, made, _, all_keys) ↦ (
      p,
      made,
      (from_unstructured-keeps u m.policy_crds made).0,
      ground (arith, all_keys (policy_key k u)),
    )
  ]

  In-get_policies-add_policy :
      (u : Object) (m : PolicyManager) (p : Policy)
      → policy_from_unstructured k u m.policy_crds ≡ ok p
      → In p (get_policies (add_policy k u m).0)
  unfolding get_policies add_policy
  In-get_policies-add_policy u m p made =
      rw made (In-values_of_get (policy_key k u) p _ (get-set_self (policy_key k u) p m.policies))

  -- In a manager whose policies stand under their own keys, add with success two objects of
  -- different kinds with one namespace and name: the manager lists the policy of the first after
  -- the first call, and does not list it any more after the second.
  pub add_policy_same_name :
      (u v : Object) (m : PolicyManager) (p : Policy)
      → IsManaged m
      → policy_key k u ≡ policy_key k v
      → policy_crd_id k u ≢ policy_crd_id k v
      → policy_from_unstructured k u m.policy_crds ≡ ok p
      → (add_policy k v (add_policy k u m).0).1 ≡ ok tt
      → In p (get_policies (add_policy k u m).0)
        × ¬ (In p (get_policies (add_policy k v (add_policy k u m).0).0))
  unfolding get_policies
  add_policy_same_name u v m p managed one_key other_kind made added =
      let m1 : PolicyManager = (add_policy k u m).0 in
      let m2 : PolicyManager = (add_policy k v m1).0 in
      let managed2 = add_policy-IsManaged v m1 (add_policy-IsManaged u m managed) in
      let (q, made_q, q_u, at_v) = get_policy-add_policy v m1 added in
      let p_u = (from_unstructured-keeps u m.policy_crds made).0 in
      (
        In-get_policies-add_policy u m p made,
        λ listed.
            let (key, found) = In-values-get p m2.policies managed2.distinct listed in
            let own = (managed2.keyed key p found).0 in
            let same : p ≡ q = ground arith in other_kind (cc),
      )
