-- ===== src/Policy/Merge/Overrides.antt =====
-- The parent's "spec.override" outranks the child's content, which outranks the rest of the
-- parent's.
use gateway_api.Prelude.{
  String, true, false, some, List, [], ◌∷◌, ◌≡◌, refl, ◌∙◌, sym, ◌≢◌, arith, inl, inr, ◌⊎◌,
  Option-cases, Bool-cases, ◌≐◌, string_key, String-discrete, if◌then◌else◌,
}
use text.Mathlib.TextEquality.{eq_iff}
use gateway_api.Prelude.Outcome.{ok, >>=-eq-ok, >>=-cases, lift, value_of_lift}
use gateway_api.Policy.Value.{Value, string, Object, object, member}
use gateway_api.Policy.Machinery.{Machinery}
use gateway_api.Policy.Object.{Policy, policy_crd_id}
use gateway_api.Policy.Merge.{override_patch, merge_unstructured, patch_override, merge_policy}
use gateway_api.Policy.Merge.Content.{
  at, at-append, at-append_none, IsLeaf, Silent, IsDocumented, merge_unstructured-wins,
  merge_unstructured-keeps,
}

-- The path does not lead into "spec.override", nor to what holds it.
abbrev pub Outside : List String → Type 0
Outside [] = ⊥
Outside (x ∷ []) = x ≢ "spec"
Outside (x ∷ y ∷ _) = (x ≢ "spec") ⊎ (y ≢ "override")

Silent-of_Outside :
    (path : List String) (v : Value) → Outside path → Silent path (object (override_patch v))
unfolding member
Silent-of_Outside [] v h = elim h [ ]
Silent-of_Outside (x ∷ []) v h = ground arith
Silent-of_Outside (x ∷ y ∷ path) v h = ground arith

at-override_patch :
    (path : List String) (o : Value)
    → at ("spec" ∷ "override" ∷ path) (object (override_patch o)) ≡ at path o
unfolding member String-discrete
at-override_patch path o = refl

-- The object says its API version and kind by texts, as a stored object does.
abbrev pub IsTyped : Object → Type 0
IsTyped o =
    ((s : String) × (at ("apiVersion" ∷ []) (object o) ≡ some (string s)))
    × ((s : String) × (at ("kind" ∷ []) (object o) ≡ some (string s)))

Outside-type : (Outside ("apiVersion" ∷ [])) × (Outside ("kind" ∷ []))
Outside-type = (ground (arith, eq_iff "apiVersion" "spec"), ground (arith, eq_iff "kind" "spec"))

module _ (k : Machinery) (documented : IsDocumented k) where
  open documented use {nested, typed}

  patch_override-wins :
      (parent content : Object) {result : Object} (path : List String) (v : Value)
      → patch_override k parent content ≡ ok result
      → at ("spec" ∷ "override" ∷ path) (object parent) ≡ some v
      → IsLeaf v
      → at ("spec" ∷ "override" ∷ path) (object result) ≡ some v
  unfolding patch_override
  patch_override-wins parent content {result} path v h e leaf =
      let spec_override : List String = "spec" ∷ "override" ∷ [] in
      let (found, read, next) =
        >>=-eq-ok (lift (Machinery.nested_field_copy k parent spec_override)) _ h in
      let stands = nested parent spec_override found (value_of_lift _ read) in
      elim (Option-cases found) [
        | inl missing ↦
            absurd (cc (e, at-append_none spec_override path (object parent) (stands ∙ missing)))
        | inr (o, is) ↦
            merge_unstructured-wins k documented content (override_patch o)
              ("spec" ∷ "override" ∷ path) v (rw is at next)
              (at-override_patch path o
                ∙ sym (at-append spec_override path (object parent) (stands ∙ is))
                ∙ e)
              leaf
      ]

  patch_override-keeps :
      (parent content : Object) {result : Object} (path : List String)
      → patch_override k parent content ≡ ok result
      → Outside path
      → at path (object result) ≡ at path (object content)
  unfolding patch_override
  patch_override-keeps parent content {result} path h out =
      let spec_override : List String = "spec" ∷ "override" ∷ [] in
      let (found, read, next) =
        >>=-eq-ok (lift (Machinery.nested_field_copy k parent spec_override)) _ h in
      elim (Option-cases found) [
        | inl missing ↦
            let returned : ok content ≡ ok result = rw missing at next in
            let same : content ≡ result = cc in rw same
        | inr (o, is) ↦
            merge_unstructured-keeps k documented content (override_patch o) path (rw is at next)
              (Silent-of_Outside path o out)
      ]

  -- What a successful merge went through.
  merge_policy_steps :
      (parent child : Policy) {merged : Policy}
      → merge_policy k parent child ≡ ok merged
      → (first : Object) × (merge_unstructured k parent.u child.u ≡ ok first)
        × ((if parent.inherited then patch_override k parent.u first else ok first) ≡ ok merged.u)
  unfolding merge_policy
  merge_policy_steps parent child {merged} h =
      elim (Bool-cases (policy_crd_id k parent.u ≐ policy_crd_id k child.u)) [
        | inl e ↦
            let (first, merge, next) =
              >>=-eq-ok (merge_unstructured k parent.u child.u) _ (rw (e, merge_policy) at h) in
            let (content, patch, done) =
              >>=-eq-ok (if parent.inherited then patch_override k parent.u first else ok first) _
                next in
            (first, merge, patch ∙ ground arith)
        | inr e ↦ absurd (cc (rw (e, merge_policy) at h))
      ]

  -- The override step leaves a path outside "spec.override" as it is.
  after_override :
      (parent child merged : Policy) (first : Object) (path : List String)
      → (parent.inherited ≡ false) ⊎ Outside path
      → (if parent.inherited then patch_override k parent.u first else ok first) ≡ ok merged.u
      → at path (object merged.u) ≡ at path (object first)
  after_override parent child merged first path out h = elim (Bool-cases parent.inherited) [
    | inl inherits ↦ patch_override-keeps parent.u first path (rw inherits at h) (ground arith)
    | inr direct ↦
        let returned : ok first ≡ ok merged.u = rw direct at h in
        let same : first ≡ merged.u = cc in rw same
  ]

  -- Where the libraries behave as documented and `merge_policy` merges a child into an inherited
  -- parent of its kind without error: each leaf that the parent has under "spec.override" is in
  -- the result, whatever the child says there.
  pub merge_policy-override :
      (parent child : Policy) {merged : Policy} (path : List String) (v : Value)
      → parent.inherited ≡ true
      → merge_policy k parent child ≡ ok merged
      → at ("spec" ∷ "override" ∷ path) (object parent.u) ≡ some v
      → IsLeaf v
      → at ("spec" ∷ "override" ∷ path) (object merged.u) ≡ some v
  merge_policy-override parent child {merged} path v inherits h e leaf =
      let (first, merge, next) = merge_policy_steps parent child h in
      patch_override-wins parent.u first path v (rw inherits at next) e leaf

  -- Where the libraries behave as documented and `merge_policy` returns no error: each leaf of the
  -- child is in the result, whatever the parent says there, if its path is outside "spec.override"
  -- or the parent is not inherited.
  pub merge_policy-child :
      (parent child : Policy) {merged : Policy} (path : List String) (v : Value)
      → (parent.inherited ≡ false) ⊎ Outside path
      → merge_policy k parent child ≡ ok merged
      → at path (object child.u) ≡ some v
      → IsLeaf v
      → at path (object merged.u) ≡ some v
  merge_policy-child parent child {merged} path v out h e leaf =
      let (first, merge, next) = merge_policy_steps parent child h in
      after_override parent child merged first path out next
      ∙ merge_unstructured-wins k documented parent.u child.u path v merge e leaf

  -- Where the libraries behave as documented and `merge_policy` returns no error: at a path on
  -- which the child is silent the result says what the parent says, if the path is outside
  -- "spec.override" or the parent is not inherited.
  pub merge_policy-parent :
      (parent child : Policy) {merged : Policy} (path : List String)
      → (parent.inherited ≡ false) ⊎ Outside path
      → merge_policy k parent child ≡ ok merged
      → Silent path (object child.u)
      → at path (object merged.u) ≡ at path (object parent.u)
  merge_policy-parent parent child {merged} path out h silent =
      let (first, merge, next) = merge_policy_steps parent child h in
      after_override parent child merged first path out next
      ∙ merge_unstructured-keeps k documented parent.u child.u path merge silent

  -- Where the libraries behave as documented and `merge_policy` returns no error: the result is of
  -- the child's kind and has strings under "apiVersion" and "kind", if the child has.
  pub merge_policy-kind :
      (parent child : Policy) {merged : Policy}
      → IsTyped child.u
      → merge_policy k parent child ≡ ok merged
      → (policy_crd_id k merged.u ≡ policy_crd_id k child.u) × IsTyped merged.u
  merge_policy-kind parent child {merged} ((a, ha), (b, hb)) h =
      let version =
        merge_policy-child parent child ("apiVersion" ∷ []) (string a) (inr Outside-type.0) h ha
          tt in
      let kind =
        merge_policy-child parent child ("kind" ∷ []) (string b) (inr Outside-type.1) h hb tt in
      (typed merged.u child.u (version ∙ sym ha) (kind ∙ sym hb), ((a, version), (b, kind)))

module _ (k : Machinery) where
  -- The result keeps the child's "inherited" flag.
  pub inherited-merge_policy :
      (parent child : Policy) {merged : Policy}
      → merge_policy k parent child ≡ ok merged
      → merged.inherited ≡ child.inherited
  unfolding merge_policy
  inherited-merge_policy parent child {merged} h =
      elim (Bool-cases (policy_crd_id k parent.u ≐ policy_crd_id k child.u)) [
        | inl e ↦
            >>=-cases (merge_unstructured k parent.u child.u) (rw (e, merge_policy) at h)
              (λ first merge next.
                >>=-cases (if parent.inherited then patch_override k parent.u first else ok first)
                  next (λ content patch done. ground arith))
        | inr e ↦ absurd (cc (rw (e, merge_policy) at h))
      ]
