-- ===== src/Policy/Merge/Content.antt =====
-- What a merged policy says, path by path, given what is documented of a JSON merge patch
-- (RFC 7396): a leaf of the patch replaces what stands at its path, and a path on which the patch
-- says nothing is left as it was.
use gateway_api.Prelude.{
  String, Option, none, some, List, [], ◌∷◌, ◌++◌, ◌≡◌, refl, arith, inl, inr, Option-cases,
  string_key,
}
use gateway_api.Prelude.Outcome.{ok, >>=-eq-ok, value, lift, value_of_lift}
use gateway_api.Policy.Value.{Value, null, Object, object, member}
use gateway_api.Policy.Machinery.{Machinery}
use gateway_api.Policy.Object.{policy_crd_id}
use gateway_api.Policy.Merge.{merge_unstructured}

-- What stands at a path.
abbrev pub at : List String → Value → Option Value
at [] v = some v
at (x ∷ path) (object o) = elim (member x o) [ none ↦ none | some v ↦ at path v ]
at (x ∷ path) _ = none

-- Neither null, which a patch takes for a deletion, nor an object, which it goes into.
abbrev pub IsLeaf : Value → Type 0
IsLeaf null = ⊥
IsLeaf (object _) = ⊥
IsLeaf _ = Unit

-- The patch says nothing of the path: it has objects down to a key that it lacks.
abbrev pub Silent : List String → Value → Type 0
Silent [] v = ⊥
Silent (x ∷ path) (object o) = elim (member x o) [ none ↦ Unit | some v ↦ Silent path v ]
Silent (x ∷ path) _ = ⊥

pub at-append :
    (path rest : List String) (v : Value) {w : Value}
    → at path v ≡ some w
    → at (path ++ rest) v ≡ at rest w
at-append [] rest v h = ground arith
at-append (x ∷ path) rest (object o) {w} h = elim (Option-cases (member x o)) [
  | inl e ↦ absurd (cc (rw (e, at) at h))
  | inr (v, e) ↦ rw (e, at) (at-append path rest v (rw (e, at) at h))
]
at-append (x ∷ path) rest v h = cc

pub at-append_none :
    (path rest : List String) (v : Value) → at path v ≡ none → at (path ++ rest) v ≡ none
at-append_none [] rest v h = cc
at-append_none (x ∷ path) rest (object o) h = elim (Option-cases (member x o)) [
  | inl e ↦ rw (e, at)
  | inr (v, e) ↦ rw (e, at) (at-append_none path rest v (rw (e, at) at h))
]
at-append_none (x ∷ path) rest v h = refl

-- The documented behaviour of the libraries that the merge relies on, where the numbers are those that
-- a float64 carries exactly.
pub record IsDocumented (k : Machinery) : Type 0 where
  -- marshalling, patching and unmarshalling: the patch's leaves win
  pub wins :
      (target patch result : Object) (x y z : Machinery.Bytes k) (path : List String) (v : Value)
      → Machinery.marshal k target ≡ value x
      → Machinery.marshal k patch ≡ value y
      → Machinery.merge_patch k x y ≡ value z
      → Machinery.unmarshal k z ≡ value result
      → at path (object patch) ≡ some v
      → IsLeaf v
      → at path (object result) ≡ some v
  -- and where the patch is silent the target stays
  pub keeps :
      (target patch result : Object) (x y z : Machinery.Bytes k) (path : List String)
      → Machinery.marshal k target ≡ value x
      → Machinery.marshal k patch ≡ value y
      → Machinery.merge_patch k x y ≡ value z
      → Machinery.unmarshal k z ≡ value result
      → Silent path (object patch)
      → at path (object result) ≡ at path (object target)
  -- `NestedFieldCopy` reads what stands at a path
  pub nested :
      (o : Object) (path : List String) (found : Option Value)
      → Machinery.nested_field_copy k o path ≡ value found
      → at path (object o) ≡ found
  -- `GroupVersionKind` reads "apiVersion" and "kind" alone
  pub typed :
      (a b : Object)
      → at ("apiVersion" ∷ []) (object a) ≡ at ("apiVersion" ∷ []) (object b)
      → at ("kind" ∷ []) (object a) ≡ at ("kind" ∷ []) (object b)
      → policy_crd_id k a ≡ policy_crd_id k b

module _ (k : Machinery) (documented : IsDocumented k) where
  open documented use {wins, keeps}

  -- A leaf of the patch is in the result.
  pub merge_unstructured-wins :
      (target patch : Object) {result : Object} (path : List String) (v : Value)
      → merge_unstructured k target patch ≡ ok result
      → at path (object patch) ≡ some v
      → IsLeaf v
      → at path (object result) ≡ some v
  unfolding merge_unstructured
  merge_unstructured-wins target patch {result} path v h e leaf =
      let (x, hx, h1) = >>=-eq-ok (lift (Machinery.marshal k target)) _ h in
      let (y, hy, h2) = >>=-eq-ok (lift (Machinery.marshal k patch)) _ h1 in
      let (z, hz, h3) = >>=-eq-ok (lift (Machinery.merge_patch k x y)) _ h2 in
      wins target patch result x y z path v (value_of_lift _ hx) (value_of_lift _ hy)
        (value_of_lift _ hz) (value_of_lift _ h3) e leaf

  -- Where the patch is silent the result is the target.
  pub merge_unstructured-keeps :
      (target patch : Object) {result : Object} (path : List String)
      → merge_unstructured k target patch ≡ ok result
      → Silent path (object patch)
      → at path (object result) ≡ at path (object target)
  unfolding merge_unstructured
  merge_unstructured-keeps target patch {result} path h silent =
      let (x, hx, h1) = >>=-eq-ok (lift (Machinery.marshal k target)) _ h in
      let (y, hy, h2) = >>=-eq-ok (lift (Machinery.marshal k patch)) _ h1 in
      let (z, hz, h3) = >>=-eq-ok (lift (Machinery.merge_patch k x y)) _ h2 in
      keeps target patch result x y z path (value_of_lift _ hx) (value_of_lift _ hy)
        (value_of_lift _ hz) (value_of_lift _ h3) silent
