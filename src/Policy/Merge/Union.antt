-- ===== src/Policy/Merge/Union.antt =====
-- `mergePolicies` computes the union of two maps, key by key.
use gateway_api.Prelude.{
  Option, none, some, [], ◌∷◌, ◌≡◌, refl, ◌↔◌, arith, Option-cases, inl, inr, string_key,
  String-discrete,
}
use gateway_api.Prelude.Dict.{get, set, get-set, Distinct, set-Distinct}
use gateway_api.Prelude.Outcome.{Outcome, ok, ◌>>=◌, >>=-eq-ok}
use gateway_api.Policy.Machinery.{Machinery}
use gateway_api.Policy.Crd.{PolicyCrdId}
use gateway_api.Policy.Object.{Policy}
use gateway_api.Policy.Merge.{Policies, merge_policy, copy_into, merge_into, merge_policies}

-- The call returned a value.
abbrev pub Succeeds : {A : Type 0} → Outcome A → Type 0
Succeeds {A} m = (a : A) × (m ≡ ok a)

abbrev pub or_else : Option Policy → Option Policy → Option Policy
or_else none other = other
or_else (some p) other = some p

pub get-copy_into :
    (id : PolicyCrdId) (m r : Policies)
    → Distinct m
    → get id (copy_into m r) ≡ or_else (get id m) (get id r)
unfolding copy_into get
get-copy_into id [] r d = refl
get-copy_into id ((j, p) ∷ m) r d =
    ground (arith, get-copy_into id m (set j p r) d.1, get-set j id p r)

module _ (k : Machinery) (precedence : Policy → Policy → Policy × Policy) where
  abbrev pub merge_pair : Policy → Policy → Outcome Policy
  merge_pair a b = let (lower, higher) = precedence a b in merge_policy k lower higher

  -- What becomes of one key: present in neither map, in one, or in both.
  abbrev pub combine : Option Policy → Option Policy → Outcome (Option Policy)
  combine none other = ok other
  combine (some a) none = ok (some a)
  combine (some a) (some b) = merge_pair a b >>= λ c. ok (some c)

  merge_into-at :
      (id : PolicyCrdId) (m r : Policies) {s : Policies}
      → Distinct m
      → merge_into k precedence m r ≡ ok s
      → combine (get id r) (get id m) ≡ ok (get id s)
  unfolding merge_into get
  merge_into-at id [] r d h = ground arith
  merge_into-at id ((j, p) ∷ m) r d h = elim (Option-cases (get j r)) [
    | inl e ↦
        ground
          (arith, merge_into-at id m (set j p r) d.1 (rw (e, merge_into) at h), get-set j id p r)
    | inr (a, e) ↦
        let (c, merged, rest) =
          >>=-eq-ok (merge_pair a p) (λ c. merge_into k precedence m (set j c r))
            (rw (e, merge_into) at h) in
        ground (arith, merge_into-at id m (set j c r) d.1 rest, get-set j id c r)
  ]

  -- Where `merge_policies` returns no error and both maps have each key once: a key keeps its
  -- policy if one map has it, has the two policies merged in the order of precedence if both have,
  -- and is missing if none has.
  pub merge_policies-at :
      (id : PolicyCrdId) (policies1 policies2 : Policies) {merged : Policies}
      → Distinct policies1
      → Distinct policies2
      → merge_policies k precedence policies1 policies2 ≡ ok merged
      → combine (get id policies1) (get id policies2) ≡ ok (get id merged)
  unfolding merge_policies get
  merge_policies-at id m1 m2 d1 d2 h =
      ground (arith, merge_into-at id m2 (copy_into m1 []) d2 h, get-copy_into id m1 [] d1)

  pair_Succeeds :
      (j : PolicyCrdId) (p : Policy) (m r : Policies) (a : Policy)
      → get j r ≡ some a
      → ((id : PolicyCrdId) → Succeeds (combine (get id r) (get id ((j, p) ∷ m))))
      → Succeeds (merge_pair a p)
  unfolding get
  pair_Succeeds j p m r a e h = let (v, q) = h j in ground arith

  keeps :
      (j : PolicyCrdId) (c p : Policy) (m r : Policies)
      → Distinct ((j, p) ∷ m)
      → ((id : PolicyCrdId) → Succeeds (combine (get id r) (get id ((j, p) ∷ m))))
      → (id : PolicyCrdId) → Succeeds (combine (get id (set j c r)) (get id m))
  unfolding get
  keeps j c p m r d h id = elim (String-discrete j id) [
    | yes e ↦ (some c, ground (arith, get-set j id c r))
    | no n ↦ let (v, q) = h id in (v, ground (arith, get-set j id c r))
  ]

  merge_into-Succeeds :
      (m r : Policies)
      → Distinct m
      → ((id : PolicyCrdId) → Succeeds (combine (get id r) (get id m)))
      → Succeeds (merge_into k precedence m r)
  unfolding merge_into get
  merge_into-Succeeds [] r d h = (r, refl)
  merge_into-Succeeds ((j, p) ∷ m) r d h = elim (Option-cases (get j r)) [
    | inl e ↦
        let (s, done) = merge_into-Succeeds m (set j p r) d.1 (keeps j p p m r d h) in
        (s, rw (e, merge_into) done)
    | inr (a, e) ↦
        let (c, merged) = pair_Succeeds j p m r a e h in
        let (s, done) = merge_into-Succeeds m (set j c r) d.1 (keeps j c p m r d h) in
        (s, rw (e, merge_into, merged) done)
  ]

  merge_into-Distinct :
      (m r : Policies) {s : Policies} → Distinct r → merge_into k precedence m r ≡ ok s → Distinct s
  unfolding merge_into
  merge_into-Distinct [] r {s} d h = let e : r ≡ s = cc in rw (← e) d
  merge_into-Distinct ((j, p) ∷ m) r d h = elim (Option-cases (get j r)) [
    | inl e ↦ merge_into-Distinct m (set j p r) (set-Distinct j p r d) (rw (e, merge_into) at h)
    | inr (a, e) ↦
        let (c, merged, rest) =
          >>=-eq-ok (merge_pair a p) (λ c. merge_into k precedence m (set j c r))
            (rw (e, merge_into) at h) in
        merge_into-Distinct m (set j c r) (set-Distinct j c r d) rest
  ]

  copy_into-Distinct : (m r : Policies) → Distinct r → Distinct (copy_into m r)
  unfolding copy_into
  copy_into-Distinct [] r d = d
  copy_into-Distinct ((j, p) ∷ m) r d = copy_into-Distinct m (set j p r) (set-Distinct j p r d)

  -- The merged map has each key once.
  pub merge_policies-Distinct :
      (policies1 policies2 : Policies) {merged : Policies}
      → merge_policies k precedence policies1 policies2 ≡ ok merged
      → Distinct merged
  unfolding merge_policies
  merge_policies-Distinct m1 m2 h =
      merge_into-Distinct m2 (copy_into m1 []) (copy_into-Distinct m1 [] tt) h

  -- For maps that have each key once, `merge_policies` returns a map exactly when the policies of
  -- every key that both have can be merged.
  pub merge_policies-Succeeds :
      (policies1 policies2 : Policies)
      → Distinct policies1
      → Distinct policies2
      → Succeeds (merge_policies k precedence policies1 policies2)
        ↔ ((id : PolicyCrdId) → Succeeds (combine (get id policies1) (get id policies2)))
  unfolding merge_policies get
  merge_policies-Succeeds m1 m2 d1 d2 = (
    (λ (merged, h) id. (get id merged, merge_policies-at id m1 m2 d1 d2 h)),
    (λ each.
        merge_into-Succeeds m2 (copy_into m1 []) d2
          (λ id. let (v, h) = each id in (v, ground (arith, get-copy_into id m1 [] d1)))),
  )
