-- ===== src/Tests/Machine.antt =====
-- Libraries that behave as documented, by concrete functions: JSON texts are their contents, a
-- merge patch is that of RFC 7396, and an API version is its group.
use gateway_api.Prelude.{
  String, ℕ, Option, none, some, List, [], ◌∷◌, ◌≡◌, ◌≢◌, refl, ◌∙◌, arith, ◌≐◌, string_key,
  String-discrete, if◌then◌else◌,
}
use gateway_api.Prelude.Outcome.{value}
use gateway_api.Policy.Value.{
  Value, null, boolean, number, string, array, object, Object, empty, field, member, delete,
}
use gateway_api.Policy.Machinery.{Machinery}
use gateway_api.Policy.Object.{policy_crd_id}
use gateway_api.Policy.Merge.Content.{at, IsLeaf, Silent, IsDocumented}

-- `o[k] = v`
unfoldable pub put : String → Value → Object → Object
put k v empty = field k v empty
put k v (field j w o) = let rest = put k v o in if j ≐ k then field k v o else field j w rest

member-put :
    (k j : String) (v : Value) (o : Object)
    → member j (put k v o) ≡ (if k ≐ j then some v else member j o)
unfolding member put
member-put k j v empty = refl
member-put k j v (field i w o) = ground (arith, member-put k j v o)

member-delete :
    (k j : String) (o : Object) → member j (delete k o) ≡ (if k ≐ j then none else member j o)
unfolding member delete
member-delete k j empty = ground arith
member-delete k j (field i w o) = ground (arith, member-delete k j o)

abbrev fields : Option Value → Object
fields (some (object o)) = o
fields _ = empty

unfoldable mutual
  -- The value that a patch makes of another.
  pub patched : Value → Option Value → Value
  patched (object p) target = object (patched_fields p (fields target))
  patched v target = v

  pub patched_fields : Object → Object → Object
  patched_fields empty target = target
  patched_fields (field k null rest) target = delete k (patched_fields rest target)
  patched_fields (field k v rest) target =
      put k (patched v (member k target)) (patched_fields rest target)

-- What a patch's field makes of the target's: nothing, if it is null.
abbrev becomes : Value → Option Value → Option Value
becomes null old = none
becomes v old = some (patched v old)

member-patched_fields-field :
    (k j : String) (v : Value) (rest target : Object)
    → member j (patched_fields (field k v rest) target)
      ≡ (if k ≐ j then becomes v (member k target) else member j (patched_fields rest target))
unfolding patched_fields
member-patched_fields-field k j null rest target = member-delete k j (patched_fields rest target)
member-patched_fields-field k j (boolean b) rest target =
    member-put k j (boolean b) (patched_fields rest target)
member-patched_fields-field k j (number b) rest target =
    member-put k j (patched (number b) (member k target)) (patched_fields rest target)
member-patched_fields-field k j (string b) rest target =
    member-put k j (patched (string b) (member k target)) (patched_fields rest target)
member-patched_fields-field k j (array b) rest target =
    member-put k j (patched (array b) (member k target)) (patched_fields rest target)
member-patched_fields-field k j (object b) rest target =
    member-put k j (patched (object b) (member k target)) (patched_fields rest target)

patched-object :
    (p : Object) (old : Option Value)
    → patched (object p) old ≡ object (patched_fields p (fields old))
unfolding patched
patched-object p old = refl

patched_fields-empty : (target : Object) → patched_fields empty target ≡ target
unfolding patched
patched_fields-empty target = refl

member-empty : (x : String) → member x empty ≡ none
unfolding member
member-empty x = refl

member-field_same :
    (k x : String) (v : Value) (o : Object) → k ≡ x → member x (field k v o) ≡ some v
unfolding member
member-field_same k x v o e = ground arith

member-field_other :
    (k x : String) (v : Value) (o : Object) → k ≢ x → member x (field k v o) ≡ member x o
unfolding member
member-field_other k x v o n = ground arith

member-patched_same :
    (k x : String) (v : Value) (rest target : Object)
    → k ≡ x
    → member x (patched_fields (field k v rest) target) ≡ becomes v (member x target)
member-patched_same k x v rest target e =
    ground (arith, member-patched_fields-field k x v rest target)

member-patched_other :
    (k x : String) (v : Value) (rest target : Object)
    → k ≢ x
    → member x (patched_fields (field k v rest) target) ≡ member x (patched_fields rest target)
member-patched_other k x v rest target n =
    ground (arith, member-patched_fields-field k x v rest target)

at-fields :
    (x : String) (path : List String) (old : Option Value)
    → at (x ∷ path) (object (fields old)) ≡ elim old [ none ↦ none | some v ↦ at (x ∷ path) v ]
unfolding member
at-fields x path none = refl
at-fields x path (some (object o)) = refl
at-fields x path (some null) = refl
at-fields x path (some (boolean b)) = refl
at-fields x path (some (number b)) = refl
at-fields x path (some (string b)) = refl
at-fields x path (some (array b)) = refl

-- What stands at a path, where there may be nothing.
abbrev at_some : List String → Option Value → Option Value
at_some path none = none
at_some path (some v) = at path v

at_some-becomes_leaf : (v : Value) (old : Option Value) → IsLeaf v → becomes v old ≡ some v
unfolding patched
at_some-becomes_leaf (boolean b) old leaf = refl
at_some-becomes_leaf (number b) old leaf = refl
at_some-becomes_leaf (string b) old leaf = refl
at_some-becomes_leaf (array b) old leaf = refl
at_some-becomes_leaf null old leaf = elim leaf [ ]
at_some-becomes_leaf (object b) old leaf = elim leaf [ ]

mutual
  becomes_wins :
      (w : Value) (old : Option Value) (path : List String) (v : Value)
      → at path w ≡ some v
      → IsLeaf v
      → at_some path (becomes w old) ≡ some v
  becomes_wins w old [] v e leaf =
      let same : w ≡ v = cc in
      let leaf_w : IsLeaf w = rw same leaf in rw (at_some-becomes_leaf w old leaf_w) e
  becomes_wins (object p) old (x ∷ path) v e leaf =
      rw (patched-object p old) (patched_wins p (fields old) (x ∷ path) v e leaf)
  becomes_wins null old (x ∷ path) v e leaf = cc
  becomes_wins (boolean b) old (x ∷ path) v e leaf = cc
  becomes_wins (number b) old (x ∷ path) v e leaf = cc
  becomes_wins (string b) old (x ∷ path) v e leaf = cc
  becomes_wins (array b) old (x ∷ path) v e leaf = cc

  patched_wins :
      (patch target : Object) (path : List String) (v : Value)
      → at path (object patch) ≡ some v
      → IsLeaf v
      → at path (object (patched_fields patch target)) ≡ some v
  patched_wins patch target [] v e leaf =
      let same : object patch ≡ v = cc in absurd (rw (← same) at leaf)
  patched_wins empty target (x ∷ path) v e leaf = absurd (cc (rw (member-empty x, at) at e))
  patched_wins (field k w rest) target (x ∷ path) v e leaf = elim (String-discrete k x) [
    | yes b ↦
        rw (member-patched_same k x w rest target b, at)
          (becomes_wins w (member x target) path v (rw (member-field_same k x w rest b, at) at e)
            leaf)
    | no b ↦
        rw (member-patched_other k x w rest target b, at)
          (patched_wins rest target (x ∷ path) v (rw (member-field_other k x w rest b, at) at e)
            leaf)
  ]

mutual
  becomes_keeps :
      (w : Value) (old : Option Value) (path : List String)
      → Silent path w
      → at_some path (becomes w old) ≡ at_some path old
  becomes_keeps w old [] silent = elim silent [ ]
  becomes_keeps (object p) none (x ∷ path) silent =
      rw (patched-object p none) (patched_keeps p empty (x ∷ path) silent ∙ at-fields x path none)
  becomes_keeps (object p) (some o) (x ∷ path) silent =
      rw (patched-object p (some o))
        (patched_keeps p (fields (some o)) (x ∷ path) silent ∙ at-fields x path (some o))
  becomes_keeps null old (x ∷ path) silent = elim silent [ ]
  becomes_keeps (boolean b) old (x ∷ path) silent = elim silent [ ]
  becomes_keeps (number b) old (x ∷ path) silent = elim silent [ ]
  becomes_keeps (string b) old (x ∷ path) silent = elim silent [ ]
  becomes_keeps (array b) old (x ∷ path) silent = elim silent [ ]

  patched_keeps :
      (patch target : Object) (path : List String)
      → Silent path (object patch)
      → at path (object (patched_fields patch target)) ≡ at path (object target)
  patched_keeps patch target [] silent = elim silent [ ]
  patched_keeps empty target (x ∷ path) silent = rw (patched_fields-empty target) refl
  patched_keeps (field k w rest) target (x ∷ path) silent = elim (String-discrete k x) [
    | yes b ↦
        rw (member-patched_same k x w rest target b, at)
          (becomes_keeps w (member x target) path
            (rw (member-field_same k x w rest b, Silent) at silent))
    | no b ↦
        rw (member-patched_other k x w rest target b, at)
          (patched_keeps rest target (x ∷ path)
            (rw (member-field_other k x w rest b, Silent) at silent))
  ]

-- The text at a path, "" where there is none.
unfoldable pub text_at : List String → Object → String
text_at path o = elim (at path (object o)) [ some (string s) ↦ s | _ ↦ "" ]

-- One of the two ages that the tests use.
unfoldable pub age_at : List String → Object → ℕ
age_at path o = elim (at path (object o)) [ some (number s) ↦ if s ≐ "1" then 1 else 2 | _ ↦ 0 ]

abbrev text_or_none : Option Value → Option String
text_or_none (some (string s)) = some s
text_or_none _ = none

abbrev pub machine : Machinery
machine = record {
  Bytes = Object;
  group = text_at ("apiVersion" ∷ []);
  kind = text_at ("kind" ∷ []);
  get_kind = text_at ("kind" ∷ []);
  namespace = text_at ("metadata" ∷ "namespace" ∷ []);
  name = text_at ("metadata" ∷ "name" ∷ []);
  creation_timestamp = age_at ("metadata" ∷ "creationTimestamp" ∷ []);
  nested_field_copy = λ o path. value (at path (object o));
  from_unstructured = λ o. value (record {
    namespace = text_at ("metadata" ∷ "namespace" ∷ []) o;
    target_ref = record {
      group = text_at ("spec" ∷ "targetRef" ∷ "group" ∷ []) o;
      kind = text_at ("spec" ∷ "targetRef" ∷ "kind" ∷ []) o;
      name = text_at ("spec" ∷ "targetRef" ∷ "name" ∷ []) o;
      namespace = text_or_none (at ("spec" ∷ "targetRef" ∷ "namespace" ∷ []) (object o));
    };
  });
  marshal = value;
  unmarshal = value;
  merge_patch = λ target patch. value (patched_fields patch target);
}

pub machine-IsDocumented : IsDocumented machine
unfolding text_at policy_crd_id
machine-IsDocumented = record {
  wins = λ target patch result x y z path v hx hy hz hr e leaf.
      let result_is : patched_fields patch target ≡ result = cc in
      rw (← result_is) (patched_wins patch target path v e leaf);
  keeps = λ target patch result x y z path hx hy hz hr silent.
      let result_is : patched_fields patch target ≡ result = cc in
      rw (← result_is) (patched_keeps patch target path silent);
  nested = λ o path found h. cc;
  typed = λ a b version kind. rw (version, kind, text_at) refl;
}
