-- ===== src/Conformance/Conditions/Matched.antt =====
-- What the comparisons of a status decide.
use gateway_api.Prelude.{
  ℕ, ◌≤◌, String, Bool, true, false, Option, none, some, List, [], ◌∷◌, ◌≡◌, ◌↔◌, ◌⊎◌, refl, arith,
  if◌then◌else◌,
}
use gateway_api.Prelude.Lists.{All, Any}
use gateway_api.Conformance.Reports.Counts.{length}
use gateway_api.Conformance.Conditions.{
  Condition, PodCondition, RouteParentStatus, filter_stale_conditions,
  conditions_have_latest_observed_generation, find_condition_in_list, find_pod_condition_in_list,
  all_found, conditions_match, same_pointee, parent_matches, each_parent_matches,
  parents_for_route_match,
}

filter_stale_empty_iff :
    (generation : ℕ) (conditions : List Condition)
    → (filter_stale_conditions generation conditions ≡ [])
      ↔ All (λ (c : Condition). c.observed_generation ≡ generation) conditions
unfolding filter_stale_conditions
filter_stale_empty_iff generation [] = ground arith
filter_stale_empty_iff generation (c ∷ rest) =
    ground (arith, filter_stale_empty_iff generation rest)

-- The error about the generations is nil exactly when every condition has been observed at the
-- generation of the object.
pub latest_observed_generation_iff :
    (decimal : ℕ → String) (generation : ℕ) (conditions : List Condition)
    → (conditions_have_latest_observed_generation decimal generation conditions ≡ none)
      ↔ All (λ (c : Condition). c.observed_generation ≡ generation) conditions
unfolding conditions_have_latest_observed_generation
latest_observed_generation_iff decimal generation conditions =
    ground (arith, filter_stale_empty_iff generation conditions)

-- A condition is one that is asked for: an empty status or reason fits any.
abbrev pub Fits : String → String → String → Condition → Type 0
Fits name status reason c =
    (c.type ≡ name) × ((status ≡ "") ⊎ (c.status ≡ status)) × ((reason ≡ "") ⊎ (c.reason ≡ reason))

pub find_condition_in_list_iff :
    (conditions : List Condition) (name status reason : String)
    → (find_condition_in_list conditions name status reason ≡ true)
      ↔ Any (Fits name status reason) conditions
unfolding find_condition_in_list
find_condition_in_list_iff [] name status reason = ground arith
find_condition_in_list_iff (c ∷ rest) name status reason =
    ground (arith, find_condition_in_list_iff rest name status reason)

find_pod_condition_in_list_iff :
    (conditions : List PodCondition) (name status : String)
    → (find_pod_condition_in_list conditions name status ≡ true)
      ↔ Any (λ (c : PodCondition). (c.type ≡ name) × (c.status ≡ status)) conditions
unfolding find_pod_condition_in_list
find_pod_condition_in_list_iff [] name status = ground arith
find_pod_condition_in_list_iff (c ∷ rest) name status =
    ground (arith, find_pod_condition_in_list_iff rest name status)

-- Some condition is the one that is expected.
abbrev pub IsFound : List Condition → Condition → Type 0
IsFound actual c = Any (Fits c.type c.status c.reason) actual

all_found_iff :
    (expected actual : List Condition)
    → (all_found expected actual ≡ true) ↔ All (IsFound actual) expected
unfolding all_found
all_found_iff [] actual = ground arith
all_found_iff (c ∷ expected) actual = ground (
  arith,
  all_found_iff expected actual,
  find_condition_in_list_iff actual c.type c.status c.reason,
)

pub conditions_match_iff :
    (expected actual : List Condition)
    → (conditions_match expected actual ≡ true)
      ↔ ((length expected ≤ length actual) × All (IsFound actual) expected)
unfolding conditions_match
conditions_match_iff expected actual = ground (arith, all_found_iff expected actual)

-- The parent is the one that is expected. A namespace may be missing, unless it is required.
abbrev pub IsParent : Bool → RouteParentStatus → RouteParentStatus → Type 0
IsParent namespace_required e a =
    (a.controller_name ≡ e.controller_name)
    × (a.parent_ref.group ≡ e.parent_ref.group)
    × (a.parent_ref.kind ≡ e.parent_ref.kind)
    × (a.parent_ref.name ≡ e.parent_ref.name)
    × ((a.parent_ref.namespace ≡ e.parent_ref.namespace)
        ⊎ ((namespace_required ≡ false) × (a.parent_ref.namespace ≡ none)))
    × (length e.conditions ≤ length a.conditions)
    × All (IsFound a.conditions) e.conditions

same_pointee_iff : (a b : Option String) → (same_pointee a b ≡ true) ↔ (a ≡ b)
same_pointee_iff none none = ground arith
same_pointee_iff none (some b) = ground arith
same_pointee_iff (some a) none = ground arith
same_pointee_iff (some a) (some b) = ground arith

parent_matches_iff :
    (namespace_required : Bool) (e a : RouteParentStatus)
    → (parent_matches namespace_required e a ≡ true) ↔ IsParent namespace_required e a
unfolding parent_matches
parent_matches_iff namespace_required e a = ground (
  arith,
  same_pointee_iff a.parent_ref.group e.parent_ref.group,
  same_pointee_iff a.parent_ref.kind e.parent_ref.kind,
  same_pointee_iff a.parent_ref.namespace e.parent_ref.namespace,
  conditions_match_iff e.conditions a.conditions,
)

-- The lists have one length, and the relation holds at each position.
abbrev pub Pointwise : {A : Type 0} → (A → A → Type 0) → List A → List A → Type 0
Pointwise R [] [] = Unit
Pointwise R (e ∷ expected) (a ∷ actual) = R e a × Pointwise R expected actual
Pointwise R _ _ = ⊥

Pointwise-step :
    (here later : Bool) (P Q : Type 0)
    → (here ≡ true) ↔ P
    → (later ≡ true) ↔ Q
    → ((if here then later else false) ≡ true) ↔ (P × Q)
Pointwise-step true later P Q p q = ((λ h. (p.0 refl, q.0 h)), λ both. q.1 both.1)
Pointwise-step false later P Q p q = ((λ h. absurd (cc)), λ both. p.1 both.0)

parents_for_route_match-step :
    (namespace_required : Bool) (e a : RouteParentStatus) (expected actual : List RouteParentStatus)
    → parents_for_route_match namespace_required (e ∷ expected) (a ∷ actual) ≡ (
        if parent_matches namespace_required e a
        then parents_for_route_match namespace_required expected actual
        else false)
unfolding parents_for_route_match each_parent_matches
parents_for_route_match-step namespace_required e a expected actual = ground arith

-- The parents in the status of a route match the expected ones exactly when there are as many and
-- each one, in order, is the expected one by its controller, group, kind, name and namespace, which may
-- be missing unless it is required, with all of the expected conditions and at least as many. Section
-- names and ports do not matter.
pub parents_for_route_match_iff :
    (namespace_required : Bool) (expected actual : List RouteParentStatus)
    → (parents_for_route_match namespace_required expected actual ≡ true)
      ↔ Pointwise (IsParent namespace_required) expected actual
unfolding parents_for_route_match each_parent_matches
parents_for_route_match_iff namespace_required [] [] = ground arith
parents_for_route_match_iff namespace_required [] (a ∷ actual) = ground arith
parents_for_route_match_iff namespace_required (e ∷ expected) [] = ground arith
parents_for_route_match_iff namespace_required (e ∷ expected) (a ∷ actual) =
    rw (parents_for_route_match-step namespace_required e a expected actual) (
      Pointwise-step (parent_matches namespace_required e a)
        (parents_for_route_match namespace_required expected actual)
        (IsParent namespace_required e a) (Pointwise (IsParent namespace_required) expected actual)
        (parent_matches_iff namespace_required e a)
        (parents_for_route_match_iff namespace_required expected actual))
