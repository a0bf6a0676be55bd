-- ===== src/Conformance/Conditions.antt =====
-- conformance/utils/kubernetes/helpers.go: the comparisons of the status of a resource with what a
-- test expects.
pub mod Matched
use gateway_api.Prelude.{
  ℕ, ◌-◌, String, ◌⧺◌, Bool, true, false, not, Option, none, some, List, [], ◌∷◌, ◌≐◌, string_key,
  ◌&&◌, ◌||◌, ltb, eqb, if◌then◌else◌,
}
use gateway_api.Api.Route.{ParentReference}
use gateway_api.Conformance.Reports.Counts.{length}

-- `metav1.Condition`, as far as it is read.
pub record Condition : Type 0 where
  pub type : String
  pub status : String
  pub observed_generation : ℕ
  pub reason : String

-- `v1.PodCondition`
pub record PodCondition : Type 0 where
  pub type : String
  pub status : String

-- `RouteParentStatus` of apis/v1/shared_types.go.
pub record RouteParentStatus : Type 0 where
  pub parent_ref : ParentReference
  pub controller_name : String
  pub conditions : List Condition

-- `RouteGroupKind` and `ListenerStatus` of apis/v1/gateway_types.go.
pub record RouteGroupKind : Type 0 where
  pub group : Option String
  pub kind : String

pub record ListenerStatus : Type 0 where
  pub name : String
  pub supported_kinds : List RouteGroupKind
  pub attached_routes : ℕ
  pub conditions : List Condition

-- `FilterStaleConditions`, with the generation of the object.
unfoldable pub filter_stale_conditions : ℕ → List Condition → List Condition
filter_stale_conditions generation [] = []
filter_stale_conditions generation (c ∷ rest) =
    let stale = filter_stale_conditions generation rest in
    if not (eqb generation c.observed_generation) then c ∷ stale else stale

-- The list of the stale conditions in the message of `ConditionsHaveLatestObservedGeneration`.
stale_list : (ℕ → String) → List Condition → String
stale_list decimal [] = ""
stale_list decimal (c ∷ []) = c.type ⧺ " (generation " ⧺ decimal c.observed_generation ⧺ ")"
stale_list decimal (c ∷ d ∷ rest) =
    c.type ⧺ " (generation " ⧺ decimal c.observed_generation ⧺ "), " ⧺ stale_list decimal (d ∷ rest)

stale_message : (ℕ → String) → ℕ → List Condition → List Condition → String
stale_message decimal generation conditions stale =
    "expected observedGeneration to be updated to "
    ⧺ decimal generation
    ⧺ " for all conditions, only "
    ⧺ decimal (length conditions - length stale)
    ⧺ "/"
    ⧺ decimal (length conditions)
    ⧺ " were updated. stale conditions are: "
    ⧺ stale_list decimal stale

-- `ConditionsHaveLatestObservedGeneration`: nil, or the error's text.
unfoldable pub conditions_have_latest_observed_generation :
    (ℕ → String) → ℕ → List Condition → Option String
unfolding filter_stale_conditions stale_message stale_list
conditions_have_latest_observed_generation decimal generation conditions =
    elim (filter_stale_conditions generation conditions) [
      | [] ↦ none
      | c ∷ rest ↦ some (stale_message decimal generation conditions (c ∷ rest))
    ]

-- `findConditionInList`
unfoldable pub find_condition_in_list : List Condition → String → String → String → Bool
find_condition_in_list [] name status reason = false
find_condition_in_list (c ∷ rest) name status reason =
    let later = find_condition_in_list rest name status reason in
    if c.type ≐ name
    then (if status ≐ "" || c.status ≐ status
        then (if reason ≐ "" || c.reason ≐ reason then true else later)
        else later)
    else later

-- `findPodConditionInList`
unfoldable pub find_pod_condition_in_list : List PodCondition → String → String → Bool
find_pod_condition_in_list [] name status = false
find_pod_condition_in_list (c ∷ rest) name status =
    let later = find_pod_condition_in_list rest name status in
    if c.type ≐ name then (if c.status ≐ status then true else later) else later

-- The loop of `conditionsMatch`.
unfoldable pub all_found : List Condition → List Condition → Bool
unfolding find_condition_in_list
all_found [] actual = true
all_found (c ∷ expected) actual =
    let later = all_found expected actual in
    if not (find_condition_in_list actual c.type c.status c.reason) then false else later

unfoldable pub conditions_match : List Condition → List Condition → Bool
unfolding all_found
conditions_match expected actual =
    if ltb (length actual) (length expected) then false else all_found expected actual

-- `reflect.DeepEqual` of two pointers to strings.
abbrev pub same_pointee : Option String → Option String → Bool
same_pointee none none = true
same_pointee (some a) (some b) = a ≐ b
same_pointee _ _ = false

-- `p != nil`
abbrev pub is_set : Option String → Bool
is_set none = false
is_set (some _) = true

-- The body of the loop of `parentsForRouteMatch`.
unfoldable pub parent_matches : Bool → RouteParentStatus → RouteParentStatus → Bool
unfolding conditions_match
parent_matches namespace_required e a =
    if not (a.controller_name ≐ e.controller_name)
    then false
    else if not (same_pointee a.parent_ref.group e.parent_ref.group)
    then false
    else if not (same_pointee a.parent_ref.kind e.parent_ref.kind)
    then false
    else if not (a.parent_ref.name ≐ e.parent_ref.name)
    then false
    else if not (same_pointee a.parent_ref.namespace e.parent_ref.namespace)
        && (namespace_required || is_set a.parent_ref.namespace)
    then false
    else conditions_match e.conditions a.conditions

-- The loop, over lists of one length.
unfoldable pub each_parent_matches : Bool → List RouteParentStatus → List RouteParentStatus → Bool
unfolding parent_matches
each_parent_matches namespace_required (e ∷ expected) (a ∷ actual) =
    let later = each_parent_matches namespace_required expected actual in
    if parent_matches namespace_required e a then later else false
each_parent_matches namespace_required _ _ = true

unfoldable pub parents_for_route_match :
    Bool → List RouteParentStatus → List RouteParentStatus → Bool
unfolding each_parent_matches
parents_for_route_match namespace_required expected actual =
    if not (eqb (length expected) (length actual))
    then false
    else each_parent_matches namespace_required expected actual
