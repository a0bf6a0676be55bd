-- ===== src/Conformance/Polls.antt =====
-- conformance/utils/kubernetes/helpers.go: one attempt of each wait for the status of a resource. An
-- attempt is given what `client.Get` answers; `wait.PollUntilContextTimeout` repeats it until it says
-- true, fails, or the time is up.
pub mod Gateways
pub mod Waits
use gateway_api.Prelude.{
  ℕ, String, ◌⧺◌, Bool, true, false, not, Option, none, some, List, [], ◌∷◌, ◌≐◌, string_key, ◌&&◌,
  ◌||◌, eqb, if◌then◌else◌,
}
use gateway_api.Prelude.Outcome.{Outcome, ok, err, panic, library, Reply, value, error}
use gateway_api.Api.Meta.{NamespacedName}
use gateway_api.Api.Route.{ParentReference}
use gateway_api.Conformance.Reports.Counts.{length}
use gateway_api.Conformance.Conditions.{
  Condition, RouteParentStatus, ListenerStatus, conditions_have_latest_observed_generation,
  find_condition_in_list, conditions_match, parents_for_route_match,
}
use gateway_api.Conformance.Listeners.{Verdict, listeners_match}

-- A route, a gateway and a gateway class, as far as the waits read them.
pub record PolledRoute : Type 0 where
  pub generation : ℕ
  pub parents : List RouteParentStatus

pub record GatewayStatusAddress : Type 0 where
  pub type : Option String
  pub value : String

pub record GatewayListener : Type 0 where
  pub name : String
  pub port : ℕ

pub record PolledGateway : Type 0 where
  pub generation : ℕ
  pub conditions : List Condition
  pub listeners : List ListenerStatus
  pub addresses : List GatewayStatusAddress
  pub spec_listeners : List GatewayListener

pub record PolledGatewayClass : Type 0 where
  pub generation : ℕ
  pub controller_name : String
  pub conditions : List Condition

-- `err != nil`
abbrev pub is_stale : ℕ → List Condition → Bool
is_stale generation conditions =
    elim (conditions_have_latest_observed_generation (λ _. "") generation conditions) [
      | none ↦ false
      | some _ ↦ true
    ]

-- The loop that returns false at the first parent that has a stale condition.
unfoldable pub any_stale : ℕ → List RouteParentStatus → Bool
unfolding conditions_have_latest_observed_generation
any_stale generation [] = false
any_stale generation (parent ∷ rest) =
    let later = any_stale generation rest in
    if is_stale generation parent.conditions then true else later

-- An attempt of `RouteMustHaveParents`. The closure's variable `actual` holds the slice of parents of the
-- attempt before; every `Get` decodes into the object that this slice belongs to, so what the slice
-- reads as after a `Get` is the client's to say, and a parameter. The generations are checked on it
-- before the parents of the route are taken.
unfoldable pub route_must_have_parents :
    (List RouteParentStatus → Reply PolledRoute → List RouteParentStatus)
    → String
    → Bool
    → List RouteParentStatus
    → List RouteParentStatus
    → Reply PolledRoute
    → Reply Bool × List RouteParentStatus
unfolding any_stale parents_for_route_match
route_must_have_parents decoded type_name namespace_required parents actual (error e) =
    (error ("error fetching " ⧺ type_name ⧺ ": " ⧺ e), decoded actual (error e))
route_must_have_parents decoded type_name namespace_required parents actual (value route) =
    let held = decoded actual (value route) in
    if any_stale route.generation held
    then (value false, held)
    else (value (parents_for_route_match namespace_required parents route.parents), route.parents)

-- The parent is the gateway; a parent that names no namespace is taken for it.
abbrev pub is_parent : NamespacedName → ParentReference → Bool
is_parent gateway parent =
    parent.name ≐ gateway.name
    && elim parent.namespace [ none ↦ true | some n ↦ n ≐ gateway.namespace ]

-- The loop of `HTTPRouteMustHaveCondition`, with `conditionFound`; that of `TLSRouteMustHaveCondition`
-- is the same.
unfoldable pub condition_found :
    NamespacedName → Condition → ℕ → List RouteParentStatus → Bool → Bool
unfolding conditions_have_latest_observed_generation find_condition_in_list
condition_found gateway c generation [] found = found
condition_found gateway c generation (parent ∷ rest) found =
    let later = condition_found gateway c generation rest (
      if is_parent gateway parent.parent_ref
        && find_condition_in_list parent.conditions c.type c.status c.reason
      then true
      else found) in
    if is_stale generation parent.conditions then false else later

unfoldable pub route_must_have_condition :
    String → NamespacedName → Condition → Reply PolledRoute → Reply Bool
unfolding condition_found
route_must_have_condition type_name gateway c (error e) =
    error ("error fetching " ⧺ type_name ⧺ ": " ⧺ e)
route_must_have_condition type_name gateway c (value route) =
    value (condition_found gateway c route.generation route.parents false)

-- An attempt of `HTTPRouteMustHaveNoAcceptedParents`, with `emptyChecked`.
unfoldable pub http_route_must_have_no_accepted_parents :
    Bool → Reply PolledRoute → Reply Bool × Bool
unfolding conditions_have_latest_observed_generation conditions_match
http_route_must_have_no_accepted_parents empty_checked (error e) =
    (error ("error fetching HTTPRoute: " ⧺ e), empty_checked)
http_route_must_have_no_accepted_parents empty_checked (value route) = elim route.parents [
  | [] ↦ if not empty_checked then (value false, true) else (value true, empty_checked)
  | parent ∷ [] ↦ (
    (if is_stale route.generation parent.conditions
        then value false
        else value (
            conditions_match
              (record { type = "Accepted"; status = "False"; observed_generation = 0; reason = "" }
                ∷ [])
              parent.conditions)),
    empty_checked,
  )
  | parent ∷ other ∷ rest ↦ (value false, empty_checked)
]
