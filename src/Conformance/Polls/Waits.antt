-- ===== src/Conformance/Polls/Waits.antt =====
-- What an attempt of a wait decides.
use gateway_api.Prelude.{
  ℕ, String, Bool, true, false, none, some, List, [], ◌∷◌, ◌≡◌, ◌↔◌, ◌⊎◌, arith, ◌&&◌,
  if◌then◌else◌,
}
use gateway_api.Prelude.Lists.{All, Any}
use gateway_api.Prelude.Outcome.{Reply, value}
use gateway_api.Api.Meta.{NamespacedName}
use gateway_api.Api.Route.{ParentReference}
use gateway_api.Conformance.Conditions.{
  Condition, RouteParentStatus, ListenerStatus, find_condition_in_list,
}
use gateway_api.Conformance.Conditions.Matched.{
  IsFound, IsParent, Pointwise, parents_for_route_match_iff, latest_observed_generation_iff,
  find_condition_in_list_iff,
}
use gateway_api.Conformance.Polls.{
  PolledRoute, PolledGateway, is_stale, any_stale, route_must_have_parents, is_parent,
  condition_found, route_must_have_condition,
}
use gateway_api.Conformance.Polls.Gateways.{
  on_all_listeners, all_on_all_listeners, gateway_listeners_must_have_conditions,
}

-- Every condition has been observed at the generation.
abbrev pub AreLatest : ℕ → List Condition → Type 0
AreLatest generation = All (λ (c : Condition). c.observed_generation ≡ generation)

is_stale_iff :
    (generation : ℕ) (conditions : List Condition)
    → (is_stale generation conditions ≡ false) ↔ AreLatest generation conditions
is_stale_iff generation conditions =
    ground (arith, latest_observed_generation_iff (λ _. "") generation conditions)

any_stale_iff :
    (generation : ℕ) (parents : List RouteParentStatus)
    → (any_stale generation parents ≡ false)
      ↔ All (λ (p : RouteParentStatus). AreLatest generation p.conditions) parents
unfolding any_stale
any_stale_iff generation [] = ground arith
any_stale_iff generation (p ∷ rest) =
    ground (arith, any_stale_iff generation rest, is_stale_iff generation p.conditions)

-- An attempt of the wait for the parents of a route says true exactly when no condition is stale of the
-- parents that are held from the attempt before, as they read once the route has been decoded, and the
-- parents of the route are the expected ones, in order, each with all of its conditions. The
-- generations of the conditions of the route's own parents do not matter beyond that.
pub route_must_have_parents_iff :
    (decoded : List RouteParentStatus → Reply PolledRoute → List RouteParentStatus)
    (type_name : String) (namespace_required : Bool) (parents actual : List RouteParentStatus)
    (route : PolledRoute)
    → ((route_must_have_parents decoded type_name namespace_required parents actual (value route)).0
        ≡ value true)
      ↔ (All
            (λ (p : RouteParentStatus). AreLatest route.generation p.conditions)
            (decoded actual (value route))
          × Pointwise (IsParent namespace_required) parents route.parents)
unfolding route_must_have_parents
route_must_have_parents_iff decoded type_name namespace_required parents actual route = ground (
  arith,
  any_stale_iff route.generation (decoded actual (value route)),
  parents_for_route_match_iff namespace_required parents route.parents,
)

-- The reference names the gateway, or one of its name and no namespace.
abbrev pub IsParentOf : NamespacedName → ParentReference → Type 0
IsParentOf gateway parent =
    (parent.name ≡ gateway.name)
    × ((parent.namespace ≡ none) ⊎ (parent.namespace ≡ some gateway.namespace))

is_parent_iff :
    (gateway : NamespacedName) (parent : ParentReference)
    → (is_parent gateway parent ≡ true) ↔ IsParentOf gateway parent
is_parent_iff gateway parent = ground arith

-- A parent is the gateway and has the condition.
abbrev pub HasCondition : NamespacedName → Condition → RouteParentStatus → Type 0
HasCondition gateway c parent = IsParentOf gateway parent.parent_ref × IsFound parent.conditions c

-- One round of the loop, with what its tests and the later rounds decide.
found_step :
    (stale parent fits found : Bool) (later : Bool → Bool)
    {Latest Latests Parent Found Others : Type 0}
    → (stale ≡ false) ↔ Latest
    → (parent ≡ true) ↔ Parent
    → (fits ≡ true) ↔ Found
    → ((b : Bool) → (later b ≡ true) ↔ (Latests × ((b ≡ true) ⊎ Others)))
    → ((if stale then false else later (if parent && fits then true else found)) ≡ true)
      ↔ ((Latest × Latests) × ((found ≡ true) ⊎ ((Parent × Found) ⊎ Others)))
found_step true parent fits found later s p f l = ground (arith, s, p, f)
found_step false true true found later s p f l = ground (arith, s, p, f, l true)
found_step false true false found later s p f l = ground (arith, s, p, f, l found)
found_step false false fits found later s p f l = ground (arith, s, p, f, l found)

condition_found_iff :
    (gateway : NamespacedName) (c : Condition) (generation : ℕ) (parents : List RouteParentStatus)
    (found : Bool)
    → (condition_found gateway c generation parents found ≡ true) ↔ (
        All (λ (p : RouteParentStatus). AreLatest generation p.conditions) parents
        × ((found ≡ true) ⊎ Any (HasCondition gateway c) parents))
unfolding condition_found
condition_found_iff gateway c generation [] found = ground arith
condition_found_iff gateway c generation (p ∷ rest) found =
    found_step (is_stale generation p.conditions) (is_parent gateway p.parent_ref)
      (find_condition_in_list p.conditions c.type c.status c.reason) found
      (condition_found gateway c generation rest) (is_stale_iff generation p.conditions)
      (is_parent_iff gateway p.parent_ref)
      (find_condition_in_list_iff p.conditions c.type c.status c.reason)
      λ b. condition_found_iff gateway c generation rest b

-- The wait for a condition of a route ends well exactly when no condition of any of its parents is
-- stale, and some parent is the gateway and has the condition.
pub route_must_have_condition_iff :
    (type_name : String) (gateway : NamespacedName) (c : Condition) (route : PolledRoute)
    → (route_must_have_condition type_name gateway c (value route) ≡ value true) ↔ (
        All (λ (p : RouteParentStatus). AreLatest route.generation p.conditions) route.parents
        × Any (HasCondition gateway c) route.parents)
unfolding route_must_have_condition
route_must_have_condition_iff type_name gateway c route =
    ground (arith, condition_found_iff gateway c route.generation route.parents false)

on_all_listeners_iff :
    (c : Condition) (listeners : List ListenerStatus)
    → (on_all_listeners c listeners ≡ true)
      ↔ All (λ (l : ListenerStatus). IsFound l.conditions c) listeners
unfolding on_all_listeners
on_all_listeners_iff c [] = ground arith
on_all_listeners_iff c (l ∷ rest) = ground (
  arith,
  on_all_listeners_iff c rest,
  find_condition_in_list_iff l.conditions c.type c.status c.reason,
)

-- The wait for conditions on the listeners of a gateway ends well exactly when each of the conditions
-- is found on each of its listeners; no listener, or no condition, is enough.
pub gateway_listeners_must_have_conditions_iff :
    (conditions : List Condition) (gw : PolledGateway)
    → (gateway_listeners_must_have_conditions conditions (value gw) ≡ value true)
      ↔ All
          (λ (c : Condition). All (λ (l : ListenerStatus). IsFound l.conditions c) gw.listeners)
          conditions
unfolding gateway_listeners_must_have_conditions all_on_all_listeners
gateway_listeners_must_have_conditions_iff [] gw = ground arith
gateway_listeners_must_have_conditions_iff (c ∷ rest) gw =
    ground (
      arith,
      on_all_listeners_iff c gw.listeners,
      gateway_listeners_must_have_conditions_iff rest gw,
    )
