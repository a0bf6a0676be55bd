-- ===== src/Tests/Waits.antt =====
-- The status of routes and gateways that a conformance test waits for.
use gateway_api.Prelude.{
  ℕ, ◌+◌, ◌≤◌, true, false, none, some, List, [], ◌∷◌, ◌++◌, ◌≡◌, ◌≢◌, ◌↔◌, refl, arith, inl, inr,
  string_key,
}
use gateway_api.Prelude.Lists.{All, Any}
use gateway_api.Prelude.Outcome.{Reply, value, error}
use gateway_api.Api.Meta.{NamespacedName}
use gateway_api.Api.Route.{ParentReference}
use gateway_api.Conformance.Await.{Round, converged, awaiting, await, await_convergence}
use gateway_api.Conformance.Await.Converges.{
  asked, count, IsCompleted, await_convergence-Streak, await_convergence-finishes,
  await_convergence-converged,
}
use gateway_api.Conformance.Conditions.{
  Condition, RouteParentStatus, ListenerStatus, parents_for_route_match,
}
use gateway_api.Conformance.Conditions.Matched.{
  IsFound, IsParent, Pointwise, parents_for_route_match_iff,
}
use gateway_api.Conformance.Listeners.{panics, listener_matches}
use gateway_api.Conformance.Listeners.Compared.{HasNilGroup, listener_matches_panics_iff}
use gateway_api.Conformance.Polls.{
  PolledGateway, PolledRoute, route_must_have_parents, route_must_have_condition,
}
use gateway_api.Conformance.Polls.Gateways.{gateway_listeners_must_have_conditions}
use gateway_api.Conformance.Polls.Waits.{
  gateway_listeners_must_have_conditions_iff, route_must_have_parents_iff, AreLatest, HasCondition,
  route_must_have_condition_iff,
}

abbrev good : Round
good = record { late = false; completed = true; late_after = false }

abbrev bad : Round
bad = record { late = false; completed = false; late_after = false }

abbrev late : Round
late = record { late = true; completed = true; late_after = false }

abbrev rounds : List Round
rounds = good ∷ bad ∷ good ∷ good ∷ late ∷ []

returns : await_convergence 2 rounds ≡ converged 4
unfolding await_convergence await
returns = refl

await_convergence-Streak_example :
    (before : List Round) × (streak : List Round) × (rest : List Round) × (rounds
      ≡ before ++ (streak ++ rest))
    × All IsCompleted streak
    × (count streak ≡ asked 2)
    × (count before + count streak ≡ 4)
await_convergence-Streak_example = await_convergence-Streak 2 4 rounds returns

await_convergence-finishes_example : await_convergence 3 rounds ≢ awaiting
await_convergence-finishes_example =
    await_convergence-finishes 3 rounds (inr (inr (inr (inr (inl refl)))))

await_convergence-converged_example :
    (n : ℕ) × (await_convergence 2 ((good ∷ bad ∷ []) ++ ((good ∷ good ∷ []) ++ (late ∷ [])))
      ≡ converged n)
    × (n ≤ count (good ∷ bad ∷ []) + count (good ∷ good ∷ []))
await_convergence-converged_example =
    await_convergence-converged 2 (good ∷ bad ∷ []) (good ∷ good ∷ []) (late ∷ [])
      ((refl, refl), ((refl, refl), tt)) ((refl, refl), ((refl, refl), tt)) (refl, (refl, tt))
      (omega arith)

abbrev accepted : Condition
accepted = record {
  type = "Accepted";
  status = "True";
  observed_generation = 1;
  reason = "Accepted";
}

abbrev parent_ref : ParentReference
parent_ref = record {
  group = none;
  kind = some "Gateway";
  namespace = none;
  name = "gw";
  section_name = none;
  port = none;
}

abbrev parent_status : RouteParentStatus
parent_status = record {
  parent_ref = parent_ref;
  controller_name = "c";
  conditions = accepted ∷ [];
}

parents_for_route_match_iff_example :
    (parents_for_route_match true (parent_status ∷ []) (parent_status ∷ []) ≡ true)
    ↔ Pointwise (IsParent true) (parent_status ∷ []) (parent_status ∷ [])
parents_for_route_match_iff_example =
    parents_for_route_match_iff true (parent_status ∷ []) (parent_status ∷ [])

abbrev a_listener : ListenerStatus
a_listener = record {
  name = "http";
  supported_kinds = [];
  attached_routes = 1;
  conditions = accepted ∷ [];
}

abbrev expected_listener : ListenerStatus
expected_listener = record a_listener {
  supported_kinds = record { group = none; kind = "HTTPRoute" } ∷ [];
}

listener_matches_panics_iff_example :
    (listener_matches expected_listener a_listener ≡ panics)
    ↔ ((a_listener.supported_kinds ≡ []) × HasNilGroup expected_listener.supported_kinds)
listener_matches_panics_iff_example = listener_matches_panics_iff expected_listener a_listener

abbrev updated : PolledRoute
updated = record {
  generation = 2;
  parents =
      record parent_status { conditions = record accepted { observed_generation = 2 } ∷ [] } ∷ [];
}

abbrev stale : PolledRoute
stale = record { generation = 2; parents = parent_status ∷ [] }

-- The slice keeps its length, and reads as the parents of the route decoded last.
abbrev in_place : List RouteParentStatus → Reply PolledRoute → List RouteParentStatus
in_place [] reply = []
in_place (p ∷ rest) (value route) = route.parents
in_place (p ∷ rest) (error e) = p ∷ rest

route_must_have_parents_iff_example :
    ((route_must_have_parents in_place "HTTPRoute" true (parent_status ∷ []) [] (value stale)).0
      ≡ value true)
    ↔ (All (λ (p : RouteParentStatus). AreLatest 2 p.conditions) (in_place [] (value stale))
        × Pointwise (IsParent true) (parent_status ∷ []) (parent_status ∷ []))
route_must_have_parents_iff_example =
    route_must_have_parents_iff in_place "HTTPRoute" true (parent_status ∷ []) [] stale

abbrev gateway_name : NamespacedName
gateway_name = record { namespace = "prod"; name = "gw" }

route_must_have_condition_iff_example :
    (route_must_have_condition "HTTPRoute" gateway_name accepted (value updated) ≡ value true) ↔ (
      All (λ (p : RouteParentStatus). AreLatest 2 p.conditions) updated.parents
      × Any (HasCondition gateway_name accepted) updated.parents)
route_must_have_condition_iff_example =
    route_must_have_condition_iff "HTTPRoute" gateway_name accepted updated

abbrev a_gateway : PolledGateway
a_gateway = record {
  generation = 1;
  conditions = [];
  listeners = a_listener ∷ [];
  addresses = [];
  spec_listeners = [];
}

gateway_listeners_must_have_conditions_iff_example :
    (gateway_listeners_must_have_conditions (accepted ∷ []) (value a_gateway) ≡ value true)
    ↔ All
        (λ (c : Condition). All (λ (l : ListenerStatus). IsFound l.conditions c) (a_listener ∷ []))
        (accepted ∷ [])
gateway_listeners_must_have_conditions_iff_example =
    gateway_listeners_must_have_conditions_iff (accepted ∷ []) a_gateway
