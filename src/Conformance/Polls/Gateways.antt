-- ===== src/Conformance/Polls/Gateways.antt =====
-- conformance/utils/kubernetes/helpers.go: one attempt of each wait for the status of a Gateway or of
-- a GatewayClass.
use gateway_api.Prelude.{
  ℕ, String, ◌⧺◌, Bool, true, false, not, Option, none, some, List, [], ◌∷◌, ◌≐◌, string_key, ◌||◌,
  eqb, if◌then◌else◌,
}
use gateway_api.Prelude.Outcome.{Outcome, ok, err, panic, library, Reply, value, error}
use gateway_api.Conformance.Conditions.{
  Condition, ListenerStatus, conditions_have_latest_observed_generation, find_condition_in_list,
}
use gateway_api.Conformance.Listeners.{Verdict, listeners_match}
use gateway_api.Conformance.Polls.{
  GatewayStatusAddress, GatewayListener, PolledGateway, PolledGatewayClass, is_stale,
}

-- An attempt of `gwcMustBeAccepted`: an empty status is any.
unfoldable pub gwc_must_be_accepted : String → Reply PolledGatewayClass → Reply Bool
unfolding conditions_have_latest_observed_generation find_condition_in_list
gwc_must_be_accepted expected_status (error e) = error ("error fetching GatewayClass: " ⧺ e)
gwc_must_be_accepted expected_status (value gwc) =
    if is_stale gwc.generation gwc.conditions
    then value false
    else value (find_condition_in_list gwc.conditions "Accepted" expected_status "")

-- An attempt of `GatewayMustHaveLatestConditions`.
unfoldable pub gateway_must_have_latest_conditions : Reply PolledGateway → Reply Bool
unfolding conditions_have_latest_observed_generation
gateway_must_have_latest_conditions (error e) = error ("error fetching Gateway: " ⧺ e)
gateway_must_have_latest_conditions (value gw) =
    if is_stale gw.generation gw.conditions then value false else value true

-- An attempt of `GatewayMustHaveCondition`: here a stale condition is an error.
unfoldable pub gateway_must_have_condition :
    (ℕ → String) → Condition → Reply PolledGateway → Reply Bool
unfolding conditions_have_latest_observed_generation find_condition_in_list
gateway_must_have_condition decimal c (error e) = error ("error fetching Gateway: " ⧺ e)
gateway_must_have_condition decimal c (value gw) =
    elim (conditions_have_latest_observed_generation decimal gw.generation gw.conditions) [
      | some message ↦ error message
      | none ↦
          if find_condition_in_list gw.conditions c.type c.status c.reason
          then value true
          else value false
    ]

-- An attempt of `GatewayStatusMustHaveListeners`; it panics when the comparison does.
unfoldable pub gateway_status_must_have_listeners :
    List ListenerStatus → Reply PolledGateway → Reply Verdict
unfolding conditions_have_latest_observed_generation listeners_match
gateway_status_must_have_listeners listeners (error e) = error ("error fetching Gateway: " ⧺ e)
gateway_status_must_have_listeners listeners (value gw) =
    if is_stale gw.generation gw.conditions
    then value Verdict.differs
    else value (listeners_match listeners gw.listeners)

-- An attempt of `GatewayMustHaveZeroRoutes`. An error of the client stops the test at once.
unfoldable pub gateway_must_have_zero_routes : Reply PolledGateway → Reply Bool
unfolding conditions_have_latest_observed_generation
gateway_must_have_zero_routes (error e) = error ("error fetching Gateway: " ⧺ e)
gateway_must_have_zero_routes (value gw) =
    if is_stale gw.generation gw.conditions then value false else elim gw.listeners [
      | [] ↦ value true
      | l ∷ [] ↦ if eqb l.attached_routes 0 then value true else value false
      | l ∷ m ∷ rest ↦ value false
    ]

-- The inner loop of `GatewayListenersMustHaveConditions`, and the outer one.
unfoldable pub on_all_listeners : Condition → List ListenerStatus → Bool
unfolding find_condition_in_list
on_all_listeners c [] = true
on_all_listeners c (l ∷ rest) =
    let later = on_all_listeners c rest in
    if not (find_condition_in_list l.conditions c.type c.status c.reason) then false else later

unfoldable pub all_on_all_listeners : List Condition → List ListenerStatus → Bool
unfolding on_all_listeners
all_on_all_listeners [] listeners = true
all_on_all_listeners (c ∷ rest) listeners =
    let later = all_on_all_listeners rest listeners in
    if on_all_listeners c listeners then later else false

unfoldable pub gateway_listeners_must_have_conditions :
    List Condition → Reply PolledGateway → Reply Bool
unfolding all_on_all_listeners
gateway_listeners_must_have_conditions conditions (error e) = error ("error fetching Gateway: " ⧺ e)
gateway_listeners_must_have_conditions conditions (value gw) =
    value (all_on_all_listeners conditions gw.listeners)

-- The search of `WaitForGatewayAddress` for the listener of a name; without one the first is taken.
unfoldable pub listener_port : String → GatewayListener → List GatewayListener → ℕ
listener_port name listener [] = listener.port
listener_port name listener (l ∷ rest) =
    let later = listener_port name listener rest in if l.name ≐ name then l.port else later

abbrev pub has_address_type : Option String → Bool
has_address_type none = false
has_address_type (some type) = type ≐ "IPAddress" || type ≐ "Hostname"

-- The loop over the addresses: the first that is an IP address or a host name.
unfoldable pub first_address : List GatewayStatusAddress → Option String
first_address [] = none
first_address (address ∷ rest) =
    let later = first_address rest in
    if has_address_type address.type then some (address.value) else later

-- An attempt of `WaitForGatewayAddress`, for the listener names of the reference: an address and a
-- port, or none yet. A Gateway without listeners panics.
unfoldable pub wait_for_gateway_address :
    List String → Reply PolledGateway → Outcome (Option (String × ℕ))
unfolding conditions_have_latest_observed_generation listener_port first_address
wait_for_gateway_address names (error e) = err (library ("error fetching Gateway: " ⧺ e))
wait_for_gateway_address names (value gw) =
    if is_stale gw.generation gw.conditions then ok none else elim gw.spec_listeners [
      | [] ↦ panic
      | l ∷ rest ↦
          let port : ℕ = elim names [ [] ↦ l.port | name ∷ _ ↦ listener_port name l (l ∷ rest) ] in
          elim (first_address gw.addresses) [ none ↦ ok none | some host ↦ ok (some (host, port)) ]
    ]
