-- ===== src/Conformance/Listeners.antt =====
-- conformance/utils/kubernetes/helpers.go: `listenersMatch`. A nil group that is printed ends the
-- test with a panic.
pub mod Compared
use gateway_api.Prelude.{
  String, Bool, true, false, not, Option, none, some, List, [], ◌∷◌, ◌≐◌, string_key, ◌&&◌, eqb,
  if◌then◌else◌,
}
use gateway_api.Conformance.Reports.Counts.{length}
use gateway_api.Conformance.Conditions.{RouteGroupKind, ListenerStatus, conditions_match}

pub data Verdict : Type 0 where
  matches differs panics : Verdict

-- `gatewayv1.GroupVersion.Group` of apis/v1/doc.go
abbrev pub group_of_api : String
group_of_api = "gateway.networking.k8s.io"

abbrev pub or_group_of_api : Option String → String
or_group_of_api none = group_of_api
or_group_of_api (some group) = group

abbrev pub has_kinds : List RouteGroupKind → Bool
has_kinds [] = false
has_kinds (_ ∷ _) = true

-- The search for a listener by its name.
unfoldable pub named : String → List ListenerStatus → Option ListenerStatus
named name [] = none
named name (l ∷ rest) = let later = named name rest in if l.name ≐ name then some l else later

-- The search for a kind: it gives the nil group of the expected kind its value in each round.
unfoldable pub kind_found : RouteGroupKind → List RouteGroupKind → Bool
kind_found e [] = false
kind_found e (a ∷ rest) =
    let later = kind_found (record e { group = some (or_group_of_api e.group) }) rest in
    if or_group_of_api e.group ≐ or_group_of_api a.group && e.kind ≐ a.kind then true else later

-- `*eKind.Group` of the message on a kind that is missing, when the search has had no round.
abbrev pub kind_missing : RouteGroupKind → List RouteGroupKind → Verdict
kind_missing e (_ ∷ _) = differs
kind_missing e [] = elim e.group [ none ↦ panics | some _ ↦ differs ]

unfoldable pub kinds_match : List RouteGroupKind → List RouteGroupKind → Verdict
unfolding kind_found
kinds_match [] actual = matches
kinds_match (e ∷ expected) actual =
    let later = kinds_match expected actual in
    if kind_found e actual then later else kind_missing e actual

-- The body of the loop, once the listener is found.
unfoldable pub listener_matches : ListenerStatus → ListenerStatus → Verdict
unfolding kinds_match conditions_match
listener_matches e a =
    if not (has_kinds e.supported_kinds) && has_kinds a.supported_kinds
    then differs
    else elim (kinds_match e.supported_kinds a.supported_kinds) [
      | differs ↦ differs
      | panics ↦ panics
      | matches ↦
          if not (eqb a.attached_routes e.attached_routes)
          then differs
          else if not (conditions_match e.conditions a.conditions)
          then differs
          else matches
    ]

-- The rest of the loop, when the body does not return.
abbrev pub and_then : Verdict → Verdict → Verdict
and_then matches later = later
and_then differs later = differs
and_then panics later = panics

unfoldable pub each_listener_matches : List ListenerStatus → List ListenerStatus → Verdict
unfolding named listener_matches
each_listener_matches [] actual = matches
each_listener_matches (e ∷ expected) actual =
    let later = each_listener_matches expected actual in
    elim (named e.name actual) [ none ↦ differs | some a ↦ and_then (listener_matches e a) later ]

unfoldable pub listeners_match : List ListenerStatus → List ListenerStatus → Verdict
unfolding each_listener_matches
listeners_match expected actual =
    if not (eqb (length expected) (length actual))
    then differs
    else each_listener_matches expected actual
