-- ===== src/Conformance/Listeners/Compared.antt =====
-- What `listenersMatch` decides.
use gateway_api.Prelude.{true, none, some, List, [], ◌∷◌, ◌≡◌, ◌≤◌, ◌↔◌, arith}
use gateway_api.Prelude.Lists.{All, Any}
use gateway_api.Conformance.Reports.Counts.{length}
use gateway_api.Conformance.Conditions.{RouteGroupKind, ListenerStatus}
use gateway_api.Conformance.Conditions.Matched.{IsFound}
use gateway_api.Conformance.Listeners.{
  panics, or_group_of_api, named, kind_found, kinds_match, listener_matches,
}

-- The kinds are one, a nil group being that of the API.
abbrev pub IsSameKind : RouteGroupKind → RouteGroupKind → Type 0
IsSameKind e a = (or_group_of_api e.group ≡ or_group_of_api a.group) × (e.kind ≡ a.kind)

kind_found_iff :
    (e : RouteGroupKind) (actual : List RouteGroupKind)
    → (kind_found e actual ≡ true) ↔ Any (IsSameKind e) actual
unfolding kind_found
kind_found_iff e [] = ground arith
kind_found_iff e (a ∷ actual) =
    ground (arith, kind_found_iff (record e { group = some (or_group_of_api e.group) }) actual)

-- The listener has the expected kinds, none when none are expected, as many attached routes, and the
-- expected conditions.
abbrev pub IsListener : ListenerStatus → ListenerStatus → Type 0
IsListener e a =
    (e.supported_kinds ≡ [] → a.supported_kinds ≡ [])
    × All (λ (k : RouteGroupKind). Any (IsSameKind k) a.supported_kinds) e.supported_kinds
    × (a.attached_routes ≡ e.attached_routes)
    × (length e.conditions ≤ length a.conditions)
    × All (IsFound a.conditions) e.conditions

-- A listener is the first of its name.
abbrev pub IsListed : List ListenerStatus → ListenerStatus → Type 0
IsListed actual e = (a : ListenerStatus) × (named e.name actual ≡ some a) × IsListener e a

-- The first kind has no group.
abbrev pub HasNilGroup : List RouteGroupKind → Type 0
HasNilGroup [] = ⊥
HasNilGroup (k ∷ _) = k.group ≡ none

kinds_match_panics_iff :
    (expected actual : List RouteGroupKind)
    → (kinds_match expected actual ≡ panics) ↔ ((actual ≡ []) × HasNilGroup expected)
unfolding kinds_match
kinds_match_panics_iff [] actual = ground arith
kinds_match_panics_iff (e ∷ expected) [] = ground (arith, kind_found_iff e [])
kinds_match_panics_iff (e ∷ expected) (a ∷ actual) =
    ground (arith, kinds_match_panics_iff expected (a ∷ actual))

-- The comparison of a listener panics exactly when the status has no supported kinds and the first of
-- the expected ones has no group.
pub listener_matches_panics_iff :
    (e a : ListenerStatus)
    → (listener_matches e a ≡ panics) ↔ ((a.supported_kinds ≡ []) × HasNilGroup e.supported_kinds)
unfolding listener_matches
listener_matches_panics_iff e a =
    ground (arith, kinds_match_panics_iff e.supported_kinds a.supported_kinds)
