-- ===== src/Discovery/Discoverer/Models.antt =====
-- The models that the Discoverer returns: connections stand on both sides, and the effective
-- policies are those that the model itself gives.
use gateway_api.Prelude.{◌≡◌, refl}
use gateway_api.Prelude.Outcome.{Outcome, ok, err, panic, ◌>>=◌, >>=-cases}
use gateway_api.Policy.Machinery.{Machinery}
use gateway_api.Discovery.Model.{ResourceModel, empty_model}
use gateway_api.Discovery.Connect.Links.Views.{IsLinked, IsLinked-of_AreSame}
use gateway_api.Discovery.Connect.Links.Built.{
  Built, nothing, called, gateway_classes_added, namespaces_added, gateways_added,
  http_routes_added, backends_added, Built-IsLinked,
}
use gateway_api.Discovery.Proper.Kept.{Built-IsProper}
use gateway_api.Discovery.Effective.{calculate_effective_policies}
use gateway_api.Discovery.Effective.Composed.{IsComputed, calculate_effective_policies-IsComputed}
use gateway_api.Discovery.Effective.Linked.{calculate_effective_policies-AreSame}
use gateway_api.Discovery.Client.{K8sClients, Filter, Discoverer}
use gateway_api.Discovery.Fetch.{
  fetch_gateway_classes, fetch_gateways, fetch_http_routes, fetch_backends, fetch_namespace,
}
use gateway_api.Discovery.Expand.{
  discover_gateway_classes_from_gateways, discover_gateways_from_http_routes,
  discover_http_routes_from_gateways, discover_http_routes_from_backends,
}
use gateway_api.Discovery.Expand.Grown.{
  discover_gateway_classes_from_gateways-Built, discover_gateways_from_http_routes-Built,
  discover_http_routes_from_gateways-Built, discover_http_routes_from_backends-Built,
}
use gateway_api.Discovery.Discoverer.{
  Discovered, fetched_first, finished, discover_namespaces, discover_reference_grants_from_backends,
  discover_policies, discover_events_for_gateways, discover_resources_for_gateway_class,
  discover_resources_for_gateway, discover_resources_for_http_route, discover_resources_for_backend,
  discover_resources_for_namespace,
}
use gateway_api.Discovery.Discoverer.Grown.{
  discover_namespaces-Built, discover_reference_grants_from_backends-Built, discover_policies-Built,
  discover_events_for_gateways-Built,
}

-- The resources that can be asked for.
pub data Subject : Type 0 where
  gateway_class gateway http_route backend namespace : Subject

-- Effective policies are computed for these.
abbrev pub HasEffectivePolicies : Subject → Type 0
HasEffectivePolicies gateway_class = ⊥
HasEffectivePolicies gateway = Unit
HasEffectivePolicies http_route = Unit
HasEffectivePolicies backend = Unit
HasEffectivePolicies namespace = ⊥

module _ (k : Machinery) (d : Discoverer) where
  abbrev pub discover : Subject → Filter (K8sClients.Selector d.k8s_clients) → Discovered k d
  discover gateway_class = discover_resources_for_gateway_class k d
  discover gateway = discover_resources_for_gateway k d
  discover http_route = discover_resources_for_http_route k d
  discover backend = discover_resources_for_backend k d
  discover namespace = discover_resources_for_namespace k d

  -- What is returned is a built model, or one with the effective policies computed.
  data Ends (s : Subject) (rm : ResourceModel) (outcome : Outcome {0} Unit) : Type 0 where
    plain : Built k rm → (HasEffectivePolicies s → outcome ≡ ok tt → ⊥) → Ends s rm outcome
    computed :
        (old : ResourceModel)
        → Built k old
        → (calculate_effective_policies k old).0 ≡ rm
        → (calculate_effective_policies k old).1 ≡ outcome
        → Ends s rm outcome

  finished-eq :
      (result : ResourceModel × Outcome {0} Unit) {rm : ResourceModel} {outcome : Outcome {0} Unit}
      → finished k d result ≡ ok (rm, outcome)
      → (result.0 ≡ rm) × (result.1 ≡ outcome)
  finished-eq (m, ok u) h = (cc, cc)
  finished-eq (m, err e) h = (cc, cc)
  finished-eq (m, panic) h = absurd (cc)

  module _ (s : Subject) (rm : ResourceModel) (outcome : Outcome {0} Unit) where
    finished-Ends :
        (old : ResourceModel)
        → Built k old
        → finished k d (calculate_effective_policies k old) ≡ ok (rm, outcome)
        → Ends s rm outcome
    finished-Ends old b h =
        let (model, end) = finished-eq (calculate_effective_policies k old) h in
        computed old b model end

    -- An error of the first fetch comes with the empty model.
    fetched_first-Ends :
        {A : Type 0} (fetched : Outcome A) (next : A → Discovered k d)
        → fetched_first k d fetched next ≡ ok (rm, outcome)
        → ((a : A) → next a ≡ ok (rm, outcome) → Ends s rm outcome)
        → Ends s rm outcome
    fetched_first-Ends (ok a) next h ends = ends a h
    fetched_first-Ends (err e) next h ends =
        let same : empty_model ≡ rm = cc in
        let failed : err e ≡ outcome = cc in plain (rw (← same) nothing) (λ computes done. cc)
    fetched_first-Ends panic next h ends = absurd (cc)

    -- The calls after the routes of a Gateway are known.
    last_steps-Ends :
        (m : ResourceModel)
        → Built k m
        → (discover_gateway_classes_from_gateways d m >>= λ with_classes.
            discover_namespaces k d with_classes >>= λ with_namespaces.
            finished k d (calculate_effective_policies k (discover_policies k d with_namespaces)))
          ≡ ok (rm, outcome)
        → Ends s rm outcome
    last_steps-Ends m b h =
        >>=-cases (discover_gateway_classes_from_gateways d m) h (λ with_classes hc h1.
          >>=-cases (discover_namespaces k d with_classes) h1 (λ with_namespaces hn h2.
            finished-Ends (discover_policies k d with_namespaces)
              (discover_policies-Built k d with_namespaces (
                discover_namespaces-Built k d with_classes with_namespaces
                  (discover_gateway_classes_from_gateways-Built k d m with_classes b hc) hn))
              h2))

  plain_model-Ends :
      (s : Subject) (m rm : ResourceModel) (outcome : Outcome {0} Unit)
      → Built k m
      → (HasEffectivePolicies s → ⊥)
      → ◌≡◌ {A = Discovered k d} (ok (discover_policies k d m, ok tt)) (ok (rm, outcome))
      → Ends s rm outcome
  plain_model-Ends s m rm outcome b none_computed h =
      let same : discover_policies k d m ≡ rm = cc in
      plain (rw (← same) (discover_policies-Built k d m b))
        (λ computes done. none_computed computes)

  discover-Ends :
      (s : Subject) (filter : Filter (K8sClients.Selector d.k8s_clients)) (rm : ResourceModel)
      (outcome : Outcome {0} Unit)
      → discover s filter ≡ ok (rm, outcome)
      → Ends s rm outcome
  unfolding discover_resources_for_gateway_class discover_resources_for_gateway
      discover_resources_for_http_route discover_resources_for_backend
      discover_resources_for_namespace
  discover-Ends gateway_class filter rm outcome h =
      fetched_first-Ends gateway_class rm outcome (fetch_gateway_classes d filter) _ h (λ l e.
        plain_model-Ends gateway_class _ rm outcome
          (called nothing (gateway_classes_added l empty_model)) (λ x. x) e)
  discover-Ends gateway filter rm outcome h =
      fetched_first-Ends gateway rm outcome (fetch_gateways d filter) _ h (λ l e.
        >>=-cases (discover_events_for_gateways k d _) e (λ with_events he h1.
          >>=-cases (discover_http_routes_from_gateways d with_events) h1 (λ with_routes hr h2.
            last_steps-Ends gateway rm outcome with_routes
              (discover_http_routes_from_gateways-Built k d with_events with_routes
                (discover_events_for_gateways-Built k d _ with_events
                  (called nothing (gateways_added l empty_model)) he)
                hr)
              h2)))
  discover-Ends http_route filter rm outcome h =
      fetched_first-Ends http_route rm outcome (fetch_http_routes d filter) _ h (λ l e.
        >>=-cases (discover_gateways_from_http_routes d _) e (λ with_gateways hg h1.
          last_steps-Ends http_route rm outcome with_gateways
            (discover_gateways_from_http_routes-Built k d _ with_gateways
              (called nothing (http_routes_added l empty_model)) hg)
            h1))
  discover-Ends backend filter rm outcome h =
      fetched_first-Ends backend rm outcome (fetch_backends d filter) _ h (λ l e.
        >>=-cases (discover_reference_grants_from_backends k d _) e (λ with_grants hg h1.
          >>=-cases (discover_http_routes_from_backends d with_grants) h1 (λ with_routes hr h2.
            >>=-cases (discover_gateways_from_http_routes d with_routes) h2 (λ with_gateways hw h3.
              last_steps-Ends backend rm outcome with_gateways
                (discover_gateways_from_http_routes-Built k d with_routes with_gateways
                  (discover_http_routes_from_backends-Built k d with_grants with_routes
                    (discover_reference_grants_from_backends-Built k d _ with_grants
                      (called nothing (backends_added l empty_model)) hg)
                    hr)
                  hw)
                h3))))
  discover-Ends namespace filter rm outcome h =
      fetched_first-Ends namespace rm outcome (fetch_namespace d filter) _ h (λ l e.
        plain_model-Ends namespace _ rm outcome (called nothing (namespaces_added l empty_model))
          (λ x. x) e)

  Ends-IsLinked :
      (s : Subject) (rm : ResourceModel) (outcome : Outcome {0} Unit)
      → Ends s rm outcome
      → IsLinked rm
  Ends-IsLinked s rm outcome (plain b uncomputed) = Built-IsLinked k b
  Ends-IsLinked s rm outcome (computed old b model end) = rw (← model) (
      IsLinked-of_AreSame old _ (calculate_effective_policies-AreSame k old (Built-IsProper k b))
        (Built-IsLinked k b))

  -- Whatever resource is asked for, with whatever filter, and whatever the API answers: in the
  -- model that the Discoverer returns, with an error or without, an HTTPRoute lists a Gateway
  -- exactly when the Gateway lists the HTTPRoute, and so do HTTPRoutes and backends, and
  -- ReferenceGrants and backends.
  pub discover-IsLinked :
      (s : Subject) (filter : Filter (K8sClients.Selector d.k8s_clients)) (rm : ResourceModel)
      (outcome : Outcome {0} Unit)
      → discover s filter ≡ ok (rm, outcome)
      → IsLinked rm
  discover-IsLinked s filter rm outcome h =
      Ends-IsLinked s rm outcome (discover-Ends s filter rm outcome h)

  Ends-IsComputed :
      (s : Subject) (rm : ResourceModel)
      → HasEffectivePolicies s
      → Ends s rm (ok tt)
      → IsComputed k rm
  Ends-IsComputed s rm computes (plain b uncomputed) = absurd (uncomputed computes refl)
  Ends-IsComputed s rm computes (computed old b model end) =
      rw (← model) (calculate_effective_policies-IsComputed k old (Built-IsProper k b) end)

  -- Where Gateways, HTTPRoutes or backends are asked for and the Discoverer returns no error: in
  -- the model that it returns the effective policies of every Gateway with a GatewayClass, of
  -- every HTTPRoute and of every backend are those that the policies of the model give. A Gateway
  -- takes them from its GatewayClass, its Namespace and itself, an HTTPRoute from each of its
  -- Gateways, its Namespace and itself, a backend from its HTTPRoutes, its Namespace and itself,
  -- and each of these has a node in the model.
  pub discover-IsComputed :
      (s : Subject) (filter : Filter (K8sClients.Selector d.k8s_clients)) (rm : ResourceModel)
      → HasEffectivePolicies s
      → discover s filter ≡ ok (rm, ok tt)
      → IsComputed k rm
  discover-IsComputed s filter rm computes h =
      Ends-IsComputed s rm computes (discover-Ends s filter rm (ok tt) h)
