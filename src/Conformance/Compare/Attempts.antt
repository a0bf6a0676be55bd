-- ===== src/Conformance/Compare/Attempts.antt =====
-- conformance/utils/http/http.go: the attempts of `WaitForConsistentResponse`, which share one
-- expectation. What the round tripper captures is a parameter.
use gateway_api.Prelude.{
  ℕ, String, Bool, true, false, some, List, [], ◌∷◌, ◌≡◌, ◌≢◌, refl, ap, ◌∙◌, arith, string_key,
  eqb,
}
use gateway_api.Prelude.Outcome.{Outcome, ok, err, panic, Reply, value, error}
use gateway_api.Conformance.Compare.{
  RedirectRequest, CapturedRequest, CapturedResponse, ExpectedResponse, Comparison, same, differs,
  panics, redirect_host_differs, is_redirect, is_timeout_error, compare_redirect, compare_request,
}

abbrev pub Captured : Type 0
Captured = CapturedRequest × CapturedResponse

abbrev is_same : Comparison → Outcome Bool
is_same same = ok true
is_same (differs _) = ok false
is_same panics = panic

-- The closure: whether the attempt is completed, and the expectation as the next attempt finds it.
unfoldable pub attempt :
    String → String → ExpectedResponse → Reply Captured → Outcome Bool × ExpectedResponse
unfolding compare_request
attempt scheme path expected (error e) = (ok false, expected)
attempt scheme path expected (value captured) =
    let compared = compare_request scheme path captured.0 captured.1 expected in
    (is_same compared.0, compared.1)

-- The attempts one after the other; a panic ends them.
unfoldable pub attempts :
    String → String → ExpectedResponse → List (Reply Captured) → List (Outcome Bool)
unfolding attempt
attempts scheme path expected [] = []
attempts scheme path expected (reply ∷ rest) =
    let (completed, next) = attempt scheme path expected reply in
    let later = attempts scheme path next rest in
    elim completed [ ok b ↦ ok b ∷ later | err why ↦ err why ∷ [] | panic ↦ panic ∷ [] ]

-- The response is a redirect of the expected status to the host.
abbrev pub RedirectsTo : ExpectedResponse → String → CapturedResponse → Type 0
RedirectsTo expected host response =
    (response.status_code ≡ expected.response.status_code)
    × ((actual : RedirectRequest) × (response.redirect_request ≡ some actual)
        × (actual.host ≡ host))

is_redirect-others :
    (status : ℕ)
    → is_redirect status ≡ true
    → (is_timeout_error status ≡ false) × (eqb status 200 ≡ false)
is_redirect-others status h = ground arith

-- What is compared of an expected redirect.
compare_request-redirect :
    (scheme path : String) (request : CapturedRequest) (response : CapturedResponse)
    (expected : ExpectedResponse) (redirect actual : RedirectRequest)
    → is_redirect expected.response.status_code ≡ true
    → response.status_code ≡ expected.response.status_code
    → expected.redirect_request ≡ some redirect
    → response.redirect_request ≡ some actual
    → compare_request scheme path request response expected ≡ (
      (compare_redirect scheme path redirect (some actual)).0,
      record expected {
        redirect_request = some (compare_redirect scheme path redirect (some actual)).1;
      },
    )
unfolding compare_request
compare_request-redirect scheme path request response expected redirect actual r s e a =
    ground (arith, is_redirect-others expected.response.status_code r)

-- The comparison with a host that the first redirect has set, or left as expected.
compare_redirect-hosts :
    (scheme path : String) (expected first second : RedirectRequest)
    → expected.host ≡ ""
    → first.host ≢ ""
    → second.host ≢ first.host
    → ((compare_redirect scheme path expected (some first)).0 ≢ differs redirect_host_differs)
      × ((compare_redirect scheme path
            (compare_redirect scheme path expected (some first)).1
            (some second)).0
          ≡ differs redirect_host_differs)
unfolding compare_redirect
compare_redirect-hosts scheme path expected first second unset set other = ground arith

compare_redirect-compares :
    (scheme path : String) (expected actual : RedirectRequest)
    → (compare_redirect scheme path expected (some actual)).0 ≢ panics
unfolding compare_redirect
compare_redirect-compares scheme path expected actual = ground arith

is_same-completes : (c : Comparison) → c ≢ panics → (b : Bool) × (is_same c ≡ ok b)
is_same-completes same n = (true, refl)
is_same-completes (differs why) n = (false, refl)
is_same-completes panics n = absurd (n refl)

no_attempts :
    (scheme path : String) (expected : ExpectedResponse) → attempts scheme path expected [] ≡ []
unfolding attempts
no_attempts scheme path expected = refl

-- The attempts after the one that has been made.
abbrev after_attempt :
    String → String → List (Reply Captured) → Outcome Bool × ExpectedResponse → List (Outcome Bool)
after_attempt scheme path rest made =
    let later = attempts scheme path made.1 rest in
    elim made.0 [ ok b ↦ ok b ∷ later | err why ↦ err why ∷ [] | panic ↦ panic ∷ [] ]

attempts-cons :
    (scheme path : String) (expected : ExpectedResponse) (reply : Reply Captured)
    (rest : List (Reply Captured))
    → attempts scheme path expected (reply ∷ rest)
      ≡ after_attempt scheme path rest (attempt scheme path expected reply)
unfolding attempts
attempts-cons scheme path expected reply rest = refl

attempt-value :
    (scheme path : String) (expected : ExpectedResponse) (captured : Captured)
    → attempt scheme path expected (value captured) ≡ (
      is_same (compare_request scheme path captured.0 captured.1 expected).0,
      (compare_request scheme path captured.0 captured.1 expected).1,
    )
unfolding attempt
attempt-value scheme path expected captured = refl

attempts-step :
    (scheme path : String) (expected : ExpectedResponse) (captured : Captured)
    (rest : List (Reply Captured)) (compared : Comparison × ExpectedResponse) (b : Bool)
    → compare_request scheme path captured.0 captured.1 expected ≡ compared
    → is_same compared.0 ≡ ok b
    → attempts scheme path expected (value captured ∷ rest)
      ≡ ok b ∷ attempts scheme path compared.1 rest
attempts-step scheme path expected captured rest compared b e s =
    attempts-cons scheme path expected (value captured) rest
    ∙ ap (after_attempt scheme path rest) (
        attempt-value scheme path expected captured
        ∙ ap (λ (r : Comparison × ExpectedResponse). (is_same r.0, r.1)) e)
    ∙ ap (λ (o : Outcome Bool). after_attempt scheme path rest (o, compared.1)) s

-- Where the expected redirect names no host, a response of the expected status that redirects to a
-- host does not differ by its host; but the next attempt is not completed if its response, of that
-- status too, redirects to another host, since the first one is set in the struct that both share.
pub redirect_host-remembered :
    (scheme path : String) (expected : ExpectedResponse) (redirect : RedirectRequest)
    (first second : Captured) (host other : String)
    → is_redirect expected.response.status_code ≡ true
    → expected.redirect_request ≡ some redirect
    → redirect.host ≡ ""
    → host ≢ ""
    → other ≢ host
    → RedirectsTo expected host first.1
    → RedirectsTo expected other second.1
    → ((compare_request scheme path first.0 first.1 expected).0 ≢ differs redirect_host_differs)
      × ((completed : Bool) × (attempts scheme path expected (value first ∷ value second ∷ [])
            ≡ ok completed ∷ ok false ∷ []))
redirect_host-remembered scheme path expected redirect first second host other r e unset set ne
      (s1, (a1, c1, h1)) (s2, (a2, c2, h2)) =
    let compared = compare_redirect scheme path redirect (some a1) in
    let hosts =
      compare_redirect-hosts scheme path redirect a1 a2 unset (rw h1 set) (rw (h1, h2) ne) in
    let next : ExpectedResponse = record expected { redirect_request = some compared.1 } in
    let one = compare_request-redirect scheme path first.0 first.1 expected redirect a1 r s1 e c1 in
    let two =
      compare_request-redirect scheme path second.0 second.1 next compared.1 a2 r s2 refl c2 in
    let (completed, not_panic) =
      is_same-completes compared.0 (compare_redirect-compares scheme path redirect a1) in
    (
      rw one hosts.0,
      (
        completed,
        attempts-step scheme path expected first _ (compared.0, next) completed one not_panic
            ∙ ap (λ (later : List (Outcome Bool)). ok completed ∷ later)
                (attempts-step scheme path next second [] _ false two (ap is_same hosts.1)
                  ∙ ap (λ (later : List (Outcome Bool)). ok false ∷ later)
                      (no_attempts scheme path _)),
      ),
    )
