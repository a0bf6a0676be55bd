-- ===== src/Tests/Responses.antt =====
-- Requests and responses that are compared with what a conformance test expects, and its flags.
use text.Mathlib.TextEquality.{eq_iff}
use gateway_api.Prelude.{
  Bool, false, inr, String-discrete, String, none, some, [], ◌∷◌, ◌≡◌, ◌≢◌, ◌↔◌, refl, arith,
}
use gateway_api.Prelude.Dict.{get, set}
use gateway_api.Prelude.Outcome.{ok, value}
use gateway_api.Prelude.Text.{to_lower}
use gateway_api.Prelude.Sets.{insert_all}
use gateway_api.Conformance.Flags.{
  parse_skip_tests, parse_supported_features, parse_conformance_profiles,
}
use gateway_api.Conformance.Flags.Parsed.{parse-join}
use gateway_api.Conformance.Compare.{
  join, Request, ExpectedRequest, ExpectedResponse, CapturedRequest, CapturedResponse,
  RedirectRequest, same, differs, redirect_host_differs, compare_request, compare_ok, wrong_header,
  present_header, with_lower, has_prefix,
}
use gateway_api.Conformance.Compare.Same.{IsExpected, compare_request_same_iff}
use gateway_api.Conformance.Compare.Attempts.{attempts, redirect_host-remembered}

abbrev a_request : Request
a_request = record {
  host = "example.com";
  method = "";
  path = "/";
  headers = some (("X-Header", "a,b") ∷ []);
}

abbrev expected : ExpectedResponse
expected = record {
  request = a_request;
  expected_request = none;
  redirect_request = none;
  response = record { status_code = 200; headers = none; absent_headers = "X-Secret" ∷ [] };
  backend = "infra-backend";
  namespace = "infra";
}

abbrev arrived : CapturedRequest
arrived = record {
  path = "/";
  host = "example.com";
  method = "GET";
  headers = some (("X-Header", "a" ∷ "b" ∷ []) ∷ []);
  namespace = "infra";
  pod = "infra-backend-1";
}

abbrev answered : CapturedResponse
answered = record { status_code = 200; headers = some []; redirect_request = none }

abbrev wanted : ExpectedRequest
wanted = record { request = a_request; absent_headers = [] }

compare_request_same_iff_example :
    ((compare_request "http" "/" arrived answered expected).0 ≡ same)
    ↔ ((expected.response.status_code ≡ 200) × IsExpected expected wanted arrived answered)
compare_request_same_iff_example =
    compare_request_same_iff "http" "/" arrived answered expected wanted refl (inr (refl, refl))
      (tt, tt) tt

-- The header is found under its name in lower case.
header_found : (compare_request "http" "/" arrived answered expected).0 ≡ same
unfolding compare_request compare_ok wrong_header present_header with_lower join get set has_prefix
    String-discrete to_lower
header_found = refl

abbrev to_anywhere : RedirectRequest
to_anywhere = record { scheme = ""; host = ""; port = ""; path = "" }

abbrev to_first : RedirectRequest
to_first = record to_anywhere { host = "www.org" }

abbrev to_second : RedirectRequest
to_second = record to_anywhere { host = "api.org" }

has_host : ◌≢◌ {A = String} "www.org" ""
has_host = ground (arith, eq_iff "www.org" "")

other_host : ◌≢◌ {A = String} "api.org" "www.org"
other_host = ground (arith, eq_iff "api.org" "www.org")

abbrev redirected : ExpectedResponse
redirected = record expected {
  redirect_request = some to_anywhere;
  response = record { status_code = 302; headers = none; absent_headers = [] };
}

abbrev redirects : RedirectRequest → CapturedResponse
redirects r = record { status_code = 302; headers = none; redirect_request = some r }

redirect_host-remembered_example :
    ((compare_request "http" "/" arrived (redirects to_first) redirected).0
      ≢ differs redirect_host_differs)
    × ((completed : Bool) × (attempts "http" "/" redirected
            (value (arrived, redirects to_first) ∷ value (arrived, redirects to_second) ∷ [])
          ≡ ok completed ∷ ok false ∷ []))
redirect_host-remembered_example =
    redirect_host-remembered "http" "/" redirected to_anywhere (arrived, redirects to_first)
      (arrived, redirects to_second) "www.org" "api.org" refl refl refl has_host other_host
      (refl, (to_first, refl, refl)) (refl, (to_second, refl, refl))

some_text : ◌≢◌ {A = String} (join ("a" ∷ "b" ∷ [])) ""
unfolding join
some_text = ground (arith, eq_iff "a,b" "")

parse-join_example :
    (parse_skip_tests (join ("a" ∷ "b" ∷ [])) ≡ "a" ∷ "b" ∷ [])
    × (parse_supported_features (join ("a" ∷ "b" ∷ [])) ≡ some (insert_all ("a" ∷ "b" ∷ []) []))
    × (parse_conformance_profiles (join ("a" ∷ "b" ∷ [])) ≡ insert_all ("a" ∷ "b" ∷ []) [])
parse-join_example = parse-join "a" ("b" ∷ []) ((refl, tt), ((refl, tt), tt)) some_text
