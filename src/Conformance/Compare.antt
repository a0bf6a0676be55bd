-- ===== src/Conformance/Compare.antt =====
-- conformance/utils/http/http.go: `CompareRequest`, with what it leaves in the structs that the
-- expectation points to. A nil map of headers is `none`.
pub mod Headers
pub mod Same
pub mod Attempts
use gateway_api.Prelude.{
  ℕ, String, ◌⧺◌, Bool, true, false, not, Option, none, some, List, [], ◌∷◌, ◌≐◌, string_key, ◌&&◌,
  ◌||◌, eqb, if◌then◌else◌,
}
use Prim.Native.Char.{code}
use gateway_api.Prelude.Dict.{Dict, get, set}
use gateway_api.Prelude.Text.{to_lower}

-- What is sent, and what is expected to arrive.
pub record Request : Type 0 where
  pub host : String
  pub method : String
  pub path : String
  pub headers : Option (Dict String String)

pub record ExpectedRequest : Type 0 where
  pub request : Request
  pub absent_headers : List String

pub record Response : Type 0 where
  pub status_code : ℕ
  pub headers : Option (Dict String String)
  pub absent_headers : List String

-- `RedirectRequest` of conformance/utils/roundtripper/roundtripper.go, and what is captured.
pub record RedirectRequest : Type 0 where
  pub scheme : String
  pub host : String
  pub port : String
  pub path : String

pub record CapturedRequest : Type 0 where
  pub path : String
  pub host : String
  pub method : String
  pub headers : Option (Dict String (List String))
  pub namespace : String
  pub pod : String

pub record CapturedResponse : Type 0 where
  pub status_code : ℕ
  pub headers : Option (Dict String (List String))
  pub redirect_request : Option RedirectRequest

pub record ExpectedResponse : Type 0 where
  pub request : Request
  pub expected_request : Option ExpectedRequest
  pub redirect_request : Option RedirectRequest
  pub response : Response
  pub backend : String
  pub namespace : String

-- The errors, without their text.
pub data Mismatch : Type 0 where
  status_differs host_differs path_differs method_differs namespace_differs : Mismatch
  no_headers pod_differs : Mismatch
  header_missing header_differs header_present : String → Mismatch
  redirect_host_differs redirect_port_differs redirect_scheme_differs : Mismatch
  redirect_path_differs : Mismatch

pub data Comparison : Type 0 where
  same : Comparison
  differs : Mismatch → Comparison
  -- the captured redirect is nil
  panics : Comparison

-- `if … { return fmt.Errorf(…) }`
abbrev pub unless_differs : Bool → Mismatch → Comparison → Comparison
unless_differs true why rest = differs why
unless_differs false why rest = rest

abbrev pub unless_found : Option Mismatch → Comparison → Comparison
unless_found (some why) rest = differs why
unless_found none rest = rest

-- `IsTimeoutError` and `IsRedirect`
abbrev pub is_timeout_error : ℕ → Bool
is_timeout_error status = eqb status 408 || eqb status 504

abbrev pub is_redirect : ℕ → Bool
is_redirect status =
    eqb status 300
    || (eqb status 301
        || (eqb status 302
            || (eqb status 303
                || (eqb status 304 || (eqb status 305 || (eqb status 307 || eqb status 308))))))

-- `strings.HasPrefix` and `strings.Join` with commas
unfoldable pub has_prefix : String → String → Bool
has_prefix s String.[] = true
has_prefix String.[] (String.◌∷◌ d p) = false
has_prefix (String.◌∷◌ c s) (String.◌∷◌ d p) =
    let later = has_prefix s p in if eqb (code c) (code d) then later else false

unfoldable pub join : List String → String
join [] = ""
join (s ∷ []) = s
join (s ∷ t ∷ rest) = s ⧺ ("," ⧺ join (t ∷ rest))

-- The loop that puts each value under its name in lower case too. Where names differ in case only, the
-- value found is that of the last one in the loop's order.
unfoldable pub with_lower :
    Dict String (List String) → Dict String (List String) → Dict String (List String)
with_lower [] headers = headers
with_lower ((name, values) ∷ rest) headers = with_lower rest (set (to_lower name) values headers)

abbrev pub lowered : Option (Dict String (List String)) → Dict String (List String)
lowered none = []
lowered (some headers) = with_lower headers headers

-- The loops over the headers that are expected, and over those that must be absent.
unfoldable pub wrong_header : Dict String String → Dict String (List String) → Option Mismatch
unfolding join
wrong_header [] actual = none
wrong_header ((name, expected) ∷ rest) actual =
    let later = wrong_header rest actual in
    elim (get (to_lower name) actual) [
      | none ↦ some (header_missing name)
      | some values ↦ if not (join values ≐ expected) then some (header_differs name) else later
    ]

unfoldable pub present_header : List String → Dict String (List String) → Option Mismatch
present_header [] actual = none
present_header (name ∷ rest) actual =
    let later = present_header rest actual in
    elim (get (to_lower name) actual) [ some _ ↦ some (header_present name) | none ↦ later ]

abbrev pub headers_differ :
    Option (Dict String String) → Option (Dict String (List String)) → Option Mismatch
headers_differ none actual = none
headers_differ (some expected) none = some no_headers
headers_differ (some expected) (some actual) = wrong_header expected (with_lower actual actual)

-- `expected.ExpectedRequest`, when it is set to the request, and its method to the default.
abbrev pub or_request : ExpectedResponse → ExpectedRequest
or_request expected = elim expected.expected_request [
  | some request ↦ request
  | none ↦ record { request = expected.request; absent_headers = [] }
]

abbrev pub or_get : String → String
or_get method = if method ≐ "" then "GET" else method

-- The method is set in the struct of the caller, if there is one.
unfoldable pub with_method : ExpectedRequest → ExpectedRequest
with_method e = record e { request = record (e.request) { method = or_get e.request.method } }

-- The branch of a response with status 200.
unfoldable pub compare_ok :
    ExpectedResponse → ExpectedRequest → CapturedRequest → CapturedResponse → Comparison
unfolding with_lower wrong_header present_header has_prefix
compare_ok expected e request response =
    unless_differs (not (e.request.host ≐ "") && not (e.request.host ≐ request.host)) host_differs (
      unless_differs (not (e.request.path ≐ request.path)) path_differs (
        unless_differs (not (or_get e.request.method ≐ request.method)) method_differs (
          unless_differs (not (expected.namespace ≐ request.namespace)) namespace_differs (
            unless_found (headers_differ e.request.headers request.headers) (
              unless_found (headers_differ expected.response.headers response.headers) (
                unless_found
                  (present_header expected.response.absent_headers (lowered response.headers))
                  (unless_found (present_header e.absent_headers (lowered request.headers)) (
                    unless_differs (not (has_prefix request.pod expected.backend)) pod_differs
                      same))))))))

abbrev pub or_value : String → String → String
or_value default s = if s ≐ "" then default else s

-- `setRedirectRequestDefaults`, with the scheme and the path of the request.
unfoldable pub set_redirect_request_defaults :
    String → String → RedirectRequest → RedirectRequest → RedirectRequest
set_redirect_request_defaults scheme path actual expected = record expected {
  host = or_value actual.host expected.host;
  scheme = or_value scheme expected.scheme;
  path = or_value path expected.path;
}

-- The port may be left to the scheme where no port is expected.
unfoldable pub redirect_port_wrong : RedirectRequest → RedirectRequest → Bool
redirect_port_wrong expected actual =
    if expected.port ≐ ""
    then (to_lower actual.scheme ≐ "http" && (not (actual.port ≐ "80") && not (actual.port ≐ "")))
      || (to_lower actual.scheme ≐ "https" && (not (actual.port ≐ "443") && not (actual.port ≐ "")))
    else not (expected.port ≐ actual.port)

-- The branch of a redirect, with the struct of the caller as it is left. Without a captured redirect
-- the first access to it panics: that of the defaults, or that of the comparison.
unfoldable pub compare_redirect :
    String → String → RedirectRequest → Option RedirectRequest → Comparison × RedirectRequest
unfolding set_redirect_request_defaults redirect_port_wrong
compare_redirect scheme path expected none = (
  panics,
  if expected.host ≐ ""
      then expected
      else set_redirect_request_defaults scheme path expected expected,
)
compare_redirect scheme path expected (some actual) =
    let e = set_redirect_request_defaults scheme path actual expected in
    (
      unless_differs (not (e.host ≐ actual.host)) redirect_host_differs (
          unless_differs (redirect_port_wrong e actual) redirect_port_differs (
            unless_differs (not (e.scheme ≐ actual.scheme)) redirect_scheme_differs
              (unless_differs (not (e.path ≐ actual.path)) redirect_path_differs same))),
      e,
    )

abbrev pub with_methods : Option ExpectedRequest → Option ExpectedRequest
with_methods none = none
with_methods (some e) = some (with_method e)

-- `CompareRequest`, for a request with the scheme and the path, and the expectation as the next call
-- finds it: it is passed by value, but the structs that it points to are shared.
unfoldable pub compare_request :
    String
    → String
    → CapturedRequest
    → CapturedResponse
    → ExpectedResponse
    → Comparison × ExpectedResponse
unfolding with_method compare_ok compare_redirect
compare_request scheme path request response expected =
    if is_timeout_error response.status_code && is_timeout_error expected.response.status_code
    then (same, expected)
    else if not (eqb expected.response.status_code response.status_code)
    then (differs status_differs, expected)
    else if eqb response.status_code 200
    then (
      compare_ok expected (or_request expected) request response,
      record expected { expected_request = with_methods expected.expected_request },
    )
    else if is_redirect response.status_code
    then elim expected.redirect_request [
      | none ↦ (same, expected)
      | some redirect ↦
          let compared = compare_redirect scheme path redirect response.redirect_request in
          (compared.0, record expected { redirect_request = some compared.1 })
    ]
    else (same, expected)
