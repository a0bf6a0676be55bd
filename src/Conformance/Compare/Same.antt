-- ===== src/Conformance/Compare/Same.antt =====
-- When `CompareRequest` finds no difference.
use Prim.Native.Char.{code}
use text.Mathlib.TextEquality.{Char-path}
use text.Mathlib.TextLemmas.{nil-append, cons-append}
use gateway_api.Prelude.{
  ap, sym, ◌∙◌, String, Bool, true, false, not, Option, none, some, List, [], ◌∷◌, ◌≡◌, ◌≢◌, ◌↔◌,
  ◌⊎◌, refl, arith, inl, inr, ◌⧺◌, string_key, ◌≐◌, ◌&&◌, if◌then◌else◌,
}
use gateway_api.Prelude.Dict.{Dict, get}
use gateway_api.Prelude.Lists.{All}
use gateway_api.Prelude.Text.{to_lower}
use gateway_api.Conformance.Compare.Headers.{
  Header, HaveDistinctNames, Carries, HasHeader, IsAbsent, Carries-get_iff, get-IsAbsent_iff,
}
use gateway_api.Conformance.Compare.{
  ExpectedRequest, CapturedRequest, CapturedResponse, ExpectedResponse, Mismatch, host_differs,
  path_differs, method_differs, namespace_differs, pod_differs, header_missing, header_differs,
  same, unless_differs, unless_found, has_prefix, join, with_lower, lowered, wrong_header,
  present_header, headers_differ, or_request, or_get, compare_ok, compare_request,
}

header_iff :
    (found : Option (List String)) (name expected : String) (later : Option Mismatch)
    → (elim found as (λ _. Option Mismatch) [
      | none ↦ some (header_missing name)
      | some values ↦ if not (join values ≐ expected) then some (header_differs name) else later
    ]
        ≡ none)
      ↔ (Carries expected found × (later ≡ none))
header_iff none name expected later = ((λ h. absurd (cc)), λ (c, l). absurd c)
header_iff (some actual) name expected later = ground arith

wrong_header_iff :
    (expected : Dict String String) (actual : List Header)
    → HaveDistinctNames actual
    → (wrong_header expected (with_lower actual actual) ≡ none) ↔ All (HasHeader actual) expected
unfolding wrong_header
wrong_header_iff [] actual d = ((λ _. tt), λ _. refl)
wrong_header_iff ((name, expected) ∷ rest) actual d =
    let all = with_lower actual actual in
    let here = header_iff (get (to_lower name) all) name expected (wrong_header rest all) in
    let carries = Carries-get_iff name expected actual d in
    let later = wrong_header_iff rest actual d in
    (
      (λ h. let (found, others) = here.0 h in (carries.0 found, later.0 others)),
      λ (found, others). here.1 (carries.1 found, later.1 others),
    )

-- The names of the captured headers differ in more than case.
abbrev pub AreDistinct : Option (Dict String (List String)) → Type 0
AreDistinct none = Unit
AreDistinct (some actual) = HaveDistinctNames actual

-- The headers that are expected are there. None are expected, or they are captured and each has its
-- value.
abbrev pub HaveHeaders : Option (Dict String String) → Option (Dict String (List String)) → Type 0
HaveHeaders none actual = Unit
HaveHeaders (some expected) none = ⊥
HaveHeaders (some expected) (some actual) = All (HasHeader actual) expected

headers_differ_iff :
    (expected : Option (Dict String String)) (actual : Option (Dict String (List String)))
    → AreDistinct actual
    → (headers_differ expected actual ≡ none) ↔ HaveHeaders expected actual
headers_differ_iff none actual d = ((λ _. tt), λ _. refl)
headers_differ_iff (some expected) none d = ((λ h. absurd (cc)), λ h. absurd h)
headers_differ_iff (some expected) (some actual) d = wrong_header_iff expected actual d

-- No header of the names is there.
abbrev pub AreAbsent : List String → Option (Dict String (List String)) → Type 0
AreAbsent names none = Unit
AreAbsent names (some actual) = All (IsAbsent actual) names

not_present_iff :
    (names : List String) (actual : List Header)
    → HaveDistinctNames actual
    → (present_header names (with_lower actual actual) ≡ none) ↔ All (IsAbsent actual) names
unfolding present_header
not_present_iff [] actual d = ground arith
not_present_iff (name ∷ rest) actual d =
    ground (arith, not_present_iff rest actual d, get-IsAbsent_iff name actual d)

present_header-nil : (names : List String) → present_header names [] ≡ none
unfolding present_header get
present_header-nil [] = refl
present_header-nil (name ∷ rest) = present_header-nil rest

present_header_iff :
    (names : List String) (actual : Option (Dict String (List String)))
    → AreDistinct actual
    → (present_header names (lowered actual) ≡ none) ↔ AreAbsent names actual
present_header_iff names none d = ((λ _. tt), λ _. present_header-nil names)
present_header_iff names (some actual) d = not_present_iff names actual d

-- A text begins with another one.
has_prefix_iff : (s p : String) → (has_prefix s p ≡ true) ↔ ((suffix : String) × (s ≡ p ⧺ suffix))
unfolding has_prefix
has_prefix_iff s String.[] = ((λ _. (s, sym (nil-append s))), λ _. refl)
has_prefix_iff String.[] (String.◌∷◌ d p) =
    ((λ h. absurd (cc)), λ (suffix, e). absurd (cc (e, cons-append d p suffix)))
has_prefix_iff (String.◌∷◌ c s) (String.◌∷◌ d p) =
    let ih = has_prefix_iff s p in
    (
      (λ h.
          let same_code : code c ≡ code d = ground (arith, h) in
          let (suffix, e) = ih.0 (ground (arith, h)) in
          (suffix, cc (Char-path c d same_code, cons-append d p suffix, e))),
      λ (suffix, e).
          let whole : String.◌∷◌ c s ≡ String.◌∷◌ d (p ⧺ suffix) = e ∙ cons-append d p suffix in
          let same_char : c ≡ d = cc in
          let rest : s ≡ p ⧺ suffix = cc in ground (arith, ap code same_char, ih.1 (suffix, rest)),
    )

-- The nine comparisons one after the other.
all_iff :
    (host path method namespace pod : Bool) (sent answered absent_sent absent : Option Mismatch)
    → (unless_differs host host_differs (
          unless_differs path path_differs (
            unless_differs method method_differs (
              unless_differs namespace namespace_differs (
                unless_found sent (
                  unless_found answered (
                    unless_found absent
                      (unless_found absent_sent (unless_differs pod pod_differs same))))))))
        ≡ same)
      ↔ ((host ≡ false)
          × (path ≡ false)
          × (method ≡ false)
          × (namespace ≡ false)
          × (sent ≡ none)
          × (answered ≡ none)
          × (absent ≡ none)
          × (absent_sent ≡ none)
          × (pod ≡ false))
all_iff host path method namespace pod sent answered absent_sent absent = ground arith

-- The request that arrived and the response are those that are expected.
pub record IsExpected (expected : ExpectedResponse) (e : ExpectedRequest)
    (request : CapturedRequest) (response : CapturedResponse) : Type 0 where
  pub host : (e.request.host ≡ "") ⊎ (e.request.host ≡ request.host)
  pub path : e.request.path ≡ request.path
  pub method :
      ((e.request.method ≡ "") × (request.method ≡ "GET"))
      ⊎ ((e.request.method ≢ "") × (request.method ≡ e.request.method))
  pub namespace : expected.namespace ≡ request.namespace
  pub sent : HaveHeaders e.request.headers request.headers
  pub answered : HaveHeaders expected.response.headers response.headers
  pub absent : AreAbsent expected.response.absent_headers response.headers
  pub absent_sent : AreAbsent e.absent_headers request.headers
  pub pod : (suffix : String) × (request.pod ≡ expected.backend ⧺ suffix)

-- The request that is expected to arrive is the one given, or else the one that is sent.
abbrev pub IsWanted : ExpectedResponse → ExpectedRequest → Type 0
IsWanted expected e =
    (expected.expected_request ≡ some e)
    ⊎ ((expected.expected_request ≡ none)
        × (e ≡ record { request = expected.request; absent_headers = [] }))

or_request-IsWanted :
    (expected : ExpectedResponse) (e : ExpectedRequest)
    → IsWanted expected e
    → or_request expected ≡ e
or_request-IsWanted expected e (inl given) = rw given refl
or_request-IsWanted expected e (inr (missing, sent)) = rw (missing, sent) refl

compare_ok_iff :
    (expected : ExpectedResponse) (e : ExpectedRequest) (request : CapturedRequest)
    (response : CapturedResponse)
    → AreDistinct request.headers
    → AreDistinct response.headers
    → (compare_ok expected e request response ≡ same) ↔ IsExpected expected e request response
unfolding compare_ok
compare_ok_iff expected e request response dq dr =
    let all =
      all_iff (not (e.request.host ≐ "") && not (e.request.host ≐ request.host))
        (not (e.request.path ≐ request.path)) (not (or_get e.request.method ≐ request.method))
        (not (expected.namespace ≐ request.namespace))
        (not (has_prefix request.pod expected.backend))
        (headers_differ e.request.headers request.headers)
        (headers_differ expected.response.headers response.headers)
        (present_header e.absent_headers (lowered request.headers))
        (present_header expected.response.absent_headers (lowered response.headers)) in
    let sent_iff = headers_differ_iff e.request.headers request.headers dq in
    let answered_iff = headers_differ_iff expected.response.headers response.headers dr in
    let absent_iff = present_header_iff expected.response.absent_headers response.headers dr in
    let absent_sent_iff = present_header_iff e.absent_headers request.headers dq in
    let pod_iff = has_prefix_iff request.pod expected.backend in
    (
      (λ h.
          let (host, path, method, namespace, sent, answered, absent, absent_sent, pod) = all.0 h in
          record {
            host = ground (arith, host);
            path = ground (arith, path);
            method = ground (arith, method);
            namespace = ground (arith, namespace);
            sent = sent_iff.0 sent;
            answered = answered_iff.0 answered;
            absent = absent_iff.0 absent;
            absent_sent = absent_sent_iff.0 absent_sent;
            pod = pod_iff.0 (ground (arith, pod));
          }),
      λ x. all.1 (
        ground (arith, IsExpected.host x),
        ground (arith, IsExpected.path x),
        ground (arith, IsExpected.method x),
        ground (arith, IsExpected.namespace x),
        sent_iff.1 (IsExpected.sent x),
        answered_iff.1 (IsExpected.answered x),
        absent_iff.1 (IsExpected.absent x),
        absent_sent_iff.1 (IsExpected.absent_sent x),
        rw (pod_iff.1 (IsExpected.pod x)) refl,
      ),
    )

-- Where a response with status 200 comes back, and the names of the headers of the captured request and
-- response differ in more than case, no difference is found exactly when that status is expected and
-- the request that arrived and the response are as expected: the host, unless none is given, the path,
-- the method, by default GET, the namespace, the values of all expected headers by names in any case,
-- no header, in any case, that must be absent, and a pod whose name begins with the backend's. The
-- request that is expected to arrive is the one that is sent, unless another one is given.
pub compare_request_same_iff :
    (scheme path : String) (request : CapturedRequest) (response : CapturedResponse)
    (expected : ExpectedResponse) (e : ExpectedRequest)
    → response.status_code ≡ 200
    → IsWanted expected e
    → AreDistinct request.headers
    → AreDistinct response.headers
    → ((compare_request scheme path request response expected).0 ≡ same)
      ↔ ((expected.response.status_code ≡ 200) × IsExpected expected e request response)
unfolding compare_request
compare_request_same_iff scheme path request response expected e ok wanted dq dr =
    ground (
      arith,
      or_request-IsWanted expected e wanted,
      compare_ok_iff expected e request response dq dr,
    )
