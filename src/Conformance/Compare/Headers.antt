-- ===== src/Conformance/Compare/Headers.antt =====
-- The headers that `CompareRequest` finds by a name in lower case.
use gateway_api.Prelude.{
  String, Option, none, some, List, [], ◌∷◌, ◌≡◌, ◌≢◌, ◌↔◌, refl, ◌∙◌, arith, string_key, ◌≐◌,
  if◌then◌else◌,
}
use gateway_api.Prelude.Dict.{Dict, get, set, get-set}
use gateway_api.Prelude.Lists.{All, Any}
use gateway_api.Prelude.Text.{to_lower, to_lower_idem}
use gateway_api.Conformance.Compare.{join, with_lower}

abbrev pub Header : Type 0
Header = String × List String

-- The names of the headers differ in more than case.
abbrev pub HaveDistinctNames : List Header → Type 0
HaveDistinctNames [] = Unit
HaveDistinctNames (e ∷ rest) =
    All (λ (other : Header). to_lower other.0 ≢ to_lower e.0) rest × HaveDistinctNames rest

-- The values of the first header of the name.
find_header : String → List Header → Option (List String)
find_header k [] = none
find_header k (e ∷ rest) =
    let later = find_header k rest in if to_lower e.0 ≐ k then some e.1 else later

find_header-none_iff :
    (k : String) (l : List Header)
    → (find_header k l ≡ none) ↔ All (λ (e : Header). to_lower e.0 ≢ k) l
unfolding find_header
find_header-none_iff k [] = ground arith
find_header-none_iff k (e ∷ rest) = ground (arith, find_header-none_iff k rest)

-- A value among the values of a name, or else another one.
abbrev or_else : Option (List String) → Option (List String) → Option (List String)
or_else none other = other
or_else (some v) other = some v

get-with_lower :
    (k : String) (l : List Header) (h : Dict String (List String))
    → HaveDistinctNames l
    → get k (with_lower l h) ≡ or_else (find_header k l) (get k h)
unfolding with_lower find_header
get-with_lower k [] h d = refl
get-with_lower k ((name, v) ∷ rest) h d =
    get-with_lower k rest (set (to_lower name) v h) d.1
    ∙ ground (
      arith,
      get-set (to_lower name) k v h,
      find_header-none_iff k rest,
      find_header-none_iff (to_lower name) rest,
    )

get_of_absent :
    (k : String) (h : List Header) → to_lower k ≡ k → find_header k h ≡ none → get k h ≡ none
unfolding find_header get
get_of_absent k [] low absent = refl
get_of_absent k ((name, v) ∷ rest) low absent = ground (arith, get_of_absent k rest low)

get-lowered :
    (name : String) (h : List Header)
    → HaveDistinctNames h
    → get (to_lower name) (with_lower h h) ≡ find_header (to_lower name) h
get-lowered name h d =
    get-with_lower (to_lower name) h h d ∙ or_else_absent (find_header (to_lower name) h) refl
  where
    or_else_absent :
        (found : Option (List String))
        → find_header (to_lower name) h ≡ found
        → or_else found (get (to_lower name) h) ≡ found
    or_else_absent none e = get_of_absent (to_lower name) h (to_lower_idem name) e
    or_else_absent (some v) e = refl

-- A header of the name has the values.
abbrev pub HasValues : String → String → List Header → Type 0
HasValues k expected = Any (λ (e : Header). (to_lower e.0 ≡ k) × (join e.1 ≡ expected))

-- The values that are found come to the expected text.
abbrev pub Carries : String → Option (List String) → Type 0
Carries expected none = ⊥
Carries expected (some values) = join values ≡ expected

HasValues-absent :
    (k expected : String) (l : List Header)
    → All (λ (e : Header). to_lower e.0 ≢ k) l
    → HasValues k expected l
    → ⊥
HasValues-absent k expected [] all m = m
HasValues-absent k expected (e ∷ rest) all m = ground (arith, HasValues-absent k expected rest)

Carries-find_header_iff :
    (k expected : String) (l : List Header)
    → HaveDistinctNames l
    → Carries expected (find_header k l) ↔ HasValues k expected l
unfolding find_header
Carries-find_header_iff k expected [] d = ground arith
Carries-find_header_iff k expected (e ∷ rest) d = ground (
  arith,
  Carries-find_header_iff k expected rest d.1,
  HasValues-absent (to_lower e.0) expected rest,
)

-- A header of the name, in any case, has the value.
abbrev pub HasHeader : List Header → String × String → Type 0
HasHeader actual (name, expected) = HasValues (to_lower name) expected actual

pub Carries-get_iff :
    (name expected : String) (h : List Header)
    → HaveDistinctNames h
    → Carries expected (get (to_lower name) (with_lower h h)) ↔ HasHeader h (name, expected)
Carries-get_iff name expected h d =
    rw (get-lowered name h d) (Carries-find_header_iff (to_lower name) expected h d)

-- No header has the name, in any case.
abbrev pub IsAbsent : List Header → String → Type 0
IsAbsent actual name = All (λ (e : Header). to_lower e.0 ≢ to_lower name) actual

pub get-IsAbsent_iff :
    (name : String) (h : List Header)
    → HaveDistinctNames h
    → (get (to_lower name) (with_lower h h) ≡ none) ↔ IsAbsent h name
get-IsAbsent_iff name h d = rw (get-lowered name h d) (find_header-none_iff (to_lower name) h)
