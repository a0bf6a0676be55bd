-- ===== src/Conformance/Flags.antt =====
-- conformance/utils/suite/conformance.go and suite.go: the parsers of flags.
pub mod Parsed
use Prim.Native.Char.{Char, code}
use gateway_api.Prelude.{
  ℕ, String, Option, none, some, List, [], ◌∷◌, ◌≐◌, string_key, eqb, if◌then◌else◌,
}
use gateway_api.Prelude.Dict.{Dict, set}
use gateway_api.Prelude.Sets.{NameSet, insert_all}

-- `strings.Split` at a separator of one character, by its code.
abbrev pub prepend : Char → List String → List String
prepend c [] = String.◌∷◌ c "" ∷ []
prepend c (word ∷ rest) = String.◌∷◌ c word ∷ rest

unfoldable pub split : ℕ → String → List String
split separator String.[] = "" ∷ []
split separator (String.◌∷◌ c s) =
    let rest = split separator s in if eqb (code c) separator then "" ∷ rest else prepend c rest

abbrev pub comma : ℕ
comma = 44

abbrev pub equals_sign : ℕ
equals_sign = 61

-- `ParseSkipTests`: nil is the empty list.
unfoldable pub parse_skip_tests : String → List String
unfolding split
parse_skip_tests t = if t ≐ "" then [] else split comma t

-- `ParseSupportedFeatures`: nil is `none`.
unfoldable pub parse_supported_features : String → Option NameSet
unfolding split insert_all
parse_supported_features f = if f ≐ "" then none else some (insert_all (split comma f) [])

-- `ParseConformanceProfiles`
unfoldable pub parse_conformance_profiles : String → NameSet
unfolding split insert_all
parse_conformance_profiles p = if p ≐ "" then [] else insert_all (split comma p) []

-- `ParseKeyValuePairs`: a part that has not one "=" is left out.
abbrev pub add_pair : List String → Dict String String → Dict String String
add_pair (key ∷ v ∷ []) pairs = set key v pairs
add_pair _ pairs = pairs

unfoldable pub add_pairs : List String → Dict String String → Dict String String
unfolding split
add_pairs [] pairs = pairs
add_pairs (kv ∷ rest) pairs = add_pairs rest (add_pair (split equals_sign kv) pairs)

unfoldable pub parse_key_value_pairs : String → Option (Dict String String)
unfolding split add_pairs
parse_key_value_pairs f = if f ≐ "" then none else some (add_pairs (split comma f) [])
