-- ===== src/Conformance/Flags/Parsed.antt =====
-- The parsers of flags read back what is joined with commas.
use Prim.Native.Char.{code}
use text.Mathlib.TextLemmas.{nil-append, cons-append}
use gateway_api.Prelude.{
  ℕ, String, ◌⧺◌, false, none, some, List, [], ◌∷◌, ◌≡◌, ◌≢◌, refl, ap, ◌∙◌, arith, ◌≐◌, string_key,
  eqb, if◌then◌else◌,
}
use gateway_api.Prelude.Lists.{All}
use gateway_api.Prelude.Sets.{insert_all}
use gateway_api.Conformance.Compare.{join}
use gateway_api.Conformance.Flags.{
  comma, split, parse_skip_tests, parse_supported_features, parse_conformance_profiles,
}

abbrev pub HasNone : ℕ → String → Type 0
HasNone separator String.[] = Unit
HasNone separator (String.◌∷◌ c s) = (eqb (code c) separator ≡ false) × HasNone separator s

split-one : (separator : ℕ) (s : String) → HasNone separator s → split separator s ≡ s ∷ []
unfolding split
split-one separator String.[] none_in = refl
split-one separator (String.◌∷◌ c s) (other, none_in) =
    ground (arith, other, split-one separator s none_in)

split-first :
    (s rest : String) → HasNone comma s → split comma (s ⧺ ("," ⧺ rest)) ≡ s ∷ split comma rest
unfolding split
split-first String.[] rest none_in =
    ap (split comma) (nil-append ("," ⧺ rest) ∙ cons-append _ "" rest)
    ∙ ap (λ s. "" ∷ split comma s) (nil-append rest)
split-first (String.◌∷◌ c s) rest (other, none_in) =
    ap (split comma) (cons-append c s ("," ⧺ rest))
    ∙ ground (arith, other, split-first s rest none_in)

split-join :
    (name : String) (names : List String)
    → All (HasNone comma) (name ∷ names)
    → split comma (join (name ∷ names)) ≡ name ∷ names
unfolding join
split-join name [] all = split-one comma name all.0
split-join name (next ∷ names) all =
    split-first name (join (next ∷ names)) all.0 ∙ ap (λ l. name ∷ l) (split-join next names all.1)

-- A list of names without commas that is joined with commas is read back by the parsers of flags,
-- unless the joined text is empty: by `ParseSkipTests` as the list, and by `ParseSupportedFeatures`
-- and `ParseConformanceProfiles` as the set of its names.
pub parse-join :
    (name : String) (names : List String)
    → All (HasNone comma) (name ∷ names)
    → join (name ∷ names) ≢ ""
    → (parse_skip_tests (join (name ∷ names)) ≡ name ∷ names)
      × (parse_supported_features (join (name ∷ names)) ≡ some (insert_all (name ∷ names) []))
      × (parse_conformance_profiles (join (name ∷ names)) ≡ insert_all (name ∷ names) [])
unfolding parse_skip_tests parse_supported_features parse_conformance_profiles
parse-join name names all some_text =
    let read = split-join name names all in
    (
      ground (arith, read),
      if_text (λ l. some (insert_all l [])) none,
      if_text (λ l. insert_all l []) [],
    )
  where
    if_text :
        {A : Type 0} (f : List String → A) (empty : A)
        → (if join (name ∷ names) ≐ "" then empty else f (split comma (join (name ∷ names))))
          ≡ f (name ∷ names)
    if_text f empty = rw (split-join name names all) (ground arith)
