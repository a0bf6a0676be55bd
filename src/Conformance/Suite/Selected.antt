-- ===== src/Conformance/Suite/Selected.antt =====
-- The features that a new suite supports.
use mathlib.Core.Option.{map}
use gateway_api.Prelude.{
  true, ◌⊎◌, String, Bool, false, not, none, some, List, [], ◌∷◌, ◌≡◌, refl, ap, ◌∙◌, arith, ◌&&◌,
  ◌||◌, string_key, if◌then◌else◌, Option-cases, inl, inr,
}
use gateway_api.Prelude.Dict.{get}
use gateway_api.Prelude.Outcome.{Reply}
use gateway_api.Prelude.Sets.{NameSet, contains, insert, remove, contains-insert, contains-remove}
use gateway_api.Conformance.Features.{SupportedFeature}
use gateway_api.Conformance.Profiles.{ConformanceProfile, ConformanceProfileName, Profiles}
use gateway_api.Conformance.Suite.{
  Created, created, failed, panicked, ◌>>=◌, ConformanceOptions, ConformanceTestSuite, Annotations,
  or_empty, SharedSets, shared_after, after_sorting, checked_options, make_suite, opted_features,
  remove_all, insert_core, Extended, sort_extended, select_profiles, new_conformance_test_suite,
}

-- A created value comes from a created value of the first call.
created-cases :
    {A B : Type 0} (C : Type 0) (m : Created A) {next : A → Created B} {b : B}
    → (m >>= next) ≡ created b
    → ((a : A) → m ≡ created a → next a ≡ created b → C)
    → C
created-cases C (created a) h c = c a refl h
created-cases C (failed e) h c = absurd (cc)
created-cases C panicked h c = absurd (cc)

-- The feature is a core feature of one of the profiles.
abbrev pub in_core : Profiles → List ConformanceProfileName → SupportedFeature → Bool
in_core profiles [] f = false
in_core profiles (name ∷ rest) f =
    elim (get name profiles) [ none ↦ false | some profile ↦ contains f profile.core_features ]
    || in_core profiles rest f

contains-insert_core :
    (f : SupportedFeature) (l : List SupportedFeature) (s : NameSet)
    → contains f (insert_core l s) ≡ (contains f l || contains f s)
unfolding insert_core contains
contains-insert_core f [] s = refl
contains-insert_core f (x ∷ l) s = ground (
  arith,
  contains-insert_core f l (if not (contains x s) then insert x s else s),
  contains-insert x f s,
)

contains-remove_all :
    (f : SupportedFeature) (l : List String) (s : NameSet)
    → contains f (remove_all l s) ≡ (contains f s && not (contains f l))
unfolding remove_all contains
contains-remove_all f [] s = ground arith
contains-remove_all f (x ∷ l) s =
    ground (arith, contains-remove_all f l (remove x s), contains-remove x f s)

after_sorting-cases :
    (C : Type 0) (supported : NameSet) (m : Created Extended)
    {next : Extended → NameSet × Created Extended} {e : Extended}
    → (after_sorting supported m next).1 ≡ created e
    → ((a : Extended) → (next a).1 ≡ created e → after_sorting supported m next ≡ next a → C)
    → C
after_sorting-cases C supported (created a) h c = c a h refl
after_sorting-cases C supported (failed why) h c = absurd (cc)
after_sorting-cases C supported panicked h c = absurd (cc)

select_profiles-found :
    (profiles : Profiles) (exempt : NameSet) (name : ConformanceProfileName)
    (rest : List ConformanceProfileName) (supported : NameSet) (e : Extended)
    (profile : ConformanceProfile)
    → get name profiles ≡ some profile
    → select_profiles profiles exempt (name ∷ rest) supported e
      ≡ after_sorting
          (insert_core profile.core_features supported)
          (sort_extended exempt
            (insert_core profile.core_features supported)
            name
            profile.extended_features
            e)
          (select_profiles profiles exempt rest (insert_core profile.core_features supported))
unfolding select_profiles
select_profiles-found profiles exempt name rest supported e profile g = rw (g, select_profiles) refl

contains-select_profiles :
    (profiles : Profiles) (exempt : NameSet) (names : List ConformanceProfileName)
    (supported : NameSet) (e : Extended) (f : SupportedFeature) (result : Extended)
    → (select_profiles profiles exempt names supported e).1 ≡ created result
    → contains f (select_profiles profiles exempt names supported e).0
      ≡ (in_core profiles names f || contains f supported)
unfolding select_profiles
contains-select_profiles profiles exempt [] supported e f result h = refl
contains-select_profiles profiles exempt (name ∷ rest) supported e f result h =
    elim (Option-cases (get name profiles)) [
      | inl g ↦ absurd (cc (rw (g, select_profiles) at h))
      | inr (profile, g) ↦
          let with_core = insert_core profile.core_features supported in
          after_sorting-cases _ with_core
            (sort_extended exempt with_core name profile.extended_features e)
            (rw (g, select_profiles) at h)
            (λ sorted h1 same.
              let ih = contains-select_profiles profiles exempt rest with_core sorted f result h1 in
              let core = contains-insert_core f profile.core_features supported in
              ap (λ (r : NameSet × Created Extended). contains f r.0)
                (select_profiles-found profiles exempt name rest supported e profile g ∙ same)
              ∙ rw g (ground (arith, ih, core)))
    ]

-- The features that a suite asks for by its options, when nothing is exempt.
abbrev pub is_opted : NameSet → ConformanceOptions → SupportedFeature → Bool
is_opted all options f =
    if options.enable_all_supported_features
    then contains f all
    else contains f (or_empty options.supported_features)

-- The set of the suite is the global one, or the one of the options if one was given.
abbrev pub IsShared : NameSet → ConformanceOptions → ConformanceTestSuite → SharedSets → Type 0
IsShared all options suite sets =
    ((options.enable_all_supported_features ≡ true)
      × (sets.global ≡ suite.supported_features)
      × (sets.given ≡ options.supported_features))
    ⊎ ((options.enable_all_supported_features ≡ false)
        × (sets.global ≡ all)
        × (sets.given ≡ map (λ _. suite.supported_features) options.supported_features))

shared_after-IsShared :
    (all : NameSet) (options : ConformanceOptions) (suite : ConformanceTestSuite)
    → IsShared all options suite (shared_after all options suite.supported_features)
unfolding shared_after
shared_after-IsShared all options suite = ground arith

module _ (profiles : Profiles) (options : ConformanceOptions) (all : NameSet)
    (suite : ConformanceTestSuite) (f : SupportedFeature) where
  abbrev Supports : Created ConformanceTestSuite × SharedSets → Type 0
  Supports made =
      (contains f suite.supported_features ≡ (
        in_core profiles options.conformance_profiles f
        || (is_opted all options f && not (contains f options.exempt_features))))
      × IsShared all options suite made.1

  make_suite-Supports :
      (m : Created (String × String))
      → (make_suite profiles options all m).0 ≡ created suite
      → Supports (make_suite profiles options all m)
  unfolding make_suite opted_features
  make_suite-Supports (failed why) h = absurd (cc)
  make_suite-Supports panicked h = absurd (cc)
  make_suite-Supports (created found) h =
      let opted = remove_all options.exempt_features (opted_features all options) in
      let none_yet : Extended = record { supported = []; unsupported = [] } in
      let selected =
        select_profiles profiles options.exempt_features options.conformance_profiles opted
          none_yet in
      created-cases _ selected.1 h (λ extended hs h1.
        let picked =
          contains-select_profiles profiles options.exempt_features options.conformance_profiles
            opted none_yet f extended hs in
        let removed = contains-remove_all f options.exempt_features (opted_features all options) in
        let same : selected.0 ≡ suite.supported_features = cc in
        (rw (← same) (ground arith), rw same (shared_after-IsShared all options suite)))

-- A suite that `new_conformance_test_suite` creates supports a feature, when it is created, exactly if
-- it is a core feature of one of the profiles asked for, or if it is not exempt and opted into: in the
-- global set of all features, as it is when the call begins, where all features are enabled, else in
-- the set that the options give. Where that set is another one than the global set, the set of the
-- suite is the global set itself if all features are enabled, which then has the features of the suite,
-- while it stays as it was otherwise, and the set given, if there is one, has them.
pub new_conformance_test_suite-supports :
    (profiles : Profiles) (options : ConformanceOptions) (all : NameSet)
    (answer : Reply (List Annotations)) (suite : ConformanceTestSuite) (f : SupportedFeature)
    → (new_conformance_test_suite profiles options all answer).0 ≡ created suite
    → (contains f suite.supported_features ≡ (
        in_core profiles options.conformance_profiles f
        || (is_opted all options f && not (contains f options.exempt_features))))
      × IsShared all options suite (new_conformance_test_suite profiles options all answer).1
unfolding new_conformance_test_suite
new_conformance_test_suite-supports profiles options all answer suite f h =
    make_suite-Supports profiles options all suite f (checked_options options answer) h
