-- ===== src/Prelude/Tests.antt =====
-- The conditional, case splits that keep their equation, and keys that can be compared.
use Prim.Native.Nat.{ℕ, compare, Ordering}
use Prim.Native.String.{String}
use mathlib.Core.Path.{◌≡◌, refl}
use mathlib.Core.Logic.{◌⊎◌, inl, inr}
use mathlib.Core.Bool.{Bool, true, false}
use mathlib.Core.Option.{Option, none, some}
use mathlib.Core.List.{List, [], ◌∷◌}
use text.Mathlib.Text.{◌==◌ as str_eq}
use text.Mathlib.TextEquality.{eq_iff}

abbrev pub ltb : ℕ → ℕ → Bool
ltb a b = elim (compare a b) [ Ordering.lt ↦ true | _ ↦ false ]

abbrev pub eqb : ℕ → ℕ → Bool
eqb a b = elim (compare a b) [ Ordering.eq ↦ true | _ ↦ false ]

infix 1 if◌then◌else◌
abbrev pub if◌then◌else◌ {ℓ} : {A : Type ℓ} → Bool → A → A → A
if true then x else y = x
if false then x else y = y

pub Bool-cases : (b : Bool) → (b ≡ true) ⊎ (b ≡ false)
Bool-cases true = inl refl
Bool-cases false = inr refl

pub Option-cases {ℓ} : {A : Type ℓ} (o : Option A) → (o ≡ none) ⊎ ((a : A) × (o ≡ some a))
Option-cases none = inl refl
Option-cases (some a) = inr (a, refl)

-- An equation of a conditional, by its test.
pub if-elim {ℓ κ} :
    {A : Type ℓ} {C : Type κ} (b : Bool) {x y r : A}
    → (if b then x else y) ≡ r
    → (b ≡ true → x ≡ r → C)
    → (b ≡ false → y ≡ r → C)
    → C
if-elim true e yes_case no_case = yes_case refl e
if-elim false e yes_case no_case = no_case refl e

abbrev pub all {ℓ} : {A : Type ℓ} → (A → Bool) → List A → Bool
all p [] = true
all p (x ∷ xs) = if p x then all p xs else false

-- Types whose values serve as the keys of a Go map: they can be compared.
pub record Key {ℓ} (K : Type ℓ) : Type ℓ where
  pub dec : Discrete K

unfoldable pub dec_of_test : (s t : String) (b : Bool) → str_eq s t ≡ b → Dec (s ≡ t)
dec_of_test s t true h = yes ((eq_iff s t).0 h)
dec_of_test s t false h = no (λ e. cc (h, (eq_iff s t).1 e))

unfoldable pub String-discrete : Discrete String
unfolding dec_of_test
String-discrete s t = dec_of_test s t (str_eq s t) refl

instance abbrev pub string_key : Key String
string_key = record { dec = String-discrete }

-- `a == b`
infix 50 ◌≐◌
abbrev pub ◌≐◌ {ℓ} : {K : Type ℓ} ⦃key : Key K⦄ → K → K → Bool
◌≐◌ ⦃key⦄ a b = elim (key.dec a b) [ yes _ ↦ true | no _ ↦ false ]
