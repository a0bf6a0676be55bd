-- ===== src/Prelude/Lists.antt =====
-- "Some element" and "every element" of a list, by recursion, so that they compute to sums and
-- products.
use mathlib.Core.Path.{◌≡◌}
use mathlib.Core.Logic.{◌↔◌, ◌⊎◌, inl, inr}
use mathlib.Core.List.{List, [], ◌∷◌, ◌++◌, map}
use native.Mathlib.Omega.{arith}

module _ {A : Type 0} (P : A → Type 0) where
  abbrev pub All : List A → Type 0
  All [] = Unit
  All (x ∷ xs) = P x × All xs

  abbrev pub Any : List A → Type 0
  Any [] = ⊥
  Any (x ∷ xs) = P x ⊎ Any xs

  pub Any-append : (xs ys : List A) → Any (xs ++ ys) ↔ (Any xs ⊎ Any ys)
  Any-append [] ys = ground arith
  Any-append (x ∷ xs) ys = ground (arith, Any-append xs ys)

-- `x` stands in the list.
abbrev pub In : {A : Type 0} → A → List A → Type 0
In x = Any (λ y. y ≡ x)

module _ {A B : Type 0} (f : A → B) (P : B → Type 0) where
  pub Any-map : (xs : List A) → Any P (map f xs) ↔ Any (λ x. P (f x)) xs
  Any-map [] = ground arith
  Any-map (x ∷ xs) = ground (arith, Any-map xs)

-- An element of the list is a witness for "some element".
pub Any-of_In : {A : Type 0} (P : A → Type 0) (x : A) (xs : List A) → In x xs → P x → Any P xs
Any-of_In P x [] m p = elim m [ ]
Any-of_In P x (y ∷ ys) (inl e) p = inl (rw e p)
Any-of_In P x (y ∷ ys) (inr m) p = inr (Any-of_In P x ys m p)
