-- ===== src/Prelude/Text.antt =====
-- `strings.ToLower` on ASCII letters, which are the letters of Kubernetes groups and kinds, and
-- the order of Go strings.
use Prim.Native.Nat.{ℕ, ◌+◌, ◌≤◌, Ordering, compare as compare_ℕ}
use Prim.Native.Char.{Char, char, code, IsScalar}
use Prim.Native.String.compare
use Prim.Native.String.{String, compare, then}
use mathlib.Core.Path.{◌≡◌, refl}
use mathlib.Core.Logic.{◌≢◌, dite}
use mathlib.Core.Bool.{Bool, true, false}
use native.Mathlib.Decide.{dec_le}
use native.Mathlib.Omega.{arith}
use text.Mathlib.TextEquality.{path_by_compare}
use text.Mathlib.TextPositions.{compare_refl}

-- `a < b` on strings
unfoldable pub str_lt : String → String → Bool
str_lt a b = elim (compare a b) [ Ordering.lt ↦ true | _ ↦ false ]

abbrev flip : Ordering → Ordering
flip Ordering.lt = Ordering.gt
flip Ordering.eq = Ordering.eq
flip Ordering.gt = Ordering.lt

flip-compare_ℕ : (a b : ℕ) → compare_ℕ b a ≡ flip (compare_ℕ a b)
flip-compare_ℕ a b = ground arith

flip-then : (o p : Ordering) → then (flip o) (flip p) ≡ flip (then o p)
flip-then Ordering.lt p = refl
flip-then Ordering.eq p = refl
flip-then Ordering.gt p = refl

flip-compare : (s t : String) → compare t s ≡ flip (compare s t)
flip-compare String.[] String.[] = refl
flip-compare String.[] (String.◌∷◌ d t) = cc (compare.nil-cons d t, compare.cons-nil d t)
flip-compare (String.◌∷◌ c s) String.[] = cc (compare.nil-cons c s, compare.cons-nil c s)
flip-compare (String.◌∷◌ c s) (String.◌∷◌ d t) =
    rw
      (
        compare.cons-cons c d s t,
        compare.cons-cons d c t s,
        flip-compare_ℕ (code c) (code d),
        flip-compare s t,
      )
      (flip-then (compare_ℕ (code c) (code d)) (compare s t))

compare_trans :
    (s t u : String)
    → compare s t ≡ Ordering.lt
    → compare t u ≡ Ordering.lt
    → compare s u ≡ Ordering.lt
compare_trans s String.[] String.[] h k = cc
compare_trans String.[] String.[] (String.◌∷◌ e u) h k = cc
compare_trans (String.◌∷◌ c s) String.[] u h k = cc (compare.cons-nil c s)
compare_trans s (String.◌∷◌ d t) String.[] h k = cc (compare.cons-nil d t)
compare_trans String.[] (String.◌∷◌ d t) (String.◌∷◌ e u) h k = compare.nil-cons e u
compare_trans (String.◌∷◌ c s) (String.◌∷◌ d t) (String.◌∷◌ e u) h k = ground (
  arith,
  compare.cons-cons c d s t,
  compare.cons-cons d e t u,
  compare.cons-cons c e s u,
  compare_trans s t u,
)

-- The order of strings is a strict linear order.
pub str_lt_irrefl : (s : String) → str_lt s s ≡ false
unfolding str_lt
str_lt_irrefl s = ground (arith, compare_refl s)

pub str_lt_asymm : (s t : String) → str_lt s t ≡ true → str_lt t s ≡ false
unfolding str_lt
str_lt_asymm s t h = ground (arith, flip-compare s t)

pub str_lt_trans : (s t u : String) → str_lt s t ≡ true → str_lt t u ≡ true → str_lt s u ≡ true
unfolding str_lt
str_lt_trans s t u h k = ground (arith, compare_trans s t u)

pub str_lt_total : (s t : String) → s ≢ t → str_lt s t ≡ false → str_lt t s ≡ true
unfolding str_lt
str_lt_total s t n h = ground (arith, flip-compare s t, path_by_compare s t)

-- The same for "not greater".
pub str_le_trans : (s t u : String) → str_lt t s ≡ false → str_lt u t ≡ false → str_lt u s ≡ false
unfolding str_lt
str_le_trans s t u h k = ground (
  arith,
  flip-compare s t,
  flip-compare t u,
  flip-compare s u,
  path_by_compare s t,
  path_by_compare t u,
  compare_trans s t u,
  compare_refl s,
)

lower_scalar : (n : ℕ) → n ≤ 90 → IsScalar (n + 32)
lower_scalar n h = let below : compare_ℕ (n + 32) 55296 ≡ Ordering.lt = ground arith in rw below tt

lower : Char → Char
lower c =
    dite (dec_le 65 (code c))
      (λ _. dite (dec_le (code c) 90) (λ h. char (code c + 32) (lower_scalar (code c) h)) (λ _. c))
      (λ _. c)

-- `strings.ToLower`
unfoldable pub to_lower : String → String
unfolding lower dec_le lower_scalar
to_lower String.[] = String.[]
to_lower (String.◌∷◌ c s) = String.◌∷◌ (lower c) (to_lower s)

lower_fixed : (c : Char) → ((65 ≤ code c) → (code c ≤ 90) → ⊥) → lower c ≡ c
unfolding lower
lower_fixed c h = elim (dec_le 65 (code c)) [
  | yes p ↦ elim (dec_le (code c) 90) [ yes q ↦ absurd (h p q) | no q ↦ ground arith ]
  | no p ↦ ground arith
]

lower_not_upper : (c : Char) → (65 ≤ code (lower c)) → (code (lower c) ≤ 90) → ⊥
unfolding lower
lower_not_upper c h k = ground arith

lower_idem : (c : Char) → lower (lower c) ≡ lower c
lower_idem c = lower_fixed (lower c) (lower_not_upper c)

pub to_lower_idem : (s : String) → to_lower (to_lower s) ≡ to_lower s
unfolding to_lower
to_lower_idem String.[] = refl
to_lower_idem (String.◌∷◌ c s) = cc (lower_idem c, to_lower_idem s)

lower_text : to_lower "Gateway" ≡ "gateway"
unfolding to_lower
lower_text = refl
