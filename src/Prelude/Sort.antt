-- ===== src/Prelude/Sort.antt =====
-- `sort.Slice` by a string that each element has. Elements with one key keep no order there; the
-- order that they have here is one of the possible ones.
use mathlib.Core.Path.{◌≡◌, refl, ◌∙◌}
use mathlib.Core.Logic.{◌≢◌, inl, inr}
use mathlib.Core.Bool.{false}
use mathlib.Core.List.{List, [], ◌∷◌, Perm, Permᴰ, Nodup, map, Nodup-cons, mem-cons_self}
use mathlib.Core.List.Perm
use native.Mathlib.Omega.{arith}
use Prim.Native.String.{String}
use gateway_api.Prelude.Tests.{if◌then◌else◌, Bool-cases}
use gateway_api.Prelude.Text.{str_lt, str_lt_asymm, str_lt_total, str_le_trans}

module _ {ℓ} {A : Type ℓ} (key : A → String) where
  insert_by : A → List A → List A
  insert_by x [] = x ∷ []
  insert_by x (y ∷ ys) = if str_lt (key y) (key x) then y ∷ insert_by x ys else x ∷ y ∷ ys

  unfoldable pub sort_by : List A → List A
  unfolding insert_by
  sort_by [] = []
  sort_by (x ∷ xs) = insert_by x (sort_by xs)

  insert_by-perm : (x : A) (ys : List A) → Perm (insert_by x ys) (x ∷ ys)
  unfolding insert_by
  insert_by-perm x [] = Perm.refl (x ∷ [])
  insert_by-perm x (y ∷ ys) = elim (Bool-cases (str_lt (key y) (key x))) [
    | inl e ↦ rw e (Perm.trans (Perm.cons y (insert_by-perm x ys)) (Perm.swap x y ys))
    | inr e ↦ rw e (Perm.refl _)
  ]

  pub sort_by-perm : (xs : List A) → Perm (sort_by xs) xs
  unfolding sort_by
  sort_by-perm [] = Perm.refl []
  sort_by-perm (x ∷ xs) = Perm.trans (insert_by-perm x (sort_by xs)) (Perm.cons x (sort_by-perm xs))

  -- No element stands before one with a smaller key.
  abbrev pub IsLeast : A → List A → Type 0
  IsLeast x [] = Unit
  IsLeast x (y ∷ ys) = (str_lt (key y) (key x) ≡ false) × IsLeast x ys

  abbrev pub IsSorted : List A → Type 0
  IsSorted [] = Unit
  IsSorted (x ∷ xs) = IsLeast x xs × IsSorted xs

  IsLeast-trans :
      (x y : A) (ys : List A) → str_lt (key y) (key x) ≡ false → IsLeast y ys → IsLeast x ys
  IsLeast-trans x y [] h l = tt
  IsLeast-trans x y (z ∷ zs) h l =
      (str_le_trans (key x) (key y) (key z) h l.0, IsLeast-trans x y zs h l.1)

  IsLeast-insert_by :
      (x y : A) (ys : List A)
      → str_lt (key x) (key y) ≡ false
      → IsLeast y ys
      → IsLeast y (insert_by x ys)
  unfolding insert_by
  IsLeast-insert_by x y [] h l = (h, tt)
  IsLeast-insert_by x y (z ∷ zs) h l = elim (Bool-cases (str_lt (key z) (key x))) [
    | inl e ↦ rw e (l.0, IsLeast-insert_by x y zs h l.1)
    | inr e ↦ rw e (h, l)
  ]

  insert_by-IsSorted : (x : A) (ys : List A) → IsSorted ys → IsSorted (insert_by x ys)
  unfolding insert_by
  insert_by-IsSorted x [] s = (tt, tt)
  insert_by-IsSorted x (y ∷ ys) s = elim (Bool-cases (str_lt (key y) (key x))) [
    | inl e ↦
        rw e (
          IsLeast-insert_by x y ys (str_lt_asymm (key y) (key x) e) s.0,
          insert_by-IsSorted x ys s.1,
        )
    | inr e ↦ rw e ((e, IsLeast-trans x y ys e s.0), s)
  ]

  pub sort_by-IsSorted : (xs : List A) → IsSorted (sort_by xs)
  unfolding sort_by
  sort_by-IsSorted [] = tt
  sort_by-IsSorted (x ∷ xs) = insert_by-IsSorted x (sort_by xs) (sort_by-IsSorted xs)

  -- Two elements with different keys may be inserted in either order.
  insert_by_comm :
      (x y : A) (l : List A)
      → key x ≢ key y
      → insert_by x (insert_by y l) ≡ insert_by y (insert_by x l)
  unfolding insert_by
  insert_by_comm x y [] n =
      ground (arith, str_lt_asymm (key x) (key y), str_lt_total (key x) (key y))
  insert_by_comm x y (z ∷ l) n = ground (
    arith,
    insert_by_comm x y l n,
    str_lt_asymm (key x) (key y),
    str_lt_total (key x) (key y),
    str_lt_asymm (key z) (key x),
    str_lt_asymm (key z) (key y),
    str_le_trans (key x) (key z) (key y),
    str_le_trans (key y) (key z) (key x),
  )

  -- No two elements have one key.
  abbrev pub DistinctKeys : List A → Type 0
  DistinctKeys xs = Nodup (map key xs)

  head_distinct : (x y : A) (l : List A) → DistinctKeys (x ∷ y ∷ l) → key x ≢ key y
  head_distinct x y l d e = (Nodup-cons.0 d).0 (rw e mem-cons_self)

  -- Sorting forgets the order of the elements, where no two of them have one key.
  pub sort_by-eq_of_Permᴰ :
      {xs ys : List A} → Permᴰ xs ys → DistinctKeys xs → sort_by xs ≡ sort_by ys
  unfolding sort_by
  sort_by-eq_of_Permᴰ Permᴰ.nil d = refl
  sort_by-eq_of_Permᴰ (Permᴰ.cons e p) d = cc (e, sort_by-eq_of_Permᴰ p (Nodup-cons.0 d).1)
  sort_by-eq_of_Permᴰ (Permᴰ.swap {a = a} {b = b} {l = l} e f) d =
      insert_by_comm a b (sort_by l) (head_distinct a b l d) ∙ cc (e, f)
  sort_by-eq_of_Permᴰ (Permᴰ.trans p q) d =
      sort_by-eq_of_Permᴰ p d ∙ sort_by-eq_of_Permᴰ q (Perm.nodup (Perm.map key ∣ p ∣₁) d)
