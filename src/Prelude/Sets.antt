-- ===== src/Prelude/Sets.antt =====
-- `sets.Set[string]` of k8s.io/apimachinery as a list in which a name stands once. The list's order
-- is that of `UnsortedList`, which may be any.
use mathlib.Core.Path.{◌≡◌, refl}
use mathlib.Core.Logic.{◌↔◌}
use mathlib.Core.Bool.{Bool, true, false, ◌||◌, ◌&&◌}
use mathlib.Core.List.{List, [], ◌∷◌}
use native.Mathlib.Omega.{arith}
use Prim.Native.String.{String}
use gateway_api.Prelude.Tests.{if◌then◌else◌, ◌≐◌, string_key}
use gateway_api.Prelude.Lists.{In}

abbrev pub NameSet : Type 0
NameSet = List String

-- `s.Has(x)`
unfoldable pub contains : String → NameSet → Bool
contains x [] = false
contains x (y ∷ s) = y ≐ x || contains x s

-- `s.Insert(x)`
unfoldable pub insert : String → NameSet → NameSet
unfolding contains
insert x s = if contains x s then s else x ∷ s

-- `s.Insert(l...)`
unfoldable pub insert_all : List String → NameSet → NameSet
unfolding insert
insert_all [] s = s
insert_all (x ∷ l) s = insert_all l (insert x s)

-- `s.Delete(x)`
unfoldable pub remove : String → NameSet → NameSet
remove x [] = []
remove x (y ∷ s) = let rest = remove x s in if y ≐ x then rest else y ∷ rest

-- `s.HasAll(l...)`
unfoldable pub contains_all : List String → NameSet → Bool
unfolding contains
contains_all [] s = true
contains_all (x ∷ l) s = contains x s && contains_all l s

pub contains_iff : (x : String) (s : NameSet) → (contains x s ≡ true) ↔ In x s
unfolding contains
contains_iff x [] = ground arith
contains_iff x (y ∷ s) = ground (arith, contains_iff x s)

pub contains-insert :
    (x y : String) (s : NameSet) → contains y (insert x s) ≡ (x ≐ y || contains y s)
unfolding insert contains
contains-insert x y s = ground arith

pub contains-insert_all :
    (y : String) (l : List String) (s : NameSet)
    → contains y (insert_all l s) ≡ (contains y l || contains y s)
unfolding insert_all contains
contains-insert_all y [] s = refl
contains-insert_all y (x ∷ l) s =
    ground (arith, contains-insert_all y l (insert x s), contains-insert x y s)

pub contains-remove :
    (x y : String) (s : NameSet) → contains y (remove x s) ≡ (if x ≐ y then false else contains y s)
unfolding remove contains
contains-remove x y [] = ground arith
contains-remove x y (z ∷ s) = ground (arith, contains-remove x y s)
