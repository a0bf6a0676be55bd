-- ===== src/Prelude/Dict.antt =====
-- Go maps as association lists. The order of the entries is the order in which a `range` loop
-- meets them, so a theorem for every list of entries is a theorem for every iteration order.
use mathlib.Core.Path.{◌≡◌, refl}
use mathlib.Core.Logic.{◌≢◌, ite}
use mathlib.Core.Bool.{Bool, true, false}
use mathlib.Core.Option.{Option, none, some}
use mathlib.Core.List.{List, [], ◌∷◌, map}
use native.Mathlib.Omega.{arith}
use gateway_api.Prelude.Tests.{Key, if◌then◌else◌}

abbrev pub Dict {ℓ} : Type ℓ → Type ℓ → Type ℓ
Dict K V = List (K × V)

module _ {ℓ} {K V : Type ℓ} ⦃key : Key K⦄ where
  -- `v, ok := m[k]`
  unfoldable pub get : K → Dict K V → Option V
  get k [] = none
  get k ((j, v) ∷ m) = ite (key.dec j k) (some v) (get k m)

  -- `m[k] = v`
  unfoldable pub set : K → V → Dict K V → Dict K V
  set k v [] = (k, v) ∷ []
  set k v ((j, w) ∷ m) = ite (key.dec j k) ((k, v) ∷ m) ((j, w) ∷ set k v m)

  -- Every key stands once.
  abbrev pub Distinct : Dict K V → Type ℓ
  Distinct [] = Unit
  Distinct ((k, v) ∷ m) = (get k m ≡ none) × Distinct m

  pub get-set :
      (k j : K) (v : V) (m : Dict K V) → get j (set k v m) ≡ ite (key.dec k j) (some v) (get j m)
  unfolding get set
  get-set k j v [] = refl
  get-set k j v ((i, w) ∷ m) = ground (arith, get-set k j v m)

  pub get-set_self : (k : K) (v : V) (m : Dict K V) → get k (set k v m) ≡ some v
  get-set_self k v m = ground (arith, get-set k k v m)

  pub get-set_ne : (k j : K) (v : V) (m : Dict K V) → k ≢ j → get j (set k v m) ≡ get j m
  get-set_ne k j v m h = ground (arith, get-set k j v m)

  pub get-cons_self :
      (i id : K) (v : V) (rest : Dict K V) → i ≡ id → get id ((i, v) ∷ rest) ≡ some v
  unfolding get
  get-cons_self i id v rest e = ground arith

  pub get-cons_ne :
      (i id : K) (v : V) (rest : Dict K V) → i ≢ id → get id ((i, v) ∷ rest) ≡ get id rest
  unfolding get
  get-cons_ne i id v rest n = ground arith

  pub set-Distinct : (k : K) (v : V) (m : Dict K V) → Distinct m → Distinct (set k v m)
  unfolding get set
  set-Distinct k v [] h = ground arith
  set-Distinct k v ((i, w) ∷ m) h = ground (arith, set-Distinct k v m h.1, get-set k i v m)

  -- `_, ok := m[k]`
  abbrev pub has : K → Dict K V → Bool
  has k m = elim (get k m) [ none ↦ false | some _ ↦ true ]

  -- `if _, ok := m[k]; !ok { m[k] = v }`
  unfoldable pub set_if_missing : K → V → Dict K V → Dict K V
  set_if_missing k v m = if has k m then m else set k v m

  -- `for _, v := range m { … append(result, v) }`
  abbrev pub values : Dict K V → List V
  values = map (λ (e : K × V). e.1)
