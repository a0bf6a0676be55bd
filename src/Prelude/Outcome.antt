-- ===== src/Prelude/Outcome.antt =====
-- What a Go call can come to: a value, an error, or a panic (a nil pointer is followed).
use mathlib.Core.Path.{◌≡◌, refl}
use mathlib.Core.Logic.{◌⊎◌, inl, inr}
use Prim.Native.String.{String}

pub data Failure : Type 0 where
  -- `fmt.Errorf("cannot merge policies of different kind; …", …)`
  different_kind : String → String → Failure
  -- `fmt.Errorf("failed to convert unstructured policy resource to structured: …")`
  not_structured : Failure
  -- `fmt.Errorf("unable to find CRD corresponding to policy object")`
  no_crd : Failure
  -- `fmt.Errorf("spec.default and spec.override must be non-scalar")`
  scalar_spec : Failure
  -- `fmt.Errorf("failed to list CRDs: …")`
  crds_not_listed : String → Failure
  -- `fmt.Errorf("failed to convert unstructured CRDs to structured: …")`
  crds_not_structured : String → Failure
  -- `fmt.Errorf("failed to convert unstructured Gateway to structured: …")`, for each kind
  not_converted : String → String → Failure
  -- `os.Exit(1)` after a message: the process has ended, and nothing handles this
  exited : String → Failure
  -- an error of a library, handed on
  library : String → Failure

pub data Outcome {ℓ} (A : Type ℓ) : Type ℓ where
  ok : A → Outcome A
  err : Failure → Outcome A
  panic : Outcome A

-- What a library's call answers: a value or an error.
pub data Reply {ℓ} (A : Type ℓ) : Type ℓ where
  value : A → Reply A
  error : String → Reply A

-- `if err != nil { return …, err }`
abbrev pub lift {ℓ} : {A : Type ℓ} → Reply A → Outcome A
lift (value a) = ok a
lift (error e) = err (library e)

pub value_of_lift {ℓ} : {A : Type ℓ} (r : Reply A) {a : A} → lift r ≡ ok a → r ≡ value a
value_of_lift (value b) h = cc
value_of_lift (error e) h = cc

-- A call, and what is done with its value. An error or a panic ends the chain.
infixl 5 ◌>>=◌
abbrev pub ◌>>=◌ {ℓ κ} : {X : Type ℓ} {Y : Type κ} → Outcome X → (X → Outcome Y) → Outcome Y
panic >>= next = panic
err failure >>= next = err failure
ok x >>= next = next x

-- The call stopped with an error or a panic.
abbrev pub Stops {ℓ} : {A : Type ℓ} → Outcome A → Type ℓ
Stops {A} m = ((e : Failure) × (m ≡ err e)) ⊎ (m ≡ panic)

pub Outcome-cases {ℓ} : {A : Type ℓ} (m : Outcome A) → ((a : A) × (m ≡ ok a)) ⊎ Stops m
Outcome-cases (ok a) = inl (a, refl)
Outcome-cases (err e) = inr (inl (e, refl))
Outcome-cases panic = inr (inr refl)

-- A value that a chain returns comes from a value of its first call.
pub >>=-cases {ℓ κ μ} :
    {A : Type ℓ} {B : Type κ} {C : Type μ} (m : Outcome A) {f : A → Outcome B} {b : B}
    → (m >>= f) ≡ ok b
    → ((a : A) → m ≡ ok a → f a ≡ ok b → C)
    → C
>>=-cases (ok a) h c = c a refl h
>>=-cases (err e) h c = cc
>>=-cases panic h c = cc

-- The same as a tuple.
pub >>=-eq-ok {ℓ κ} :
    {X : Type ℓ} {Y : Type κ} (call : Outcome X) (next : X → Outcome Y) {y : Y}
    → (call >>= next) ≡ ok y
    → (x : X) × (call ≡ ok x) × (next x ≡ ok y)
>>=-eq-ok call next returned = >>=-cases call returned (λ x called rest. (x, called, rest))
