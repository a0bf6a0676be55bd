-- ===== src/Policy/Merge/Precedence.antt =====
-- What `orderPolicyByPrecedence` promises: the older policy ranks higher, and of two policies of
-- one age the one whose "namespace/name" comes first.
use gateway_api.Prelude.{◌<◌, ◌≡◌, ◌≢◌, ◌⊎◌, true, arith}
use gateway_api.Prelude.Text.{str_lt, str_lt_asymm, str_lt_total}
use gateway_api.Policy.Machinery.{Machinery}
use gateway_api.Policy.Object.{Policy}
use gateway_api.Policy.Merge.{namespaced_name, order_policy_by_precedence}

module _ (k : Machinery) where
  open k use {creation_timestamp}

  -- The first policy ranks above the second.
  abbrev pub Outranks : Policy → Policy → Type 0
  Outranks a b =
      (creation_timestamp a.u < creation_timestamp b.u)
      ⊎ ((creation_timestamp a.u ≡ creation_timestamp b.u)
          × (str_lt (namespaced_name k a) (namespaced_name k b) ≡ true))

  -- The two differ in age or in "namespace/name".
  abbrev pub AreRanked : Policy → Policy → Type 0
  AreRanked a b =
      (creation_timestamp a.u ≢ creation_timestamp b.u)
      ⊎ (namespaced_name k a ≢ namespaced_name k b)

  -- For two policies that differ in age or in "namespace/name", `order_policy_by_precedence`
  -- returns the two, the one that outranks the other second: it is older, or of the same age with
  -- the "namespace/name" that comes first.
  pub order_policy_by_precedence_lem :
      (a b : Policy)
      → AreRanked a b
      → ((order_policy_by_precedence k a b ≡ (a, b)) × Outranks b a)
        ⊎ ((order_policy_by_precedence k a b ≡ (b, a)) × Outranks a b)
  unfolding order_policy_by_precedence
  order_policy_by_precedence_lem a b h =
      ground (arith, str_lt_total (namespaced_name k a) (namespaced_name k b))

  -- For two policies that differ in age or in "namespace/name", `order_policy_by_precedence`
  -- returns the same pair in whichever order it is given them.
  pub order_policy_by_precedence_comm :
      (a b : Policy)
      → AreRanked a b
      → order_policy_by_precedence k a b ≡ order_policy_by_precedence k b a
  unfolding order_policy_by_precedence
  order_policy_by_precedence_comm a b h = ground (
    arith,
    str_lt_total (namespaced_name k a) (namespaced_name k b),
    str_lt_asymm (namespaced_name k a) (namespaced_name k b),
  )
