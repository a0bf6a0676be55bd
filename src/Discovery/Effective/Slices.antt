-- ===== src/Discovery/Effective/Slices.antt =====
-- `convertPoliciesMapToSlice` forgets the order in which the map is iterated.
use gateway_api.Prelude.{List, ◌∷◌, ◌≡◌, refl}
use gateway_api.Prelude.Dict.{Dict, values}
use gateway_api.Prelude.Outcome.{ok, >>=-cases}
use gateway_api.Prelude.Sort.{
  sort_by, DistinctKeys, IsSorted, sort_by-IsSorted, sort_by-perm, sort_by-eq_of_Permᴰ,
}
use gateway_api.Policy.Machinery.{Machinery}
use gateway_api.Policy.Object.{Policy, full_name}
use gateway_api.Discovery.Id.{PolicyId, resource_id_key}
use gateway_api.Discovery.Node.{PolicyNode}
use gateway_api.Discovery.Effective.{followed, policies_of, convert_policies_map_to_slice}
use mathlib.Core.List.{Permᴰ, Perm}
use mathlib.Core.List.Permᴰ

module _ (k : Machinery) where
  abbrev Reads : Dict PolicyId PolicyNode → List Policy → Type 0
  Reads m policies = policies_of (values m) ≡ ok policies

  Reads-cons :
      (e : PolicyId × PolicyNode) (m : Dict PolicyId PolicyNode) {policies : List Policy}
      → Reads (e ∷ m) policies
      → (p : Policy) × (rest : List Policy) × (followed (e.1.policy) ≡ ok p)
        × Reads m rest
        × (policies ≡ p ∷ rest)
  unfolding policies_of
  Reads-cons e m h =
      >>=-cases (followed (e.1.policy)) h
        (λ p hp h1. >>=-cases (policies_of (values m)) h1 (λ rest hr last. (p, rest, hp, hr, cc)))

  Reads-cons_of :
      (e : PolicyId × PolicyNode) (m : Dict PolicyId PolicyNode) (p : Policy) (rest : List Policy)
      → followed (e.1.policy) ≡ ok p
      → Reads m rest
      → Reads (e ∷ m) (p ∷ rest)
  unfolding policies_of
  Reads-cons_of e m p rest hp hr = rw (hp, hr) refl

  Reads-Permᴰ :
      {m n : Dict PolicyId PolicyNode} {policies : List Policy}
      → Permᴰ m n
      → Reads m policies
      → (others : List Policy) × Reads n others × Permᴰ policies others
  Reads-Permᴰ {policies = policies} Permᴰ.nil h = (policies, h, Permᴰ.refl policies)
  Reads-Permᴰ (Permᴰ.cons {a = a} {b = b} {l₁ = m} {l₂ = n} e p) h =
      let (x, rest, hx, hr, same) = Reads-cons a m h in
      let (others, ho, q) = Reads-Permᴰ p hr in
      (x ∷ others, Reads-cons_of b n x others (rw e at hx) ho, rw same (Permᴰ.cons refl q))
  Reads-Permᴰ (Permᴰ.swap {a = a} {b = b} {a' = c} {b' = d} {l = l} e f) h =
      let (x, more, hx, hm, same) = Reads-cons a (b ∷ l) h in
      let (y, rest, hy, hr, same2) = Reads-cons b l hm in
      (
        y ∷ x ∷ rest,
        Reads-cons_of c (d ∷ l) y (x ∷ rest) (rw f at hy)
            (Reads-cons_of d l x rest (rw e at hx) hr),
        rw (same, same2) (Permᴰ.swap refl refl),
      )
  Reads-Permᴰ (Permᴰ.trans p q) h =
      let (mid, h1, p1) = Reads-Permᴰ p h in
      let (last, h2, p2) = Reads-Permᴰ q h1 in (last, h2, Permᴰ.trans p1 p2)

  -- Where every node of a map has its policy, and no two policies have one kind, namespace and
  -- name: `convert_policies_map_to_slice` gives one list for every order of the map's entries,
  -- which holds the policies sorted by kind, namespace and name.
  pub convert_policies_map_to_slice_permuted :
      {m n : Dict PolicyId PolicyNode} {policies : List Policy}
      → Permᴰ m n
      → policies_of (values m) ≡ ok policies
      → DistinctKeys (full_name k) policies
      → (slice : List Policy) × (convert_policies_map_to_slice k m ≡ ok slice)
        × (convert_policies_map_to_slice k n ≡ ok slice)
        × IsSorted (full_name k) slice
        × Perm slice policies
  unfolding convert_policies_map_to_slice
  convert_policies_map_to_slice_permuted {policies = policies} p h distinct =
      let (others, ho, q) = Reads-Permᴰ p h in
      let same : sort_by (full_name k) policies ≡ sort_by (full_name k) others =
        sort_by-eq_of_Permᴰ (full_name k) q distinct in
      (
        sort_by (full_name k) policies,
        rw h refl,
        rw (ho, same) refl,
        sort_by-IsSorted (full_name k) policies,
        sort_by-perm (full_name k) policies,
      )
