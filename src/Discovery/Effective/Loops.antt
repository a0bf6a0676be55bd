-- ===== src/Discovery/Effective/Loops.antt =====
-- What a loop over the nodes of a map leaves, where it does not stop.
use gateway_api.Prelude.{
  Option, none, some, List, [], ◌∷◌, ◌≡◌, refl, ◌≢◌, Key, ◌∙◌, arith, Option-cases, inl, inr,
}
use gateway_api.Prelude.Dict.{
  get-cons_self, get-cons_ne, Dict, get, set, Distinct, get-set, get-set_self, get-set_ne,
}
use gateway_api.Prelude.Outcome.{Outcome, ok, Outcome-cases}
use gateway_api.Discovery.Effective.{for_each}

abbrev pub kept_or : {V : Type 0} → V → Option V → V
kept_or v none = v
kept_or v (some w) = w

module _ {V : Type 0} (step : V → Outcome (Option V)) where
  -- A node that was not there is not there now, and any other is what the loop's body makes of it.
  abbrev pub IsStepped : Option V → Option V → Type 0
  IsStepped none new = new ≡ none
  IsStepped (some v) new = (o : Option V) × (step v ≡ ok o) × (new ≡ some (kept_or v o))

  -- The entries that the loop does not meet are as they were.
  abbrev Left : Option V → Option V → Option V → Type 0
  Left none old new = new ≡ old
  Left (some v) old new = (o : Option V) × (step v ≡ ok o) × (new ≡ some (kept_or v o))

module _ {K V : Type 0} ⦃key : Key K⦄ where
  abbrev pub Holds : List (K × V) → Dict K V → Type 0
  Holds entries nodes = (id : K) (v : V) → get id entries ≡ some v → get id nodes ≡ some v

  pub Holds-set :
      (i : K) (v : V) (w : V) (rest : List (K × V)) (nodes : Dict K V)
      → get i rest ≡ none
      → Holds ((i, v) ∷ rest) nodes
      → Holds rest (set i w nodes)
  unfolding get
  Holds-set i v w rest nodes missing held id u found =
      let old = held id u in ground (arith, get-set i id w nodes)

  pub Holds-rest :
      (i : K) (v : V) (rest : List (K × V)) (nodes : Dict K V)
      → get i rest ≡ none
      → Holds ((i, v) ∷ rest) nodes
      → Holds rest nodes
  unfolding get
  Holds-rest i v rest nodes missing held id u found = let old = held id u in ground arith

module _ {K V : Type 0} ⦃key : Key K⦄ (step : V → Outcome (Option V)) where
  -- The entry that the loop has met, before those that are left.
  Left-cons :
      (i : K) (v : V) (o : Option V) (rest : List (K × V)) (nodes changed : Dict K V)
      → get i rest ≡ none
      → step v ≡ ok o
      → get i changed ≡ some (kept_or v o)
      → ((j : K) → i ≢ j → get j changed ≡ get j nodes)
      → (id : K) (new : Option V) → Left step (get id rest) (get id changed) new
      → Left step (get id ((i, v) ∷ rest)) (get id nodes) new
  Left-cons i v o rest nodes changed missing stepped here others id new left = elim (key.dec i id) [
    | yes e ↦
        let missed : get id rest ≡ none = rw e at missing in
        let kept : new ≡ get id changed = rw missed at left in
        let met : get id changed ≡ some (kept_or v o) = rw e at here in
        rw (get-cons_self i id v rest e) (o, stepped, kept ∙ met)
    | no n ↦ rw (get-cons_ne i id v rest n) (rw (others id n) at left)
  ]

  for_each-Left :
      (entries : List (K × V)) (nodes : Dict K V)
      → Distinct entries
      → Holds entries nodes
      → (for_each step entries nodes).1 ≡ ok tt
      → (id : K)
      → Left step (get id entries) (get id nodes) (get id (for_each step entries nodes).0)
  unfolding for_each get
  for_each-Left [] nodes distinct held done id = refl
  for_each-Left ((i, v) ∷ rest) nodes distinct held done id = elim (Outcome-cases (step v)) [
    | inl (none, e) ↦
        let finished = rw (e, for_each) at done in
        rw (e, for_each)
          (Left-cons i v none rest nodes nodes distinct.0 e
            (held i v (get-cons_self i i v rest refl)) (λ j n. refl) id _
            (for_each-Left rest nodes distinct.1 (Holds-rest i v rest nodes distinct.0 held)
              finished id))
    | inl (some w, e) ↦
        let finished = rw (e, for_each) at done in
        rw (e, for_each)
          (Left-cons i v (some w) rest nodes (set i w nodes) distinct.0 e (get-set_self i w nodes)
            (λ j n. get-set_ne i j w nodes n) id _
            (for_each-Left rest (set i w nodes) distinct.1
              (Holds-set i v w rest nodes distinct.0 held) finished id))
    | inr (inl (failure, e)) ↦ absurd (cc (rw (e, for_each) at done))
    | inr (inr e) ↦ absurd (cc (rw (e, for_each) at done))
  ]

  -- A loop over a map that has each key once and that does not stop makes of every node what the
  -- loop's body makes of it, and adds and removes none, whichever order it meets the nodes in.
  pub for_each-IsStepped :
      (nodes : Dict K V)
      → Distinct nodes
      → (for_each step nodes nodes).1 ≡ ok tt
      → (id : K) → IsStepped step (get id nodes) (get id (for_each step nodes nodes).0)
  for_each-IsStepped nodes distinct done id =
      let left = for_each-Left nodes nodes distinct (λ j v h. h) done id in
      elim (Option-cases (get id nodes)) [
        | inl e ↦ rw e (rw e at left)
        | inr (v, e) ↦ rw e (rw e at left)
      ]
