-- ===== src/Routing/Priority/Laws.antt =====
-- Which entry of a PriorityRouter (lib/routing/priority_router.go) answers.
use astral_go.Base.{
  ℕ, ◌≤◌, ◌≡◌, refl, ap, ◌∙◌, ◌⊎◌, inl, inr, Bool, true, false, List, [], ◌∷◌, All, arith,
  Bool-cases,
}
use astral_go.Routing.Query.{Query, route_not_found, Result, is_rejected}
use astral_go.Routing.Priority.{Entry, route_query}

module _ {W : Type 0} where
  -- An answer that ends the search: a connection or a rejection.
  unfoldable pub decides : Result W → Bool
  decides (inl w) = true
  decides (inr err) = is_rejected err

  -- The entries ascend in priority.
  unfoldable pub IsSorted : List (Entry W) → Type 0
  IsSorted [] = Unit
  IsSorted (e ∷ es) = All (λ d. e.prio ≤ d.prio) es × IsSorted es

  unfoldable pub Has : Entry W → List (Entry W) → Type 0
  Has e [] = ⊥
  Has e (d ∷ es) = (e ≡ d) ⊎ Has e es

  route_query-decides :
      (e : Entry W) (rest : List (Entry W)) (q : Query)
      → decides (e.router q) ≡ true
      → route_query (e ∷ rest) q ≡ e.router q
  unfolding route_query decides
  route_query-decides e rest q h = go (e.router q) refl h
    where
      go :
          (answer : Result W)
          → e.router q ≡ answer
          → decides answer ≡ true
          → route_query (e ∷ rest) q ≡ answer
      go (inl w) r d = rw (r, route_query) refl
      go (inr err) r d = rw (r, route_query, d) refl

  route_query-passes :
      (e : Entry W) (rest : List (Entry W)) (q : Query)
      → decides (e.router q) ≡ false
      → route_query (e ∷ rest) q ≡ route_query rest q
  unfolding route_query decides
  route_query-passes e rest q h = go (e.router q) refl h
    where
      go :
          (answer : Result W)
          → e.router q ≡ answer
          → decides answer ≡ false
          → route_query (e ∷ rest) q ≡ route_query rest q
      go (inl w) r d = cc
      go (inr err) r d = rw (r, route_query, d) refl

  prio_of_member :
      (n : ℕ) (es : List (Entry W)) (d : Entry W) → All (λ e. n ≤ e.prio) es → Has d es → n ≤ d.prio
  unfolding Has
  prio_of_member n [] d a h = elim h [ ]
  prio_of_member n (e ∷ es) d a (inl s) = rw s a.0
  prio_of_member n (e ∷ es) d a (inr h) = prio_of_member n es d a.1 h

  -- Where the entries ascend in priority and one of them accepts or rejects a query, the answer is
  -- that of an entry that accepts or rejects it, with a priority number at most this one's.
  pub route_query-best :
      (es : List (Entry W)) (q : Query) (d : Entry W)
      → IsSorted es
      → Has d es
      → decides (d.router q) ≡ true
      → (e : Entry W) × Has e es
        × (decides (e.router q) ≡ true)
        × (e.prio ≤ d.prio)
        × (route_query es q ≡ e.router q)
  unfolding Has IsSorted
  route_query-best [] q d s h t = elim h [ ]
  route_query-best (e ∷ es) q d s h t = elim (Bool-cases (decides (e.router q))) [
    | inl yes_e ↦ (
      e,
      inl refl,
      yes_e,
      elim h [
        | inl same ↦ rw same (omega arith)
        | inr later ↦ prio_of_member e.prio es d s.0 later
      ],
      route_query-decides e es q yes_e,
    )
    | inr no_e ↦ elim h [
      | inl same ↦ absurd (ground (arith, no_e, ap (λ x. decides (x.router q)) same, t))
      | inr later ↦
          let (best, member, yes_best, least, answer) = route_query-best es q d s.1 later t in
          (best, inr member, yes_best, least, route_query-passes e es q no_e ∙ answer)
    ]
  ]

  -- Where no entry accepts or rejects a query, the answer is ErrRouteNotFound, whatever their
  -- errors.
  pub route_query-not_found :
      (es : List (Entry W)) (q : Query)
      → All (λ e. decides (e.router q) ≡ false) es
      → route_query es q ≡ inr route_not_found
  unfolding route_query
  route_query-not_found [] q h = refl
  route_query-not_found (e ∷ es) q h =
      route_query-passes e es q h.0 ∙ route_query-not_found es q h.1
