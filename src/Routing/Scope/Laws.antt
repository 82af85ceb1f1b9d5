-- ===== src/Routing/Scope/Laws.antt =====
-- Which router a ScopeRouter (lib/routing/scope_router.go) asks, and with which query.
use astral_go.Base.{
  ℕ, ◌+◌, ◌≡◌, refl, ap, ◌∙◌, ◌⊎◌, inl, inr, true, false, none, some, List, [], ◌∷◌, ◌++◌, length,
  take, drop, arith, take-append_length, str_comparable, Option-cases,
}
use astral_go.Sig.Map.{Entries, get, clone}
use astral_go.Routing.Query.{Query, route_not_found, Result, index_byte, path_of, question_mark}
use astral_go.Routing.Query.Laws.{
  IsWithout, index_byte-append, index_byte-none, path_of-prefix, drop_behind,
}
use astral_go.Routing.Scope.{
  dot, Router, op_route_query, op_has_route, ScopeRouter, strip, route_query,
}

module _ {W : Type 0} where
  -- Where the dot, the scope and its router are.
  route_query-at :
      (r : ScopeRouter W) (q : Query) (path scope : List ℕ) (idx : ℕ) (router : Router W)
      → path_of q.query_string ≡ path
      → index_byte dot path ≡ some idx
      → take idx path ≡ scope
      → get scope r.scopes ≡ some router
      → route_query r q ≡ router.route_query (strip idx q)
  unfolding route_query
  route_query-at r q path scope idx router p i t g =
      let at_dot = ap (λ l. index_byte dot l) p ∙ i in
      let name = ap (λ l. take idx l) p ∙ t in
      let known = ap (λ l. get l r.scopes) name ∙ g in rw (at_dot, route_query, known) refl

  -- A query string that is a known scope without dot and question mark, a dot and a rest goes to
  -- the router of the scope, with the rest, parameters included, as its query string and a copy of
  -- the extra values.
  pub route_query-scoped :
      (r : ScopeRouter W) (q : Query) (scope rest : List ℕ) (router : Router W)
      → q.query_string ≡ scope ++ (dot ∷ rest)
      → IsWithout dot scope
      → IsWithout question_mark scope
      → get scope r.scopes ≡ some router
      → route_query r q
        ≡ router.route_query (record q { query_string = rest; extra = clone q.extra })
  unfolding route_query strip
  route_query-scoped r q scope rest router s no_dot no_mark g =
      let path : path_of q.query_string ≡ scope ++ (dot ∷ path_of rest) =
        ap path_of s
        ∙ path_of-prefix scope (dot ∷ rest) no_mark
        ∙ ap (λ l. scope ++ l) (path_of-prefix (dot ∷ []) rest (ground arith, tt)) in
      let found = index_byte-append dot scope (path_of rest) no_dot in
      let name = take-append_length scope (dot ∷ path_of rest) (length scope) refl in
      let left : drop (length scope + 1) q.query_string ≡ rest =
        ap (λ l. drop (length scope + 1) l) s ∙ drop_behind scope dot rest in
      route_query-at r q (scope ++ (dot ∷ path_of rest)) scope (length scope) router path found name
        g
      ∙ ap (λ l. router.route_query (record q { query_string = l; extra = clone q.extra })) left

  -- A query whose path has no dot goes to the root unchanged.
  pub route_query-unscoped :
      (r : ScopeRouter W) (q : Query)
      → IsWithout dot (path_of q.query_string)
      → route_query r q ≡ r.root.route_query q
  unfolding route_query
  route_query-unscoped r q h = rw (index_byte-none dot (path_of q.query_string) h, route_query) refl

  -- A query whose path has a dot behind a scope that is not known goes to the root unchanged.
  pub route_query-unknown :
      (r : ScopeRouter W) (q : Query) (idx : ℕ)
      → index_byte dot (path_of q.query_string) ≡ some idx
      → get (take idx (path_of q.query_string)) r.scopes ≡ none
      → route_query r q ≡ r.root.route_query q
  unfolding route_query
  route_query-unknown r q idx i g = rw (i, route_query, g) refl

  -- For an op router, HasRoute on the path of a query is false and RouteQuery answers
  -- ErrRouteNotFound, or it is true and RouteQuery is that of the op found.
  pub op_has_route-route_query :
      (routes : Entries (List ℕ) (Query → Result W)) (q : Query)
      → ((op_has_route routes (path_of q.query_string) ≡ false)
          × (op_route_query routes q ≡ inr route_not_found))
        ⊎ ((op : Query → Result W) × (get (path_of q.query_string) routes ≡ some op)
            × (op_has_route routes (path_of q.query_string) ≡ true)
            × (op_route_query routes q ≡ op q))
  unfolding op_has_route op_route_query
  op_has_route-route_query routes q = elim (Option-cases (get (path_of q.query_string) routes)) [
    | inl e ↦ inl (rw (e, op_has_route) refl, rw (e, op_route_query) refl)
    | inr (op, e) ↦ inr (op, e, rw (e, op_has_route) refl, rw (e, op_route_query) refl)
  ]
