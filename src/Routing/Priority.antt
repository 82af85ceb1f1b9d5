-- ===== src/Routing/Priority.antt =====
-- lib/routing/priority_router.go: routers tried in the order of their priorities.
pub mod Laws
use astral_go.Base.{ℕ, ◌⊎◌, inl, inr, true, false, List, [], ◌∷◌, ◌++◌}
use astral_go.Routing.Query.{Query, RouteError, route_not_found, Result, is_rejected}

-- A router is its RouteQuery. A priority is a natural number: the source only compares them.
pub record Entry (W : Type 0) : Type 0 where
  pub router : Query → Result W
  pub prio : ℕ

module _ {W : Type 0} where
  -- The loop of RouteQuery, which ends with ErrRouteNotFound.
  unfoldable pub route_query : List (Entry W) → Query → Result W
  route_query [] q = inr route_not_found
  route_query (r ∷ rest) q = elim (r.router q) [
    | inl rw ↦ inl rw
    | inr err ↦ elim (is_rejected err) [ true ↦ inr err | false ↦ route_query rest q ]
  ]

  -- Add: a new entry, then slices.SortFunc by priority, which is the parameter.
  unfoldable pub add :
      (List (Entry W) → List (Entry W)) → (Query → Result W) → ℕ → List (Entry W) → List (Entry W)
  add sort_func r prio entries = sort_func (entries ++ (record { router = r; prio = prio } ∷ []))
