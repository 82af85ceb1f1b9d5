-- ===== src/Routing/Scope.antt =====
-- lib/routing/scope_router.go and lib/routing/op_router.go: dispatch by the prefix of a query's path
-- and by its path.
pub mod Laws
use astral_go.Base.{
  ℕ, ◌+◌, ◌⊎◌, inl, inr, Bool, true, false, Option, none, some, List, [], ◌∷◌, ◌++◌, take, drop,
  if◌then◌else◌, str_comparable,
}
use astral_go.Sig.Map.{Entries, get, set_new, delete, clone}
use astral_go.Routing.Query.{Query, RouteError, route_not_found, Result, index_byte, path_of}

abbrev pub dot : ℕ
dot = 46

-- The routers that the source tells apart with type assertions: every one has RouteQuery, some have
-- HasRoute.
pub record Router (W : Type 0) : Type 0 where
  pub route_query : Query → Result W
  pub has_route : Option (List ℕ → Bool)

module _ {W : Type 0} where
  -- An op router is the map of its routes; an op is its RouteQuery.
  unfoldable pub op_route_query : Entries (List ℕ) (Query → Result W) → Query → Result W
  op_route_query routes q = elim (get (path_of q.query_string) routes) [
    | none ↦ inr route_not_found
    | some op ↦ op q
  ]

  unfoldable pub op_has_route : Entries (List ℕ) (Query → Result W) → List ℕ → Bool
  op_has_route routes name = elim (get name routes) [ none ↦ false | some op ↦ true ]

  -- AddOp and RemoveOp; false is the error.
  unfoldable pub add_op :
      List ℕ
      → (Query → Result W)
      → Entries (List ℕ) (Query → Result W)
      → Entries (List ℕ) (Query → Result W) × Bool
  add_op name op routes = let (after, val, ok) = set_new name op routes in (after, ok)

  unfoldable pub remove_op :
      List ℕ → Entries (List ℕ) (Query → Result W) → Entries (List ℕ) (Query → Result W) × Bool
  remove_op name routes =
      let (after, old) = delete name routes in (after, elim old [ none ↦ false | some op ↦ true ])

  unfoldable pub op_router : Entries (List ℕ) (Query → Result W) → Router W
  op_router routes = record {
    route_query = op_route_query routes;
    has_route = some (op_has_route routes);
  }

  unfoldable pub checks : Router W → List ℕ → Bool
  checks r name = elim r.has_route [ none ↦ false | some f ↦ f name ]

-- The query that the scope's router gets: the prefix is removed, the extra values are copied.
unfoldable pub strip : ℕ → Query → Query
strip idx q = record q { query_string = drop (idx + 1) q.query_string; extra = clone q.extra }

-- A scope router: the router of the names without a scope, and the map of the scopes.
pub record ScopeRouter (W : Type 0) : Type 0 where
  pub root : Router W
  pub scopes : Entries (List ℕ) (Router W)

module _ {W : Type 0} where
  unfoldable pub route_query : ScopeRouter W → Query → Result W
  route_query r q =
      let op_name = path_of q.query_string in
      elim (index_byte dot op_name) [
        | none ↦ r.root.route_query q
        | some idx ↦ elim (get (take idx op_name) r.scopes) [
          | none ↦ r.root.route_query q
          | some scope ↦ scope.route_query (strip idx q)
        ]
      ]

  unfoldable pub has_route : ScopeRouter W → List ℕ → Bool
  has_route r name = elim (index_byte dot name) [
    | none ↦ checks r.root name
    | some idx ↦ elim (get (take idx name) r.scopes) [
      | some scope ↦ checks scope (drop (idx + 1) name)
      | none ↦ checks r.root name
    ]
  ]

  unfoldable pub add : List ℕ → Router W → ScopeRouter W → ScopeRouter W
  add scope router r = record r { scopes = (set_new scope router r.scopes).0 }

  unfoldable pub remove : List ℕ → ScopeRouter W → ScopeRouter W
  remove scope r = record r { scopes = (delete scope r.scopes).0 }
