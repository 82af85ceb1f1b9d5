-- ===== src/Routing/Query.antt =====
-- Queries, the errors and results of routers (astral/err_rejected.go, lib/query/route.go), the path
-- of a query string (lib/query/query.go) and flag arguments (lib/query/args_to_map.go).
pub mod Laws
use astral_go.Base.{
  ℕ, zero, suc, ◌+◌, ◌⊎◌, inl, inr, Bool, true, false, Option, none, some, List, [], ◌∷◌, ◌++◌,
  length, take, drop, ◌==◌, if◌then◌else◌, codes, str_comparable,
}
use astral_go.Sig.Map.{Entries, assign}

-- `extra` are the values that a query in flight carries; the identities are byte strings.
pub record Query : Type 0 where
  pub nonce : ℕ
  pub caller : List ℕ
  pub target : List ℕ
  pub query_string : List ℕ
  pub extra : Entries (List ℕ) (List ℕ)

pub data RouteError : Type 0 where
  rejected : ℕ → RouteError
  route_not_found : RouteError
  other_error : List ℕ → RouteError

-- What RouteQuery returns for a connection of type W.
abbrev pub Result : Type 0 → Type 0
Result W = W ⊎ RouteError

abbrev pub default_reject_code : ℕ
default_reject_code = 1

-- NewErrRejected: code 0 is replaced.
unfoldable pub new_err_rejected : ℕ → RouteError
new_err_rejected code = rejected (if code == 0 then default_reject_code else code)

-- errors.Is with an ErrRejected of any code.
unfoldable pub is_rejected : RouteError → Bool
is_rejected (rejected code) = true
is_rejected _ = false

-- strings.IndexByte.
unfoldable pub index_byte : ℕ → List ℕ → Option ℕ
index_byte b [] = none
index_byte b (x ∷ xs) = elim (x == b) [
  | true ↦ some 0
  | false ↦ elim (index_byte b xs) [ some i ↦ some (suc i) | none ↦ none ]
]

abbrev pub question_mark : ℕ
question_mark = 63

unfoldable pub split_path_params : List ℕ → List ℕ × List ℕ
split_path_params query = elim (index_byte question_mark query) [
  | some i ↦ (take i query, drop (i + 1) query)
  | none ↦ (query, [])
]

-- The path that Parse returns.
unfoldable pub path_of : List ℕ → List ℕ
path_of q = (split_path_params q).0

abbrev pub dash : ℕ
dash = 45

-- The loop of ArgsToMap.
unfoldable pub args_loop : List (List ℕ) → Entries (List ℕ) (List ℕ) → Entries (List ℕ) (List ℕ)
args_loop [] params = params
args_loop ([] ∷ args) params = args_loop args (assign (codes "arg") [] params)
args_loop ((b ∷ key) ∷ []) params =
    if b == dash then assign key [] params else assign (codes "arg") (b ∷ key) params
args_loop ((b ∷ key) ∷ value ∷ args) params = elim (b == dash) [
  | true ↦ args_loop args (assign key value params)
  | false ↦ args_loop (value ∷ args) (assign (codes "arg") (b ∷ key) params)
]

unfoldable pub args_to_map : List (List ℕ) → Entries (List ℕ) (List ℕ)
args_to_map args = args_loop args []

-- NilRouter.RouteQuery.
unfoldable pub nil_route : {W : Type 0} → Bool → Query → Result W
nil_route soft q = if soft then inr route_not_found else inr (rejected default_reject_code)
