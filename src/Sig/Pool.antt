-- ===== src/Sig/Pool.antt =====
-- sig/pool.go: counted resources under names, locked several at a time.
pub mod Laws
use astral_go.Base.{
  ℕ, zero, suc, ◌+◌, ◌-◌, ◌≡◌, Bool, true, false, List, [], ◌∷◌, ◌++◌, if◌then◌else◌, leb, ◌==◌,
  str_eq,
}

-- A Go map to int is the function that reads it, 0 where the key is missing. Capacities and locks
-- are not negative: the amounts given to Add are natural numbers.
pub record Pool : Type 0 where
  pub cap : List ℕ → ℕ
  pub locked : List ℕ → ℕ

unfoldable pub assign : (List ℕ → ℕ) → List ℕ → ℕ → List ℕ → ℕ
assign m key v x = if str_eq x key then v else m x

unfoldable pub new_pool : Pool
new_pool = record { cap = λ x. 0; locked = λ x. 0 }

unfoldable pub add : List ℕ → ℕ → Pool → Pool × ℕ
add item n p = let total = p.cap item + n in (record p { cap = assign p.cap item total }, total)

unfoldable pub lock_one : List ℕ → Pool → Pool × Bool
lock_one name p =
    if leb (p.cap name) (p.locked name)
    then (p, false)
    else (record p { locked = assign p.locked name (p.locked name + 1) }, true)

unfoldable pub unlock_one : List ℕ → Pool → Pool × Bool
unlock_one name p =
    if p.locked name == 0
    then (p, false)
    else (record p { locked = assign p.locked name (p.locked name - 1) }, true)

unfoldable pub unlock : List (List ℕ) → Pool → Pool
unlock [] p = p
unlock (n ∷ names) p = unlock names (unlock_one n p).0

-- One round of Lock, between two waits: `held` are the names that the round has locked, and false
-- is the decision to wait.
unfoldable pub lock_round : List (List ℕ) → List (List ℕ) → Pool → Pool × Bool
lock_round [] held p = (p, true)
lock_round (n ∷ names) held p = elim (lock_one n p).1 [
  | true ↦ lock_round names (held ++ (n ∷ [])) (lock_one n p).0
  | false ↦ (unlock held (lock_one n p).0, false)
]

unfoldable pub try_lock : List (List ℕ) → Pool → Pool × Bool
try_lock names p = lock_round names [] p
