-- ===== src/Sig/Set.antt =====
-- sig/set.go: a list of different items with the map that finds them.
pub mod Laws
use astral_go.Base.{
  ℕ, ◌+◌, ◌≡◌, Bool, true, false, not, List, [], ◌∷◌, ◌++◌, if◌then◌else◌, Comparable, ◌=?◌, length,
}
use astral_go.Sig.Members.{has, keep}

-- `dup` lists the keys of the map; the nil map that Go reads as an empty one is the empty list.
pub record Set (T : Type 0) : Type 0 where
  pub items : List T
  pub dup : List T

module _ {T : Type 0} where
  unfoldable pub count : Set T → ℕ
  count s = length s.items

  unfoldable pub clone : Set T → List T
  clone s = s.items

  unfoldable pub clear : Set T → Set T
  clear s = record { items = []; dup = [] }

  -- slices.SortFunc is the parameter.
  unfoldable pub sort : (List T → List T) → Set T → Set T
  sort sort_func s = record s { items = sort_func s.items }

module _ {T : Type 0} ⦃c : Comparable T⦄ where
  unfoldable pub contains : T → Set T → Bool
  contains x s = has x s.dup

  unfoldable pub add_item : T → Set T → Set T
  add_item x s = record { items = s.items ++ (x ∷ []); dup = x ∷ s.dup }

  -- The loop of Add from index `idx` on, with the indices of the ErrDuplicateItem errors.
  unfoldable pub add_loop : ℕ → List T → Set T → Set T × List ℕ
  add_loop idx [] s = (s, [])
  add_loop idx (x ∷ xs) s =
      let found = contains x s in
      let (after, errs) = add_loop (idx + 1) xs (if found then s else add_item x s) in
      (after, if found then idx ∷ errs else errs)

  unfoldable pub add : List T → Set T → Set T × List ℕ
  add xs s = add_loop 0 xs s

  -- The loop of Remove, which stops at the first item found.
  unfoldable pub remove_first : T → List T → List T
  remove_first x [] = []
  remove_first x (y ∷ ys) = let rest = remove_first x ys in if y =? x then ys else y ∷ rest

  -- False is the error "not found".
  unfoldable pub remove : T → Set T → Set T × Bool
  remove x s =
      if has x s.dup
      then (record { items = remove_first x s.items; dup = keep (λ y. not (y =? x)) s.dup }, true)
      else (s, false)

  unfoldable pub select : (T → Bool) → Set T → List T
  select fn s = keep fn s.items
