-- ===== src/Sig/SliceDiff.antt =====
-- sig/slice_diff.go: what is only in the one and only in the other of two slices.
pub mod Laws
use astral_go.Base.{
  ℕ, zero, suc, ◌+◌, ◌≡◌, Bool, true, false, Option, none, some, not, List, [], ◌∷◌, ◌++◌,
  if◌then◌else◌, Comparable, ◌=?◌, ltb, ◌==◌,
}
use astral_go.Sig.Members.{has, keep}

module _ {T : Type 0} ⦃c : Comparable T⦄ where
  -- The lookup sets setA and setB are membership tests of `a` and `b`.
  unfoldable pub slice_diff : List T → List T → List T × List T
  slice_diff a b = (keep (λ x. not (has x b)) a, keep (λ y. not (has y a)) b)

-- The constraint Ordered: `<` with `==` as a linear order. A float that is not a number is left out.
pub record Ordered (T : Type 0) ⦃c : Comparable T⦄ : Type 0 where
  pub lt : T → T → Bool
  pub lt_irrefl : (x : T) → lt x x ≡ false
  pub lt_trans : (x y z : T) → lt x y ≡ true → lt y z ≡ true → lt x z ≡ true
  pub lt_total : (x y : T) → (x =? y) ≡ false → lt x y ≡ false → lt y x ≡ true

module _ {T : Type 0} ⦃c : Comparable T⦄ ⦃o : Ordered T⦄ where
  -- The two-pointer loop of SliceDiffOrdered on what is left of the slices from the positions i and
  -- j on, with the results collected so far. A nil slice is the empty list.
  unfoldable pub diff_loop : List T → List T → List T → List T → List T × List T
  diff_loop [] b only_a only_b = (only_a, only_b ++ b)
  diff_loop (x ∷ a) [] only_a only_b = (only_a ++ (x ∷ a), only_b)
  diff_loop (x ∷ a) (y ∷ b) only_a only_b = elim (x =? y) [
    | true ↦ diff_loop a b only_a only_b
    | false ↦ elim (o.lt x y) [
      | true ↦ diff_loop a (y ∷ b) (only_a ++ (x ∷ [])) only_b
      | false ↦ diff_loop (x ∷ a) b only_a (only_b ++ (y ∷ []))
    ]
  ]

  unfoldable pub slice_diff_ordered : List T → List T → List T × List T
  slice_diff_ordered a b = diff_loop a b [] []

-- The int that a comparison function returns.
pub data ℤ : Type 0 where
  pos : ℕ → ℤ
  negsuc : ℕ → ℤ

module _ {T : Type 0} (cmp : T → T → ℤ) where
  -- The loop of SliceDiffFunc on the sorted slices; a result other than -1, 0 and 1 matches no case
  -- of the switch, so that the loop goes on with the same positions. `none` is fuel used up.
  unfoldable pub func_loop : ℕ → List T → List T → List T → List T → Option (List T × List T)
  func_loop zero a b only_a only_b = none
  func_loop (suc fuel) [] b only_a only_b = some (only_a, only_b ++ b)
  func_loop (suc fuel) (x ∷ a) [] only_a only_b = some (only_a ++ (x ∷ a), only_b)
  func_loop (suc fuel) (x ∷ a) (y ∷ b) only_a only_b = elim (cmp x y) [
    | pos zero ↦ func_loop fuel a b only_a only_b
    | negsuc zero ↦ func_loop fuel a (y ∷ b) (only_a ++ (x ∷ [])) only_b
    | pos (suc zero) ↦ func_loop fuel (x ∷ a) b only_a (only_b ++ (y ∷ []))
    | _ ↦ func_loop fuel (x ∷ a) (y ∷ b) only_a only_b
  ]

  -- slices.SortFunc is the parameter.
  unfoldable pub slice_diff_func :
      (List T → List T) → ℕ → List T → List T → Option (List T × List T)
  slice_diff_func sort_func fuel a b = func_loop fuel (sort_func a) (sort_func b) [] []
