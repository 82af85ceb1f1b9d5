-- ===== src/Sig/SliceDiff/Laws.antt =====
-- The two-pointer loops of sig/slice_diff.go and the lookup sets.
use astral_go.Base.{
  ℕ, zero, suc, ◌+◌, ◌<◌, ◌≡◌, refl, ap, sym, ◌∙◌, true, false, none, some, not, ◌&&◌, List, [],
  ◌∷◌, ◌++◌, append-nil, append_assoc, if◌then◌else◌, Comparable, ◌=?◌, All, All-weaken, length,
  arith, Bool-cases, inl, inr,
}
use astral_go.Sig.Members.{has, keep, has-keep, eq→≡, eq_sym}
use astral_go.Sig.SliceDiff.{
  slice_diff, Ordered, diff_loop, slice_diff_ordered, ℤ, pos, negsuc, func_loop, slice_diff_func,
}

module _ {T : Type 0} ⦃c : Comparable T⦄ ⦃o : Ordered T⦄ where
  abbrev pub IsAscending : List T → Type 0
  IsAscending [] = Unit
  IsAscending (x ∷ xs) = All (λ y. o.lt x y ≡ true) xs × IsAscending xs

  differs : (x y : T) → o.lt x y ≡ true → (y =? x) ≡ false
  differs x y h = elim (Bool-cases (y =? x)) [
    | inr e ↦ e
    | inl e ↦ ground (arith, h, ap (o.lt x) (eq→≡ y x e), o.lt_irrefl x)
  ]

  below-All :
      (x y : T) (ys : List T)
      → o.lt x y ≡ true
      → All (λ z. o.lt y z ≡ true) ys
      → All (λ z. o.lt x z ≡ true) ys
  below-All x y ys h a = All-weaken _ _ (λ z l. o.lt_trans x y z h l) ys a

  has_above : (x : T) (ys : List T) → All (λ z. o.lt x z ≡ true) ys → has x ys ≡ false
  unfolding has
  has_above x [] h = refl
  has_above x (y ∷ ys) h = ground (arith, differs x y h.0, eq_sym x y, has_above x ys h.1)

  -- An item below the others does not matter to the search for them.
  keep_above :
      (x : T) (ys zs : List T)
      → All (λ z. o.lt x z ≡ true) zs
      → keep (λ z. not (has z (x ∷ ys))) zs ≡ keep (λ z. not (has z ys)) zs
  unfolding has keep
  keep_above x ys [] h = refl
  keep_above x ys (z ∷ zs) h = rw (differs x z h.0, keep_above x ys zs h.1) refl

  keep_all : (zs : List T) → keep (λ z. not (has z [])) zs ≡ zs
  unfolding has keep
  keep_all [] = refl
  keep_all (z ∷ zs) = ap (λ l. z ∷ l) (keep_all zs)

  diff_loop_lem :
      (a b only_a only_b : List T)
      → IsAscending a
      → IsAscending b
      → diff_loop a b only_a only_b ≡ (only_a ++ (slice_diff a b).0, only_b ++ (slice_diff a b).1)
  unfolding diff_loop slice_diff has keep
  diff_loop_lem [] b oa ob ha hb = rw (keep_all b, append-nil oa) refl
  diff_loop_lem (x ∷ a) [] oa ob ha hb = rw (keep_all a, append-nil ob) refl
  diff_loop_lem (x ∷ a) (y ∷ b) oa ob ha hb = elim (Bool-cases (x =? y)) [
    | inl e ↦
        let same = eq→≡ x y e in
        let back = eq_sym y x ∙ e in
        let above_a = keep_above y b a (rw same at ha.0) in
        let above_b = keep_above x a b (rw (sym same) at hb.0) in
        rw (e, back, above_a, above_b, diff_loop) (diff_loop_lem a b oa ob ha.1 hb.1)
    | inr e ↦ elim (Bool-cases (o.lt x y)) [
      | inl l ↦
          let back = differs x y l in
          let above = below-All x y b l hb.0 in
          let absent = has_above x b above in
          let above_b = keep_above x a b above in
          let kept = keep (λ z. not (has z (y ∷ b))) a in
          rw (e, l, back, absent, above_b, diff_loop)
            (diff_loop_lem a (y ∷ b) (oa ++ (x ∷ [])) ob ha.1 hb
              ∙ rw (append_assoc oa (x ∷ []) kept) refl)
      | inr l ↦
          let back = eq_sym y x ∙ e in
          let above = below-All y x a (o.lt_total x y e l) ha.0 in
          let absent = has_above y a above in
          let above_a = keep_above y b a above in
          let kept = keep (λ z. not (has z (x ∷ a))) b in
          rw (e, l, back, absent, above_a, diff_loop)
            (diff_loop_lem (x ∷ a) b oa (ob ++ (y ∷ [])) ha hb.1
              ∙ rw (append_assoc ob (y ∷ []) kept) refl)
    ]
  ]

  -- SliceDiffOrdered returns what SliceDiff returns where both slices ascend strictly.
  pub slice_diff_ordered-slice_diff :
      (a b : List T) → IsAscending a → IsAscending b → slice_diff_ordered a b ≡ slice_diff a b
  unfolding slice_diff_ordered
  slice_diff_ordered-slice_diff a b ha hb = diff_loop_lem a b [] [] ha hb

-- The members of what SliceDiff returns: in the one and not in the other.
pub has-slice_diff :
    {T : Type 0} ⦃c : Comparable T⦄ (a b : List T) (x : T)
    → (has x (slice_diff a b).0 ≡ (has x a && not (has x b)))
      × (has x (slice_diff a b).1 ≡ (has x b && not (has x a)))
unfolding slice_diff
has-slice_diff a b x = (has-keep (λ z. not (has z b)) x a, has-keep (λ z. not (has z a)) x b)

module _ {T : Type 0} ⦃c : Comparable T⦄ ⦃o : Ordered T⦄ where
  -- A comparison that returns -1, 0 and 1.
  abbrev pub three_way : T → T → ℤ
  three_way x y = if x =? y then pos 0 else if o.lt x y then negsuc 0 else pos 1

  func_loop-diff_loop :
      (fuel : ℕ) (a b only_a only_b : List T)
      → length a + length b < fuel
      → func_loop three_way fuel a b only_a only_b ≡ some (diff_loop a b only_a only_b)
  unfolding func_loop diff_loop
  func_loop-diff_loop zero a b oa ob h = elim h [ ]
  func_loop-diff_loop (suc fuel) [] b oa ob h = refl
  func_loop-diff_loop (suc fuel) (x ∷ a) [] oa ob h = refl
  func_loop-diff_loop (suc fuel) (x ∷ a) (y ∷ b) oa ob h = elim (Bool-cases (x =? y)) [
    | inl e ↦ rw (e, func_loop, diff_loop) (func_loop-diff_loop fuel a b oa ob (omega arith))
    | inr e ↦ elim (Bool-cases (o.lt x y)) [
      | inl l ↦
          rw (e, l, func_loop, diff_loop)
            (func_loop-diff_loop fuel a (y ∷ b) (oa ++ (x ∷ [])) ob (omega arith))
      | inr l ↦
          rw (e, l, func_loop, diff_loop)
            (func_loop-diff_loop fuel (x ∷ a) b oa (ob ++ (y ∷ [])) (omega arith))
    ]
  ]

  -- SliceDiffFunc with a comparison that returns -1, 0 and 1 ends, and on slices that sorting leaves
  -- as they are returns what SliceDiffOrdered returns.
  pub slice_diff_func-slice_diff_ordered :
      (sort_func : List T → List T) (fuel : ℕ) (a b : List T)
      → length (sort_func a) + length (sort_func b) < fuel
      → slice_diff_func three_way sort_func fuel a b
        ≡ some (slice_diff_ordered (sort_func a) (sort_func b))
  unfolding slice_diff_func slice_diff_ordered
  slice_diff_func-slice_diff_ordered sort_func fuel a b h =
      func_loop-diff_loop fuel (sort_func a) (sort_func b) [] [] h

func_loop_stuck :
    {T : Type 0} (cmp : T → T → ℤ) (n fuel : ℕ) (x y : T) (a b only_a only_b : List T)
    → cmp x y ≡ pos (suc (suc n))
    → func_loop cmp fuel (x ∷ a) (y ∷ b) only_a only_b ≡ none
unfolding func_loop
func_loop_stuck cmp n zero x y a b oa ob h = refl
func_loop_stuck cmp n (suc fuel) x y a b oa ob h =
    rw (h, func_loop) (func_loop_stuck cmp n fuel x y a b oa ob h)

-- Where the comparison returns more than 1 for the two first sorted items, no number of rounds is
-- enough for SliceDiffFunc.
pub slice_diff_func_stuck :
    {T : Type 0} (cmp : T → T → ℤ) (sort_func : List T → List T) (a b : List T) (n : ℕ) (x y : T)
    (xs ys : List T)
    → sort_func a ≡ x ∷ xs
    → sort_func b ≡ y ∷ ys
    → cmp x y ≡ pos (suc (suc n))
    → (fuel : ℕ) → slice_diff_func cmp sort_func fuel a b ≡ none
unfolding slice_diff_func
slice_diff_func_stuck cmp sort_func a b n x y xs ys ha hb h fuel =
    rw (ha, hb) (func_loop_stuck cmp n fuel x y xs ys [] [] h)
