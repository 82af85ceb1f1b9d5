-- ===== src/Sig/Members.antt =====
-- Membership by Go's `==`, for maps with empty values and for loops that search a slice.
use mathlib.Core.Path.{subst}
use astral_go.Base.{
  ◌≡◌, refl, ap, sym, ◌∙◌, Bool, true, false, ◌||◌, ◌&&◌, List, [], ◌∷◌, ◌++◌, if◌then◌else◌,
  Comparable, ◌=?◌, arith, Bool-cases, inl, inr, suc, ◌≤◌, length, All,
}

module _ {T : Type 0} ⦃c : Comparable T⦄ where
  unfoldable pub has : T → List T → Bool
  has x [] = false
  has x (y ∷ ys) = (x =? y) || has x ys

  unfoldable pub keep : (T → Bool) → List T → List T
  keep f [] = []
  keep f (y ∷ ys) = let rest = keep f ys in if f y then y ∷ rest else rest

  -- No item twice.
  abbrev pub Nodup : List T → Type 0
  Nodup [] = Unit
  Nodup (x ∷ xs) = (has x xs ≡ false) × Nodup xs

  pub eq_self : (x : T) → (x =? x) ≡ true
  eq_self x = (c.eq_iff x x).1 refl

  pub eq→≡ : (x y : T) → (x =? y) ≡ true → x ≡ y
  eq→≡ x y h = (c.eq_iff x y).0 h

  pub eq_sym : (x y : T) → (x =? y) ≡ (y =? x)
  eq_sym x y = elim (Bool-cases (x =? y)) [
    | inl e ↦ ap (λ z. z =? y) (eq→≡ x y e) ∙ ap (λ z. y =? z) (sym (eq→≡ x y e))
    | inr e ↦ elim (Bool-cases (y =? x)) [
      | inl d ↦ ap (λ z. z =? y) (sym (eq→≡ y x d)) ∙ ap (λ z. y =? z) (eq→≡ y x d)
      | inr d ↦ e ∙ sym d
    ]
  ]

  pub has-append : (x : T) (xs ys : List T) → has x (xs ++ ys) ≡ (has x xs || has x ys)
  unfolding has
  has-append x [] ys = refl
  has-append x (y ∷ xs) ys = ground (arith, has-append x xs ys)

  pub has-keep : (f : T → Bool) (x : T) (ys : List T) → has x (keep f ys) ≡ (has x ys && f x)
  unfolding has keep
  has-keep f x [] = refl
  has-keep f x (y ∷ ys) = elim (Bool-cases (x =? y)) [
    | inl e ↦ let same = ap f (eq→≡ x y e) in ground (arith, has-keep f x ys, same)
    | inr e ↦ ground (arith, has-keep f x ys)
  ]

  pub Nodup-snoc : (x : T) (xs : List T) → Nodup xs → has x xs ≡ false → Nodup (xs ++ (x ∷ []))
  unfolding has
  Nodup-snoc x [] h n = (refl, tt)
  Nodup-snoc x (y ∷ ys) h n =
      (has-append y ys (x ∷ []) ∙ ground (arith, eq_sym x y), Nodup-snoc x ys h.1 (ground arith))

  unfoldable remove_one : T → List T → List T
  remove_one x [] = []
  remove_one x (y ∷ ys) = let rest = remove_one x ys in if x =? y then ys else y ∷ rest

  length-remove_one :
      (x : T) (ys : List T) → has x ys ≡ true → length ys ≡ suc (length (remove_one x ys))
  unfolding has remove_one
  length-remove_one x [] h = cc
  length-remove_one x (y ∷ ys) h = ground (arith, length-remove_one x ys)

  has-remove_one :
      (x z : T) (ys : List T) → (z =? x) ≡ false → has z ys ≡ true → has z (remove_one x ys) ≡ true
  unfolding has remove_one
  has-remove_one x z [] n h = h
  has-remove_one x z (y ∷ ys) n h = elim (Bool-cases (x =? y)) [
    | inl e ↦ let same = ap (λ w. z =? w) (eq→≡ x y e) in ground (arith, same)
    | inr e ↦ ground (arith, has-remove_one x z ys n)
  ]

  -- Every item of the first list is in the second.
  abbrev pub Within : List T → List T → Type 0
  Within xs ys = All (λ x. has x ys ≡ true) xs

  Within-remove_one :
      (x : T) (xs ys : List T) → has x xs ≡ false → Within xs ys → Within xs (remove_one x ys)
  unfolding has
  Within-remove_one x [] ys n h = tt
  Within-remove_one x (z ∷ xs) ys n h = (
    has-remove_one x z ys (ground (arith, eq_sym x z)) h.0,
    Within-remove_one x xs ys (ground arith) h.1,
  )

  -- Distinct items of a list are no more than the list is long.
  pub length-Within : (xs ys : List T) → Nodup xs → Within xs ys → length xs ≤ length ys
  length-Within [] ys d h = omega arith
  length-Within (x ∷ xs) ys d h = omega (
    arith,
    length-remove_one x ys h.0,
    length-Within xs (remove_one x ys) d.1 (Within-remove_one x xs ys d.0 h.1),
  )

  pub All-has {ℓ} : (P : T → Type ℓ) (x : T) (xs : List T) → All P xs → has x xs ≡ true → P x
  unfolding has
  All-has P x [] h m = absurd cc
  All-has P x (y ∷ ys) h m = elim (Bool-cases (x =? y)) [
    | inl e ↦ subst P (sym (eq→≡ x y e)) h.0
    | inr e ↦ All-has P x ys h.1 (ground (arith, m, e))
  ]

  pub has-All {ℓ} : (P : T → Type ℓ) (xs : List T) → ((x : T) → has x xs ≡ true → P x) → All P xs
  unfolding has
  has-All P [] h = tt
  has-All P (y ∷ ys) h =
      (h y (ground (arith, eq_self y)), has-All P ys (λ x m. h x (ground (arith, m))))
