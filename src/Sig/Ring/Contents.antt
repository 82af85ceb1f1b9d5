-- ===== src/Sig/Ring/Contents.antt =====
-- The contents of a ring, oldest first, and how storing an item changes them.
use astral_go.Base.{
  ℕ, zero, suc, ◌+◌, ◌-◌, ◌*◌, ◌%◌, ◌≤◌, ◌<◌, ◌≡◌, ◌≢◌, refl, ap, ◌∙◌, sym, List, [], ◌∷◌, ◌++◌,
  length, get_or, set, arith, ◌⊎◌, inl, inr, ltb, ltb→lt, Bool-cases,
}
use astral_go.Sig.Ring.{Ring, clone_loop}

-- The invariant of a ring: the slice has its capacity, the positions lie in it, and the head is
-- `size` items after the tail.
pub record IsValid {T : Type 0} (r : Ring T) : Type 0 where
  pub length_items : length r.items ≡ r.capacity
  pub positive : 0 < r.capacity
  pub tail_in : r.tail < r.capacity
  pub size_fits : r.size ≤ r.capacity
  pub head_after : r.head ≡ (r.tail + r.size) % r.capacity

module _ {T : Type 0} where
  pub get_or-set_self :
      (xs : List T) (i : ℕ) (v z : T) → i < length xs → get_or (set xs i v) i z ≡ v
  get_or-set_self [] i v z h = elim h [ ]
  get_or-set_self (x ∷ xs) zero v z h = refl
  get_or-set_self (x ∷ xs) (suc i) v z h = get_or-set_self xs i v z (omega arith)

  pub get_or-set_ne :
      (xs : List T) (i j : ℕ) (v z : T) → i ≢ j → get_or (set xs i v) j z ≡ get_or xs j z
  get_or-set_ne [] i j v z h = refl
  get_or-set_ne (x ∷ xs) zero zero v z h = absurd (h refl)
  get_or-set_ne (x ∷ xs) zero (suc j) v z h = refl
  get_or-set_ne (x ∷ xs) (suc i) zero v z h = refl
  get_or-set_ne (x ∷ xs) (suc i) (suc j) v z h = get_or-set_ne xs i j v z (λ e. h (ap suc e))

-- Positions around the ring.
pub wrap_small : (a c : ℕ) → a < c → a % c ≡ a
wrap_small a c h = grind arith

pub wrap_large : (a c : ℕ) → c ≤ a → a < 2 * c → a % c ≡ a - c
wrap_large a c h k = grind arith

pub wrap-lt : (a c : ℕ) → 0 < c → a % c < c
wrap-lt a c h = grind arith

wrap_cases : (a c : ℕ) → a < 2 * c → ((a < c) × (a % c ≡ a)) ⊎ ((c ≤ a) × (a % c ≡ a - c))
wrap_cases a c h = elim (Bool-cases (ltb a c)) [
  | inl e ↦ inl (ltb→lt a c e, wrap_small a c (ltb→lt a c e))
  | inr e ↦ let le : c ≤ a = ground arith in inr (le, wrap_large a c le h)
]

pub wrap_step : (p k c : ℕ) → p < c → k < c → ((p + 1) % c + k) % c ≡ (p + (k + 1)) % c
wrap_step p k c hp hk =
    let same : (p + 1) + k ≡ p + (k + 1) = omega arith in
    elim (wrap_cases (p + 1) c (omega arith)) [
      | inl (lt, e) ↦ rw (e, same) refl
      | inr (le, e) ↦
          let at_zero : (p + 1) % c ≡ 0 = e ∙ omega arith in
          let left : (0 + k) % c ≡ 0 + k = wrap_small (0 + k) c (omega arith) in
          let right : (p + (k + 1)) % c ≡ p + (k + 1) - c =
            wrap_large (p + (k + 1)) c (omega arith) (omega arith) in
          rw (at_zero, left, right) (omega arith)
    ]

pub wrap_ne : (p k c : ℕ) → p < c → k < c → 0 < k → (p + k) % c ≢ p
wrap_ne p k c hp hk h e = elim (wrap_cases (p + k) c (omega arith)) [
  | inl (lt, w) ↦ omega arith
  | inr (le, w) ↦ omega arith
]

pub wrap_distinct : (p k j c : ℕ) → p < c → k < j → j < c → (p + k) % c ≢ (p + j) % c
wrap_distinct p k j c hp hk hj e = elim (wrap_cases (p + k) c (omega arith)) [
  | inl (a, u) ↦ elim (wrap_cases (p + j) c (omega arith)) [
    | inl w ↦ omega arith
    | inr w ↦ omega arith
  ]
  | inr (a, u) ↦ elim (wrap_cases (p + j) c (omega arith)) [
    | inl w ↦ omega arith
    | inr w ↦ omega arith
  ]
]

pub wrap_next : (p k c : ℕ) → p < c → k < c → ((p + k) % c + 1) % c ≡ (p + (k + 1)) % c
wrap_next p k c hp hk =
    let same : (p + k) + 1 ≡ p + (k + 1) = omega arith in
    elim (wrap_cases (p + k) c (omega arith)) [
      | inl (lt, e) ↦ rw (e, same) refl
      | inr (le, e) ↦
          let left : (p + k - c + 1) % c ≡ p + k - c + 1 =
            wrap_small (p + k - c + 1) c (omega arith) in
          let right : (p + (k + 1)) % c ≡ p + (k + 1) - c =
            wrap_large (p + (k + 1)) c (omega arith) (omega arith) in
          rw (e, left, right) (omega arith)
    ]

pub wrap_full : (p c : ℕ) → p < c → (p + c) % c ≡ p
wrap_full p c h = wrap_large (p + c) c (omega arith) (omega arith) ∙ omega arith

module _ {T : Type 0} where
  -- Writing at a position that the loop of Clone does not reach changes nothing of what it copies.
  pub clone_loop-set :
      (items : List T) (z v : T) (c n p q : ℕ)
      → p < c
      → n ≤ c
      → ((k : ℕ) → k < n → (p + k) % c ≢ q)
      → clone_loop (set items q v) c z n p ≡ clone_loop items c z n p
  unfolding clone_loop
  clone_loop-set items z v c zero p q hp hn far = refl
  clone_loop-set items z v c (suc n) p q hp hn far =
      let here : q ≢ p =
        (λ e. far 0 (omega arith) (wrap_small (p + 0) c (omega arith) ∙ omega (arith, e))) in
      let rest : clone_loop (set items q v) c z n ((p + 1) % c)
          ≡ clone_loop items c z n ((p + 1) % c) =
        clone_loop-set items z v c n ((p + 1) % c) q (wrap-lt (p + 1) c (omega arith)) (omega arith)
          (λ k hk e. far (k + 1) (omega arith) (sym (wrap_step p k c hp (omega arith)) ∙ e)) in
      rw (get_or-set_ne items q p v z here, rest) refl

  -- The last item that the loop of Clone copies.
  pub clone_loop-snoc :
      (items : List T) (z : T) (c n p : ℕ)
      → p < c
      → n < c
      → clone_loop items c z (suc n) p
        ≡ clone_loop items c z n p ++ (get_or items ((p + n) % c) z ∷ [])
  unfolding clone_loop
  clone_loop-snoc items z c zero p hp hn =
      let here : (p + 0) % c ≡ p = wrap_small (p + 0) c (omega arith) ∙ omega arith in rw here refl
  clone_loop-snoc items z c (suc n) p hp hn =
      let next : p + (n + 1) ≡ p + suc n = omega arith in
      let rest =
        clone_loop-snoc items z c n ((p + 1) % c) (wrap-lt (p + 1) c (omega arith)) (omega arith) in
      ap (λ l. get_or items p z ∷ l) (rest ∙ rw (wrap_step p n c hp (omega arith), next) refl)
