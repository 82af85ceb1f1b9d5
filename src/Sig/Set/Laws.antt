-- ===== src/Sig/Set/Laws.antt =====
-- Membership in a set (sig/set.go) after its operations, and its invariant.
use astral_go.Base.{
  ℕ, ◌+◌, ◌≡◌, refl, ap, sym, ◌∙◌, Bool, true, false, ◌||◌, ◌&&◌, not, List, [], ◌∷◌, Comparable,
  ◌=?◌, length, length-append, arith, Bool-cases, inl, inr,
}
use astral_go.Sig.Members.{has, Nodup, eq→≡, has-append, has-keep, Nodup-snoc}
use astral_go.Sig.Set.{Set, count, contains, add_item, add_loop, add, remove_first, remove, select}

pub record IsValid {T : Type 0} ⦃c : Comparable T⦄ (s : Set T) : Type 0 where
  pub different : Nodup s.items
  pub found : (x : T) → has x s.dup ≡ has x s.items

module _ {T : Type 0} ⦃c : Comparable T⦄ where
  add_item-IsValid : (x : T) (s : Set T) → IsValid s → contains x s ≡ false → IsValid (add_item x s)
  unfolding add_item contains has
  add_item-IsValid x s v h = record {
    different = Nodup-snoc x s.items v.different (sym (v.found x) ∙ h);
    found = λ y. ground (arith, has-append y s.items (x ∷ []), v.found y);
  }

  add_loop-IsValid : (idx : ℕ) (xs : List T) (s : Set T) → IsValid s → IsValid (add_loop idx xs s).0
  unfolding add_loop
  add_loop-IsValid idx [] s v = v
  add_loop-IsValid idx (x ∷ xs) s v = elim (Bool-cases (contains x s)) [
    | inl e ↦ rw e (add_loop-IsValid (idx + 1) xs s v)
    | inr e ↦ rw e (add_loop-IsValid (idx + 1) xs (add_item x s) (add_item-IsValid x s v e))
  ]

  -- Add keeps the invariant.
  pub add-IsValid : (xs : List T) (s : Set T) → IsValid s → IsValid (add xs s).0
  unfolding add
  add-IsValid xs s v = add_loop-IsValid 0 xs s v

  contains-add_loop :
      (idx : ℕ) (xs : List T) (s : Set T) (y : T)
      → contains y (add_loop idx xs s).0 ≡ (contains y s || has y xs)
  unfolding add_loop add_item contains has
  contains-add_loop idx [] s y = ground arith
  contains-add_loop idx (x ∷ xs) s y = elim (Bool-cases (has x s.dup)) [
    | inl e ↦ elim (Bool-cases (y =? x)) [
      | inl d ↦
          let same : has y s.dup ≡ true = ap (λ z. has z s.dup) (eq→≡ y x d) ∙ e in
          rw e (contains-add_loop (idx + 1) xs s y ∙ ground arith)
      | inr d ↦ rw e (contains-add_loop (idx + 1) xs s y ∙ ground arith)
    ]
    | inr e ↦ rw e (contains-add_loop (idx + 1) xs (add_item x s) y ∙ ground arith)
  ]

  -- After Add, exactly the items found before and the ones given are found.
  pub contains-add :
      (xs : List T) (s : Set T) (y : T) → contains y (add xs s).0 ≡ (contains y s || has y xs)
  unfolding add
  contains-add xs s y = contains-add_loop 0 xs s y

  count-add_loop :
      (idx : ℕ) (xs : List T) (s : Set T)
      → count (add_loop idx xs s).0 + length (add_loop idx xs s).1 ≡ count s + length xs
  unfolding add_loop count add_item
  count-add_loop idx [] s = refl
  count-add_loop idx (x ∷ xs) s = elim (Bool-cases (contains x s)) [
    | inl e ↦ rw e (omega (arith, count-add_loop (idx + 1) xs s))
    | inr e ↦
        rw e (
          omega (arith, count-add_loop (idx + 1) xs (add_item x s), length-append s.items (x ∷ [])))
  ]

  -- Every item given to Add is counted once: as a new item or as a duplicate error.
  pub count-add :
      (xs : List T) (s : Set T) → count (add xs s).0 + length (add xs s).1 ≡ count s + length xs
  unfolding add
  count-add xs s = count-add_loop 0 xs s

  has-remove_first :
      (x y : T) (xs : List T) → Nodup xs → has y (remove_first x xs) ≡ (has y xs && not (y =? x))
  unfolding has remove_first
  has-remove_first x y [] h = refl
  has-remove_first x y (z ∷ zs) h = elim (Bool-cases (z =? x)) [
    | inl e ↦
        let same : (y =? z) ≡ (y =? x) = ap (λ t. y =? t) (eq→≡ z x e) in
        elim (Bool-cases (y =? x)) [
          | inl d ↦
              let gone : has y zs ≡ false =
                ap (λ t. has t zs) (eq→≡ y x d ∙ sym (eq→≡ z x e)) ∙ h.0 in
              rw e (ground (arith, gone, d))
          | inr d ↦ rw e (ground (arith, same, d))
        ]
    | inr e ↦ elim (Bool-cases (y =? z)) [
      | inl d ↦
          let other : (y =? x) ≡ false = ap (λ t. t =? x) (eq→≡ y z d) ∙ e in
          rw e (ground (arith, other, d))
      | inr d ↦ rw e (ground (arith, d, has-remove_first x y zs h.1))
    ]
  ]

  Nodup-remove_first : (x : T) (xs : List T) → Nodup xs → Nodup (remove_first x xs)
  unfolding remove_first has
  Nodup-remove_first x [] h = tt
  Nodup-remove_first x (z ∷ zs) h = elim (Bool-cases (z =? x)) [
    | inl e ↦ rw e h.1
    | inr e ↦ rw e (ground (arith, h.0, has-remove_first x z zs h.1), Nodup-remove_first x zs h.1)
  ]

  -- Remove keeps a set valid: no item twice, and the map finds exactly the items.
  pub remove-IsValid : (x : T) (s : Set T) → IsValid s → IsValid (remove x s).0
  unfolding remove
  remove-IsValid x s v = elim (Bool-cases (has x s.dup)) [
    | inl e ↦ rw e record {
      different = Nodup-remove_first x s.items v.different;
      found = λ y.
          has-keep (λ z. not (z =? x)) y s.dup
          ∙ ap (λ b. b && not (y =? x)) (v.found y)
          ∙ sym (has-remove_first x y s.items v.different);
    }
    | inr e ↦ rw e v
  ]

  -- Remove says whether the item was there, and after it exactly that item is not found any more.
  pub contains-remove :
      (x y : T) (s : Set T)
      → ((remove x s).1 ≡ contains x s)
        × (contains y (remove x s).0 ≡ (contains y s && not (y =? x)))
  unfolding remove contains
  contains-remove x y s = elim (Bool-cases (has x s.dup)) [
    | inl e ↦ rw e (refl, has-keep (λ z. not (z =? x)) y s.dup)
    | inr e ↦ rw e (
      refl,
      elim (Bool-cases (y =? x)) [
        | inl d ↦
            let gone : has y s.dup ≡ false = ap (λ t. has t s.dup) (eq→≡ y x d) ∙ e in
            ground (arith, gone, d)
        | inr d ↦ ground (arith, d)
      ],
    )
  ]

  -- Select returns items that the set has and that the test accepts, all of them.
  pub has-select :
      (fn : T → Bool) (s : Set T) (x : T) → IsValid s → has x (select fn s) ≡ (contains x s && fn x)
  unfolding select contains
  has-select fn s x v = has-keep fn x s.items ∙ ap (λ b. b && fn x) (sym (v.found x))
