-- ===== src/Sig/Map/Laws.antt =====
-- Reading a map of sig/map.go after its operations; the conversion of sig/map_slice.go.
use astral_go.Base.{
  ◌≡◌, refl, ap, sym, ◌∙◌, ◌⊎◌, inl, inr, true, false, Option, none, some, List, [], ◌∷◌, ◌++◌, map,
  if◌then◌else◌, Comparable, ◌=?◌, arith, Bool-cases, Option-cases, append-nil, append_assoc, All,
}
use astral_go.Sig.Members.{has, Nodup, eq→≡, eq_self, eq_sym}
use astral_go.Sig.Map.{
  Entries, get, assign, erase, set_new, replace, delete, copy_loop, clone, keys, map_slice_loop,
  map_slice,
}

module _ {V : Type 0} where
  unfoldable or_else : Option V → Option V → Option V
  or_else none b = b
  or_else (some v) b = some v

  or_else-none : (a : Option V) → or_else a none ≡ a
  unfolding or_else
  or_else-none none = refl
  or_else-none (some v) = refl

module _ {K V : Type 0} ⦃c : Comparable K⦄ where
  pub get-assign :
      (k x : K) (v : V) (m : Entries K V)
      → get x (assign k v m) ≡ (if x =? k then some v else get x m)
  unfolding get assign
  get-assign k x v [] = refl
  get-assign k x v ((key, old) ∷ m) = elim (Bool-cases (k =? key)) [
    | inl e ↦
        let same : (x =? key) ≡ (x =? k) = ap (λ t. x =? t) (sym (eq→≡ k key e)) in
        rw (e, same) (elim (Bool-cases (x =? k)) [ inl d ↦ rw d refl | inr d ↦ rw d refl ])
    | inr e ↦ elim (Bool-cases (x =? key)) [
      | inl d ↦
          let other : (x =? k) ≡ false = ap (λ t. t =? k) (eq→≡ x key d) ∙ eq_sym key k ∙ e in
          rw (e, d, other) refl
      | inr d ↦ rw (e, d) (get-assign k x v m)
    ]
  ]

  pub get-erase :
      (k x : K) (m : Entries K V) → get x (erase k m) ≡ (if x =? k then none else get x m)
  unfolding get erase
  get-erase k x [] = elim (Bool-cases (x =? k)) [ inl d ↦ rw d refl | inr d ↦ rw d refl ]
  get-erase k x ((key, v) ∷ m) = elim (Bool-cases (k =? key)) [
    | inl e ↦
        let same : (x =? key) ≡ (x =? k) = ap (λ t. x =? t) (sym (eq→≡ k key e)) in
        rw (e, same)
          (get-erase k x m ∙ elim (Bool-cases (x =? k)) [ inl d ↦ rw d refl | inr d ↦ rw d refl ])
    | inr e ↦ elim (Bool-cases (x =? key)) [
      | inl d ↦
          let other : (x =? k) ≡ false = ap (λ t. t =? k) (eq→≡ x key d) ∙ eq_sym key k ∙ e in
          rw (e, d, other) refl
      | inr d ↦ rw (e, d) (get-erase k x m)
    ]
  ]

  -- After Set a key that was there has its old value, a key that was not has the new one, and no
  -- other key changes; the value that Set returns is the one that the key then has.
  pub get-set_new :
      (k x : K) (v : V) (m : Entries K V)
      → (get x (set_new k v m).0
          ≡ elim (get k m) [ some old ↦ get x m | none ↦ if x =? k then some v else get x m ])
        × (get k (set_new k v m).0 ≡ some (set_new k v m).1)
  unfolding set_new
  get-set_new k x v m = elim (Option-cases (get k m)) [
    | inl e ↦ rw (e, set_new) (get-assign k x v m, get-assign k k v m ∙ rw (eq_self k) refl)
    | inr (old, e) ↦ rw (e, set_new) (refl, e)
  ]

  pub get-delete :
      (k x : K) (m : Entries K V)
      → (get x (delete k m).0 ≡ (if x =? k then none else get x m)) × ((delete k m).1 ≡ get k m)
  unfolding delete
  get-delete k x m = elim (Option-cases (get k m)) [
    | inl e ↦
        let missing : get x m ≡ (if x =? k then none else get x m) = elim (Bool-cases (x =? k)) [
          | inl d ↦ rw d (ap (λ t. get t m) (eq→≡ x k d) ∙ e)
          | inr d ↦ rw d refl
        ] in
        rw (e, delete) (missing, refl)
    | inr (old, e) ↦ rw (e, delete) (get-erase k x m, refl)
  ]

  pub get-replace :
      (k x : K) (v : V) (m : Entries K V)
      → (get x (replace k v m).0 ≡ (if x =? k then some v else get x m))
        × ((replace k v m).1 ≡ get k m)
  unfolding replace
  get-replace k x v m = (get-assign k x v m, refl)

  -- A key that the entries have is found, and no other.
  get-keys :
      (k : K) (m : Entries K V) → has k (keys m) ≡ elim (get k m) [ some v ↦ true | none ↦ false ]
  unfolding has keys get
  get-keys k [] = refl
  get-keys k ((key, v) ∷ m) = elim (Bool-cases (k =? key)) [
    | inl e ↦ rw e refl
    | inr e ↦ rw e (get-keys k m)
  ]

  get_missing : (k : K) (m : Entries K V) → has k (keys m) ≡ false → get k m ≡ none
  get_missing k m h = elim (Option-cases (get k m)) [
    | inl e ↦ e
    | inr (v, e) ↦
        let found : has k (keys m) ≡ true = get-keys k m ∙ rw e refl in
        absurd (ground (arith, found, h))
  ]

  or_else-swap :
      (k x : K) (v : V) (a b : Option V)
      → ((x =? k) ≡ true → a ≡ none)
      → or_else a (if x =? k then some v else b) ≡ or_else (if x =? k then some v else a) b
  unfolding or_else
  or_else-swap k x v a b absent = elim (Bool-cases (x =? k)) [
    | inl e ↦ rw (e, absent e) refl
    | inr e ↦ rw e refl
  ]

  get-copy_loop :
      (m t : Entries K V) (x : K)
      → Nodup (keys m)
      → get x (copy_loop m t) ≡ or_else (get x m) (get x t)
  unfolding copy_loop get keys or_else
  get-copy_loop [] t x h = refl
  get-copy_loop ((k, v) ∷ m) t x h =
      get-copy_loop m (assign k v t) x h.1
      ∙ ap (λ o. or_else (get x m) o) (get-assign k x v t)
      ∙ or_else-swap k x v (get x m) (get x t)
          (λ e. get_missing x m (ap (λ y. has y (keys m)) (eq→≡ x k e) ∙ h.0))

  -- A clone of a map that has each key once reads like the map.
  pub get-clone : (m : Entries K V) (x : K) → Nodup (keys m) → get x (clone m) ≡ get x m
  unfolding clone get
  get-clone m x h = get-copy_loop m [] x h ∙ or_else-none (get x m)

map_slice_loop_lem :
    {A B E : Type 0} (conv : A → B ⊎ E) (f : A → B) (xs : List A) (out : List B)
    → All (λ a. conv a ≡ inl (f a)) xs
    → map_slice_loop conv xs out ≡ inl (out ++ map f xs)
unfolding map_slice_loop
map_slice_loop_lem conv f [] out h = ap inl (sym (append-nil out))
map_slice_loop_lem conv f (x ∷ xs) out h =
    rw (h.0, map_slice_loop)
      (map_slice_loop_lem conv f xs (out ++ (f x ∷ [])) h.1
        ∙ ap inl (append_assoc out (f x ∷ []) (map f xs)))

-- MapSlice converts every item, in order, where no conversion fails.
pub map_slice-map :
    {A B E : Type 0} (conv : A → B ⊎ E) (f : A → B) (xs : List A)
    → All (λ a. conv a ≡ inl (f a)) xs
    → map_slice conv xs ≡ inl (map f xs)
unfolding map_slice
map_slice-map conv f xs h = map_slice_loop_lem conv f xs [] h
