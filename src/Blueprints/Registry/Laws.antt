-- ===== src/Blueprints/Registry/Laws.antt =====
-- What the registry of astral/blueprints.go keeps true under Add and RegisterBlueprint.
use astral_go.Base.{
  ℕ, ◌≡◌, refl, Bool, true, false, none, List, [], ◌∷◌, ◌++◌, append_assoc, append-nil, length,
  arith, All, Bool-cases, Option-cases, inl, inr, ◌⊎◌, ◌=?◌, str_comparable,
}
use astral_go.Sig.Map.{get, assign, set_new}
use astral_go.Blueprints.Spec.{Field, Blueprint, struct_kind, alias_kind, kind, referenced_type}
use astral_go.Blueprints.Validate.{validate_blueprint}
use astral_go.Blueprints.Registry.{
  Entry, prototype, registered, Level, Chain, is_registered, validate_references, check_blueprint,
  register_blueprint, add_check, add_loop, add,
}

module _ {A : Type 0} where
  -- The references of a Blueprint resolve in a registry.
  unfoldable pub IsResolved : Chain A → Blueprint → Type 0
  IsResolved chain b =
      ((kind b ≡ struct_kind)
        × All
            (λ f.
              (length (referenced_type f.spec) ≡ 0)
              ⊎ (is_registered (referenced_type f.spec) chain ≡ true))
            b.fields)
      ⊎ ((kind b ≡ alias_kind) × (is_registered b.underlying chain ≡ true))

  unfoldable pub IsSoundEntry : Chain A → List ℕ → Entry A → Type 0
  IsSoundEntry chain name (prototype o) = Unit
  IsSoundEntry chain name (registered b) =
      (b.type_name ≡ name) × (validate_blueprint b ≡ none) × IsResolved chain b

  -- No name twice, and every entry is sound in the registry of the entries before it.
  unfoldable pub IsGrown : Chain A → Level A → Level A → Type 0
  IsGrown parents before [] = Unit
  IsGrown parents before ((name, e) ∷ rest) =
      (get name before ≡ none)
      × IsSoundEntry (before ∷ parents) name e
      × IsGrown parents (before ++ ((name, e) ∷ [])) rest

  assign_new :
      (k : List ℕ) (e : Entry A) (m : Level A) → get k m ≡ none → assign k e m ≡ m ++ ((k, e) ∷ [])
  unfolding get assign
  assign_new k e [] h = refl
  assign_new k e ((key, v) ∷ m) h = elim (Bool-cases (k =? key)) [
    | inl d ↦ absurd (ground (arith, d, h))
    | inr d ↦ ground (arith, d, h, assign_new k e m)
  ]

  IsGrown-append :
      (parents : Chain A) (before rest : Level A) (name : List ℕ) (e : Entry A)
      → IsGrown parents before rest
      → get name (before ++ rest) ≡ none
      → IsSoundEntry ((before ++ rest) ∷ parents) name e
      → IsGrown parents before (rest ++ ((name, e) ∷ []))
  unfolding IsGrown
  IsGrown-append parents before [] name e h new sound =
      (rw (append-nil before) at new, rw (append-nil before) at sound, tt)
  IsGrown-append parents before ((n, d) ∷ rest) name e h new sound =
      let assoc = append_assoc before ((n, d) ∷ []) rest in
      (
        h.0,
        h.1,
        IsGrown-append parents (before ++ ((n, d) ∷ [])) rest name e h.2 (rw assoc new)
            (rw assoc sound),
      )

  references_resolve :
      (chain : Chain A) (fs : List Field)
      → validate_references chain fs ≡ none
      → All
          (λ f.
            (length (referenced_type f.spec) ≡ 0)
            ⊎ (is_registered (referenced_type f.spec) chain ≡ true))
          fs
  unfolding validate_references
  references_resolve chain [] h = tt
  references_resolve chain (f ∷ fs) h = ground (arith, references_resolve chain fs)

  pub checked :
      (chain : Chain A) (b : Blueprint)
      → check_blueprint chain b ≡ none
      → IsSoundEntry chain b.type_name (registered b) × (is_registered b.type_name chain ≡ false)
  unfolding check_blueprint IsSoundEntry IsResolved
  checked chain b h = ground (arith, references_resolve chain b.fields)

  -- The local entries of a registry are grown over its parents.
  unfoldable pub IsSound : Chain A → Level A → Type 0
  IsSound parents entries = IsGrown parents [] entries

  pub empty-IsSound : (parents : Chain A) → IsSound parents []
  unfolding IsSound IsGrown
  empty-IsSound parents = tt

  pub absent :
      (n : List ℕ) (entries : Level A) (parents : Chain A)
      → is_registered n (entries ∷ parents) ≡ false
      → get n entries ≡ none
  unfolding is_registered
  absent n entries parents h = ground (arith, h)

  set_new-IsSound :
      (parents : Chain A) (entries : Level A) (name : List ℕ) (e : Entry A)
      → IsSound parents entries
      → is_registered name (entries ∷ parents) ≡ false
      → IsSoundEntry (entries ∷ parents) name e
      → (set_new name e entries ≡ (entries ++ ((name, e) ∷ []), e, true))
        × IsSound parents (entries ++ ((name, e) ∷ []))
  unfolding set_new IsSound
  set_new-IsSound parents entries name e h new sound =
      let none_there = absent name entries parents new in
      (
        rw (none_there, set_new, assign_new name e entries none_there) refl,
        IsGrown-append parents [] entries name e h none_there sound,
      )

  -- RegisterBlueprint keeps a registry sound, and refuses nothing that passes its checks.
  pub register_blueprint-IsSound :
      (parents : Chain A) (b : Blueprint) (entries : Level A)
      → IsSound parents entries
      → IsSound parents (register_blueprint parents b entries).0
  unfolding register_blueprint
  register_blueprint-IsSound parents b entries h =
      elim (Option-cases (check_blueprint (entries ∷ parents) b)) [
        | inr (e, c) ↦ rw (c, register_blueprint) h
        | inl c ↦
            let (sound, new) = checked (entries ∷ parents) b c in
            let (set, grown) =
              set_new-IsSound parents entries b.type_name (registered b) h new sound in
            rw (c, register_blueprint, set) grown
      ]

  module _ (object_type : A → List ℕ) (is_populated : A → Bool) where
    add_loop-IsSound :
        (parents : Chain A) (os : List A) (entries : Level A)
        → IsSound parents entries
        → IsSound parents (add_loop object_type is_populated parents os entries).0
    unfolding add_loop
    add_loop-IsSound parents [] entries h = h
    add_loop-IsSound parents (o ∷ os) entries h =
        elim (Bool-cases (is_registered (object_type o) (entries ∷ parents))) [
          | inl e ↦ rw e h
          | inr e ↦
              let (set, grown) =
                set_new-IsSound parents entries (object_type o) (prototype o) h e
                  (unfold IsSoundEntry in tt) in
              rw (e, set) (add_loop-IsSound parents os _ grown)
        ]

    -- Add keeps a registry sound, also where it stops at an error.
    pub add-IsSound :
        (parents : Chain A) (os : List A) (entries : Level A)
        → IsSound parents entries
        → IsSound parents (add object_type is_populated parents os entries).0
    unfolding add
    add-IsSound parents os entries h = elim (Option-cases (add_check object_type is_populated os)) [
      | inr (e, c) ↦ rw (c, add) h
      | inl c ↦ rw (c, add) (add_loop-IsSound parents os entries h)
    ]
