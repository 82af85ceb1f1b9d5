-- ===== src/Blueprints/Order/References.antt =====
-- The references that orderBlueprintsByReference of astral/blueprints.go looks at, field by field,
-- against the pairs of names in which the counters are explained.
use astral_go.Base.{
  ℕ, ◌≡◌, ap, true, false, List, [], ◌∷◌, length, str_comparable, ◌=?◌, arith, Bool-cases, inl, inr,
  ◌⊎◌, All, All-weaken, All-append, All-append_left, All-append_right, Any, Any-append,
}
use astral_go.Sig.Members.{has, eq_self}
use astral_go.Blueprints.Spec.{Field, Blueprint, referenced_type}
use astral_go.Blueprints.Order.{is_skipped}
use astral_go.Blueprints.Order.Counts.{field_pairs, pairs}

-- A property of every reference to another name of the set, from the name to the name that refers
-- to it.
abbrev pub EveryOther : (List ℕ → List ℕ → Type 0) → List (List ℕ) → List Blueprint → Type 0
EveryOther R in_set = All (λ b.
    All
      (λ f.
        (length (referenced_type f.spec) ≡ 0)
        ⊎ (referenced_type f.spec ≡ b.type_name)
        ⊎ (has (referenced_type f.spec) in_set ≡ false)
        ⊎ R (referenced_type f.spec) b.type_name)
      b.fields)

-- A property of every reference, from a name to the name that refers to it, that is not skipped.
abbrev pub Every {ℓ} : (List ℕ → List ℕ → Type ℓ) → List (List ℕ) → List Blueprint → Type ℓ
Every R in_set = All (λ b.
    All
      (λ f.
        (is_skipped in_set b.type_name (referenced_type f.spec) ≡ true)
        ⊎ R (referenced_type f.spec) b.type_name)
      b.fields)

abbrev pub Some : (List ℕ → List ℕ → Type 0) → List (List ℕ) → List Blueprint → Type 0
Some R in_set = Any (λ b.
    Any
      (λ f.
        (is_skipped in_set b.type_name (referenced_type f.spec) ≡ false)
        × R (referenced_type f.spec) b.type_name)
      b.fields)

module _ (R : List ℕ → List ℕ → Type 0) (in_set : List (List ℕ)) where
  reference_cases :
      (name ref : List ℕ)
      → (length ref ≡ 0) ⊎ (ref ≡ name) ⊎ (has ref in_set ≡ false) ⊎ R ref name
      → (is_skipped in_set name ref ≡ true) ⊎ R ref name
  unfolding is_skipped
  reference_cases name ref (inl e) = inl (ground (arith, e))
  reference_cases name ref (inr (inl e)) = inl (ground (arith, eq_self name, ap (λ r. r =? name) e))
  reference_cases name ref (inr (inr (inl e))) = inl (ground (arith, e))
  reference_cases name ref (inr (inr (inr r))) = inr r

  pub EveryOther-Every : (bps : List Blueprint) → EveryOther R in_set bps → Every R in_set bps
  EveryOther-Every bps h =
      All-weaken _ _
        (λ b. All-weaken _ _ (λ f. reference_cases b.type_name (referenced_type f.spec)) b.fields)
        bps h

  field_pairs-Every :
      (name : List ℕ) (fs : List Field)
      → All (λ e. R e.0 e.1) (field_pairs in_set name fs)
      → All
          (λ f.
            (is_skipped in_set name (referenced_type f.spec) ≡ true)
            ⊎ R (referenced_type f.spec) name)
          fs
  unfolding field_pairs
  field_pairs-Every name [] h = tt
  field_pairs-Every name (f ∷ fs) h =
      elim (Bool-cases (is_skipped in_set name (referenced_type f.spec))) [
        | inl e ↦ (inl e, field_pairs-Every name fs (rw (e, field_pairs) at h))
        | inr e ↦ let k = rw (e, field_pairs) at h in (inr k.0, field_pairs-Every name fs k.1)
      ]

  pub pairs-Every :
      (bps : List Blueprint) → All (λ e. R e.0 e.1) (pairs in_set bps) → Every R in_set bps
  unfolding pairs
  pairs-Every [] h = tt
  pairs-Every (b ∷ bps) h =
      let own = field_pairs in_set b.type_name b.fields in
      (
        field_pairs-Every b.type_name b.fields
            (All-append_left (λ e. R e.0 e.1) own (pairs in_set bps) h),
        pairs-Every bps (All-append_right (λ e. R e.0 e.1) own (pairs in_set bps) h),
      )

  Every-field_pairs :
      (name : List ℕ) (fs : List Field)
      → All
          (λ f.
            (is_skipped in_set name (referenced_type f.spec) ≡ true)
            ⊎ R (referenced_type f.spec) name)
          fs
      → All (λ e. (has e.0 in_set ≡ true) × R e.0 e.1) (field_pairs in_set name fs)
  unfolding field_pairs is_skipped
  Every-field_pairs name [] h = tt
  Every-field_pairs name (f ∷ fs) h =
      elim (Bool-cases (is_skipped in_set name (referenced_type f.spec))) [
        | inl e ↦ rw (e, field_pairs) (Every-field_pairs name fs h.1)
        | inr e ↦
            rw (e, field_pairs)
              (elim h.0 [
                | inl skipped ↦ absurd (ground (arith, skipped, e))
                | inr r ↦ ((ground (arith, e), r), Every-field_pairs name fs h.1)
              ])
      ]

  pub Every-pairs :
      (bps : List Blueprint)
      → Every R in_set bps
      → All (λ e. (has e.0 in_set ≡ true) × R e.0 e.1) (pairs in_set bps)
  unfolding pairs
  Every-pairs [] h = tt
  Every-pairs (b ∷ bps) h =
      All-append (λ e. (has e.0 in_set ≡ true) × R e.0 e.1)
        (field_pairs in_set b.type_name b.fields) (pairs in_set bps)
        (Every-field_pairs b.type_name b.fields h.0) (Every-pairs bps h.1)

  field_pairs-Some :
      (name : List ℕ) (fs : List Field)
      → Any (λ e. R e.0 e.1) (field_pairs in_set name fs)
      → Any
          (λ f.
            (is_skipped in_set name (referenced_type f.spec) ≡ false)
            × R (referenced_type f.spec) name)
          fs
  unfolding field_pairs
  field_pairs-Some name [] h = h
  field_pairs-Some name (f ∷ fs) h =
      elim (Bool-cases (is_skipped in_set name (referenced_type f.spec))) [
        | inl e ↦ inr (field_pairs-Some name fs (rw (e, field_pairs) at h))
        | inr e ↦ elim (rw (e, field_pairs) at h) [
          | inl r ↦ inl (e, r)
          | inr r ↦ inr (field_pairs-Some name fs r)
        ]
      ]

  pub pairs-Some :
      (bps : List Blueprint) → Any (λ e. R e.0 e.1) (pairs in_set bps) → Some R in_set bps
  unfolding pairs
  pairs-Some [] h = h
  pairs-Some (b ∷ bps) h =
      elim (Any-append (λ e. R e.0 e.1) (field_pairs in_set b.type_name b.fields) (pairs in_set bps)
        h) [
          | inl k ↦ inl (field_pairs-Some b.type_name b.fields k)
          | inr k ↦ inr (pairs-Some bps k)
        ]
