-- ===== src/Runtime/Access/Fields.antt =====
-- Get and Set of a RuntimeObject (astral/runtime_object.go) together.
use astral_go.Base.{
  same_value, ℕ, zero, suc, ◌≡◌, ◌≢◌, refl, ap, sym, ◌∙◌, Option, some, List, [], ◌∷◌, length,
  get_elem?, arith, Option-cases, inl, inr,
}
use mathlib.Core.Path.{subst}
use astral_go.Blueprints.Spec.{Field}
use astral_go.Runtime.Value.{Value, Values, end, more, count}
use astral_go.Runtime.Access.{Any, find, normalize, value_at, put_at, get, set}
use astral_go.Runtime.Access.Laws.{HasShape, normalize-HasShape, nothing}

module _ {N A : Type 0} (object_type : A → List ℕ) (buffer : List ℕ → List ℕ → A)
    (adapt : N → Option (Value A)) where
  -- Every field of an object holds a value of the type that its Spec describes.
  unfoldable pub HaveShapes :
      ((name b : List ℕ) → object_type (buffer name b) ≡ name) → List Field → Values A → Type 0
  HaveShapes t [] end = Unit
  HaveShapes t (f ∷ fs) (more v vs) =
      HasShape object_type buffer adapt t f.spec v × HaveShapes t fs vs
  HaveShapes t _ _ = ⊥

  value_at-put_at :
      (i : ℕ) (u : Value A) (fs : List Field) (f : Field) (vs : Values A)
      → count vs ≡ length fs
      → get_elem? fs i ≡ some f
      → value_at object_type buffer adapt i (put_at object_type buffer adapt i u vs) ≡ some u
  unfolding value_at put_at count
  value_at-put_at i u [] f vs c e = absurd (nothing e)
  value_at-put_at i u (g ∷ fs) f end c e = absurd (omega arith)
  value_at-put_at zero u (g ∷ fs) f (more v vs) c e = refl
  value_at-put_at (suc i) u (g ∷ fs) f (more v vs) c e = value_at-put_at i u fs f vs (omega arith) e

  value_at-put_at_ne :
      (i j : ℕ) (u : Value A) (vs : Values A)
      → i ≢ j
      → value_at object_type buffer adapt j (put_at object_type buffer adapt i u vs)
        ≡ value_at object_type buffer adapt j vs
  unfolding value_at put_at
  value_at-put_at_ne i j u end h = refl
  value_at-put_at_ne zero zero u (more v vs) h = absurd (h refl)
  value_at-put_at_ne zero (suc j) u (more v vs) h = refl
  value_at-put_at_ne (suc i) zero u (more v vs) h = refl
  value_at-put_at_ne (suc i) (suc j) u (more v vs) h =
      value_at-put_at_ne i j u vs (λ e. h (ap suc e))

  -- What a Set that succeeds has found and done.
  set_parts :
      (fs : List Field) (name : List ℕ) (x : Any N A) (vs us : Values A)
      → set object_type buffer adapt fs name x vs ≡ some us
      → (i : ℕ) × (f : Field) × (u : Value A) × (find fs name ≡ some i)
        × (get_elem? fs i ≡ some f)
        × (normalize object_type buffer adapt f.spec x ≡ some u)
        × (us ≡ put_at object_type buffer adapt i u vs)
  unfolding set
  set_parts fs name x vs us e = elim (Option-cases (find fs name)) [
    | inl c ↦ absurd (nothing (rw (c, set) at e))
    | inr (i, c) ↦ elim (Option-cases (get_elem? fs i)) [
      | inl d ↦ absurd (nothing (rw (c, set, d) at e))
      | inr (f, d) ↦ elim (Option-cases (normalize object_type buffer adapt f.spec x)) [
        | inl n ↦ absurd (nothing (rw (c, set, d, n) at e))
        | inr (u, n) ↦ (i, f, u, c, d, n, sym (same_value (rw (c, set, d, n) at e)))
      ]
    ]
  ]

  -- After a Set that succeeds on an object with a value for each field of its Blueprint, Get of the
  -- name returns what normalize makes of the argument for the Spec of the field, and Get of every
  -- name that stands for another field, or for none, returns what it did before.
  pub get-set :
      (fs : List Field) (name : List ℕ) (x : Any N A) (vs us : Values A)
      → count vs ≡ length fs
      → set object_type buffer adapt fs name x vs ≡ some us
      → ((i : ℕ) × (f : Field) × (find fs name ≡ some i)
          × (get_elem? fs i ≡ some f)
          × (get object_type buffer adapt fs name us ≡ normalize object_type buffer adapt f.spec x))
        × ((other : List ℕ)
            → find fs other ≢ find fs name
            → get object_type buffer adapt fs other us ≡ get object_type buffer adapt fs other vs)
  unfolding get
  get-set fs name x vs us c e =
      let (i, f, u, found, at_field, normal, same) = set_parts fs name x vs us e in
      (
        (
          i,
          f,
          found,
          at_field,
          rw (found, get, same) (value_at-put_at i u fs f vs c at_field ∙ sym normal),
        ),
        λ other ne. elim (Option-cases (find fs other)) [
          | inl k ↦ rw (k, get) refl
          | inr (j, k) ↦
              rw (k, get, same)
                (value_at-put_at_ne i j u vs (λ eq. ne (k ∙ ap some (sym eq) ∙ sym found)))
        ],
      )

  put_at-HaveShapes :
      (t : (name b : List ℕ) → object_type (buffer name b) ≡ name) (i : ℕ) (u : Value A)
      (fs : List Field) (f : Field) (vs : Values A)
      → get_elem? fs i ≡ some f
      → HasShape object_type buffer adapt t f.spec u
      → HaveShapes t fs vs
      → HaveShapes t fs (put_at object_type buffer adapt i u vs)
  unfolding put_at HaveShapes
  put_at-HaveShapes t i u [] f vs e s h = absurd (nothing e)
  put_at-HaveShapes t i u (g ∷ fs) f end e s h = absurd h
  put_at-HaveShapes t zero u (g ∷ fs) f (more v vs) e s h =
      (subst (λ k. HasShape object_type buffer adapt t k.spec u) (sym (same_value e)) s, h.1)
  put_at-HaveShapes t (suc i) u (g ∷ fs) f (more v vs) e s h =
      (h.0, put_at-HaveShapes t i u fs f vs e s h.1)

  -- Where the objects made of strings and byte slices have the type they are made for: Set keeps
  -- every field of an object at a value of the type that its Spec describes.
  pub set-HaveShapes :
      (t : (name b : List ℕ) → object_type (buffer name b) ≡ name) (fs : List Field) (name : List ℕ)
      (x : Any N A) (vs us : Values A)
      → HaveShapes t fs vs
      → set object_type buffer adapt fs name x vs ≡ some us
      → HaveShapes t fs us
  set-HaveShapes t fs name x vs us h e =
      let (i, f, u, found, at_field, normal, same) = set_parts fs name x vs us e in
      rw same (
        put_at-HaveShapes t i u fs f vs at_field
          (normalize-HasShape object_type buffer adapt t f.spec x u normal) h)
