-- ===== src/Bundle/Laws.antt =====
-- The index of a Bundle of astral/bundle.go under Append, and what Fetch finds by it.
use mathlib.Core.Path.{subst}
use astral_go.Base.{
  ℕ, zero, suc, ◌≡◌, refl, sym, ap, ◌∙◌, none, some, ◌⊎◌, inl, inr, ◌↔◌, List, [], ◌∷◌, ◌++◌,
  append-nil, append_assoc, length, if◌then◌else◌, ◌=?◌, get_elem?, str_comparable, arith,
  same_value, left_value, Sum-cases, Bool-cases, Option-cases, IsBytes,
}
use astral_go.Wire.Out.{Out-cases}
use astral_go.Wire.Writes.{sink}
use astral_go.Astral.ObjectId.{ObjectId, IsId, to_string}
use astral_go.Astral.ObjectId.Laws.{to_string_injective}
use astral_go.Sig.Members.{eq→≡, eq_self}
use astral_go.Sig.Map.{get, assign}
use astral_go.Sig.Map.Laws.{get-assign}
use astral_go.Channel.Objects.{ObjectModel}
use astral_go.Bundle.{
  Bundle, new_bundle, write_resolved, resolve_object_id, append_unique, append, fetch,
}

module _ {A : Type 0} where
  elem_front :
      (xs ys : List A) (i : ℕ) (a : A) → get_elem? xs i ≡ some a → get_elem? (xs ++ ys) i ≡ some a
  elem_front [] ys i a h = cc
  elem_front (x ∷ xs) ys zero a h = h
  elem_front (x ∷ xs) ys (suc i) a h = elem_front xs ys i a h

  pub elem_last : (xs : List A) (a : A) → get_elem? (xs ++ (a ∷ [])) (length xs) ≡ some a
  elem_last [] a = refl
  elem_last (x ∷ xs) a = elem_last xs a

  elem_snoc :
      (xs : List A) (a : A) (i : ℕ) (b : A)
      → get_elem? (xs ++ (a ∷ [])) i ≡ some b
      → (get_elem? xs i ≡ some b) ⊎ ((i ≡ length xs) × (b ≡ a))
  elem_snoc [] a zero b h = inr (refl, sym (same_value h))
  elem_snoc [] a (suc i) b h = cc
  elem_snoc (x ∷ xs) a zero b h = inl h
  elem_snoc (x ∷ xs) a (suc i) b h = elim (elem_snoc xs a i b h) [
    | inl k ↦ inl k
    | inr (k, e) ↦ inr (omega (arith, k), e)
  ]

module _ (M : ObjectModel) (sha256 : List ℕ → List ℕ) where
  -- The index has the position of every object under the string of its id, and nothing else.
  pub record IsIndexed (b : Bundle M.Object) : Type 0 where
    pub covers :
        (i : ℕ) (o : M.Object)
        → get_elem? b.objects i ≡ some o
        → (id : ObjectId) × (resolve_object_id M sha256 o ≡ some id)
          × (get (to_string id) b.index ≡ some i)
    pub exact :
        (k : List ℕ) (i : ℕ)
        → get k b.index ≡ some i
        → (o : M.Object) × (id : ObjectId) × (get_elem? b.objects i ≡ some o)
          × (resolve_object_id M sha256 o ≡ some id)
          × (to_string id ≡ k)

  pub new_bundle-IsIndexed : IsIndexed new_bundle
  unfolding get
  new_bundle-IsIndexed = record { covers = λ i o h. absurd cc; exact = λ k i h. absurd cc }

  -- A success of append: the id was free, and the object stands at the end.
  pub appended :
      (o : M.Object) (b c : Bundle M.Object)
      → append_unique M sha256 o b ≡ inl c
      → (id : ObjectId) × (resolve_object_id M sha256 o ≡ some id)
        × (get (to_string id) b.index ≡ none)
        × (c ≡ record {
          objects = b.objects ++ (o ∷ []);
          index = assign (to_string id) (length b.objects) b.index;
        })
  unfolding append_unique
  appended o b c h = elim (Option-cases (resolve_object_id M sha256 o)) [
    | inl e ↦ absurd (ground (arith, h, e))
    | inr (id, e) ↦ elim (Option-cases (get (to_string id) b.index)) [
      | inl free ↦ (id, e, free, sym (left_value (rw (e, append_unique, free) at h)))
      | inr (i, taken) ↦ absurd (ground (arith, rw (e, append_unique, taken) at h))
    ]
  ]

  pub append_unique-IsIndexed :
      (o : M.Object) (b c : Bundle M.Object)
      → append_unique M sha256 o b ≡ inl c
      → IsIndexed b
      → IsIndexed c
  append_unique-IsIndexed o b c h v =
      let (id, r, free, e) = appended o b c h in
      let k = to_string id in
      let n = length b.objects in
      let looked : (x : List ℕ)
          → get x (assign k n b.index) ≡ (if x =? k then some n else get x b.index) =
        λ x. get-assign k x n b.index in
      subst IsIndexed (sym e) (record {
        covers = λ i p at. elim (elem_snoc b.objects o i p at) [
          | inl old ↦
              let (id', r', g) = v.covers i p old in
              (
                id',
                r',
                elim (Bool-cases (to_string id' =? k)) [
                  | inl same ↦ absurd (
                      ground
                        (arith, g, free, ap (λ x. get x b.index) (eq→≡ (to_string id') k same)))
                  | inr other ↦ ground (arith, looked (to_string id'), other, g)
                ],
              )
          | inr (i_last, p_new) ↦ (
            id,
            ap (resolve_object_id M sha256) p_new ∙ r,
            ground (arith, looked k, eq_self k, i_last),
          )
        ];
        exact = λ x i g. elim (Bool-cases (x =? k)) [
          | inl same ↦ (
            o,
            id,
            ground (arith, elem_last b.objects o, g, looked x, same),
            r,
            sym (eq→≡ x k same),
          )
          | inr other ↦
              let (p, id', at, r', s) = v.exact x i (ground (arith, g, looked x, other)) in
              (p, id', elem_front b.objects (o ∷ []) i p at, r', s)
        ];
      })

  append-IsIndexed :
      (os : List M.Object) (b : Bundle M.Object) → IsIndexed b → IsIndexed (append M sha256 os b).0
  unfolding append
  append-IsIndexed [] b v = v
  append-IsIndexed (o ∷ os) b v = elim (Sum-cases (append_unique M sha256 o b)) [
    | inr (x, e) ↦ rw (e, append) v
    | inl (c, e) ↦ rw (e, append) (append-IsIndexed os c (append_unique-IsIndexed o b c e v))
  ]

  -- A sequence of Append calls, from a new bundle on.
  unfoldable pub appends : List (List M.Object) → Bundle M.Object → Bundle M.Object
  unfolding append
  appends [] b = b
  appends (os ∷ calls) b = appends calls (append M sha256 os b).0

  appends-IsIndexed_from :
      (calls : List (List M.Object)) (b : Bundle M.Object)
      → IsIndexed b
      → IsIndexed (appends calls b)
  unfolding appends
  appends-IsIndexed_from [] b v = v
  appends-IsIndexed_from (os ∷ calls) b v = appends-IsIndexed_from calls _ (append-IsIndexed os b v)

  -- Whatever Append has been called with, failures included: the index of a bundle has the position
  -- of every object under the string of its id, and no other entry.
  pub appends-IsIndexed : (calls : List (List M.Object)) → IsIndexed (appends calls new_bundle)
  appends-IsIndexed calls = appends-IsIndexed_from calls new_bundle new_bundle-IsIndexed

  -- Append that returns nil has appended all objects, in order.
  pub append_all :
      (os : List M.Object) (b : Bundle M.Object)
      → (append M sha256 os b).1 ≡ none
      → (append M sha256 os b).0.objects ≡ b.objects ++ os
  unfolding append
  append_all [] b h = sym (append-nil b.objects)
  append_all (o ∷ os) b h = elim (Sum-cases (append_unique M sha256 o b)) [
    | inr (x, e) ↦ absurd (ground (arith, rw (e, append) at h))
    | inl (c, e) ↦
        let (id, r, free, s) = appended o b c e in
        rw (e, append)
          (append_all os c (rw (e, append) at h)
            ∙ ap (λ objects. objects ++ os) (ap (λ d. d.objects) s)
            ∙ append_assoc b.objects (o ∷ []) os)
  ]

  -- SHA-256 returns 32 bytes.
  abbrev pub IsHash : Type 0
  IsHash = (bs : List ℕ) → (length (sha256 bs) ≡ 32) × IsBytes (sha256 bs)

  resolve_object_id-IsId :
      IsHash → (o : M.Object) (id : ObjectId) → resolve_object_id M sha256 o ≡ some id → IsId id
  unfolding resolve_object_id
  resolve_object_id-IsId sha o id h = elim (Out-cases (write_resolved M o (sink [] none))) [
    | inr (x, n, s, e) ↦ absurd (ground (arith, rw (e, resolve_object_id) at h))
    | inl (u, n, s, e) ↦ subst IsId (same_value (rw (e, resolve_object_id) at h)) (record {
      size_fits = omega arith;
      hash_length = (sha s.output).0;
      hash_bytes = (sha s.output).1;
    })
  ]

  -- On an indexed bundle, with a hash of 32 bytes, Fetch of an id returns an object exactly if the
  -- object is in the bundle and the id is its own.
  pub fetch_iff :
      (b : Bundle M.Object) (id : ObjectId) (o : M.Object)
      → IsIndexed b
      → IsHash
      → IsId id
      → (fetch M sha256 id b ≡ some o)
        ↔ ((i : ℕ) × (get_elem? b.objects i ≡ some o) × (resolve_object_id M sha256 o ≡ some id))
  unfolding fetch
  fetch_iff b id o v sha w = (found, λ (i, at, r). holds i at r)
    where
      found :
          fetch M sha256 id b ≡ some o
          → (i : ℕ) × (get_elem? b.objects i ≡ some o) × (resolve_object_id M sha256 o ≡ some id)
      found h = elim (Option-cases (get (to_string id) b.index)) [
        | inl e ↦ absurd (ground (arith, rw (e, fetch) at h))
        | inr (i, e) ↦
            let (p, id', at, r, s) = v.exact (to_string id) i e in
            let same : id' ≡ id =
              to_string_injective id' id (resolve_object_id-IsId sha p id' r) w s in
            let own : p ≡ o = same_value (sym at ∙ (rw (e, fetch) at h)) in
            (i, rw (e, fetch) at h, ap (resolve_object_id M sha256) (sym own) ∙ r ∙ ap some same)
      ]

      holds :
          (i : ℕ)
          → get_elem? b.objects i ≡ some o
          → resolve_object_id M sha256 o ≡ some id
          → fetch M sha256 id b ≡ some o
      holds i at r =
          let (id', r', g) = v.covers i o at in
          let same : id' ≡ id = same_value (sym r' ∙ r) in
          rw (sym (ap (λ x. get (to_string x) b.index) same) ∙ g, fetch) at

  append-snoc :
      (os : List M.Object) (o : M.Object) (b c e : Bundle M.Object)
      → append M sha256 os b ≡ (c, none)
      → append_unique M sha256 o c ≡ inl e
      → append M sha256 (os ++ (o ∷ [])) b ≡ (e, none)
  unfolding append
  append-snoc [] o b c e h k =
      let same : append_unique M sha256 o b ≡ inl e =
        ap (append_unique M sha256 o) (ap (λ p. p.0) h) ∙ k in
      rw (same, append) refl
  append-snoc (p ∷ os) o b c e h k = elim (Sum-cases (append_unique M sha256 p b)) [
    | inr (x, no_room) ↦ absurd (ground (arith, rw (no_room, append) at h))
    | inl (t, new) ↦ rw (new, append) (append-snoc os o t c e (rw (new, append) at h) k)
  ]

  -- Appending its objects to a new bundle gives the bundle.
  abbrev pub IsBuilt : Bundle M.Object → Type 0
  IsBuilt b = append M sha256 b.objects new_bundle ≡ (b, none)

  append-IsBuilt :
      (os : List M.Object) (b : Bundle M.Object) → IsBuilt b → IsBuilt (append M sha256 os b).0
  unfolding append
  append-IsBuilt [] b v = v
  append-IsBuilt (o ∷ os) b v = elim (Sum-cases (append_unique M sha256 o b)) [
    | inr (x, e) ↦ rw (e, append) v
    | inl (c, e) ↦
        let (id, r, free, s) = appended o b c e in
        let longer : c.objects ≡ b.objects ++ (o ∷ []) = ap (λ d. d.objects) s in
        rw (e, append)
          (append-IsBuilt os c (
            ap (λ all. append M sha256 all new_bundle) longer
            ∙ append-snoc b.objects o new_bundle b c v e))
  ]

  pub appends-IsBuilt :
      (calls : List (List M.Object)) (b : Bundle M.Object) → IsBuilt b → IsBuilt (appends calls b)
  unfolding appends
  appends-IsBuilt [] b v = v
  appends-IsBuilt (os ∷ calls) b v = appends-IsBuilt calls _ (append-IsBuilt os b v)
