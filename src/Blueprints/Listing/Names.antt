-- ===== src/Blueprints/Listing/Names.antt =====
-- The names that OrderedBlueprints of astral/blueprints.go lists, against those registered.
use astral_go.Base.{
  ◌⊎◌, ℕ, ◌≡◌, refl, ap, sym, ◌∙◌, Bool, false, ◌||◌, ◌&&◌, not, Option, some, List, [], ◌∷◌, ◌++◌,
  str_eq, str_eq_iff, ◌=?◌, str_comparable, arith, Bool-cases, Option-cases, inl, inr, All,
  All-append,
}
use astral_go.Sig.Members.{has, has-append, eq→≡}
use astral_go.Sig.Map.{get}
use astral_go.Blueprints.Spec.{Blueprint, struct_kind, kind, kind-cases}
use astral_go.Blueprints.Order.{sort_strings, type_names, order_by_reference}
use astral_go.Blueprints.Order.Names.{has-sort_strings}
use astral_go.Blueprints.Order.Correct.{order_by_reference_complete}
use astral_go.Blueprints.Registry.{Entry, prototype, registered, Level, Chain, is_registered}
use astral_go.Blueprints.Listing.{
  names_of, once, Buckets, no_buckets, classify, place, bucket, derive, order_proto_names,
  ordered_blueprints,
}

pub has-once : (x : List ℕ) (ns out : List (List ℕ)) → has x (once ns out) ≡ (has x out || has x ns)
unfolding once has
has-once x [] out = ground arith
has-once x (n ∷ ns) out = elim (Bool-cases (has n out)) [
  | inl e ↦ elim (Bool-cases (x =? n)) [
    | inl d ↦
        let same = ap (λ y. has y out) (eq→≡ x n d) in
        rw e (ground (arith, e, same, has-once x ns out))
    | inr d ↦ rw e (ground (arith, d, has-once x ns out))
  ]
  | inr e ↦ rw e (ground (arith, has-append x out (n ∷ []), has-once x ns (out ++ (n ∷ []))))
]

pub names_of-order :
    (x : List ℕ) (bps : List Blueprint)
    → has x (names_of (order_by_reference bps)) ≡ has x (type_names bps)
unfolding names_of
names_of-order x bps = let (out, err, e, (d, m)) = order_by_reference_complete bps in rw e (m x)

type_names-append :
    (x : List ℕ) (bs : List Blueprint) (b : Blueprint)
    → has x (type_names (bs ++ (b ∷ []))) ≡ (has x (type_names bs) || (x =? b.type_name))
unfolding type_names has
type_names-append x [] b = ground arith
type_names-append x (c ∷ bs) b = ground (arith, type_names-append x bs b)

has-append5 :
    (x : List ℕ) (a b c d e : List (List ℕ))
    → has x (a ++ (b ++ (c ++ (d ++ e))))
      ≡ (has x a || (has x b || (has x c || (has x d || has x e))))
has-append5 x a b c d e =
    has-append x a (b ++ (c ++ (d ++ e)))
    ∙ ap (λ t. has x a || t)
        (has-append x b (c ++ (d ++ e))
          ∙ ap (λ t. has x b || t)
              (has-append x c (d ++ e) ∙ ap (λ t. has x c || t) (has-append x d e)))

-- The parts of the list: the parent's, the leaves, the aliases, the structs, the runtime ones.
parts :
    (leaves structs own : Bool) {above aliases last proto alias_names runtime parent : Bool}
    → above ≡ parent
    → (leaves || structs) ≡ proto
    → aliases ≡ alias_names
    → last ≡ runtime
    → (proto || (alias_names || runtime)) ≡ (own && not above)
    → (above || (leaves || (aliases || (structs || last)))) ≡ (own || parent)
parts leaves structs own a b c d e = ground (arith, a, b, c, d, e)

module _ {A : Type 0} where
  unfoldable pub has_key : List ℕ → Level A → Bool
  has_key x [] = false
  has_key x ((name, e) ∷ rest) = (x =? name) || has_key x rest

  pub has_key-append :
      (x name : List ℕ) (e : Entry A) (m : Level A)
      → has_key x (m ++ ((name, e) ∷ [])) ≡ (has_key x m || (x =? name))
  unfolding has_key
  has_key-append x name e [] = ground arith
  has_key-append x name e ((n, d) ∷ m) = ground (arith, has_key-append x name e m)

  unfoldable pub listed : List ℕ → Buckets A → Bool
  unfolding has_key type_names has
  listed x k = has_key x k.proto || (has x k.aliases || has x (type_names k.runtime))

  pub is_registered_key :
      (x : List ℕ) (entries : Level A) (parents : Chain A)
      → is_registered x (entries ∷ parents) ≡ (has_key x entries || is_registered x parents)
  unfolding is_registered has_key get
  is_registered_key x [] parents = refl
  is_registered_key x ((n, e) ∷ m) parents = ground (arith, is_registered_key x m parents)

  module _ (is_alias : A → Bool) where
    -- Where a name goes.
    pub place-cases :
        (name : List ℕ) (e : Entry A) (k : Buckets A)
        → (place is_alias name e k ≡ record k { aliases = k.aliases ++ (name ∷ []) })
          ⊎ (place is_alias name e k ≡ record k { proto = k.proto ++ ((name, e) ∷ []) })
          ⊎ ((b : Blueprint) × (e ≡ registered b)
              × (b.type_name ≡ name)
              × (kind b ≡ struct_kind)
              × (place is_alias name e k ≡ record k { runtime = k.runtime ++ (b ∷ []) }))
    unfolding place classify
    place-cases name (prototype o) k = elim (Bool-cases (is_alias o)) [
      | inl e ↦ inl (rw (e, place, classify) refl)
      | inr e ↦ inr (inl (rw (e, place, classify) refl))
    ]
    place-cases name (registered b) k = elim (Bool-cases (str_eq b.type_name name)) [
      | inr e ↦ inr (inl (rw (e, place, classify) refl))
      | inl e ↦ elim (kind-cases b) [
        | inl d ↦
            inr
              (inr (b, refl, (str_eq_iff b.type_name name).0 e, d, rw (e, place, classify, d) refl))
        | inr d ↦ inl (rw (e, place, classify, d) refl)
      ]
    ]

    listed-place :
        (x name : List ℕ) (e : Entry A) (k : Buckets A)
        → listed x (place is_alias name e k) ≡ (listed x k || (x =? name))
    unfolding listed has
    listed-place x name e k = elim (place-cases name e k) [
      | inl p ↦ ap (listed x) p ∙ ground (arith, has-append x k.aliases (name ∷ []))
      | inr (inl p) ↦ ap (listed x) p ∙ ground (arith, has_key-append x name e k.proto)
      | inr (inr (b, s, n, d, p)) ↦
          ap (listed x) p ∙ ground (arith, ap (λ n. x =? n) n, type_names-append x k.runtime b)
    ]

    pub listed-bucket :
        (x : List ℕ) (seen : List (List ℕ)) (entries : Level A) (k : Buckets A)
        → listed x (bucket is_alias seen entries k)
          ≡ (listed x k || (has_key x entries && not (has x seen)))
    unfolding bucket has_key
    listed-bucket x seen [] k = ground arith
    listed-bucket x seen ((n, e) ∷ rest) k = elim (Bool-cases (has n seen)) [
      | inl d ↦ elim (Bool-cases (x =? n)) [
        | inl c ↦
            let same = ap (λ y. has y seen) (eq→≡ x n c) in
            rw d (ground (arith, c, d, same, listed-bucket x seen rest k))
        | inr c ↦ rw d (ground (arith, c, listed-bucket x seen rest k))
      ]
      | inr d ↦ elim (Bool-cases (x =? n)) [
        | inl c ↦
            let same = ap (λ y. has y seen) (eq→≡ x n c) in
            rw d (
              ground (
                arith,
                c,
                d,
                same,
                listed-bucket x seen rest (place is_alias n e k),
                listed-place x n e k,
              ))
        | inr c ↦ rw d (
            ground
              (arith, c, listed-bucket x seen rest (place is_alias n e k), listed-place x n e k))
      ]
    ]

  -- BlueprintOf describes an object under the name that it is registered by.
  abbrev pub IsNamed : (Entry A → Option Blueprint) → Level A → Type 0
  IsNamed blueprint_of = All (λ e. (b : Blueprint) → blueprint_of e.1 ≡ some b → b.type_name ≡ e.0)

  abbrev pub AllNamed : (Entry A → Option Blueprint) → Chain A → Type 0
  AllNamed blueprint_of = All (IsNamed blueprint_of)

  module _ (blueprint_of : Entry A → Option Blueprint) where
    has-derive :
        (x : List ℕ) (m : Level A)
        → IsNamed blueprint_of m
        → (has x (derive blueprint_of m).0 || has x (type_names (derive blueprint_of m).1))
          ≡ has_key x m
    unfolding derive has type_names has_key
    has-derive x [] h = refl
    has-derive x ((n, e) ∷ m) h = elim (Option-cases (blueprint_of e)) [
      | inl c ↦ ground (arith, c, has-derive x m h.1)
      | inr (b, c) ↦ ground (arith, c, ap (λ n. x =? n) (h.0 b c), has-derive x m h.1)
    ]

    has-order_proto_names :
        (x : List ℕ) (m : Level A)
        → IsNamed blueprint_of m
        → (has x (order_proto_names blueprint_of m).0 || has x (order_proto_names blueprint_of m).1)
          ≡ has_key x m
    unfolding order_proto_names
    has-order_proto_names x m h = ground (
      arith,
      has-derive x m h,
      has-sort_strings x (derive blueprint_of m).0,
      names_of-order x (derive blueprint_of m).1,
    )

    module _ (is_alias : A → Bool) where
      IsNamed-place :
          (name : List ℕ) (e : Entry A) (k : Buckets A)
          → ((b : Blueprint) → blueprint_of e ≡ some b → b.type_name ≡ name)
          → IsNamed blueprint_of k.proto
          → IsNamed blueprint_of (place is_alias name e k).proto
      IsNamed-place name e k h p = elim (place-cases is_alias name e k) [
        | inl c ↦ rw c p
        | inr (inl c) ↦ rw c (
            All-append (λ e. (b : Blueprint) → blueprint_of e.1 ≡ some b → b.type_name ≡ e.0)
              k.proto ((name, e) ∷ []) p (h, tt))
        | inr (inr (b, s, n, d, c)) ↦ rw c p
      ]

      IsNamed-bucket :
          (seen : List (List ℕ)) (entries : Level A) (k : Buckets A)
          → IsNamed blueprint_of entries
          → IsNamed blueprint_of k.proto
          → IsNamed blueprint_of (bucket is_alias seen entries k).proto
      unfolding bucket
      IsNamed-bucket seen [] k h p = p
      IsNamed-bucket seen ((n, e) ∷ rest) k h p = elim (Bool-cases (has n seen)) [
        | inl c ↦ rw (c, bucket) (IsNamed-bucket seen rest k h.1 p)
        | inr c ↦
            rw (c, bucket)
              (IsNamed-bucket seen rest (place is_alias n e k) h.1 (IsNamed-place n e k h.0 p))
      ]

      -- Where BlueprintOf describes each object under the name that it is registered by,
      -- OrderedBlueprints lists a name exactly if the name is registered, here or in a parent.
      pub ordered_blueprints-is_registered :
          (chain : Chain A) (x : List ℕ)
          → AllNamed blueprint_of chain
          → has x (ordered_blueprints is_alias blueprint_of chain) ≡ is_registered x chain
      unfolding ordered_blueprints is_registered has listed
      ordered_blueprints-is_registered [] x h = refl
      ordered_blueprints-is_registered (entries ∷ parents) x h =
          let out = once (ordered_blueprints is_alias blueprint_of parents) [] in
          let k = bucket is_alias out entries no_buckets in
          let protos = order_proto_names blueprint_of k.proto in
          let last = names_of (order_by_reference k.runtime) in
          has-append5 x out protos.0 (sort_strings k.aliases) protos.1 last
          ∙ parts (has x protos.0) (has x protos.1) (has_key x entries)
              (has-once x (ordered_blueprints is_alias blueprint_of parents) []
                ∙ ordered_blueprints-is_registered parents x h.1)
              (has-order_proto_names x k.proto (IsNamed-bucket out entries no_buckets h.0 tt))
              (has-sort_strings x k.aliases) (names_of-order x k.runtime)
              (listed-bucket is_alias x out entries no_buckets)
          ∙ sym (is_registered_key x entries parents)
