-- ===== src/Blueprints/Listing/All/Described.antt =====
-- The entries of a registry that have a Blueprint, against what AllBlueprints of
-- astral/blueprints.go collects of them.
use astral_go.Base.{
  ℕ, ◌+◌, ◌≡◌, refl, ap, ◌∙◌, Bool, true, false, ◌||◌, ◌&&◌, not, Option, none, some, List, [], ◌∷◌,
  ◌++◌, if◌then◌else◌, ◌=?◌, str_eq, str_eq_iff, str_comparable, arith, Bool-cases, Option-cases,
  inl, inr,
}
use astral_go.Sig.Members.{has, Nodup, eq→≡}
use astral_go.Sig.Map.{keys}
use astral_go.Sig.Times.{times, times-append, once_where}
use astral_go.Blueprints.Spec.{
  Blueprint, struct_kind, alias_kind, kind, kind-cases, is_allowed_primitive,
}
use astral_go.Blueprints.Order.{type_names}
use astral_go.Blueprints.Registry.{Entry, prototype, registered, Level}
use astral_go.Blueprints.Listing.{kind_struct_proto, classify}
use astral_go.Blueprints.Listing.Names.{IsNamed}
use astral_go.Blueprints.Listing.All.{
  ListError, alias_underived, blueprint_underived, Collected, collect, collect_all,
}
use astral_go.Blueprints.Listing.All.Names.{type_names-append_all}

unfoldable pub is_derived : Option Blueprint → Bool
is_derived none = false
is_derived (some b) = true

names_times :
    (x : List ℕ) (bs : List Blueprint) (b : Blueprint) (name : List ℕ)
    → b.type_name ≡ name
    → times x (type_names (bs ++ (b ∷ []))) ≡ times x (type_names bs) + once_where (x =? name)
unfolding type_names times
names_times x bs b name e =
    ap (times x) (type_names-append_all bs (b ∷ []))
    ∙ times-append x (type_names bs) (b.type_name ∷ [])
    ∙ ground (arith, ap (λ n. x =? n) e)

-- How often the Blueprints collected have a name.
unfoldable pub tally : List ℕ → Collected → ℕ
tally x k =
    times x (type_names k.aliases) + (times x (type_names k.proto) + times x (type_names k.runtime))

module _ {A : Type 0} where
  -- An entry of the name for which the test holds.
  unfoldable pub any_named : (List ℕ → Entry A → Bool) → List ℕ → Level A → Bool
  any_named f x [] = false
  any_named f x ((name, e) ∷ rest) = ((x =? name) && f name e) || any_named f x rest

  any_named_key :
      (f : List ℕ → Entry A → Bool) (x : List ℕ) (m : Level A)
      → has x (keys m) ≡ false
      → any_named f x m ≡ false
  unfolding any_named has keys
  any_named_key f x [] h = refl
  any_named_key f x ((n, e) ∷ m) h = ground (arith, h, any_named_key f x m)

  module _ (is_alias : A → Bool) (blueprint_of : Entry A → Option Blueprint) where
    -- An entry has a Blueprint: its own, when it is registered under its type name, or the one that
    -- BlueprintOf derives.
    unfoldable pub is_described : List ℕ → Entry A → Bool
    unfolding is_derived
    is_described name (prototype o) = is_derived (blueprint_of (prototype o))
    is_described name (registered b) =
        if str_eq b.type_name name then true else is_derived (blueprint_of (registered b))

    -- An alias: a prototype that is a PrimitiveAlias, or a Blueprint of the alias kind.
    unfoldable pub is_alias_entry : List ℕ → Entry A → Bool
    unfolding is_described
    is_alias_entry name (prototype o) = is_alias o && is_described name (prototype o)
    is_alias_entry name (registered b) =
        str_eq b.type_name name && elim (kind b) [ alias_kind ↦ true | struct_kind ↦ false ]

    -- Where an entry goes.
    data Goes (name : List ℕ) (e : Entry A) (k : Collected) : Type 0 where
      to_aliases :
          (b : Blueprint)
          → b.type_name ≡ name
          → is_described name e ≡ true
          → is_alias_entry name e ≡ true
          → collect is_alias blueprint_of name e k ≡ record k { aliases = k.aliases ++ (b ∷ []) }
          → Goes name e k
      to_proto :
          (b : Blueprint)
          → b.type_name ≡ name
          → is_described name e ≡ true
          → is_alias_entry name e ≡ false
          → collect is_alias blueprint_of name e k ≡ record k { proto = k.proto ++ (b ∷ []) }
          → Goes name e k
      to_runtime :
          (b : Blueprint)
          → b.type_name ≡ name
          → is_described name e ≡ true
          → is_alias_entry name e ≡ false
          → collect is_alias blueprint_of name e k ≡ record k { runtime = k.runtime ++ (b ∷ []) }
          → Goes name e k
      nowhere :
          (errs : List ListError)
          → is_described name e ≡ false
          → is_alias_entry name e ≡ false
          → collect is_alias blueprint_of name e k ≡ record k { errs = errs }
          → Goes name e k

    derived-Goes :
        (name : List ℕ) (e : Entry A) (k : Collected)
        → ((b : Blueprint) → blueprint_of e ≡ some b → b.type_name ≡ name)
        → is_described name e ≡ is_derived (blueprint_of e)
        → is_alias_entry name e ≡ false
        → classify is_alias name e ≡ kind_struct_proto
        → Goes name e k
    unfolding collect is_derived
    derived-Goes name e k named d a c = elim (Option-cases (blueprint_of e)) [
      | inr (b, h) ↦ to_proto b (named b h) (d ∙ ap is_derived h) a (rw (c, h, collect) refl)
      | inl h ↦ elim (Bool-cases (is_allowed_primitive name)) [
        | inl leaf ↦ nowhere k.errs (d ∙ ap is_derived h) a (rw (c, h, leaf, collect) refl)
        | inr other ↦
            nowhere (k.errs ++ (blueprint_underived name ∷ [])) (d ∙ ap is_derived h) a
              (rw (c, h, other, collect) refl)
      ]
    ]

    entry-Goes :
        (name : List ℕ) (e : Entry A) (k : Collected)
        → ((b : Blueprint) → blueprint_of e ≡ some b → b.type_name ≡ name)
        → Goes name e k
    unfolding collect classify is_described is_alias_entry is_derived
    entry-Goes name (prototype o) k named = elim (Bool-cases (is_alias o)) [
      | inr n ↦
          derived-Goes name (prototype o) k named refl (rw (n, is_alias_entry) refl)
            (rw (n, classify) refl)
      | inl y ↦ elim (Option-cases (blueprint_of (prototype o))) [
        | inr (b, h) ↦
            to_aliases b (named b h) (ap is_derived h)
              (rw (y, h, is_alias_entry, is_described, is_derived) refl)
              (rw (y, h, collect, classify) refl)
        | inl h ↦
            nowhere (k.errs ++ (alias_underived name ∷ [])) (ap is_derived h)
              (rw (y, h, is_alias_entry, is_described, is_derived) refl)
              (rw (y, h, collect, classify) refl)
      ]
    ]
    entry-Goes name (registered b) k named = elim (Bool-cases (str_eq b.type_name name)) [
      | inr n ↦
          derived-Goes name (registered b) k named (rw (n, is_described) refl)
            (rw (n, is_alias_entry) refl) (rw (n, classify) refl)
      | inl y ↦
          let same = (str_eq_iff b.type_name name).0 y in
          let described : is_described name (registered b) ≡ true = rw (y, is_described) refl in
          elim (kind-cases b) [
            | inl s ↦
                to_runtime b same described (rw (y, s, is_alias_entry) refl)
                  (rw (y, s, collect, classify) refl)
            | inr s ↦
                to_aliases b same described (rw (y, s, is_alias_entry) refl)
                  (rw (y, s, collect, classify) refl)
          ]
    ]

    tally-Goes :
        (x name : List ℕ) (e : Entry A) (k : Collected)
        → Goes name e k
        → (tally x (collect is_alias blueprint_of name e k)
            ≡ tally x k + once_where ((x =? name) && is_described name e))
          × (times x (type_names (collect is_alias blueprint_of name e k).aliases)
              ≡ times x (type_names k.aliases) + once_where ((x =? name) && is_alias_entry name e))
    unfolding tally
    tally-Goes x name e k (to_aliases b n d a c) =
        let more = names_times x k.aliases b name n in
        rw c (ground (arith, more, d), ground (arith, more, a))
    tally-Goes x name e k (to_proto b n d a c) =
        let more = names_times x k.proto b name n in
        rw c (ground (arith, more, d), ground (arith, a))
    tally-Goes x name e k (to_runtime b n d a c) =
        let more = names_times x k.runtime b name n in
        rw c (ground (arith, more, d), ground (arith, a))
    tally-Goes x name e k (nowhere errs d a c) = rw c (ground (arith, d), ground (arith, a))

    -- Of a map of entries, those that are not seen are collected once.
    pub tally-collect_all :
        (x : List ℕ) (seen : List (List ℕ)) (entries : Level A) (k : Collected)
        → IsNamed blueprint_of entries
        → Nodup (keys entries)
        → (tally x (collect_all is_alias blueprint_of seen entries k)
            ≡ tally x k + once_where (any_named is_described x entries && not (has x seen)))
          × (times x (type_names (collect_all is_alias blueprint_of seen entries k).aliases)
              ≡ times x (type_names k.aliases)
                + once_where (any_named is_alias_entry x entries && not (has x seen)))
    unfolding collect_all any_named keys
    tally-collect_all x seen [] k h d = (omega arith, omega arith)
    tally-collect_all x seen ((n, e) ∷ rest) k h d = elim (Bool-cases (has n seen)) [
      | inl s ↦
          let (all, aliases) = tally-collect_all x seen rest k h.1 d.1 in
          elim (Bool-cases (x =? n)) [
            | inl c ↦
                let same = ap (λ y. has y seen) (eq→≡ x n c) in
                rw (s, collect_all) (ground (arith, all, s, same), ground (arith, aliases, s, same))
            | inr c ↦ rw (s, collect_all) (ground (arith, all, c), ground (arith, aliases, c))
          ]
      | inr s ↦
          let after = collect is_alias blueprint_of n e k in
          let (one, one_alias) = tally-Goes x n e k (entry-Goes n e k h.0) in
          let (all, aliases) = tally-collect_all x seen rest after h.1 d.1 in
          elim (Bool-cases (x =? n)) [
            | inl c ↦
                let same = ap (λ y. has y seen) (eq→≡ x n c) in
                let fresh = ap (λ y. has y (keys rest)) (eq→≡ x n c) ∙ d.0 in
                let no_other = any_named_key is_described x rest fresh in
                let no_alias = any_named_key is_alias_entry x rest fresh in
                rw (s, collect_all)
                  (
                    ground (arith, all, one, c, s, same, no_other),
                    ground (arith, aliases, one_alias, c, s, same, no_alias),
                  )
            | inr c ↦
                rw (s, collect_all)
                  (ground (arith, all, one, c), ground (arith, aliases, one_alias, c))
          ]
    ]
