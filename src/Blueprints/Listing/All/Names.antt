-- ===== src/Blueprints/Listing/All/Names.antt =====
-- The names in the list of AllBlueprints in astral/blueprints.go.
use astral_go.Base.{
  ℕ, ◌≡◌, ◌≢◌, refl, ap, sym, ◌∙◌, Bool, true, Option, none, some, List, [], ◌∷◌, ◌++◌, append-nil,
  append_assoc, if◌then◌else◌, ◌=?◌, str_comparable, arith, Bool-cases, Option-cases, inl, inr, ◌⊎◌,
  All, All-weaken, same_value,
}
use astral_go.Sig.Members.{has, Within, has-All, eq→≡, eq_sym}
use astral_go.Sig.Map.{Entries, get, assign}
use astral_go.Sig.Map.Laws.{get-assign}
use astral_go.Blueprints.Spec.{Blueprint}
use astral_go.Blueprints.Order.{type_names, order_by_reference}
use astral_go.Blueprints.Registry.{Entry, Level, Chain}
use astral_go.Blueprints.Listing.{names_of}
use astral_go.Blueprints.Listing.Names.{names_of-order}
use astral_go.Blueprints.Listing.All.{
  index_blueprints, append_named, append_by_name, first_named, append_runtime, sort_blueprints,
  inherit, Collected, collect_all, all_blueprints,
}

pub type_names-append_all :
    (bs cs : List Blueprint) → type_names (bs ++ cs) ≡ type_names bs ++ type_names cs
unfolding type_names
type_names-append_all [] cs = refl
type_names-append_all (b ∷ bs) cs = ap (λ l. b.type_name ∷ l) (type_names-append_all bs cs)

first_named_found :
    (n : List ℕ) (bps : List Blueprint)
    → has n (type_names bps) ≡ true
    → type_names (first_named n bps) ≡ n ∷ []
unfolding first_named type_names has
first_named_found n [] h = cc
first_named_found n (b ∷ bps) h = elim (Bool-cases (b.type_name =? n)) [
  | inl e ↦ rw e (ap (λ m. m ∷ []) (eq→≡ b.type_name n e))
  | inr e ↦ rw e (first_named_found n bps (ground (arith, h, e, eq_sym n b.type_name)))
]

append_runtime-names :
    (ns : List (List ℕ)) (runtime out : List Blueprint)
    → Within ns (type_names runtime)
    → type_names (append_runtime ns runtime out) ≡ type_names out ++ ns
unfolding append_runtime
append_runtime-names [] runtime out w = sym (append-nil (type_names out))
append_runtime-names (n ∷ ns) runtime out w =
    append_runtime-names ns runtime (out ++ first_named n runtime) w.1
    ∙ ap (λ l. l ++ ns)
        (type_names-append_all out (first_named n runtime)
          ∙ ap (λ l. type_names out ++ l) (first_named_found n runtime w.0))
    ∙ append_assoc (type_names out) (n ∷ []) ns

-- The index finds a Blueprint of the name for each name that it has met.
abbrev IsNamedIndex : Entries (List ℕ) Blueprint → Type 0
IsNamedIndex index = (n : List ℕ) (b : Blueprint) → get n index ≡ some b → b.type_name ≡ n

index_blueprints-found :
    (bps : List Blueprint) (index : Entries (List ℕ) Blueprint)
    → IsNamedIndex index
    → IsNamedIndex (index_blueprints bps index)
      × ((n : List ℕ)
          → (has n (type_names bps) ≡ true) ⊎ (get n index ≢ none)
          → get n (index_blueprints bps index) ≢ none)
unfolding index_blueprints type_names has
index_blueprints-found [] index named = (named, λ n h e. ground (arith, h, e))
index_blueprints-found (b ∷ bps) index named =
    let looked : (n : List ℕ)
        → get n (assign b.type_name b index) ≡ (if n =? b.type_name then some b else get n index) =
      λ n. get-assign b.type_name n b index in
    let (kept, found) = index_blueprints-found bps (assign b.type_name b index) (λ n c g.
      elim (Bool-cases (n =? b.type_name)) [
        | inl e ↦
            let same : ◌≡◌ {A = Option Blueprint} (some b) (some c) =
              ground (arith, g, looked n, e) in
            ap (λ d. d.type_name) (sym (same_value same)) ∙ sym (eq→≡ n b.type_name e)
        | inr e ↦ named n c (ground (arith, g, looked n, e))
      ]) in
    (
      kept,
      λ n h. found n (elim (Bool-cases (n =? b.type_name)) [
        | inl e ↦ inr (λ z. absurd (ground (arith, z, looked n, e)))
        | inr e ↦ elim h [
          | inl m ↦ inl (ground (arith, m, e))
          | inr there ↦ inr (λ z. there (ground (arith, z, looked n, e)))
        ]
      ]),
    )

append_named-names :
    (index : Entries (List ℕ) Blueprint) (ns : List (List ℕ)) (out : List Blueprint)
    → IsNamedIndex index
    → All (λ n. get n index ≢ none) ns
    → type_names (append_named index ns out) ≡ type_names out ++ ns
unfolding append_named type_names
append_named-names index [] out named w = sym (append-nil (type_names out))
append_named-names index (n ∷ ns) out named w = elim (Option-cases (get n index)) [
  | inl e ↦ absurd (w.0 e)
  | inr (b, e) ↦ rw e (
      append_named-names index ns (out ++ (b ∷ [])) named w.1
      ∙ ap (λ l. l ++ ns)
          (type_names-append_all out (b ∷ []) ∙ ap (λ m. type_names out ++ (m ∷ [])) (named n b e))
      ∙ append_assoc (type_names out) (n ∷ []) ns)
]

append_by_name-names :
    (out bps : List Blueprint) (ns : List (List ℕ))
    → Within ns (type_names bps)
    → type_names (append_by_name out bps ns) ≡ type_names out ++ ns
unfolding append_by_name get
append_by_name-names out bps ns w =
    let (named, found) = index_blueprints-found bps [] (λ n b e. absurd cc) in
    append_named-names (index_blueprints bps []) ns out named
      (All-weaken _ _ (λ n m. found n (inl m)) ns w)

order-Within : (bps : List Blueprint) → Within (names_of (order_by_reference bps)) (type_names bps)
order-Within bps =
    has-All (λ n. has n (type_names bps) ≡ true) (names_of (order_by_reference bps))
      (λ n m. sym (names_of-order n bps) ∙ m)

module _ {A : Type 0} (is_alias : A → Bool) (blueprint_of : Entry A → Option Blueprint) where
  -- What AllBlueprints has collected of the local entries.
  abbrev pub collected : Level A → Chain A → Collected
  collected entries parents =
      let above = all_blueprints is_alias blueprint_of parents in
      collect_all is_alias blueprint_of (inherit above.out [] []).1 entries
        (record { aliases = []; proto = []; runtime = []; errs = above.errs })

  -- The names of the list of AllBlueprints, by what it has collected.
  pub all_blueprints-names :
      (entries : Level A) (parents : Chain A)
      → let k = collected entries parents in
        type_names (all_blueprints is_alias blueprint_of (entries ∷ parents)).out
        ≡ (type_names (
              (inherit (all_blueprints is_alias blueprint_of parents).out [] []).0
              ++ sort_blueprints k.aliases)
            ++ names_of (order_by_reference k.proto))
          ++ names_of (order_by_reference k.runtime)
  unfolding all_blueprints
  all_blueprints-names entries parents =
      let k = collected entries parents in
      let front =
        (inherit (all_blueprints is_alias blueprint_of parents).out [] []).0
        ++ sort_blueprints k.aliases in
      append_runtime-names (names_of (order_by_reference k.runtime)) k.runtime
        (append_by_name front k.proto (names_of (order_by_reference k.proto)))
        (order-Within k.runtime)
      ∙ ap (λ l. l ++ names_of (order_by_reference k.runtime))
          (append_by_name-names front k.proto (names_of (order_by_reference k.proto))
            (order-Within k.proto))
