-- ===== src/Blueprints/Listing/All/Once.antt =====
-- The list of AllBlueprints in astral/blueprints.go: each described name once, the parent's list in
-- front and the aliases in order.
use mathlib.Core.Path.{subst}
use astral_go.Base.{
  ℕ, ◌≤◌, ◌≡◌, refl, ap, sym, ◌∙◌, Bool, true, false, ◌||◌, ◌&&◌, not, Option, List, [], ◌∷◌, ◌++◌,
  append-nil, append_assoc, str_comparable, bytes_before, arith, Bool-cases, inl, inr, All,
}
use astral_go.Sig.Members.{has, Nodup, eq_sym, has-append}
use astral_go.Sig.Map.{keys}
use astral_go.Sig.Times.{times, times-append, once_where, has-times, times-Nodup, Nodup-times}
use astral_go.Blueprints.Spec.{Blueprint}
use astral_go.Blueprints.Order.{type_names, order_by_reference}
use astral_go.Blueprints.Order.Correct.{order_by_reference_complete}
use astral_go.Blueprints.Registry.{Entry, Level, Chain}
use astral_go.Blueprints.Listing.{names_of}
use astral_go.Blueprints.Listing.Names.{AllNamed}
use astral_go.Blueprints.Listing.All.{
  insert_blueprint, sort_blueprints, inherit, Collected, all_blueprints,
}
use astral_go.Blueprints.Listing.All.Names.{type_names-append_all, collected, all_blueprints-names}
use astral_go.Blueprints.Listing.All.Described.{
  any_named, is_described, is_alias_entry, tally, tally-collect_all,
}

-- Strings in order.
unfoldable pub IsAscending : List (List ℕ) → Type 0
IsAscending [] = Unit
IsAscending (n ∷ []) = Unit
IsAscending (n ∷ m ∷ ns) = (bytes_before m n ≡ false) × IsAscending (m ∷ ns)

bytes_before-antisym : (a b : List ℕ) → bytes_before a b ≡ true → bytes_before b a ≡ false
bytes_before-antisym a [] h = absurd (ground (arith, h))
bytes_before-antisym [] (y ∷ b) h = refl
bytes_before-antisym (x ∷ a) (y ∷ b) h = ground (arith, h, bytes_before-antisym a b)

insert-IsAscending :
    (b : Blueprint) (cs : List Blueprint)
    → IsAscending (type_names cs)
    → IsAscending (type_names (insert_blueprint b cs))
unfolding insert_blueprint IsAscending type_names
insert-IsAscending b [] h = tt
insert-IsAscending b (c ∷ []) h = elim (Bool-cases (bytes_before c.type_name b.type_name)) [
  | inl e ↦ rw e (bytes_before-antisym c.type_name b.type_name e, tt)
  | inr e ↦ rw e (e, tt)
]
insert-IsAscending b (c ∷ d ∷ ds) h = elim (Bool-cases (bytes_before c.type_name b.type_name)) [
  | inr e ↦ rw e (e, h)
  | inl e ↦ elim (Bool-cases (bytes_before d.type_name b.type_name)) [
    | inl f ↦ rw e (rw f (h.0, rw f at (insert-IsAscending b (d ∷ ds) h.1)))
    | inr f ↦ rw e (rw f (bytes_before-antisym c.type_name b.type_name e, (f, h.1)))
  ]
]

sort-IsAscending : (bs : List Blueprint) → IsAscending (type_names (sort_blueprints bs))
unfolding sort_blueprints IsAscending type_names
sort-IsAscending [] = tt
sort-IsAscending (b ∷ bs) = insert-IsAscending b (sort_blueprints bs) (sort-IsAscending bs)

times-insert_blueprint :
    (x : List ℕ) (b : Blueprint) (cs : List Blueprint)
    → times x (type_names (insert_blueprint b cs)) ≡ times x (b.type_name ∷ type_names cs)
unfolding insert_blueprint times type_names
times-insert_blueprint x b [] = refl
times-insert_blueprint x b (c ∷ cs) = elim (Bool-cases (bytes_before c.type_name b.type_name)) [
  | inl e ↦ rw e (ground (arith, times-insert_blueprint x b cs))
  | inr e ↦ rw e refl
]

times-sort_blueprints :
    (x : List ℕ) (bs : List Blueprint)
    → times x (type_names (sort_blueprints bs)) ≡ times x (type_names bs)
unfolding sort_blueprints times type_names
times-sort_blueprints x [] = refl
times-sort_blueprints x (b ∷ bs) =
    times-insert_blueprint x b (sort_blueprints bs) ∙ ground (arith, times-sort_blueprints x bs)

Nodup-middle : (n : List ℕ) (xs ys : List (List ℕ)) → Nodup (xs ++ (n ∷ ys)) → has n xs ≡ false
unfolding has
Nodup-middle n [] ys d = refl
Nodup-middle n (x ∷ xs) ys d =
    ground (arith, d.0, has-append x xs (n ∷ ys), eq_sym n x, Nodup-middle n xs ys d.1)

-- A list with each name once is inherited as it is.
inherit-Nodup :
    (bps out : List Blueprint) (seen : List (List ℕ))
    → Nodup (seen ++ type_names bps)
    → ((inherit bps out seen).0 ≡ out ++ bps) × ((inherit bps out seen).1 ≡ seen ++ type_names bps)
unfolding inherit type_names
inherit-Nodup [] out seen d = (sym (append-nil out), sym (append-nil seen))
inherit-Nodup (b ∷ bps) out seen d =
    let fresh = Nodup-middle b.type_name seen (type_names bps) d in
    let (kept, all) =
      inherit-Nodup bps (out ++ (b ∷ [])) (seen ++ (b.type_name ∷ []))
        (subst Nodup (sym (append_assoc seen (b.type_name ∷ []) (type_names bps))) d) in
    rw fresh (
      kept ∙ append_assoc out (b ∷ []) bps,
      all ∙ append_assoc seen (b.type_name ∷ []) (type_names bps),
    )

times-names_of :
    (x : List ℕ) (bps : List Blueprint)
    → times x (type_names bps) ≤ 1
    → times x (names_of (order_by_reference bps)) ≡ times x (type_names bps)
unfolding names_of
times-names_of x bps h =
    let (out, err, e, (d, m)) = order_by_reference_complete bps in
    rw e (ground (arith, h, times-Nodup x out d, m x, has-times x (type_names bps)))

-- The keys of each map are distinct.
abbrev pub AllKeyed : {A : Type 0} → Chain A → Type 0
AllKeyed = All (λ m. Nodup (keys m))

module _ {A : Type 0} (is_alias : A → Bool) (blueprint_of : Entry A → Option Blueprint) where
  -- A registry or one of its parents has a Blueprint of the name.
  unfoldable pub is_listed : List ℕ → Chain A → Bool
  is_listed x [] = false
  is_listed x (entries ∷ parents) =
      any_named (is_described is_alias blueprint_of) x entries || is_listed x parents

  abbrev list_of : Chain A → List Blueprint
  list_of chain = (all_blueprints is_alias blueprint_of chain).out

  abbrev IsOnce : Chain A → Type 0
  IsOnce chain =
      (x : List ℕ) → times x (type_names (list_of chain)) ≡ once_where (is_listed x chain)

  module _ (entries : Level A) (parents : Chain A) where
    abbrev k : Collected
    k = collected is_alias blueprint_of entries parents

    abbrev aliases : List (List ℕ)
    aliases = type_names (sort_blueprints k.aliases)

    abbrev structs : List (List ℕ)
    structs = names_of (order_by_reference k.proto) ++ names_of (order_by_reference k.runtime)

    inherited_Nodup : IsOnce parents → Nodup (type_names (list_of parents))
    inherited_Nodup above =
        Nodup-times (type_names (list_of parents)) (λ x. ground (arith, above x))

    -- The names in their parts.
    parts :
        IsOnce parents
        → type_names (list_of (entries ∷ parents))
          ≡ type_names (list_of parents) ++ (aliases ++ structs)
    parts above =
        let out = list_of parents in
        let kept = (inherit-Nodup out [] [] (inherited_Nodup above)).0 in
        all_blueprints-names is_alias blueprint_of entries parents
        ∙ ap
            (λ l.
              (type_names (l ++ sort_blueprints k.aliases) ++ names_of (order_by_reference k.proto))
              ++ names_of (order_by_reference k.runtime))
            kept
        ∙ ap
            (λ l.
              (l ++ names_of (order_by_reference k.proto))
              ++ names_of (order_by_reference k.runtime))
            (type_names-append_all out (sort_blueprints k.aliases))
        ∙ append_assoc (type_names out ++ aliases) (names_of (order_by_reference k.proto))
            (names_of (order_by_reference k.runtime))
        ∙ append_assoc (type_names out) aliases structs

    times-collected :
        (x : List ℕ)
        → AllNamed blueprint_of (entries ∷ parents)
        → AllKeyed (entries ∷ parents)
        → IsOnce parents
        → (times x (aliases ++ structs)
            ≡ once_where (
                any_named (is_described is_alias blueprint_of) x entries
                && not (is_listed x parents)))
          × (times x aliases
              ≡ once_where (
                  any_named (is_alias_entry is_alias blueprint_of) x entries
                  && not (is_listed x parents)))
    unfolding tally times type_names
    times-collected x named keyed above =
        let out = list_of parents in
        let (kept, seen) = inherit-Nodup out [] [] (inherited_Nodup above) in
        let (all, own) =
          tally-collect_all is_alias blueprint_of x (inherit out [] []).1 entries
            (record {
              aliases = [];
              proto = [];
              runtime = [];
              errs = (all_blueprints is_alias blueprint_of parents).errs;
            })
            named.0 keyed.0 in
        let known : has x (inherit out [] []).1 ≡ is_listed x parents =
          ap (has x) seen ∙ has-times x (type_names out) ∙ ground (arith, above x) in
        let sorted = times-sort_blueprints x k.aliases in
        let parts_of = times-append x aliases structs in
        let structs_of =
          times-append x (names_of (order_by_reference k.proto))
            (names_of (order_by_reference k.runtime)) in
        let low : tally x k ≤ 1 = ground (arith, all) in
        (
          ground (
            arith,
            all,
            known,
            sorted,
            parts_of,
            structs_of,
            times-names_of x k.proto (ground (arith, low)),
            times-names_of x k.runtime (ground (arith, low)),
          ),
          ground (arith, own, known, sorted),
        )

  all_blueprints-IsOnce :
      (chain : Chain A) → AllNamed blueprint_of chain → AllKeyed chain → IsOnce chain
  unfolding all_blueprints is_listed times type_names
  all_blueprints-IsOnce [] named keyed x = refl
  all_blueprints-IsOnce (entries ∷ parents) named keyed x =
      let above = all_blueprints-IsOnce parents named.1 keyed.1 in
      let (own, _) = times-collected entries parents x named keyed above in
      ap (times x) (parts entries parents above)
      ∙ times-append x (type_names (list_of parents))
          (aliases entries parents ++ structs entries parents)
      ∙ ground (arith, own, above x)

  -- Where BlueprintOf describes each object under the name that it is registered by, and the keys
  -- of each map are distinct: AllBlueprints lists each name once that has a Blueprint in the
  -- registry or in a parent, and no other; it lists what the parent lists, as it is, and then, in
  -- order of their names, the aliases of the registry that the parent does not list.
  pub all_blueprints-is_listed :
      (entries : Level A) (parents : Chain A)
      → AllNamed blueprint_of (entries ∷ parents)
      → AllKeyed (entries ∷ parents)
      → let listed = type_names (all_blueprints is_alias blueprint_of (entries ∷ parents)).out in
        ((x : List ℕ) → times x listed ≡ once_where (is_listed x (entries ∷ parents)))
        × ((own : List (List ℕ)) × (rest : List (List ℕ)) × (listed
              ≡ type_names (all_blueprints is_alias blueprint_of parents).out ++ (own ++ rest))
            × IsAscending own
            × ((x : List ℕ)
                → times x own
                  ≡ once_where (
                      any_named (is_alias_entry is_alias blueprint_of) x entries
                      && not (is_listed x parents))))
  all_blueprints-is_listed entries parents named keyed =
      let above = all_blueprints-IsOnce parents named.1 keyed.1 in
      (
        all_blueprints-IsOnce (entries ∷ parents) named keyed,
        (
          aliases entries parents,
          structs entries parents,
          parts entries parents above,
          sort-IsAscending (k entries parents).aliases,
          λ x. (times-collected entries parents x named keyed above).1,
        ),
      )
