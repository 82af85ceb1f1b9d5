-- ===== src/Examples/Orders.antt =====
-- The orders of blueprints on small registries.
use astral_go.Base.{
  ap, sym, some, same_value, ◌&&◌, not, ◌++◌, ℕ, ◌≡◌, refl, true, false, Option, none, List, [],
  ◌∷◌, codes, arith, inl, inr, All, ◌=?◌, str_comparable, if◌then◌else◌,
}
use astral_go.Sig.Members.{has, Nodup}
use astral_go.Blueprints.Spec.{Blueprint, kind, ref_spec, referenced_type}
use astral_go.Blueprints.Order.{order_by_reference, type_names}
use astral_go.Blueprints.Order.References.{Some}
use astral_go.Blueprints.Order.Correct.{
  IsOrdered, Returns, order_by_reference-IsOrdered, order_by_reference_complete,
}
use astral_go.Blueprints.Order.Cycles.{order_by_reference_acyclic, order_by_reference_cycle}
use astral_go.Blueprints.Registry.{Level, Entry, prototype, registered, is_registered}
use astral_go.Blueprints.Registry.Calls.{register, add_all, calls}
use astral_go.Blueprints.Listing.{ordered_blueprints}
use astral_go.Blueprints.Listing.All.{all_blueprints}
use astral_go.Blueprints.Listing.All.Described.{any_named, is_alias_entry}
use astral_go.Blueprints.Listing.All.Once.{
  IsAscending, is_listed, AllKeyed, all_blueprints-is_listed,
}
use astral_go.Sig.Map.{keys}
use astral_go.Sig.Times.{times, once_where}
use astral_go.Blueprints.Listing.Names.{AllNamed, ordered_blueprints-is_registered}
use astral_go.Blueprints.Listing.Acyclic.{runtime_bucket, calls-IsOrdered}

abbrev referring : List ℕ → List ℕ → Blueprint
referring name ref = record {
  type_name = name;
  fields = record { name = codes "f"; spec = ref_spec ref } ∷ [];
  underlying = [];
}

abbrev chained : List Blueprint
chained =
    referring (codes "a") (codes "b")
    ∷ referring (codes "b") (codes "c")
    ∷ referring (codes "c") (codes "uint8")
    ∷ []

abbrev cyclic : List Blueprint
cyclic =
    referring (codes "a") (codes "b")
    ∷ referring (codes "b") (codes "a")
    ∷ referring (codes "c") (codes "c")
    ∷ []

order_by_reference-IsOrdered_example : IsOrdered chained [] (codes "c" ∷ codes "b" ∷ codes "a" ∷ [])
unfolding order_by_reference referenced_type
order_by_reference-IsOrdered_example =
    order_by_reference-IsOrdered chained (codes "c" ∷ codes "b" ∷ codes "a" ∷ []) refl

order_by_reference_complete_example :
    Returns
      (λ out err. Nodup out × ((x : List ℕ) → has x out ≡ has x (type_names cyclic)))
      (order_by_reference cyclic)
order_by_reference_complete_example = order_by_reference_complete cyclic

-- A Blueprint that refers to itself, before those of `chained`.
abbrev with_self : List Blueprint
with_self = referring (codes "d") (codes "d") ∷ chained

-- The names of `with_self`, numbered against their order.
abbrev rank : List ℕ → ℕ
rank n = if n =? codes "a" then 2 else if n =? codes "b" then 1 else 0

order_by_reference_acyclic_example : Returns (λ out err. err ≡ none) (order_by_reference with_self)
unfolding type_names has referenced_type
order_by_reference_acyclic_example =
    order_by_reference_acyclic with_self rank (refl, (refl, (refl, (refl, tt))))
      (
        (inr (inl refl), tt),
        (
          (inr (inr (inr (omega arith))), tt),
          ((inr (inr (inr (omega arith))), tt), ((inr (inr (inl refl)), tt), tt)),
        ),
      )

order_by_reference_cycle_example :
    All
      (λ n.
        Some
          (λ ref name. ((n =? name) ≡ true) × (has ref (codes "a" ∷ codes "b" ∷ []) ≡ true))
          (type_names cyclic)
          cyclic)
      (codes "a" ∷ codes "b" ∷ [])
unfolding order_by_reference referenced_type
order_by_reference_cycle_example =
    (order_by_reference_cycle cyclic (codes "c" ∷ codes "a" ∷ codes "b" ∷ [])
      (codes "a" ∷ codes "b" ∷ []) refl).1

-- No Go type has a derivable Blueprint.
abbrev no_blueprint : Entry (List ℕ) → Option Blueprint
no_blueprint e = none

calls-IsOrdered_example :
    let entries =
      calls
        (λ o. o)
        (λ o. false)
        []
        (add_all (codes "uint8" ∷ [])
          ∷ register (referring (codes "c") (codes "uint8"))
          ∷ register (referring (codes "b") (codes "c"))
          ∷ [])
        [] in
    Returns
      (λ out err.
        (err ≡ none) × IsOrdered (runtime_bucket (λ o. false) no_blueprint entries []) [] out)
      (order_by_reference (runtime_bucket (λ o. false) no_blueprint entries []))
calls-IsOrdered_example =
    calls-IsOrdered (λ o. false) no_blueprint (λ o. o) (λ o. false) []
      (add_all (codes "uint8" ∷ [])
        ∷ register (referring (codes "c") (codes "uint8"))
        ∷ register (referring (codes "b") (codes "c"))
        ∷ [])
      tt

-- A registry of two aliases and a struct, over a parent that has the struct. A Go type is given by
-- its name, and BlueprintOf derives an alias of it.
abbrev alias_of : List ℕ → Blueprint
alias_of name = record { type_name = name; fields = []; underlying = codes "uint8" }

abbrev derived : Entry (List ℕ) → Option Blueprint
derived (prototype o) = some (alias_of o)
derived (registered b) = none

abbrev one_struct : Level (List ℕ)
one_struct = (codes "c", registered (referring (codes "c") (codes "uint8"))) ∷ []

abbrev two_aliases : Level (List ℕ)
two_aliases =
    (codes "z", prototype (codes "z")) ∷ (codes "a", registered (alias_of (codes "a"))) ∷ one_struct

two_aliases-AllNamed : AllNamed derived (two_aliases ∷ one_struct ∷ [])
two_aliases-AllNamed = (
  (λ b e. ap (λ d. d.type_name) (sym (same_value e)), (λ b e. absurd cc, (λ b e. absurd cc, tt))),
  ((λ b e. absurd cc, tt), tt),
)

ordered_blueprints-is_registered_example :
    has (codes "z") (ordered_blueprints (λ o. false) derived (two_aliases ∷ one_struct ∷ []))
    ≡ is_registered (codes "z") (two_aliases ∷ one_struct ∷ [])
ordered_blueprints-is_registered_example =
    ordered_blueprints-is_registered derived (λ o. false) (two_aliases ∷ one_struct ∷ [])
      (codes "z") two_aliases-AllNamed

two_aliases-AllKeyed : AllKeyed (two_aliases ∷ one_struct ∷ [])
unfolding keys has
two_aliases-AllKeyed = ((refl, (refl, (refl, tt))), ((refl, tt), tt))

-- The names listed: the parent's struct once, and the aliases by name.
listed_names :
    type_names (all_blueprints (λ o. true) derived (two_aliases ∷ one_struct ∷ [])).out
    ≡ codes "c" ∷ codes "a" ∷ codes "z" ∷ []
unfolding all_blueprints type_names order_by_reference referenced_type kind
listed_names = refl

all_blueprints-is_listed_example :
    let listed =
      type_names (all_blueprints (λ o. true) derived (two_aliases ∷ one_struct ∷ [])).out in
    ((x : List ℕ)
      → times x listed
        ≡ once_where (is_listed (λ o. true) derived x (two_aliases ∷ one_struct ∷ [])))
    × ((own : List (List ℕ)) × (rest : List (List ℕ)) × (listed
          ≡ type_names (all_blueprints (λ o. true) derived (one_struct ∷ [])).out ++ (own ++ rest))
        × IsAscending own
        × ((x : List ℕ)
            → times x own
              ≡ once_where (
                  any_named (is_alias_entry (λ o. true) derived) x two_aliases
                  && not (is_listed (λ o. true) derived x (one_struct ∷ [])))))
all_blueprints-is_listed_example =
    all_blueprints-is_listed (λ o. true) derived two_aliases (one_struct ∷ []) two_aliases-AllNamed
      two_aliases-AllKeyed
