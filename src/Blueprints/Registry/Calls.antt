-- ===== src/Blueprints/Registry/Calls.antt =====
-- Sequences of RegisterBlueprint and Add calls on a registry of astral/blueprints.go.
use astral_go.Base.{
  ℕ, ◌≡◌, ◌≢◌, refl, ap, Bool, true, none, some, List, [], ◌∷◌, arith, Bool-cases, Option-cases,
  inl, inr, ◌=?◌, str_comparable,
}
use astral_go.Sig.Members.{eq→≡}
use astral_go.Sig.Map.{get, assign, set_new}
use astral_go.Sig.Map.Laws.{get-assign}
use astral_go.Blueprints.Spec.{Blueprint, is_allowed_primitive}
use astral_go.Blueprints.Registry.{
  Entry, registered, Level, Chain, is_registered, check_blueprint, register_blueprint, add,
}
use astral_go.Blueprints.Registry.Laws.{
  IsSound, empty-IsSound, register_blueprint-IsSound, add-IsSound, checked, absent,
}

pub data Call (A : Type 0) : Type 0 where
  register : Blueprint → Call A
  add_all : List A → Call A

module _ {A : Type 0} (object_type : A → List ℕ) (is_populated : A → Bool) (parents : Chain A) where
  unfoldable pub call : Call A → Level A → Level A
  unfolding register_blueprint add
  call (register b) entries = (register_blueprint parents b entries).0
  call (add_all os) entries = (add object_type is_populated parents os entries).0

  unfoldable pub calls : List (Call A) → Level A → Level A
  unfolding call
  calls [] entries = entries
  calls (c ∷ cs) entries = calls cs (call c entries)

  calls-IsSound_from :
      (cs : List (Call A)) (entries : Level A)
      → IsSound parents entries
      → IsSound parents (calls cs entries)
  unfolding calls call
  calls-IsSound_from [] entries h = h
  calls-IsSound_from (register b ∷ cs) entries h =
      calls-IsSound_from cs _ (register_blueprint-IsSound parents b entries h)
  calls-IsSound_from (add_all os ∷ cs) entries h =
      calls-IsSound_from cs _ (add-IsSound object_type is_populated parents os entries h)

  -- Whatever RegisterBlueprint and Add are called with, from an empty registry on: every runtime
  -- Blueprint stands under its Type, passes validateBlueprint, and refers only to names that were
  -- registered before it, here or in a parent, so that references have no cycle; no name stands
  -- twice.
  pub calls-IsSound : (cs : List (Call A)) → IsSound parents (calls cs [])
  calls-IsSound cs = calls-IsSound_from cs [] (empty-IsSound parents)

module _ {A : Type 0} where
  set_new_absent :
      (k : List ℕ) (e : Entry A) (m : Level A)
      → get k m ≡ none
      → set_new k e m ≡ (assign k e m, e, true)
  unfolding set_new
  set_new_absent k e m h = rw (h, set_new) refl

  -- Where every primitive is registered and no runtime Blueprint stands under the name of one,
  -- RegisterBlueprint keeps it so that none does.
  pub register_blueprint_primitive :
      (parents : Chain A) (b : Blueprint) (entries : Level A)
      → ((p : List ℕ) → is_allowed_primitive p ≡ true → is_registered p (entries ∷ parents) ≡ true)
      → ((p : List ℕ) (c : Blueprint)
          → is_allowed_primitive p ≡ true
          → get p entries ≢ some (registered c))
      → (p : List ℕ) (c : Blueprint) → is_allowed_primitive p ≡ true
      → get p (register_blueprint parents b entries).0 ≢ some (registered c)
  unfolding register_blueprint
  register_blueprint_primitive parents b entries has_all h p c a =
      elim (Option-cases (check_blueprint (entries ∷ parents) b)) [
        | inr (e, k) ↦ rw (k, register_blueprint) (h p c a)
        | inl k ↦
            let new = (checked (entries ∷ parents) b k).1 in
            let none_there = absent b.type_name entries parents new in
            rw (k, register_blueprint, set_new_absent b.type_name (registered b) entries none_there)
              (λ e. elim (Bool-cases (p =? b.type_name)) [
                | inl same ↦ absurd (
                    ground (
                      arith,
                      new,
                      has_all p a,
                      ap (λ n. is_registered n (entries ∷ parents)) (eq→≡ p b.type_name same),
                    ))
                | inr other ↦
                    h p c a
                      (ground (arith, e, other, get-assign b.type_name p (registered b) entries))
              ])
      ]
