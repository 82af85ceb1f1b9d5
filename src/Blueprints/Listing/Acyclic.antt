-- ===== src/Blueprints/Listing/Acyclic.antt =====
-- The order in which OrderedBlueprints of astral/blueprints.go lists the runtime Blueprints of a
-- registry.

use astral_go.Base.{
  ℕ, ◌<◌, ◌≡◌, ap, sym, ◌∙◌, Bool, true, false, Option, none, List, [], str_comparable, arith, inl,
  inr, All-weaken,
}
use astral_go.Sig.Members.{has}
use astral_go.Blueprints.Spec.{Blueprint, referenced_type}
use astral_go.Blueprints.Order.{done, type_names, order_by_reference}
use astral_go.Blueprints.Order.References.{EveryOther}
use astral_go.Blueprints.Order.Correct.{IsOrdered, Returns, order_by_reference-IsOrdered}
use astral_go.Blueprints.Order.Cycles.{order_by_reference_acyclic}
use astral_go.Blueprints.Registry.{Entry, Level, Chain}
use astral_go.Blueprints.Registry.Calls.{Call, calls, calls-IsSound}
use astral_go.Blueprints.Registry.Laws.{IsSound}
use astral_go.Blueprints.Listing.{once, no_buckets, bucket, ordered_blueprints}
use astral_go.Blueprints.Listing.Names.{
  has_key, has-once, listed, listed-bucket, AllNamed, ordered_blueprints-is_registered,
}
use astral_go.Blueprints.Listing.Loop.{position, Collected, bucket-Collected}

module _ {A : Type 0} (is_alias : A → Bool) (blueprint_of : Entry A → Option Blueprint) where
  -- The runtime bucket of OrderedBlueprints.
  abbrev pub runtime_bucket : Level A → Chain A → List Blueprint
  runtime_bucket entries parents =
      (bucket is_alias (once (ordered_blueprints is_alias blueprint_of parents) []) entries
        no_buckets).runtime

  Collected-runtime_bucket :
      (entries : Level A) (parents : Chain A)
      → IsSound parents entries
      → AllNamed blueprint_of parents
      → Collected (once (ordered_blueprints is_alias blueprint_of parents) []) entries entries (
          bucket is_alias
            (once (ordered_blueprints is_alias blueprint_of parents) [])
            entries
            no_buckets)
  unfolding IsSound has type_names
  Collected-runtime_bucket entries parents sound named =
      let above = ordered_blueprints is_alias blueprint_of parents in
      bucket-Collected is_alias (once above []) parents [] entries no_buckets
        (λ x.
          sym (ordered_blueprints-is_registered blueprint_of is_alias parents x named)
          ∙ sym (has-once x above []))
        sound (record { met = λ x m. absurd cc; distinct = tt; lower = tt })

  runtime_unseen :
      (entries : Level A) (parents : Chain A) (x : List ℕ)
      → has x (type_names (runtime_bucket entries parents)) ≡ true
      → has x (once (ordered_blueprints is_alias blueprint_of parents) []) ≡ false
  unfolding listed has type_names has_key
  runtime_unseen entries parents x m =
      let out = once (ordered_blueprints is_alias blueprint_of parents) [] in
      ground (arith, m, listed-bucket is_alias x out entries no_buckets)

  runtime-EveryOther :
      (entries : Level A) (parents : Chain A)
      → IsSound parents entries
      → AllNamed blueprint_of parents
      → EveryOther
          (λ ref name. position ref entries < position name entries)
          (type_names (runtime_bucket entries parents))
          (runtime_bucket entries parents)
  runtime-EveryOther entries parents sound named =
      let bps = runtime_bucket entries parents in
      All-weaken _ _
        (λ b.
          All-weaken _ _
            (λ f h. elim h [
              | inl empty ↦ inl (ground (arith, empty))
              | inr (inl seen) ↦ inr (
                  inr (
                    inl (
                      ground
                        (arith, seen, runtime_unseen entries parents (referenced_type f.spec)))))
              | inr (inr less) ↦ inr (inr (inr less))
            ])
            b.fields)
        bps (Collected-runtime_bucket entries parents sound named).lower

  -- In a sound registry, the runtime Blueprints that OrderedBlueprints sorts have no cycle, and each
  -- comes after the others that it references.
  pub runtime_bucket-IsOrdered :
      (entries : Level A) (parents : Chain A)
      → IsSound parents entries
      → AllNamed blueprint_of parents
      → Returns
          (λ out err. (err ≡ none) × IsOrdered (runtime_bucket entries parents) [] out)
          (order_by_reference (runtime_bucket entries parents))
  runtime_bucket-IsOrdered entries parents sound named =
      let bps = runtime_bucket entries parents in
      let (out, err, e, clean) =
        order_by_reference_acyclic bps (λ n. position n entries)
          (Collected-runtime_bucket entries parents sound named).distinct
          (runtime-EveryOther entries parents sound named) in
      (out, err, e, (clean, order_by_reference-IsOrdered bps out (e ∙ ap (done out) clean)))

  -- Whatever Add and RegisterBlueprint have been called with on an empty registry, over parents
  -- whose names BlueprintOf agrees with: the runtime Blueprints that OrderedBlueprints sorts have
  -- no cycle, so that the error it drops is nil, and each comes after the others that it
  -- references.
  pub calls-IsOrdered :
      (object_type : A → List ℕ) (is_populated : A → Bool) (parents : Chain A) (cs : List (Call A))
      → AllNamed blueprint_of parents
      → let entries = calls object_type is_populated parents cs [] in
        Returns
          (λ out err. (err ≡ none) × IsOrdered (runtime_bucket entries parents) [] out)
          (order_by_reference (runtime_bucket entries parents))
  calls-IsOrdered object_type is_populated parents cs named =
      runtime_bucket-IsOrdered (calls object_type is_populated parents cs []) parents
        (calls-IsSound object_type is_populated parents cs) named
