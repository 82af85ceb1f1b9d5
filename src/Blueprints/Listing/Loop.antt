-- ===== src/Blueprints/Listing/Loop.antt =====
-- What the loop of OrderedBlueprints in astral/blueprints.go collects of the entries it has met.
use mathlib.Core.Path.{subst}
use astral_go.Base.{
  ℕ, suc, ◌<◌, ◌≡◌, refl, ap, sym, ◌∙◌, Bool, true, false, none, List, [], ◌∷◌, ◌++◌, append-nil,
  append_assoc, length, if◌then◌else◌, ◌=?◌, str_comparable, arith, Bool-cases, inl, inr, ◌⊎◌, All,
  All-append, All-weaken,
}
use astral_go.Sig.Members.{has, has-append, Nodup, Nodup-snoc, eq_self}
use astral_go.Sig.Map.{get}
use astral_go.Blueprints.Spec.{Field, Blueprint, struct_kind, kind, referenced_type}
use astral_go.Blueprints.Order.{type_names}
use astral_go.Blueprints.Registry.{Entry, registered, Level, Chain, is_registered}
use astral_go.Blueprints.Registry.Laws.{IsGrown, IsSoundEntry, IsResolved}
use astral_go.Blueprints.Listing.{Buckets, place, bucket}
use astral_go.Blueprints.Listing.Names.{has_key, has_key-append, place-cases, is_registered_key}

type_names_snoc :
    (bs : List Blueprint) (b : Blueprint)
    → type_names (bs ++ (b ∷ [])) ≡ type_names bs ++ (b.type_name ∷ [])
unfolding type_names
type_names_snoc [] b = refl
type_names_snoc (c ∷ bs) b = ap (λ l. c.type_name ∷ l) (type_names_snoc bs b)

module _ {A : Type 0} where
  unfoldable pub position : List ℕ → Level A → ℕ
  position x [] = 0
  position x ((n, e) ∷ m) = if x =? n then 0 else suc (position x m)

  position_early :
      (x : List ℕ) (before rest : Level A)
      → has_key x before ≡ true
      → position x (before ++ rest) < length before
  unfolding position has_key
  position_early x [] rest h = absurd cc
  position_early x ((n, e) ∷ before) rest h = ground (arith, h, position_early x before rest)

  position_here :
      (x : List ℕ) (e : Entry A) (before rest : Level A)
      → has_key x before ≡ false
      → position x (before ++ ((x, e) ∷ rest)) ≡ length before
  unfolding position has_key
  position_here x e [] rest h = ground (arith, eq_self x)
  position_here x e ((n, d) ∷ before) rest h = ground (arith, h, position_here x e before rest)

  no_key : (x : List ℕ) (m : Level A) → get x m ≡ none → has_key x m ≡ false
  unfolding get has_key
  no_key x [] h = refl
  no_key x ((n, e) ∷ m) h = ground (arith, h, no_key x m)

  abbrev pub IsLower : List (List ℕ) → Level A → List ℕ → List Field → Type 0
  IsLower seen whole name = All (λ f.
      (length (referenced_type f.spec) ≡ 0)
      ⊎ (has (referenced_type f.spec) seen ≡ true)
      ⊎ (position (referenced_type f.spec) whole < position name whole))

  -- The runtime Blueprints that the loop has collected when it has met the entries `before`.
  pub record Collected (seen : List (List ℕ)) (whole before : Level A) (k : Buckets A)
      : Type 0 where
    pub met : (x : List ℕ) → has x (type_names k.runtime) ≡ true → has_key x before ≡ true
    pub distinct : Nodup (type_names k.runtime)
    pub lower : All (λ b. IsLower seen whole b.type_name b.fields) k.runtime

  Collected-skip :
      (seen : List (List ℕ)) (whole before : Level A) (name : List ℕ) (e : Entry A)
      (k j : Buckets A)
      → j.runtime ≡ k.runtime
      → Collected seen whole before k
      → Collected seen whole (before ++ ((name, e) ∷ [])) j
  Collected-skip seen whole before name e k j same c = record {
    met = λ x m. ground (
      arith,
      c.met x (ap (λ r. has x (type_names r)) (sym same) ∙ m),
      has_key-append x name e before,
    );
    distinct = rw same c.distinct;
    lower = rw same c.lower;
  }

  resolved-IsLower :
      (seen : List (List ℕ)) (parents : Chain A) (before rest : Level A) (name : List ℕ)
      (b : Blueprint)
      → ((x : List ℕ) → is_registered x parents ≡ has x seen)
      → has_key name before ≡ false
      → b.type_name ≡ name
      → kind b ≡ struct_kind
      → IsResolved (before ∷ parents) b
      → IsLower seen (before ++ ((name, registered b) ∷ rest)) b.type_name b.fields
  unfolding IsResolved
  resolved-IsLower seen parents before rest name b agree new own d (inr r) = absurd cc
  resolved-IsLower seen parents before rest name b agree new own d (inl r) =
      All-weaken _ _
        (λ f h.
          let ref = referenced_type f.spec in
          let whole = before ++ ((name, registered b) ∷ rest) in
          elim h [
            | inl empty ↦ inl empty
            | inr there ↦ elim (Bool-cases (has_key ref before)) [
              | inl old ↦ inr (
                  inr (
                    omega (
                      arith,
                      position_early ref before ((name, registered b) ∷ rest) old,
                      position_here name (registered b) before rest new,
                      ap (λ n. position n whole) own,
                    )))
              | inr no_old ↦ inr (
                  inl (
                    ground (arith, there, no_old, is_registered_key ref before parents, agree ref)))
            ]
          ])
        b.fields r.1

  Collected-runtime :
      (seen : List (List ℕ)) (parents : Chain A) (before rest : Level A) (name : List ℕ)
      (b : Blueprint) (k : Buckets A)
      → ((x : List ℕ) → is_registered x parents ≡ has x seen)
      → get name before ≡ none
      → b.type_name ≡ name
      → kind b ≡ struct_kind
      → IsSoundEntry (before ∷ parents) name (registered b)
      → Collected seen (before ++ ((name, registered b) ∷ rest)) before k
      → Collected seen
          (before ++ ((name, registered b) ∷ rest))
          (before ++ ((name, registered b) ∷ []))
          (record k { runtime = k.runtime ++ (b ∷ []) })
  unfolding IsSoundEntry has
  Collected-runtime seen parents before rest name b k agree new own d sound c =
      let fresh = no_key name before new in
      let names = type_names_snoc k.runtime b in
      record {
        met = λ x m. ground (
          arith,
          c.met x,
          has-append x (type_names k.runtime) (b.type_name ∷ []),
          ap (has x) names,
          m,
          ap (λ n. x =? n) own,
          has_key-append x name (registered b) before,
        );
        distinct = rw names (
            Nodup-snoc b.type_name (type_names k.runtime) c.distinct
              (ground (arith, c.met b.type_name, ap (λ n. has_key n before) own, fresh)));
        lower =
            All-append _ k.runtime (b ∷ []) c.lower
              (resolved-IsLower seen parents before rest name b agree fresh own d sound.2, tt);
      }

  module _ (is_alias : A → Bool) (seen : List (List ℕ)) (parents : Chain A) where
    place-Collected :
        (before rest : Level A) (name : List ℕ) (e : Entry A) (k : Buckets A)
        → ((x : List ℕ) → is_registered x parents ≡ has x seen)
        → get name before ≡ none
        → IsSoundEntry (before ∷ parents) name e
        → Collected seen (before ++ ((name, e) ∷ rest)) before k
        → Collected seen
            (before ++ ((name, e) ∷ rest))
            (before ++ ((name, e) ∷ []))
            (place is_alias name e k)
    place-Collected before rest name e k agree new sound c = elim (place-cases is_alias name e k) [
      | inl p ↦ Collected-skip seen _ before name e k _ (ap (λ j. j.runtime) p) c
      | inr (inl p) ↦ Collected-skip seen _ before name e k _ (ap (λ j. j.runtime) p) c
      | inr (inr (b, s, n, d, p)) ↦
          rw (p, s)
            (Collected-runtime seen parents before rest name b k agree new n d (rw s at sound)
              (rw s at c))
    ]

    pub bucket-Collected :
        (before rest : Level A) (k : Buckets A)
        → ((x : List ℕ) → is_registered x parents ≡ has x seen)
        → IsGrown parents before rest
        → Collected seen (before ++ rest) before k
        → Collected seen (before ++ rest) (before ++ rest) (bucket is_alias seen rest k)
    unfolding bucket IsGrown
    bucket-Collected before [] k agree g c = rw (append-nil before) (rw (append-nil before) at c)
    bucket-Collected before ((name, e) ∷ rest) k agree g c =
        let next = before ++ ((name, e) ∷ []) in
        let whole = before ++ ((name, e) ∷ rest) in
        let assoc = append_assoc before ((name, e) ∷ []) rest in
        let step : (j : Buckets A)
            → Collected seen whole next j
            → Collected seen whole whole (bucket is_alias seen rest j) =
          λ j h.
            subst (λ w. Collected seen w w (bucket is_alias seen rest j)) assoc
              (bucket-Collected next rest j agree g.2
                (subst (λ w. Collected seen w next j) (sym assoc) h)) in
        elim (Bool-cases (has name seen)) [
          | inl d ↦ rw (d, bucket) (step k (Collected-skip seen whole before name e k k refl c))
          | inr d ↦
              rw (d, bucket)
                (step (place is_alias name e k)
                  (place-Collected before rest name e k agree g.0 g.1 c))
        ]
