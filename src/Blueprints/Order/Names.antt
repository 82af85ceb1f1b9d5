-- ===== src/Blueprints/Order/Names.antt =====
-- The sorted names of orderBlueprintsByReference in astral/blueprints.go.
use astral_go.Base.{
  ℕ, suc, ◌≡◌, refl, false, ◌||◌, List, [], ◌∷◌, length, ◌=?◌, str_comparable, bytes_before, arith,
  Bool-cases, inl, inr,
}
use astral_go.Sig.Members.{has, Nodup, eq_sym}
use astral_go.Blueprints.Order.{insert_string, sort_strings}

has-insert_string :
    (x s : List ℕ) (ts : List (List ℕ)) → has x (insert_string s ts) ≡ ((x =? s) || has x ts)
unfolding insert_string has
has-insert_string x s [] = refl
has-insert_string x s (t ∷ ts) = elim (Bool-cases (bytes_before t s)) [
  | inl e ↦ rw e (ground (arith, has-insert_string x s ts))
  | inr e ↦ rw e refl
]

pub has-sort_strings : (x : List ℕ) (ss : List (List ℕ)) → has x (sort_strings ss) ≡ has x ss
unfolding sort_strings has
has-sort_strings x [] = refl
has-sort_strings x (s ∷ ss) =
    ground (arith, has-insert_string x s (sort_strings ss), has-sort_strings x ss)

length-insert_string :
    (s : List ℕ) (ts : List (List ℕ)) → length (insert_string s ts) ≡ suc (length ts)
unfolding insert_string
length-insert_string s [] = refl
length-insert_string s (t ∷ ts) = ground (arith, length-insert_string s ts)

pub length-sort_strings : (ss : List (List ℕ)) → length (sort_strings ss) ≡ length ss
unfolding sort_strings
length-sort_strings [] = refl
length-sort_strings (s ∷ ss) =
    ground (arith, length-insert_string s (sort_strings ss), length-sort_strings ss)

Nodup-insert_string :
    (s : List ℕ) (ts : List (List ℕ)) → has s ts ≡ false → Nodup ts → Nodup (insert_string s ts)
unfolding insert_string has
Nodup-insert_string s [] n h = (refl, tt)
Nodup-insert_string s (t ∷ ts) n h = elim (Bool-cases (bytes_before t s)) [
  | inl e ↦ rw e (
    ground (arith, n, h.0, has-insert_string t s ts, eq_sym t s),
    Nodup-insert_string s ts (ground (arith, n)) h.1,
  )
  | inr e ↦ rw e (n, h)
]

pub Nodup-sort_strings : (ss : List (List ℕ)) → Nodup ss → Nodup (sort_strings ss)
unfolding sort_strings
Nodup-sort_strings [] h = tt
Nodup-sort_strings (s ∷ ss) h =
    Nodup-insert_string s (sort_strings ss) (ground (arith, h.0, has-sort_strings s ss))
      (Nodup-sort_strings ss h.1)
