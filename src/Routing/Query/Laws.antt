-- ===== src/Routing/Query/Laws.antt =====
-- Query strings (lib/query/query.go) and flag arguments (lib/query/args_to_map.go).
use astral_go.Base.{
  ℕ, suc, ◌+◌, ◌≡◌, ◌≢◌, refl, ap, sym, ◌∙◌, inl, inr, true, false, none, some, List, [], ◌∷◌, ◌++◌,
  length, take, drop, ◌==◌, str_comparable, arith, Option-cases, All, take-append_length,
}
use astral_go.Sig.Map.{Entries, assign}
use astral_go.Routing.Query.{
  index_byte, question_mark, split_path_params, path_of, dash, args_loop, args_to_map,
}

-- A byte that a string does not have.
abbrev pub IsWithout : ℕ → List ℕ → Type 0
IsWithout b = All (λ x. x ≢ b)

pub index_byte-append :
    (b : ℕ) (xs ys : List ℕ) → IsWithout b xs → index_byte b (xs ++ (b ∷ ys)) ≡ some (length xs)
unfolding index_byte
index_byte-append b [] ys h =
    let same : (b == b) ≡ true = ground arith in rw (same, index_byte) refl
index_byte-append b (x ∷ xs) ys h =
    let differs : (x == b) ≡ false = ground (arith, h.0) in
    rw (differs, index_byte, index_byte-append b xs ys h.1) refl

pub index_byte-none : (b : ℕ) (xs : List ℕ) → IsWithout b xs → index_byte b xs ≡ none
unfolding index_byte
index_byte-none b [] h = refl
index_byte-none b (x ∷ xs) h =
    let differs : (x == b) ≡ false = ground (arith, h.0) in
    rw (differs, index_byte, index_byte-none b xs h.1) refl

pub drop_behind : (xs : List ℕ) (b : ℕ) (ys : List ℕ) → drop (length xs + 1) (xs ++ (b ∷ ys)) ≡ ys
drop_behind [] b ys = refl
drop_behind (x ∷ xs) b ys =
    let step : suc (length xs) + 1 ≡ suc (length xs + 1) = omega arith in
    rw step (drop_behind xs b ys)

-- A path without a question mark, the mark and any parameters split into that path and these
-- parameters.
pub split_path_params-join :
    (path params : List ℕ)
    → IsWithout question_mark path
    → split_path_params (path ++ (question_mark ∷ params)) ≡ (path, params)
unfolding split_path_params
split_path_params-join path params h =
    rw (index_byte-append question_mark path params h, split_path_params)
      (ap (λ l. (l, drop (length path + 1) (path ++ (question_mark ∷ params))))
          (take-append_length path (question_mark ∷ params) (length path) refl)
        ∙ ap (λ l. (path, l)) (drop_behind path question_mark params))

path_of-some : (q : List ℕ) (i : ℕ) → index_byte question_mark q ≡ some i → path_of q ≡ take i q
unfolding path_of split_path_params
path_of-some q i e = rw (e, path_of, split_path_params) refl

path_of-none : (q : List ℕ) → index_byte question_mark q ≡ none → path_of q ≡ q
unfolding path_of split_path_params
path_of-none q e = rw (e, path_of, split_path_params) refl

index_byte-cons :
    (b x : ℕ) (xs : List ℕ)
    → x ≢ b
    → index_byte b (x ∷ xs) ≡ elim (index_byte b xs) [ some i ↦ some (suc i) | none ↦ none ]
unfolding index_byte
index_byte-cons b x xs h =
    let differs : (x == b) ≡ false = ground (arith, h) in rw (differs, index_byte) refl

path_of-cons :
    (x : ℕ) (query : List ℕ) → x ≢ question_mark → path_of (x ∷ query) ≡ x ∷ path_of query
path_of-cons x query h = elim (Option-cases (index_byte question_mark query)) [
  | inl e ↦
      path_of-none (x ∷ query) (index_byte-cons question_mark x query h ∙ rw e refl)
      ∙ ap (λ l. x ∷ l) (sym (path_of-none query e))
  | inr (i, e) ↦
      path_of-some (x ∷ query) (suc i) (index_byte-cons question_mark x query h ∙ rw e refl)
      ∙ ap (λ l. x ∷ l) (sym (path_of-some query i e))
]

-- What comes before the path in a query string without a question mark in it comes before its path.
pub path_of-prefix :
    (front query : List ℕ)
    → IsWithout question_mark front
    → path_of (front ++ query) ≡ front ++ path_of query
path_of-prefix [] query h = refl
path_of-prefix (x ∷ front) query h =
    path_of-cons x (front ++ query) h.0 ∙ ap (λ l. x ∷ l) (path_of-prefix front query h.1)

-- The flags of an argument list: each key with a dash, then its value.
unfoldable pub flags : List (List ℕ × List ℕ) → List (List ℕ)
flags [] = []
flags ((k, v) ∷ kvs) = (dash ∷ k) ∷ v ∷ flags kvs

unfoldable pub assign_all :
    List (List ℕ × List ℕ) → Entries (List ℕ) (List ℕ) → Entries (List ℕ) (List ℕ)
assign_all [] m = m
assign_all ((k, v) ∷ kvs) m = assign_all kvs (assign k v m)

flags_loop :
    (kvs : List (List ℕ × List ℕ)) (m : Entries (List ℕ) (List ℕ))
    → args_loop (flags kvs) m ≡ assign_all kvs m
unfolding args_loop flags assign_all
flags_loop [] m = refl
flags_loop ((k, v) ∷ kvs) m = flags_loop kvs (assign k v m)

-- ArgsToMap of the flags of keys and values assigns the values to the keys in order, also a value
-- that starts with a dash.
pub args_to_map-flags : (kvs : List (List ℕ × List ℕ)) → args_to_map (flags kvs) ≡ assign_all kvs []
unfolding args_to_map
args_to_map-flags kvs = flags_loop kvs []
