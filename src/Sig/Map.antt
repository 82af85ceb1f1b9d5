-- ===== src/Sig/Map.antt =====
-- sig/map.go, sig/value.go and sig/map_slice.go: a map with keys compared by `==`, a value that is
-- swapped by comparison, and a conversion of a slice.
pub mod Laws
use astral_go.Base.{
  ℕ, ◌⊎◌, inl, inr, Bool, true, false, Option, none, some, List, [], ◌∷◌, ◌++◌, map, length,
  if◌then◌else◌, Comparable, ◌=?◌,
}

-- A Go map as the list of its entries, each key once; the order is the one in which a loop over the
-- map meets them. The nil map is the empty list.
abbrev pub Entries : Type 0 → Type 0 → Type 0
Entries K V = List (K × V)

module _ {K V : Type 0} ⦃c : Comparable K⦄ where
  unfoldable pub get : K → Entries K V → Option V
  get k [] = none
  get k ((key, v) ∷ m) = let rest = get k m in if k =? key then some v else rest

  unfoldable pub assign : K → V → Entries K V → Entries K V
  assign k v [] = (k, v) ∷ []
  assign k v ((key, old) ∷ m) =
      let rest = assign k v m in if k =? key then (key, v) ∷ m else (key, old) ∷ rest

  unfoldable pub erase : K → Entries K V → Entries K V
  erase k [] = []
  erase k ((key, v) ∷ m) = let rest = erase k m in if k =? key then rest else (key, v) ∷ rest

  -- Set keeps the value of a key that is there; it returns that value and false.
  unfoldable pub set_new : K → V → Entries K V → Entries K V × V × Bool
  set_new k v m = elim (get k m) [ some old ↦ (m, old, false) | none ↦ (assign k v m, v, true) ]

  unfoldable pub replace : K → V → Entries K V → Entries K V × Option V
  replace k v m = (assign k v m, get k m)

  unfoldable pub delete : K → Entries K V → Entries K V × Option V
  delete k m = elim (get k m) [ some old ↦ (erase k m, some old) | none ↦ (m, none) ]

  -- Clone and Copy assign the entries one by one to an empty map.
  unfoldable pub copy_loop : Entries K V → Entries K V → Entries K V
  copy_loop [] c = c
  copy_loop ((k, v) ∷ m) c = copy_loop m (assign k v c)

  unfoldable pub clone : Entries K V → Entries K V
  clone m = copy_loop m []

  unfoldable pub select_loop : (K → V → Bool) → Entries K V → Entries K V → Entries K V
  select_loop fn [] vals = vals
  select_loop fn ((k, v) ∷ m) vals = select_loop fn m (if fn k v then assign k v vals else vals)

  unfoldable pub select : (K → V → Bool) → Entries K V → Entries K V
  select fn m = select_loop fn m []

module _ {K V : Type 0} where
  unfoldable pub len : Entries K V → ℕ
  len m = length m

  unfoldable pub keys : Entries K V → List K
  keys m = map (λ e. e.0) m

  unfoldable pub values : Entries K V → List V
  values m = map (λ e. e.1) m

  -- Each stops at the first error.
  unfoldable pub each : {E : Type 0} → (K → V → Option E) → Entries K V → Option E
  each fn [] = none
  each fn ((k, v) ∷ m) = elim (fn k v) [ some e ↦ some e | none ↦ each fn m ]

-- Value.Swap: the value after it, the value returned and whether it was swapped.
unfoldable pub swap : {T : Type 0} → ⦃c : Comparable T⦄ → T → T → T → T × T × Bool
swap old new v = if v =? old then (new, new, true) else (v, v, false)

-- MapSlice: the loop, with the results so far; `inr` is an error.
unfoldable pub map_slice_loop : {A B E : Type 0} → (A → B ⊎ E) → List A → List B → List B ⊎ E
map_slice_loop conv [] out = inl out
map_slice_loop conv (a ∷ rest) out = elim (conv a) [
  | inl b ↦ map_slice_loop conv rest (out ++ (b ∷ []))
  | inr e ↦ inr e
]

unfoldable pub map_slice : {A B E : Type 0} → (A → B ⊎ E) → List A → List B ⊎ E
map_slice conv xs = map_slice_loop conv xs []
