-- ===== src/Sig/Ring.antt =====
-- sig/ring.go: a ring buffer over a slice of fixed length.
pub mod Contents
pub mod Refines
use astral_go.Base.{
  ℕ, zero, suc, ◌+◌, ◌-◌, ◌%◌, ◌≡◌, Bool, true, false, Option, none, some, List, [], ◌∷◌, ◌++◌, ltb,
  ◌==◌, if◌then◌else◌, get_or, set, replicate, map,
}

-- `head` is where the next item goes and `tail` where the oldest one is. The zero value of the item
-- type is a field, as a generic Go type has one.
pub record Ring (T : Type 0) : Type 0 where
  pub items : List T
  pub head : ℕ
  pub tail : ℕ
  pub size : ℕ
  pub capacity : ℕ
  pub zero_value : T

module _ {T : Type 0} where
  -- `none` is the error for a capacity that is not positive.
  unfoldable pub new_ring : T → ℕ → Option (Ring T)
  new_ring z capacity =
      if capacity == 0
      then none
      else some (record {
        items = replicate capacity z;
        head = 0;
        tail = 0;
        size = 0;
        capacity = capacity;
        zero_value = z;
      })

  -- The oldest value where the buffer was full, which Go returns with `true`; else none.
  unfoldable pub push : T → Ring T → Ring T × Option T
  push item r =
      let old = get_or r.items r.head r.zero_value in
      let stored = record r { items = set r.items r.head item; head = (r.head + 1) % r.capacity } in
      if ltb r.size r.capacity
      then (record stored { size = r.size + 1 }, none)
      else (record stored { tail = (r.tail + 1) % r.capacity }, some old)

  unfoldable pub pop : Ring T → Ring T × Option T
  pop r = if r.size == 0 then (r, none) else (
    record r {
      items = set r.items r.tail r.zero_value;
      tail = (r.tail + 1) % r.capacity;
      size = r.size - 1;
    },
    some (get_or r.items r.tail r.zero_value),
  )

  unfoldable pub peek : Ring T → Option T
  peek r = if r.size == 0 then none else some (get_or r.items r.tail r.zero_value)

  unfoldable pub len : Ring T → ℕ
  len r = r.size

  unfoldable pub cap_of : Ring T → ℕ
  cap_of r = r.capacity

  unfoldable pub clear : Ring T → Ring T
  clear r = record r { items = map (λ _. r.zero_value) r.items; head = 0; tail = 0; size = 0 }

  -- The loop of Clone: `n` items from position `pos` on.
  unfoldable pub clone_loop : List T → ℕ → T → ℕ → ℕ → List T
  clone_loop items capacity z zero pos = []
  clone_loop items capacity z (suc n) pos =
      get_or items pos z ∷ clone_loop items capacity z n ((pos + 1) % capacity)

  unfoldable pub clone : Ring T → List T
  unfolding clone_loop
  clone r = clone_loop r.items r.capacity r.zero_value r.size r.tail
