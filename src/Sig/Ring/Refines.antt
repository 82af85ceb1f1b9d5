-- ===== src/Sig/Ring/Refines.antt =====
-- The operations of a ring (sig/ring.go) and a queue of bounded length with `offer` and `poll`.
use astral_go.Base.{
  ℕ, zero, suc, ◌+◌, ◌-◌, ◌%◌, ◌<◌, ◌≡◌, refl, ap, sym, ◌∙◌, true, false, Option, none, some, List,
  [], ◌∷◌, ◌++◌, map, length, get_or, set, drop, replicate, length-set, length-replicate, arith,
  inl, inr, ltb, ltb→lt, ◌==◌, if◌then◌else◌, Bool-cases,
}
use astral_go.Sig.Ring.{Ring, new_ring, push, pop, peek, clear, clone_loop, clone}
use astral_go.Sig.Ring.Contents.{
  IsValid, get_or-set_self, wrap_small, wrap_full, wrap_next, wrap-lt, wrap_step, wrap_ne,
  wrap_distinct, clone_loop-set, clone_loop-snoc,
}

-- The queue: what a bounded queue of `c` items does with one more, and the removal of the oldest.
unfoldable pub oldest : {T : Type 0} → List T → Option T
oldest [] = none
oldest (x ∷ q) = some x

unfoldable pub offer : {T : Type 0} → ℕ → T → List T → List T × Option T
offer c x q = if ltb (length q) c then (q ++ (x ∷ []), none) else (drop 1 q ++ (x ∷ []), oldest q)

unfoldable pub poll : {T : Type 0} → List T → List T × Option T
poll q = (drop 1 q, oldest q)

-- The size as a successor.
positive_suc : (n : ℕ) → 0 < n → (m : ℕ) × (n ≡ suc m)
positive_suc zero h = elim h [ ]
positive_suc (suc m) h = (m, refl)

length-map : {A B : Type 0} (f : A → B) (xs : List A) → length (map f xs) ≡ length xs
length-map f [] = refl
length-map f (x ∷ xs) = ap suc (length-map f xs)

module _ {T : Type 0} where
  pub length-clone_loop :
      (items : List T) (z : T) (c n p : ℕ) → length (clone_loop items c z n p) ≡ n
  unfolding clone_loop
  length-clone_loop items z c zero p = refl
  length-clone_loop items z c (suc n) p = ap suc (length-clone_loop items z c n ((p + 1) % c))

  -- The head lies in the slice.
  head_in : (r : Ring T) → IsValid r → r.head < length r.items
  head_in r v =
      omega (arith, v.head_after, v.length_items, wrap-lt (r.tail + r.size) r.capacity v.positive)

  -- Push with room left appends.
  clone_push_room :
      (x : T) (r : Ring T)
      → IsValid r
      → r.size < r.capacity
      → clone_loop (set r.items r.head x) r.capacity r.zero_value (suc r.size) r.tail
        ≡ clone r ++ (x ∷ [])
  unfolding clone
  clone_push_room x r v room =
      let items = r.items in
      let last : get_or (set items r.head x) ((r.tail + r.size) % r.capacity) r.zero_value ≡ x =
        rw (sym v.head_after) (get_or-set_self items r.head x r.zero_value (head_in r v)) in
      let others =
        clone_loop-set items r.zero_value x r.capacity r.size r.tail r.head v.tail_in v.size_fits
          (λ k hk e.
            wrap_distinct r.tail k r.size r.capacity v.tail_in hk room (e ∙ v.head_after)) in
      clone_loop-snoc (set items r.head x) r.zero_value r.capacity r.size r.tail v.tail_in room
      ∙ rw (others, last) refl

  -- Push on a full ring: the oldest item is at the head and is replaced by the new one.
  full_head : (r : Ring T) → IsValid r → r.size ≡ r.capacity → r.head ≡ r.tail
  full_head r v full =
      v.head_after
      ∙ ap (λ (n : ℕ). (r.tail + n) % r.capacity) full
      ∙ wrap_full r.tail r.capacity v.tail_in

  clone_push_full :
      (x : T) (r : Ring T) (n : ℕ)
      → IsValid r
      → r.capacity ≡ suc n
      → r.size ≡ suc n
      → clone_loop
          (set r.items r.head x)
          r.capacity
          r.zero_value
          (suc n)
          ((r.tail + 1) % r.capacity)
        ≡ clone_loop r.items r.capacity r.zero_value n ((r.tail + 1) % r.capacity) ++ (x ∷ [])
  clone_push_full x r n v hc hn =
      let items = r.items in
      let next = (r.tail + 1) % r.capacity in
      let next_in = wrap-lt (r.tail + 1) r.capacity v.positive in
      let at_tail = full_head r v (hn ∙ sym hc) in
      let last_at : (next + n) % r.capacity ≡ r.head =
        wrap_step r.tail n r.capacity v.tail_in (omega arith)
        ∙ ap (λ (m : ℕ). (r.tail + m) % r.capacity) (omega arith)
        ∙ wrap_full r.tail r.capacity v.tail_in
        ∙ sym at_tail in
      let last : get_or (set items r.head x) ((next + n) % r.capacity) r.zero_value ≡ x =
        rw last_at (get_or-set_self items r.head x r.zero_value (head_in r v)) in
      let others =
        clone_loop-set items r.zero_value x r.capacity n next r.head next_in (omega arith)
          (λ k hk e.
            wrap_ne r.tail (k + 1) r.capacity v.tail_in (omega arith) (omega arith)
              (sym (wrap_step r.tail k r.capacity v.tail_in (omega arith)) ∙ e ∙ at_tail)) in
      clone_loop-snoc (set items r.head x) r.zero_value r.capacity n next next_in (omega arith)
      ∙ rw (others, last) refl

  -- Push on a valid ring is `offer` on the list that Clone returns: it appends, and drops and
  -- returns the oldest item where the ring is full.
  pub push-offer :
      (x : T) (r : Ring T)
      → IsValid r
      → (clone (push x r).0, (push x r).1) ≡ offer r.capacity x (clone r)
  unfolding push offer oldest clone
  push-offer x r v =
      let len = length-clone_loop r.items r.zero_value r.capacity r.size r.tail in
      elim (Bool-cases (ltb r.size r.capacity)) [
        | inl e ↦
            let bigger : r.size + 1 ≡ suc r.size = omega arith in
            rw (len, e, bigger)
              (ap (λ l. (l, none)) (clone_push_room x r v (ltb→lt r.size r.capacity e)))
        | inr e ↦
            let (n, hc) = positive_suc r.capacity v.positive in
            let full : r.size ≡ r.capacity = ground (arith, v.size_fits) in
            let hn = full ∙ hc in
            let at_tail = full_head r v full in
            let pushed = clone_push_full x r n v hc hn in
            let rest =
              clone_loop r.items r.capacity r.zero_value n ((r.tail + 1) % r.capacity)
              ++ (x ∷ []) in
            rw (len, e, hn)
              (ap (λ l. (l, some (get_or r.items r.head r.zero_value))) pushed
                ∙ ap (λ (h : ℕ). (rest, some (get_or r.items h r.zero_value))) at_tail)
      ]

  -- Push keeps a ring valid.
  pub push-IsValid : (x : T) (r : Ring T) → IsValid r → IsValid (push x r).0
  unfolding push
  push-IsValid x r v = elim (Bool-cases (ltb r.size r.capacity)) [
    | inl e ↦ rw e record {
      length_items = length-set r.items r.head x ∙ v.length_items;
      positive = v.positive;
      tail_in = v.tail_in;
      size_fits = ground arith;
      head_after =
          ap (λ (t : ℕ). (t + 1) % r.capacity) v.head_after
          ∙ wrap_next r.tail r.size r.capacity v.tail_in (ltb→lt r.size r.capacity e);
    }
    | inr e ↦ rw e record {
      length_items = length-set r.items r.head x ∙ v.length_items;
      positive = v.positive;
      tail_in = wrap-lt (r.tail + 1) r.capacity v.positive;
      size_fits = v.size_fits;
      head_after =
          let full : r.size ≡ r.capacity = ground (arith, v.size_fits) in
          ap (λ (t : ℕ). (t + 1) % r.capacity) (full_head r v full)
          ∙ sym (
              wrap_full ((r.tail + 1) % r.capacity) r.capacity
                (wrap-lt (r.tail + 1) r.capacity v.positive))
          ∙ ap (λ (m : ℕ). ((r.tail + 1) % r.capacity + m) % r.capacity) (sym full);
    }
  ]

  -- Pop on a valid ring is `poll` on the list that Clone returns: it takes and returns the oldest
  -- item, if there is one.
  pub pop-poll : (r : Ring T) → IsValid r → (clone (pop r).0, (pop r).1) ≡ poll (clone r)
  unfolding pop poll oldest clone
  pop-poll r v = go r.size refl
    where
      go : (n : ℕ) → r.size ≡ n → (clone (pop r).0, (pop r).1) ≡ poll (clone r)
      go zero e = let none_left : (r.size == 0) ≡ true = ground arith in rw (none_left, e) refl
      go (suc n) e =
          let next = (r.tail + 1) % r.capacity in
          let rest =
            clone_loop-set r.items r.zero_value r.zero_value r.capacity n next r.tail
              (wrap-lt (r.tail + 1) r.capacity v.positive) (omega (arith, v.size_fits))
              (λ k hk d.
                wrap_ne r.tail (k + 1) r.capacity v.tail_in (omega (arith, v.size_fits))
                  (omega arith)
                  (sym (wrap_step r.tail k r.capacity v.tail_in (omega (arith, v.size_fits)))
                    ∙ d)) in
          let some_left : (r.size == 0) ≡ false = ground arith in
          let fewer : r.size - 1 ≡ n = omega arith in
          rw (some_left, fewer, e) (ap (λ l. (l, some (get_or r.items r.tail r.zero_value))) rest)

  -- Pop keeps a ring valid.
  pub pop-IsValid : (r : Ring T) → IsValid r → IsValid (pop r).0
  unfolding pop
  pop-IsValid r v = go r.size refl
    where
      go : (n : ℕ) → r.size ≡ n → IsValid (pop r).0
      go zero e = let none_left : (r.size == 0) ≡ true = ground arith in rw none_left v
      go (suc n) e =
          let some_left : (r.size == 0) ≡ false = ground arith in
          rw some_left record {
            length_items = length-set r.items r.tail r.zero_value ∙ v.length_items;
            positive = v.positive;
            tail_in = wrap-lt (r.tail + 1) r.capacity v.positive;
            size_fits = omega (arith, v.size_fits);
            head_after =
                v.head_after
                ∙ ap (λ (k : ℕ). (r.tail + k) % r.capacity) (omega arith)
                ∙ sym (
                    wrap_step r.tail (r.size - 1) r.capacity v.tail_in
                      (omega (arith, v.size_fits)));
          }

  -- Peek is the item that Pop would remove.
  pub peek-oldest : (r : Ring T) → peek r ≡ oldest (clone r)
  unfolding peek oldest clone
  peek-oldest r = go r.size refl
    where
      go : (n : ℕ) → r.size ≡ n → peek r ≡ oldest (clone r)
      go zero e = rw e refl
      go (suc n) e = let some_left : (r.size == 0) ≡ false = ground arith in rw (some_left, e) refl

  pub clear-IsValid : (r : Ring T) → IsValid r → IsValid (clear r) × (clone (clear r) ≡ [])
  unfolding clear clone
  clear-IsValid r v = (
    record {
      length_items = length-map (λ x. r.zero_value) r.items ∙ v.length_items;
      positive = v.positive;
      tail_in = v.positive;
      size_fits = omega arith;
      head_after = sym (wrap_small (0 + 0) r.capacity v.positive);
    },
    refl,
  )

  -- A new ring is valid and empty.
  unfoldable fresh_ring : T → ℕ → Ring T
  fresh_ring z c = record {
    items = replicate c z;
    head = 0;
    tail = 0;
    size = 0;
    capacity = c;
    zero_value = z;
  }

  pub new_ring-IsValid :
      (z : T) (c : ℕ) → 0 < c → (r : Ring T) × (new_ring z c ≡ some r) × IsValid r × (clone r ≡ [])
  unfolding new_ring clone fresh_ring
  new_ring-IsValid z c h =
      let positive : (c == 0) ≡ false = ground arith in
      (
        fresh_ring z c,
        rw positive refl,
        record {
          length_items = length-replicate c z;
          positive = h;
          tail_in = h;
          size_fits = omega arith;
          head_after = sym (wrap_small (0 + 0) c h);
        },
        refl,
      )
