-- ===== src/Streams/Async/Delivery.antt =====
-- What an asynchronous writer (streams/async_writer.go) has accepted and what its flusher delivers.
use astral_go.Base.{
  ℕ, ◌+◌, ◌≡◌, refl, ap, sym, ◌∙◌, ◌⊎◌, inl, inr, Bool, true, false, Option, none, some, List, [],
  ◌∷◌, ◌++◌, append-nil, append_assoc, length, length-append, take, drop, take-append-drop, ltb,
  arith, Bool-cases,
}
use astral_go.Streams.Async.{
  Writer, WriteError, closed_pipe, buffer_overflow, Answer, accepts, breaks, new_async_writer,
  write, close, set_buffer_size, dequeue, flusher_round, Event, writes, closes, resizes, flushes,
  step, run,
}

unfoldable pub concat : List (List ℕ) → List ℕ
concat [] = []
concat (c ∷ cs) = c ++ concat cs

-- The bytes that wait: the rest of the chunk in hand and the chunks behind it.
unfoldable pub waiting : Option (List ℕ) → List (List ℕ) → List ℕ
waiting none cs = concat cs
waiting (some rest) cs = rest ++ concat (drop 1 cs)

module _ {E : Type 0} where
  unfoldable pub pending : Writer E → List ℕ
  pending w = waiting w.chunk w.chunks

  -- What the underlying writer has taken, and then what waits.
  unfoldable pub in_order : Writer E → List ℕ
  in_order w = w.output ++ pending w

  -- The bytes that a step adds to what Write has accepted.
  unfoldable pub accepted_by : Event E → Writer E → List ℕ
  accepted_by (writes p) w = elim (write p w).1 [ inl n ↦ p | inr e ↦ [] ]
  accepted_by closes w = []
  accepted_by (resizes n) w = []
  accepted_by (flushes answer) w = []

  unfoldable pub accepted : List (Event E) → Writer E → List ℕ
  accepted [] w = []
  accepted (e ∷ es) w = accepted_by e w ++ accepted es (step e w)

-- What holds of every writer between two steps: the chunk in hand is the first of the queue, `used`
-- counts the bytes of the queue, and a flusher that has returned has met an error or has found the
-- writer closed and the queue empty.
pub record IsValid {E : Type 0} (w : Writer E) : Type 0 where
  pub in_hand : (w.chunk ≡ none) ⊎ ((c : List ℕ) × (cs : List (List ℕ)) × (w.chunks ≡ c ∷ cs))
  pub used_counts : w.used ≡ length (concat w.chunks)
  pub ended :
      w.done ≡ true
      → ((e : E) × (w.write_err ≡ some e))
        ⊎ ((w.closed ≡ true) × (w.chunk ≡ none) × (w.chunks ≡ []))

concat-snoc : (cs : List (List ℕ)) (p : List ℕ) → concat (cs ++ (p ∷ [])) ≡ concat cs ++ p
unfolding concat
concat-snoc [] p = append-nil p
concat-snoc (c ∷ cs) p = ap (λ l. c ++ l) (concat-snoc cs p) ∙ sym (append_assoc c (concat cs) p)

-- A part of a chunk moves from what waits to the output.
part :
    (n : ℕ) (chunk behind out : List ℕ)
    → (out ++ take n chunk) ++ (drop n chunk ++ behind) ≡ out ++ (chunk ++ behind)
part n chunk behind out =
    append_assoc out (take n chunk) (drop n chunk ++ behind)
    ∙ ap (λ l. out ++ l) (sym (append_assoc (take n chunk) (drop n chunk) behind))
    ∙ ap (λ l. out ++ (l ++ behind)) (take-append-drop n chunk)

-- A chunk in hand is the first of the queue.
still_in_hand :
    {chunk : Option (List ℕ)} {b : List ℕ} {chunks : List (List ℕ)}
    → chunk ≡ some b
    → (chunk ≡ none) ⊎ ((c : List ℕ) × (cs : List (List ℕ)) × (chunks ≡ c ∷ cs))
    → (c : List ℕ) × (cs : List (List ℕ)) × (chunks ≡ c ∷ cs)
still_in_hand e (inl n) = cc
still_in_hand e (inr q) = q

module _ {E : Type 0} where
  -- A writer with these four fields.
  abbrev with_fields : Bool → Bool → Option (List ℕ) → List (List ℕ) → Writer E → Writer E
  with_fields done closed chunk chunks w = record w {
    done = done;
    closed = closed;
    chunk = chunk;
    chunks = chunks;
  }

  round_in_order :
      (answer : Answer E) (done closed : Bool) (chunk : Option (List ℕ)) (chunks : List (List ℕ))
      (w : Writer E)
      → in_order (flusher_round answer (with_fields done closed chunk chunks w))
        ≡ in_order (with_fields done closed chunk chunks w)
  unfolding in_order flusher_round dequeue pending waiting concat
  round_in_order answer true closed chunk chunks w = refl
  round_in_order answer false closed none (c ∷ cs) w = refl
  round_in_order answer false true none [] w = refl
  round_in_order answer false false none [] w = refl
  round_in_order answer false closed (some []) [] w = refl
  round_in_order answer false closed (some []) (c ∷ cs) w = refl
  round_in_order (accepts n) false closed (some (b ∷ bs)) chunks w =
      part n (b ∷ bs) (concat (drop 1 chunks)) w.output
  round_in_order (breaks n e) false closed (some (b ∷ bs)) chunks w =
      part n (b ∷ bs) (concat (drop 1 chunks)) w.output

  round-IsValid :
      (answer : Answer E) (done closed : Bool) (chunk : Option (List ℕ)) (chunks : List (List ℕ))
      (w : Writer E)
      → IsValid (with_fields done closed chunk chunks w)
      → IsValid (flusher_round answer (with_fields done closed chunk chunks w))
  unfolding flusher_round dequeue concat
  round-IsValid answer true closed chunk chunks w v = v
  round-IsValid answer false closed none (c ∷ cs) w v = record {
    in_hand = inr (c, cs, refl);
    used_counts = v.used_counts;
    ended = λ d. cc;
  }
  round-IsValid answer false true none [] w v = record {
    in_hand = inl refl;
    used_counts = v.used_counts;
    ended = λ d. inr (refl, refl, refl);
  }
  round-IsValid answer false false none [] w v = v
  round-IsValid answer false closed (some []) [] w v = record {
    in_hand = inl refl;
    used_counts = v.used_counts;
    ended = λ d. cc;
  }
  round-IsValid answer false closed (some []) (c ∷ cs) w v = record {
    in_hand = inl refl;
    used_counts = omega (arith, v.used_counts, length-append c (concat cs));
    ended = λ d. cc;
  }
  round-IsValid (accepts n) false closed (some (b ∷ bs)) chunks w v = record {
    in_hand = inr (still_in_hand refl v.in_hand);
    used_counts = v.used_counts;
    ended = λ d. cc;
  }
  round-IsValid (breaks n e) false closed (some (b ∷ bs)) chunks w v = record {
    in_hand = inr (still_in_hand refl v.in_hand);
    used_counts = v.used_counts;
    ended = λ d. inl (e, refl);
  }

waiting-snoc :
    (chunk : Option (List ℕ)) (chunks : List (List ℕ)) (p : List ℕ)
    → (chunk ≡ none) ⊎ ((c : List ℕ) × (cs : List (List ℕ)) × (chunks ≡ c ∷ cs))
    → waiting chunk (chunks ++ (p ∷ [])) ≡ waiting chunk chunks ++ p
unfolding waiting concat
waiting-snoc none chunks p h = concat-snoc chunks p
waiting-snoc (some r) chunks p (inl e) = cc
waiting-snoc (some r) chunks p (inr (c, cs, e)) =
    rw e (ap (λ l. r ++ l) (concat-snoc cs p) ∙ sym (append_assoc r (concat cs) p))

-- The three refusals of Write and its success.
pub write-cases :
    {E : Type 0} (p : List ℕ) (w : Writer E)
    → ((e : WriteError E) × (write p w ≡ (w, inr e)))
      ⊎ ((write p w ≡ (
        record w { chunks = w.chunks ++ (p ∷ []); used = w.used + length p },
        inl (length p),
      ))
          × (w.write_err ≡ none)
          × (w.closed ≡ false)
          × (ltb w.buffer_size (w.used + length p) ≡ false))
unfolding write
write-cases {E = E} p w = go w.write_err w.closed
  where
    go :
        (err : Option E) (closed : Bool)
        → let v = record w { write_err = err; closed = closed } in
          ((e : WriteError E) × (write p v ≡ (v, inr e)))
          ⊎ ((write p v ≡ (
            record v { chunks = w.chunks ++ (p ∷ []); used = w.used + length p },
            inl (length p),
          ))
              × (err ≡ none)
              × (closed ≡ false)
              × (ltb w.buffer_size (w.used + length p) ≡ false))
    go (some e) closed = inl (WriteError.write_err e, refl)
    go none true = inl (closed_pipe, refl)
    go none false = elim (Bool-cases (ltb w.buffer_size (w.used + length p))) [
      | inl full ↦ inl (buffer_overflow, rw full refl)
      | inr room ↦ inr (rw room refl, refl, refl, room)
    ]

module _ {E : Type 0} where
  write_lem :
      (p : List ℕ) (w : Writer E)
      → IsValid w
      → IsValid (write p w).0 × (in_order (write p w).0 ≡ in_order w ++ accepted_by (writes p) w)
  unfolding in_order accepted_by pending write
  write_lem p w v = elim (write-cases p w) [
    | inl (e, refused) ↦
        rw (refused, accepted_by) (v, sym (append-nil (w.output ++ waiting w.chunk w.chunks)))
    | inr (taken, sound, opened, room) ↦
        rw (taken, accepted_by)
          (
            record {
              in_hand = elim v.in_hand [
                | inl n ↦ inl n
                | inr (c, cs, q) ↦ inr (c, cs ++ (p ∷ []), ap (λ l. l ++ (p ∷ [])) q)
              ];
              used_counts = omega (
                arith,
                v.used_counts,
                length-append (concat w.chunks) p,
                ap length (concat-snoc w.chunks p),
              );
              ended = λ d. elim (v.ended d) [
                | inl (e, broken) ↦ absurd (ground (arith, sound, broken))
                | inr (closed, empty, drained) ↦ absurd (ground (arith, opened, closed))
              ];
            },
            ap (λ l. w.output ++ l) (waiting-snoc w.chunk w.chunks p v.in_hand)
                ∙ sym (append_assoc w.output (waiting w.chunk w.chunks) p),
          )
  ]

  step_lem :
      (e : Event E) (w : Writer E)
      → IsValid w
      → IsValid (step e w) × (in_order (step e w) ≡ in_order w ++ accepted_by e w)
  unfolding step accepted_by close set_buffer_size in_order pending
  step_lem (writes p) w v = write_lem p w v
  step_lem closes w v = (
    record {
      in_hand = v.in_hand;
      used_counts = v.used_counts;
      ended = λ d. elim (v.ended d) [
        | inl h ↦ inl h
        | inr (closed, empty, drained) ↦ inr (refl, empty, drained)
      ];
    },
    sym (append-nil (in_order w)),
  )
  step_lem (resizes n) w v = (
    record { in_hand = v.in_hand; used_counts = v.used_counts; ended = v.ended },
    sym (append-nil (in_order w)),
  )
  step_lem (flushes answer) w v = (
    round-IsValid answer w.done w.closed w.chunk w.chunks w v,
    round_in_order answer w.done w.closed w.chunk w.chunks w ∙ sym (append-nil (in_order w)),
  )

  pub run_lem :
      (es : List (Event E)) (w : Writer E)
      → IsValid w
      → IsValid (run es w) × (in_order (run es w) ≡ in_order w ++ accepted es w)
  unfolding run accepted
  run_lem [] w v = (v, sym (append-nil (in_order w)))
  run_lem (e ∷ es) w v =
      let (valid, order) = step_lem e w v in
      let (last, orders) = run_lem es (step e w) valid in
      (
        last,
        orders
            ∙ ap (λ l. l ++ accepted es (step e w)) order
            ∙ append_assoc (in_order w) (accepted_by e w) (accepted es (step e w)),
      )

  pub new-IsValid : (n : ℕ) → IsValid (new_async_writer {E = E} n)
  unfolding new_async_writer concat
  new-IsValid n = record { in_hand = inl refl; used_counts = refl; ended = λ d. cc }

  -- Whatever the calls, the rounds of the flusher and the answers of the underlying writer: the
  -- bytes that the underlying writer has taken, followed by those that wait, are the bytes that
  -- Write has accepted, in order.
  pub run-in_order :
      (n : ℕ) (es : List (Event E))
      → (run es (new_async_writer n)).output ++ pending (run es (new_async_writer n))
        ≡ accepted es (new_async_writer n)
  unfolding in_order new_async_writer pending waiting concat
  run-in_order n es = (run_lem es (new_async_writer n) (new-IsValid n)).1

  -- When the flusher has returned and there is no write error, the underlying writer has taken all
  -- bytes that Write accepted, in order.
  pub run_complete :
      (n : ℕ) (es : List (Event E))
      → (run es (new_async_writer n)).done ≡ true
      → (run es (new_async_writer n)).write_err ≡ none
      → (run es (new_async_writer n)).output ≡ accepted es (new_async_writer n)
  unfolding in_order pending waiting concat
  run_complete n es d sound =
      let w = run es (new_async_writer n) in
      let v = (run_lem es (new_async_writer n) (new-IsValid n)).0 in
      elim (v.ended d) [
        | inl (e, broken) ↦ absurd (ground (arith, sound, broken))
        | inr (closed, empty, drained) ↦
            let nothing : pending w ≡ [] = rw (empty, drained) refl in
            sym (append-nil w.output) ∙ ap (λ l. w.output ++ l) (sym nothing) ∙ run-in_order n es
      ]
