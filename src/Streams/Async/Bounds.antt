-- ===== src/Streams/Async/Bounds.antt =====
-- The bytes that an asynchronous writer (streams/async_writer.go) keeps in memory.
use astral_go.Base.{
  ℕ, ◌≤◌, ◌≡◌, refl, inl, inr, Bool, true, false, Option, none, some, List, [], ◌∷◌, length, arith,
  All,
}
use astral_go.Streams.Async.{
  Writer, Answer, accepts, breaks, new_async_writer, close, dequeue, flusher_round, Event, writes,
  closes, resizes, flushes, step, run,
}
use astral_go.Streams.Async.Delivery.{concat, write-cases, run_lem, new-IsValid}

-- A step other than a change of the buffer's size.
abbrev pub keeps_size : {E : Type 0} → Event E → Bool
keeps_size (resizes n) = false
keeps_size _ = true

module _ {E : Type 0} where
  abbrev with_queue : Bool → Bool → Option (List ℕ) → List (List ℕ) → Writer E → Writer E
  with_queue done closed chunk chunks w = record w {
    done = done;
    closed = closed;
    chunk = chunk;
    chunks = chunks;
  }

  round_used :
      (answer : Answer E) (done closed : Bool) (chunk : Option (List ℕ)) (chunks : List (List ℕ))
      (w : Writer E)
      → ((flusher_round answer (with_queue done closed chunk chunks w)).used ≤ w.used)
        × ((flusher_round answer (with_queue done closed chunk chunks w)).buffer_size
            ≡ w.buffer_size)
  unfolding flusher_round dequeue
  round_used answer true closed chunk chunks w = (omega arith, refl)
  round_used answer false closed none (c ∷ cs) w = (omega arith, refl)
  round_used answer false true none [] w = (omega arith, refl)
  round_used answer false false none [] w = (omega arith, refl)
  round_used answer false closed (some []) [] w = (omega arith, refl)
  round_used answer false closed (some []) (c ∷ cs) w = (omega arith, refl)
  round_used (accepts n) false closed (some (b ∷ bs)) chunks w = (omega arith, refl)
  round_used (breaks n e) false closed (some (b ∷ bs)) chunks w = (omega arith, refl)

  step_used :
      (e : Event E) (w : Writer E)
      → keeps_size e ≡ true
      → w.used ≤ w.buffer_size
      → ((step e w).used ≤ (step e w).buffer_size) × ((step e w).buffer_size ≡ w.buffer_size)
  unfolding step close
  step_used (writes p) w k h = elim (write-cases p w) [
    | inl (e, refused) ↦ rw (refused, step) (h, refl)
    | inr (taken, sound, opened, room) ↦ rw (taken, step) (ground (arith, room), refl)
  ]
  step_used closes w k h = (h, refl)
  step_used (resizes n) w k h = cc
  step_used (flushes answer) w k h =
      let (less, same) = round_used answer w.done w.closed w.chunk w.chunks w in
      (omega (arith, less, same, h), same)

  run_used :
      (es : List (Event E)) (w : Writer E)
      → All (λ e. keeps_size e ≡ true) es
      → w.used ≤ w.buffer_size
      → ((run es w).used ≤ (run es w).buffer_size) × ((run es w).buffer_size ≡ w.buffer_size)
  unfolding run
  run_used [] w k h = (h, refl)
  run_used (e ∷ es) w k h =
      let (less, same) = step_used e w k.0 h in
      let (rest, sames) = run_used es (step e w) k.1 less in (rest, omega (arith, same, sames))

  -- As long as the size of the buffer is not changed, the bytes of the chunks that are queued, as
  -- Write has taken them, never exceed it, and `used` counts them.
  pub run-used :
      (n : ℕ) (es : List (Event E))
      → All (λ e. keeps_size e ≡ true) es
      → let w = run es (new_async_writer n) in
        (length (concat w.chunks) ≤ n) × (w.used ≡ length (concat w.chunks))
  unfolding new_async_writer
  run-used n es k =
      let (less, same) = run_used es (new_async_writer n) k (omega arith) in
      let valid = (run_lem es (new_async_writer n) (new-IsValid n)).0 in
      (omega (arith, less, same, valid.used_counts), valid.used_counts)
