-- ===== src/Examples/Streams.antt =====
-- The writers and readers of the package streams on small inputs.
use astral_go.Base.{
  take, if◌then◌else◌, ℕ, ◌+◌, ◌-◌, ◌^◌, arith, ◌≡◌, ◌≤◌, refl, true, none, List, [], ◌∷◌, ◌++◌,
  length,
}
use astral_go.Streams.Async.{
  accepts, new_async_writer, write, close, dequeue, flusher_round, Event, writes, closes, flushes,
  step, run,
}
use astral_go.Streams.Async.Delivery.{concat, pending, accepted, run-in_order, run_complete}
use astral_go.Streams.Async.Bounds.{run-used}
use astral_go.Streams.Dispenser
use astral_go.Streams.Dispenser.Laws as DispenserLaws

-- Three bytes are written, and the underlying writer takes two of them first.
abbrev session : List (Event ℕ)
session =
    writes (1 ∷ 2 ∷ 3 ∷ [])
    ∷ flushes (accepts 2)
    ∷ flushes (accepts 2)
    ∷ closes
    ∷ flushes (accepts 2)
    ∷ flushes (accepts 2)
    ∷ flushes (accepts 2)
    ∷ []

run-in_order_example :
    (run session (new_async_writer 8)).output ++ pending (run session (new_async_writer 8))
    ≡ accepted session (new_async_writer 8)
run-in_order_example = run-in_order 8 session

session_done : (run session (new_async_writer 8)).done ≡ true
unfolding run step new_async_writer write close flusher_round dequeue
session_done = refl

session_sound : (run session (new_async_writer 8)).write_err ≡ none
unfolding run step new_async_writer write close flusher_round dequeue
session_sound = refl

run_complete_example :
    (run session (new_async_writer 8)).output ≡ accepted session (new_async_writer 8)
run_complete_example = run_complete 8 session session_done session_sound

run-used_example :
    (length (concat (run session (new_async_writer 8)).chunks) ≤ 8)
    × ((run session (new_async_writer 8)).used
        ≡ length (concat (run session (new_async_writer 8)).chunks))
run-used_example = run-used 8 session (refl, (refl, (refl, (refl, (refl, (refl, (refl, tt)))))))

abbrev passing : List (Dispenser.Event ℕ)
passing =
    Dispenser.increases 2
    ∷ Dispenser.writes (1 ∷ 2 ∷ 3 ∷ []) 5
    ∷ Dispenser.increases 4
    ∷ Dispenser.rounds (3 ∷ []) 5
    ∷ []

run-allowance_example :
    let d = Dispenser.run passing Dispenser.new_dispenser in
    (length d.output + d.limit ≡ DispenserLaws.allowance passing)
    × (length d.output ≤ DispenserLaws.allowance passing)
    × ((Dispenser.write_loop {E = ℕ} (2 ∷ 1 ∷ 1 ∷ 1 ∷ 1 ∷ []) (4 ∷ 5 ∷ 6 ∷ 7 ∷ []) d).0.output
        ≡ d.output ++ (if d.closed then [] else take d.limit (4 ∷ 5 ∷ 6 ∷ 7 ∷ [])))
unfolding DispenserLaws.allowance
run-allowance_example =
    DispenserLaws.run-allowance passing (2 ∷ 1 ∷ 1 ∷ 1 ∷ 1 ∷ []) (4 ∷ 5 ∷ 6 ∷ 7 ∷ []) (omega arith)
      (omega arith, (omega arith, (omega arith, (omega arith, (omega arith, tt))))) (omega arith)

-- A negative increase, and Write panics.
negative_limit :
    (Dispenser.write {E = ℕ}
      (accepts 1)
      (7 ∷ [])
      (Dispenser.increase (2 ^ 64 - 1) Dispenser.new_dispenser)).1
    ≡ Dispenser.panics
unfolding Dispenser.write Dispenser.increase Dispenser.new_dispenser
negative_limit = refl
