-- ===== src/Streams/Limited/Laws.antt =====
-- What LimitedReader and Skip (streams/limited_reader.go, streams/skip.go) take from their reader.
use astral_go.Base.{
  ℕ, zero, suc, ◌+◌, ◌-◌, ◌%◌, ◌^◌, ◌≤◌, ◌<◌, ◌≡◌, refl, ap, sym, ◌∙◌, min, ◌⊎◌, inl, inr, Option,
  none, some, List, [], ◌++◌, append_assoc, length, length-append, ◌==◌, arith, Bool-cases,
  Option-cases,
}
use astral_go.Streams.Limited.{
  Reading, IsReader, LimitedReader, limited_len, limited_read, counted_read, skip_loop, skip,
}

module _ {S E : Type 0} (read : Reading S E) (input : S → List ℕ) (law : IsReader read input) where
  -- A read asks the reader for no more than the limit leaves.
  limited_len-le :
      (eof : E) (k : ℕ) (l : LimitedReader S)
      → l.n ≤ l.limit
      → l.limit + k < 2 ^ 64
      → l.n + limited_len read eof k l ≤ l.limit
  unfolding limited_len
  limited_len-le eof k l h small = ground arith

  -- A Read of a LimitedReader that is within its limit, where limit and buffer together are below 2
  -- ^ 64, stays within it, counts exactly the bytes that it gives, and these are the next ones of
  -- the input.
  pub limited_read-within :
      (eof : E) (k : ℕ) (l : LimitedReader S)
      → l.n ≤ l.limit
      → l.limit + k < 2 ^ 64
      → let got = limited_read read eof k l in
        (got.after.n ≡ l.n + length got.bytes)
        × (got.after.n ≤ l.limit)
        × (got.after.limit ≡ l.limit)
        × (input l.reader ≡ got.bytes ++ input got.after.reader)
  unfolding limited_read
  limited_read-within eof k l h small = elim (Bool-cases (l.n == l.limit)) [
    | inl e ↦ rw e (omega arith, h, refl, refl)
    | inr e ↦
        let asked = limited_len read eof k l in
        let within = limited_len-le eof k l h small in
        let fits = law.fits asked l.reader in
        let count : (l.n + length (read asked l.reader).bytes) % 2 ^ 64
            ≡ l.n + length (read asked l.reader).bytes =
          grind arith in
        rw e (count, omega (arith, count, within, fits), refl, law.next asked l.reader)
  ]

  skip_loop_lem :
      (fuel n : ℕ) (s : S)
      → n < fuel
      → (r : Option E × S) × (skip_loop read fuel n s ≡ some r)
        × (r.0 ≡ none → (got : List ℕ) × (length got ≡ n) × (input s ≡ got ++ input r.1))
  unfolding skip_loop
  skip_loop_lem zero n s h = elim h [ ]
  skip_loop_lem (suc fuel) zero s h = ((none, s), refl, λ e. ([], refl, refl))
  skip_loop_lem (suc fuel) (suc left) s h =
      elim (Option-cases (read (min 4096 (suc left)) s).error) [
        | inr (e, broken) ↦
            ((some e, (read (min 4096 (suc left)) s).after), rw (broken, skip_loop) refl, λ d. cc)
        | inl sound ↦
            let got = read (min 4096 (suc left)) s in
            let some_room : 0 < min 4096 (suc left) = omega arith in
            let moved = law.moves (min 4096 (suc left)) s some_room sound in
            let fits = law.fits (min 4096 (suc left)) s in
            let (r, ends, rest) =
              skip_loop_lem fuel (suc left - length got.bytes) got.after
                (omega (arith, moved, h)) in
            (
              r,
              rw (sound, skip_loop) ends,
              λ fine.
                  let (more, len, same) = rest fine in
                  (
                    got.bytes ++ more,
                    omega (arith, length-append got.bytes more, len, fits),
                    law.next (min 4096 (suc left)) s
                        ∙ ap (λ l. got.bytes ++ l) same
                        ∙ sym (append_assoc got.bytes more (input r.1)),
                  ),
            )
      ]

  -- Skip ends within one round more than its count: without an error, and the input has moved by
  -- exactly the count, or with an error of the reader.
  pub skip-ends :
      (fuel n : ℕ) (s : S)
      → n < fuel
      → ((after : S) × (got : List ℕ) × (skip read fuel n s ≡ some (none, after))
          × (length got ≡ n)
          × (input s ≡ got ++ input after))
        ⊎ ((e : E) × (after : S) × (skip read fuel n s ≡ some (some e, after)))
  unfolding skip
  skip-ends fuel n s h = sort_out (skip_loop_lem fuel n s h)
    where
      sort_out :
          (r : Option E × S) × (skip_loop read fuel n s ≡ some r)
            × (r.0 ≡ none → (got : List ℕ) × (length got ≡ n) × (input s ≡ got ++ input r.1))
          → ((after : S) × (got : List ℕ) × (skip read fuel n s ≡ some (none, after))
              × (length got ≡ n)
              × (input s ≡ got ++ input after))
            ⊎ ((e : E) × (after : S) × (skip read fuel n s ≡ some (some e, after)))
      sort_out ((none, after), ends, fine) =
          let (got, len, same) = fine refl in inl (after, got, ends, len, same)
      sort_out ((some e, after), ends, fine) = inr (e, after, ends)

-- The total of a counter after a Read counts the bytes that this Read gave.
pub counted_read-total :
    {S E : Type 0} (read : Reading S E) (k : ℕ) (s : S) (total : ℕ)
    → ((counted_read read k (s, total)).bytes ≡ (read k s).bytes)
      × ((counted_read read k (s, total)).after.1 ≡ total + length (read k s).bytes)
unfolding counted_read
counted_read-total read k s total = (refl, refl)
