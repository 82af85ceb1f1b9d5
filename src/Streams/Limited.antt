-- ===== src/Streams/Limited.antt =====
-- streams/limited_reader.go, streams/skip.go and the counters of streams/counter.go, over a reader
-- that is a parameter.
pub mod Laws
use astral_go.Base.{
  ℕ, zero, suc, ◌+◌, ◌-◌, ◌%◌, ◌^◌, ◌≤◌, ◌<◌, ◌≡◌, min, Bool, true, false, Option, none, some, List,
  [], ◌∷◌, ◌++◌, length, ltb, ◌==◌, if◌then◌else◌,
}

-- What Read returns: the bytes and the error, if any.
pub record Got (S E : Type 0) : Type 0 where
  pub bytes : List ℕ
  pub error : Option E
  pub after : S

-- An io.Reader in a state: Read for a buffer of a length.
abbrev pub Reading : Type 0 → Type 0 → Type 0
Reading S E = ℕ → S → Got S E

-- What the documentation of io.Reader promises of a reader with input left to give: at most as many
-- bytes as the buffer has, the next ones of the input, and some when there is room and no error.
pub record IsReader {S E : Type 0} (read : Reading S E) (input : S → List ℕ) : Type 0 where
  pub fits : (k : ℕ) (s : S) → length (read k s).bytes ≤ k
  pub next : (k : ℕ) (s : S) → input s ≡ (read k s).bytes ++ input (read k s).after
  pub moves : (k : ℕ) (s : S) → 0 < k → (read k s).error ≡ none → 0 < length (read k s).bytes

-- LimitedReader: the limit and the bytes read so far are uint64.
pub record LimitedReader (S : Type 0) : Type 0 where
  pub reader : S
  pub limit : ℕ
  pub n : ℕ

module _ {S E : Type 0} (read : Reading S E) (eof : E) where
  unfoldable pub limited_len : ℕ → LimitedReader S → ℕ
  limited_len k l = if ltb l.limit ((l.n + k) % 2 ^ 64) then l.limit - l.n else k

  unfoldable pub limited_read : Reading (LimitedReader S) E
  limited_read k l =
      if l.n == l.limit
      then record { bytes = []; error = some eof; after = l }
      else (let got = read (limited_len k l) l.reader in
          record {
            bytes = got.bytes;
            error = got.error;
            after = record l { reader = got.after; n = (l.n + length got.bytes) % 2 ^ 64 };
          })

-- ReadCounter.Read and WriteCounter.Write: the total that the next call starts with.
unfoldable pub counted_read : {S E : Type 0} → Reading S E → Reading (S × ℕ) E
counted_read read k (s, total) =
    let got = read k s in
    record { bytes = got.bytes; error = got.error; after = (got.after, total + length got.bytes) }

module _ {S E : Type 0} (read : Reading S E) where
  -- The loop of Skip: `fuel` rounds, none where they do not suffice.
  unfoldable pub skip_loop : ℕ → ℕ → S → Option (Option E × S)
  skip_loop zero left s = none
  skip_loop (suc fuel) zero s = some (none, s)
  skip_loop (suc fuel) (suc left) s =
      let got = read (min 4096 (suc left)) s in
      elim got.error [
        | some e ↦ some (some e, got.after)
        | none ↦ skip_loop fuel (suc left - length got.bytes) got.after
      ]

  unfoldable pub skip : ℕ → ℕ → S → Option (Option E × S)
  skip fuel n s = skip_loop fuel n s
