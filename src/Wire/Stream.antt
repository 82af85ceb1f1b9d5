-- ===== src/Wire/Stream.antt =====
-- Reading and writing through objectReader and objectWriter (astral/depth.go), io.ReadFull on top
-- of them, and the frame guards enterReader and enterWriter.
use astral_go.Base.{
  ℕ, zero, suc, ◌+◌, ◌-◌, min, true, false, Option, none, some, List, [], ◌++◌, ◌==◌, if◌then◌else◌,
  length, take, drop,
}
use mathlib.Core.Option
use astral_go.Wire.Out.{Error, eof, depth_exceeded, Out, ok, fail, Step, unexpected}
use astral_go.Wire.Ledger.{Ledger, fresh, enter, exit, charge, room}

pub record Source : Type 0 where
  pub input : List ℕ
  pub ledger : Option Ledger

pub record Sink : Type 0 where
  pub output : List ℕ
  pub ledger : Option Ledger

abbrev pub Reader : Type 0 → Type 0
Reader = Step Source

abbrev pub Writer : Type 0
Writer = Step Sink (Unit {0})

abbrev pub naked : List ℕ → Source
naked input = record { input = input; ledger = none }

-- A read of a bytes.Reader: at most `k` bytes, and io.EOF at the end.
abbrev underlying_read : ℕ → Source → Out Source (List ℕ)
underlying_read k s =
    if length s.input == 0
    then fail eof 0 s
    else ok (take k s.input) (min k (length s.input)) (record s { input = drop k s.input })

abbrev charged : Ledger → Out Source (List ℕ) → Out Source (List ℕ)
charged b (ok p n s) =
    let (b', fits) = charge n b in
    if fits
    then ok p n (record s { ledger = some b' })
    else fail depth_exceeded n (record s { ledger = some b' })
charged b (fail e n s) = fail e n s

abbrev budget_read : Ledger → ℕ → Source → Out Source (List ℕ)
budget_read b k s =
    if room b == 0 then fail depth_exceeded 0 s else charged b (underlying_read (min k (room b)) s)

-- objectReader.Read, and the Read of a reader that no codec call has wrapped.
unfoldable pub read : ℕ → Reader (List ℕ)
unfolding charge room
read k s = elim s.ledger [ none ↦ underlying_read k s | some b ↦ budget_read b k s ]

-- What io.ReadFull makes of an error: io.EOF after the first byte is io.ErrUnexpectedEOF.
abbrev short : List ℕ → Error → Error
short got e = if length got == 0 then e else unexpected e

-- io.ReadFull: read until `k` bytes are there. A read that does not fail yields a byte at least,
-- so `k` rounds are enough.
unfoldable pub read_loop : ℕ → ℕ → List ℕ → Reader (List ℕ)
unfolding read
read_loop zero k got s = ok got (length got) s
read_loop (suc fuel) k got s = elim (length got == k) [
  | true ↦ ok got (length got) s
  | false ↦ elim (read (k - length got) s) [
    | ok p n s' ↦ read_loop fuel k (got ++ p) s'
    | fail e n s' ↦ fail (short got e) (length got + n) s'
  ]
]

unfoldable pub read_full : ℕ → Reader (List ℕ)
unfolding read_loop
read_full k s = read_loop k k [] s

-- objectWriter.Write, and the Write of a writer that no codec call has wrapped.
unfoldable pub write : List ℕ → Writer
unfolding charge
write p s = elim s.ledger [
  | none ↦ ok tt (length p) (record s { output = s.output ++ p })
  | some b ↦
      let (b', fits) = charge (length p) b in
      if fits
      then ok tt (length p) (record { output = s.output ++ p; ledger = some b' })
      else fail depth_exceeded (length p) (record { output = s.output ++ p; ledger = some b' })
]

-- enterReader, the frame's body, and the deferred exit. The wrapper that is made for a naked
-- stream is gone when the call returns.
module _ {A : Type 0} where
  abbrev leave_reader : Out Source A → Out Source A
  leave_reader (ok a n s) = ok a n (record s { ledger = Option.map exit s.ledger })
  leave_reader (fail e n s) = fail e n (record s { ledger = Option.map exit s.ledger })

  abbrev unwrap_reader : Out Source A → Out Source A
  unwrap_reader (ok a n s) = ok a n (record s { ledger = none })
  unwrap_reader (fail e n s) = fail e n (record s { ledger = none })

  abbrev guarded_reader : Reader A → Ledger → Source → Out Source A
  guarded_reader body b s =
      let (b', entered) = enter b in
      let run : Out Source A = body (record s { ledger = some b' }) in
      if entered
      then leave_reader run
      else fail depth_exceeded 0 (record s { ledger = some (exit b') })

  unfoldable pub framed_read : Reader A → Reader A
  unfolding enter exit
  framed_read body s = elim s.ledger [
    | none ↦ unwrap_reader (guarded_reader body fresh s)
    | some b ↦ guarded_reader body b s
  ]

abbrev leave_writer : Out Sink (Unit {0}) → Out Sink (Unit {0})
leave_writer (ok a n s) = ok a n (record s { ledger = Option.map exit s.ledger })
leave_writer (fail e n s) = fail e n (record s { ledger = Option.map exit s.ledger })

abbrev unwrap_writer : Out Sink (Unit {0}) → Out Sink (Unit {0})
unwrap_writer (ok a n s) = ok a n (record s { ledger = none })
unwrap_writer (fail e n s) = fail e n (record s { ledger = none })

abbrev guarded_writer : Writer → Ledger → Sink → Out Sink (Unit {0})
guarded_writer body b s =
    let (b', entered) = enter b in
    let run : Out Sink (Unit {0}) = body (record s { ledger = some b' }) in
    if entered
    then leave_writer run
    else fail depth_exceeded 0 (record s { ledger = some (exit b') })

unfoldable pub framed_write : Writer → Writer
unfolding enter exit
framed_write body s = elim s.ledger [
  | none ↦ unwrap_writer (guarded_writer body fresh s)
  | some b ↦ guarded_writer body b s
]

-- attachReader and attachWriter, around a codec call: a naked stream gets a fresh ledger for the
-- call, and a wrapped one keeps its own.
unfoldable pub attach_reader : {A : Type 0} → Reader A → Reader A
attach_reader body s = elim s.ledger [
  | none ↦ unwrap_reader (body (record s { ledger = some fresh }))
  | some b ↦ body s
]

unfoldable pub attach_writer : Writer → Writer
attach_writer body s = elim s.ledger [
  | none ↦ unwrap_writer (body (record s { ledger = some fresh }))
  | some b ↦ body s
]
