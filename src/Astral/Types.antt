-- ===== src/Astral/Types.antt =====
-- The codecs of the sized types by their Go names: String8 to String64 (astral/string_types.go),
-- Bytes8 to Bytes64 (astral/byte_types.go) and Uint8 to Uint64 (astral/uint_types.go).
use astral_go.Base.{ℕ, List}
use astral_go.Wire.Stream.{Reader, Writer}
use astral_go.Astral.Fixed.{write_fixed, read_fixed}
use astral_go.Astral.Sized.{w8, w16, w32, w64, write_string, write_bytes, read_string, read_bytes}

abbrev pub string8_write_to : List ℕ → Writer
string8_write_to = write_string w8

abbrev pub string8_read_from : Reader (List ℕ)
string8_read_from = read_string w8

abbrev pub string16_write_to : List ℕ → Writer
string16_write_to = write_string w16

abbrev pub string16_read_from : Reader (List ℕ)
string16_read_from = read_string w16

abbrev pub string32_write_to : List ℕ → Writer
string32_write_to = write_string w32

abbrev pub string32_read_from : Reader (List ℕ)
string32_read_from = read_string w32

abbrev pub string64_write_to : List ℕ → Writer
string64_write_to = write_string w64

abbrev pub string64_read_from : Reader (List ℕ)
string64_read_from = read_string w64

abbrev pub bytes8_write_to : List ℕ → Writer
bytes8_write_to = write_bytes w8

abbrev pub bytes8_read_from : Reader (List ℕ)
bytes8_read_from = read_bytes w8

abbrev pub bytes16_write_to : List ℕ → Writer
bytes16_write_to = write_bytes w16

abbrev pub bytes16_read_from : Reader (List ℕ)
bytes16_read_from = read_bytes w16

abbrev pub bytes32_write_to : List ℕ → Writer
bytes32_write_to = write_bytes w32

abbrev pub bytes32_read_from : Reader (List ℕ)
bytes32_read_from = read_bytes w32

abbrev pub bytes64_write_to : List ℕ → Writer
bytes64_write_to = write_bytes w64

abbrev pub bytes64_read_from : Reader (List ℕ)
bytes64_read_from = read_bytes w64

abbrev pub uint8_write_to : ℕ → Writer
uint8_write_to = write_fixed 1

abbrev pub uint8_read_from : Reader ℕ
uint8_read_from = read_fixed 1

abbrev pub uint16_write_to : ℕ → Writer
uint16_write_to = write_fixed 2

abbrev pub uint16_read_from : Reader ℕ
uint16_read_from = read_fixed 2

abbrev pub uint32_write_to : ℕ → Writer
uint32_write_to = write_fixed 4

abbrev pub uint32_read_from : Reader ℕ
uint32_read_from = read_fixed 4

abbrev pub uint64_write_to : ℕ → Writer
uint64_write_to = write_fixed 8

abbrev pub uint64_read_from : Reader ℕ
uint64_read_from = read_fixed 8
