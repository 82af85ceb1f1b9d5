-- ===== src/Wire.antt =====
-- The byte streams under every codec of astral/: io.Reader and io.Writer, with the ledger of
-- astral/depth.go where a codec call has wrapped them.
-- An io.Reader is the list of the bytes that it has still to deliver; an io.Writer is the list of
-- the bytes that it has taken. Both succeed as long as there are bytes; other transport errors
-- are not modelled. Every operation returns its value or its error, the count that the source
-- reports, and the stream that it leaves.
pub mod Out
pub mod Ledger
pub mod Stream
pub mod Reads
pub mod Writes
pub mod Takes
