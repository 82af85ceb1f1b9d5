-- ===== src/Channel.antt =====
-- The package astral/channel: senders and receivers of objects over a stream; and the envelope of
-- one object that astral/object.go encodes.
pub mod Objects
pub mod Binary
pub mod Canonical
pub mod Envelope
