-- ===== src/Runtime.antt =====
-- Objects whose types are registered at run time: astral/runtime_object.go with the carriers of
-- runtime_slice.go, runtime_array.go and runtime_map.go, and their construction in blueprints.go.
pub mod Value
pub mod Construct
pub mod Write
pub mod Read
pub mod Access
pub mod Coded
pub mod Frames
pub mod RoundTrip
