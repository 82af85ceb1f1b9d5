-- ===== src/Examples.antt =====
-- Runs of the theorems on small inputs.
pub mod Sig
pub mod Streams
pub mod Routing
pub mod Wire
pub mod Runtime
pub mod Orders
pub mod Bundles
